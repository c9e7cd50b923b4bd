-- ===== src/Mem/Heap/Free.antt =====
-- `kfree` on a heap that holds an area of cells.
use ata_driver.Common.{
  ℕ, zero, suc, ◌+◌, ◌*◌, ◌^◌, ◌≤◌, ◌<◌, ◌≡◌, ◌≢◌, ◌⊎◌, inl, inr, refl, sym, ap, ◌∙◌, arith, Bool,
  true, false, some, List, [], ◌∷◌, ◌==◌, if◌then◌else◌, Bool-cases, ==_ne, length,
}
use mathlib.Core.Path.{subst}
use ata_driver.Mem.Frames.{frame_size}
use ata_driver.Mem.Heap.{
  Entry, Heap, entry_size, flag_null, flag_free, user_first_frame, release, kfree_loop, kfree,
}
use ata_driver.Mem.Heap.Seg.{Cell, flag_of, behind, link, Seg}
use ata_driver.Mem.Heap.Release.{
  freed, absorb, settle, Reshaped, release-free, Reshaped-cons, release-Reshaped,
  release_first-Reshaped,
}
use ata_driver.Mem.Heap.Spec.{Area, IsBelow, Holds, clamp_last-bound}

-- The cells `c ∷ cs` at `a` after the space at `ptr`, in one of `cs`, is given back: its cell
-- becomes one with its free neighbours.
unfoldable pub give_after : ℕ → ℕ → Cell → List Cell → List Cell
give_after a ptr c [] = c ∷ []
give_after a ptr c (d ∷ ds) =
    let onward = give_after (behind a c) ptr d ds in
    if behind a c + entry_size == ptr
    then (if d.in_use then settle c (absorb (freed d) ds) else c ∷ d ∷ ds)
    else c ∷ onward

-- What giving back the space at `ptr` makes of the cells from `lo` on; a pointer that is not the
-- space of a cell in use changes nothing.
abbrev pub give : ℕ → ℕ → List Cell → List Cell
give lo ptr [] = []
give lo ptr (c ∷ cs) =
    if lo + entry_size == ptr
    then (if c.in_use then absorb (freed c) cs else c ∷ cs)
    else give_after lo ptr c cs

kfree_loop-end :
    (fuel ptr e : ℕ) (h : Heap) → (h.entry e).next ≡ 0 → kfree_loop (suc fuel) ptr e h ≡ some h
unfolding kfree_loop
kfree_loop-end fuel ptr e h z = rw z refl

kfree_loop-found :
    (fuel ptr e f : ℕ) (h : Heap)
    → (h.entry e).next ≡ f
    → f ≢ 0
    → (f + entry_size == ptr) ≡ true
    → kfree_loop (suc fuel) ptr e h ≡ some (release e f h)
unfolding kfree_loop
kfree_loop-found fuel ptr e f h n ne at = rw (n, ==_ne f 0 ne, at) refl

kfree_loop-onward :
    (fuel ptr e f : ℕ) (h : Heap)
    → (h.entry e).next ≡ f
    → f ≢ 0
    → (f + entry_size == ptr) ≡ false
    → kfree_loop (suc fuel) ptr e h ≡ kfree_loop fuel ptr f h
unfolding kfree_loop
kfree_loop-onward fuel ptr e f h n ne at = rw (n, ==_ne f 0 ne, at) refl

-- The loop at `e` returns, and the cells from `a` on have become `cs`.
abbrev Given : ℕ → ℕ → ℕ → ℕ → ℕ → ℕ → Heap → List Cell → Type 0
Given fuel ptr e prev a hi h cs =
    (h' : Heap) × (kfree_loop fuel ptr e h ≡ some h') × Reshaped prev a hi cs h h'

if-link :
    (x : ℕ) (b : Bool) (cs ds : List Cell)
    → link x cs ≡ x
    → link x ds ≡ x
    → link x (if b then cs else ds) ≡ x
if-link x true cs ds p q = p
if-link x false cs ds p q = q

absorb-link : (x : ℕ) (c : Cell) (cs : List Cell) → link x (absorb c cs) ≡ x
absorb-link x c [] = refl
absorb-link x c (d ∷ ds) = if-link x d.in_use (c ∷ d ∷ ds) _ refl refl

settle-link : (x : ℕ) (c : Cell) (cs : List Cell) → link x (settle c cs) ≡ x
settle-link x c cs = if-link x c.in_use (c ∷ cs) (absorb c cs) refl (absorb-link x c cs)

give_after-link : (a ptr x : ℕ) (c : Cell) (cs : List Cell) → link x (give_after a ptr c cs) ≡ x
unfolding give_after
give_after-link a ptr x c [] = refl
give_after-link a ptr x c (d ∷ ds) =
    if-link x (behind a c + entry_size == ptr) _ _
      (if-link x d.in_use _ (c ∷ d ∷ ds) (settle-link x c (absorb (freed d) ds)) refl) refl

if-same : (cs ds : List Cell) (b : Bool) → b ≡ false → (if b then cs else ds) ≡ ds
if-same cs ds b e = rw e refl

-- The space of the cell `d` behind `c` is given back.
kfree_loop-here :
    (fuel ptr prev a hi : ℕ) (h : Heap) (c d : Cell) (ds : List Cell)
    → Seg h prev a hi (c ∷ d ∷ ds)
    → 0 < a
    → hi < 2 ^ 32
    → (behind a c + entry_size == ptr) ≡ true
    → Given (suc fuel) ptr a prev a hi h (give_after a ptr c (d ∷ ds))
unfolding give_after
kfree_loop-here fuel ptr prev a hi h c d ds s low high here =
    let found =
      kfree_loop-found fuel ptr a (behind a c) h (ap (λ (o : Entry). o.next) s.0) (λ z. omega arith)
        here in
    elim (Bool-cases d.in_use) [
      | inl used ↦
          let e : give_after a ptr c (d ∷ ds) ≡ settle c (absorb (freed d) ds) =
            rw (here, used) refl in
          subst (Given (suc fuel) ptr a prev a hi h) (sym e)
            (release a (behind a c) h, found, release-Reshaped h prev a hi c d ds s used low high)
      | inr free ↦
          let flags : (h.entry (behind a c)).flags ≡ flag_free =
            ap (λ (o : Entry). o.flags) s.1.0 ∙ ap flag_of free in
          let e : give_after a ptr c (d ∷ ds) ≡ c ∷ d ∷ ds = rw here (if-same _ _ d.in_use free) in
          subst (Given (suc fuel) ptr a prev a hi h) (sym e)
            (h, found ∙ ap some (release-free a (behind a c) h flags), (s, λ x out. refl, refl))
    ]

kfree_loop-after :
    (fuel ptr prev a hi : ℕ) (h : Heap) (c : Cell) (cs : List Cell)
    → Seg h prev a hi (c ∷ cs)
    → length cs + 1 ≤ fuel
    → 0 < a
    → hi < 2 ^ 32
    → Given fuel ptr a prev a hi h (give_after a ptr c cs)
unfolding give_after
kfree_loop-after zero ptr prev a hi h c cs s enough low high = absurd (omega arith)
kfree_loop-after (suc fuel) ptr prev a hi h c [] s enough low high =
    (h, kfree_loop-end fuel ptr a h (ap (λ (o : Entry). o.next) s.0), (s, λ x out. refl, refl))
kfree_loop-after (suc fuel) ptr prev a hi h c (d ∷ ds) s enough low high =
    let n : (h.entry a).next ≡ behind a c = ap (λ (o : Entry). o.next) s.0 in
    let ne : behind a c ≢ 0 = λ z. omega arith in
    elim (Bool-cases (behind a c + entry_size == ptr)) [
      | inl here ↦ kfree_loop-here fuel ptr prev a hi h c d ds s low high here
      | inr away ↦
          let (h', r, shape) =
            kfree_loop-after fuel ptr a (behind a c) hi h d ds s.1 (omega arith) (omega arith)
              high in
          let e : give_after a ptr c (d ∷ ds) ≡ c ∷ give_after (behind a c) ptr d ds =
            rw away refl in
          subst (Given (suc fuel) ptr a prev a hi h) (sym e) (
            h',
            kfree_loop-onward fuel ptr a (behind a c) h n ne away ∙ r,
            Reshaped-cons h h' prev a hi c (d ∷ ds) (give_after (behind a c) ptr d ds) s
                (sym (give_after-link (behind a c) ptr (behind a c) d ds)) shape,
          )
    ]

-- The loop at `mem_head`, before the area.
kfree_loop-give :
    (fuel ptr head lo hi : ℕ) (h : Heap) (cs : List Cell)
    → Seg h head lo hi cs
    → (h.entry head).next ≡ link lo cs
    → (head < lo) ⊎ (hi ≤ head)
    → (h.entry head).flags ≡ flag_null
    → length cs + 1 ≤ fuel
    → 0 < lo
    → hi < 2 ^ 32
    → Given fuel ptr head head lo hi h (give lo ptr cs)
kfree_loop-give zero ptr head lo hi h cs s next out null enough low high = absurd (omega arith)
kfree_loop-give (suc fuel) ptr head lo hi h [] s next out null enough low high =
    (h, kfree_loop-end fuel ptr head h next, (s, λ x o. refl, refl))
kfree_loop-give (suc fuel) ptr head lo hi h (d ∷ ds) s next out null enough low high =
    elim (Bool-cases (lo + entry_size == ptr)) [
      | inl here ↦
          let found = kfree_loop-found fuel ptr head lo h next (λ z. omega arith) here in
          elim (Bool-cases d.in_use) [
            | inl used ↦
                let e : give lo ptr (d ∷ ds) ≡ absorb (freed d) ds = rw (here, used) refl in
                subst (Given (suc fuel) ptr head head lo hi h) (sym e) (
                  release head lo h,
                  found,
                  release_first-Reshaped h head lo hi d ds s used out null low high,
                )
            | inr free ↦
                let flags : (h.entry lo).flags ≡ flag_free =
                  ap (λ (o : Entry). o.flags) s.0 ∙ ap flag_of free in
                let e : give lo ptr (d ∷ ds) ≡ d ∷ ds = rw here (if-same _ _ d.in_use free) in
                subst (Given (suc fuel) ptr head head lo hi h) (sym e)
                  (h, found ∙ ap some (release-free head lo h flags), (s, λ x o. refl, refl))
          ]
      | inr away ↦
          let (h', r, shape) =
            kfree_loop-after fuel ptr head lo hi h d ds s (omega arith) low high in
          let e : give lo ptr (d ∷ ds) ≡ give_after lo ptr d ds = rw away refl in
          subst (Given (suc fuel) ptr head head lo hi h) (sym e)
            (h', kfree_loop-onward fuel ptr head lo h next (λ z. omega arith) away ∙ r, shape)
    ]

give-link : (lo ptr : ℕ) (cs : List Cell) → link lo (give lo ptr cs) ≡ link lo cs
give-link lo ptr [] = refl
give-link lo ptr (d ∷ ds) =
    if-link lo (lo + entry_size == ptr) _ _
      (if-link lo d.in_use _ (d ∷ ds) (absorb-link lo (freed d) ds) refl)
      (give_after-link lo ptr lo d ds)

give_after-null : (a : ℕ) (c : Cell) (cs : List Cell) → give_after a 0 c cs ≡ c ∷ cs
unfolding give_after
give_after-null a c [] = refl
give_after-null a c (d ∷ ds) =
    rw (==_ne (behind a c + entry_size) 0 (λ z. omega arith))
      (ap (λ l. c ∷ l) (give_after-null (behind a c) d ds))

give-null : (lo : ℕ) (cs : List Cell) → give lo 0 cs ≡ cs
give-null lo [] = refl
give-null lo (c ∷ cs) = rw (==_ne (lo + entry_size) 0 (λ z. omega arith)) (give_after-null lo c cs)

kfree-null : (fuel head : ℕ) (h : Heap) → kfree fuel head 0 h ≡ some h
unfolding kfree
kfree-null fuel head h = refl

kfree-kfree_loop :
    (fuel head ptr : ℕ) (h : Heap) → ptr ≢ 0 → kfree fuel head ptr h ≡ kfree_loop fuel ptr head h
unfolding kfree
kfree-kfree_loop fuel head ptr h ne = rw (==_ne ptr 0 ne) refl

-- On a heap that holds an area of cells, a call of `kfree` returns within one round more than there
-- are cells, and the heap holds the area with the cells that `give` says: the cell in use whose
-- space stands at `ptr` is free and one with its free neighbours; any other pointer, NULL and the
-- space of a free cell too, changes no cell.
pub kfree-give :
    (fuel total limit head_addr ptr : ℕ) (area : Area) (h : Heap)
    → Holds total limit head_addr area h
    → length area.cells + 1 ≤ fuel
    → (h' : Heap) × (kfree fuel head_addr ptr h ≡ some h')
      × Holds total limit head_addr (record area { cells = give area.lo ptr area.cells }) h'
kfree-give fuel total limit head_addr ptr area h v enough = elim (Bool-cases (ptr == 0)) [
  | inl null ↦
      let e : ptr ≡ 0 = ground (arith, null) in
      rw (e, give-null area.lo area.cells) (h, kfree-null fuel head_addr h, v)
  | inr ne ↦
      let top : limit ≤ user_first_frame = omega (arith, v.frames.inside, clamp_last-bound total) in
      let hi = area.top * frame_size in
      let out : (head_addr < area.lo) ⊎ (hi ≤ head_addr) = elim v.head_out [
        | inl low ↦ inl low
        | inr up ↦ inr (omega (arith, v.frames.below, top))
      ] in
      let (h', r, (seg, same, bm)) =
        kfree_loop-give fuel ptr head_addr area.lo hi h area.cells v.seg v.head_next out
          v.head_flags enough v.low (omega (arith, v.frames.below, top)) in
      (
        h',
        kfree-kfree_loop fuel head_addr ptr h (ground (arith, ne)) ∙ r,
        record {
          low = v.low;
          head_out = v.head_out;
          head_flags = ap (λ (o : Entry). o.flags) (same head_addr out) ∙ v.head_flags;
          head_next =
              ap (λ (o : Entry). o.next) (same head_addr out)
              ∙ v.head_next
              ∙ sym (give-link area.lo ptr area.cells);
          seg = seg;
          frames = subst (λ b. IsBelow total limit area.top b) (sym bm) v.frames;
        },
      )
]
