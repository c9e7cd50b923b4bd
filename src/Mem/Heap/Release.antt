-- ===== src/Mem/Heap/Release.antt =====
-- What `kfree` does at the entry it finds, on a contiguous heap.
use ata_driver.Common.{
  ℕ, ◌^◌, ◌≤◌, ◌<◌, ◌≡◌, ◌≢◌, ◌⊎◌, inl, inr, refl, sym, ap, ◌∙◌, arith, Bool, true, false, List, [],
  ◌∷◌, if◌then◌else◌, Bool-cases, ==_ne, ==_refl,
}
use mathlib.Core.Path.{subst}
use ata_driver.Mem.Heap.{
  Entry, Heap, flag_null, flag_free, flag_used, put_flags, join, join_next, join_prev, release,
}
use ata_driver.Mem.Heap.Seg.{
  Cell, flag_of, behind, link, entry_of, Seg, SameOutside, Seg-le, Seg-same,
}
use ata_driver.Mem.Heap.Carve.{put_flags-other}
use ata_driver.Mem.Heap.Join.{joined, join-Seg, join-SameOutside, join-bitmap}

abbrev pub freed : Cell → Cell
freed c = record c { in_use = false }

-- A free cell takes up the cell behind it, if that is free as well.
abbrev pub absorb : Cell → List Cell → List Cell
absorb c [] = c ∷ []
absorb c (d ∷ ds) = if d.in_use then c ∷ d ∷ ds else joined c d ∷ ds

-- The cell `c` before cells of which the first has just become free.
abbrev pub settle : Cell → List Cell → List Cell
settle c cs = if c.in_use then c ∷ cs else absorb c cs

-- The result is the free cell `f` and what is behind it.
abbrev pub FreeFirst : List Cell → Type 0
FreeFirst cs = (r : Cell) × (rs : List Cell) × (cs ≡ r ∷ rs) × (r.in_use ≡ false)

absorb-FreeFirst : (c : Cell) (cs : List Cell) → c.in_use ≡ false → FreeFirst (absorb c cs)
absorb-FreeFirst c [] e = (c, [], refl, e)
absorb-FreeFirst c (d ∷ ds) e = elim (Bool-cases d.in_use) [
  | inl used ↦ (c, d ∷ ds, rw used refl, e)
  | inr free ↦ (joined c d, ds, rw free refl, e)
]

-- The area is kept but for its cells.
abbrev pub Reshaped : ℕ → ℕ → ℕ → List Cell → Heap → Heap → Type 0
Reshaped prev a hi cs h h' = Seg h' prev a hi cs × SameOutside a hi h h' × (h'.bitmap ≡ h.bitmap)

pub release-used :
    (e f : ℕ) (h : Heap)
    → (h.entry f).flags ≡ flag_used
    → release e f h ≡ join_prev e f (join_next f (put_flags f flag_free h))
unfolding release
release-used e f h used = rw used refl

pub release-free : (e f : ℕ) (h : Heap) → (h.entry f).flags ≡ flag_free → release e f h ≡ h
unfolding release
release-free e f h free = rw free refl

mark-Reshaped :
    (h : Heap) (prev f hi : ℕ) (d : Cell) (ds : List Cell)
    → Seg h prev f hi (d ∷ ds)
    → Reshaped prev f hi (freed d ∷ ds) h (put_flags f flag_free h)
mark-Reshaped h prev f hi d ds s =
    let top = Seg-le h f (behind f d) hi ds s.1 in
    (
      (
        rw (==_refl f) (ap (λ (o : Entry). record o { flags = flag_free }) s.0),
        Seg-same h (put_flags f flag_free h) f (behind f d) hi ds s.1
            (λ x p q. put_flags-other h f flag_free x (λ e. omega arith)),
      ),
      λ x out. put_flags-other h f flag_free x (λ e. omega (arith, top)),
      refl,
    )

join_next-none : (f : ℕ) (h : Heap) → (h.entry f).next ≡ 0 → join_next f h ≡ h
unfolding join_next
join_next-none f h e = rw e refl

join_next-at :
    (f a : ℕ) (h : Heap) (used : Bool)
    → (h.entry f).next ≡ a
    → a ≢ 0
    → (h.entry a).flags ≡ flag_of used
    → join_next f h ≡ (if used then h else join f a h)
unfolding join_next
join_next-at f a h true e ne g = rw (e, ==_ne a 0 ne, g) refl
join_next-at f a h false e ne g = rw (e, ==_ne a 0 ne, g) refl

join_next-Reshaped :
    (h : Heap) (prev f hi : ℕ) (d : Cell) (ds : List Cell)
    → Seg h prev f hi (d ∷ ds)
    → 0 < f
    → hi < 2 ^ 32
    → Reshaped prev f hi (absorb d ds) h (join_next f h)
join_next-Reshaped h prev f hi d [] s low high =
    let e = join_next-none f h (ap (λ (o : Entry). o.next) s.0) in rw e (s, λ x out. refl, refl)
join_next-Reshaped h prev f hi d (d' ∷ ds) s low high =
    let e =
      join_next-at f (behind f d) h d'.in_use (ap (λ (o : Entry). o.next) s.0) (λ z. omega arith)
        (ap (λ (o : Entry). o.flags) s.1.0) in
    rw e (either d'.in_use)
  where
    either :
        (b : Bool)
        → Reshaped prev f hi
            (if b then d ∷ d' ∷ ds else joined d d' ∷ ds)
            h
            (if b then h else join f (behind f d) h)
    either true = (s, λ x out. refl, refl)
    either false = (
      join-Seg h prev f hi d d' ds s low high,
      join-SameOutside h prev f hi d d' ds s low high,
      join-bitmap f (behind f d) h,
    )

Reshaped-after :
    (prev a hi : ℕ) (cs : List Cell) (h h' h'' : Heap)
    → SameOutside a hi h h'
    → h'.bitmap ≡ h.bitmap
    → Reshaped prev a hi cs h' h''
    → Reshaped prev a hi cs h h''
Reshaped-after prev a hi cs h h' h'' same bm q = (q.0, λ x out. q.1 x out ∙ same x out, q.2 ∙ bm)

-- A change of the cells behind `c`.
pub Reshaped-cons :
    (h h' : Heap) (prev a hi : ℕ) (c : Cell) (cs cs' : List Cell)
    → Seg h prev a hi (c ∷ cs)
    → link (behind a c) cs ≡ link (behind a c) cs'
    → Reshaped a (behind a c) hi cs' h h'
    → Reshaped prev a hi (c ∷ cs') h h'
Reshaped-cons h h' prev a hi c cs cs' s e (seg, same, bm) = (
  (same a (inl (omega arith)) ∙ s.0 ∙ ap (entry_of prev c) e, seg),
  λ x out. same x (elim out [ inl low ↦ inl (omega arith) | inr up ↦ inr up ]),
  bm,
)

join_prev-at :
    (a f : ℕ) (h : Heap) (used : Bool)
    → (h.entry a).flags ≡ flag_of used
    → join_prev a f h ≡ (if used then h else join a f h)
unfolding join_prev
join_prev-at a f h true g = rw g refl
join_prev-at a f h false g = rw g refl

join_prev-Reshaped :
    (h : Heap) (prev a hi : ℕ) (c r : Cell) (rs : List Cell)
    → Seg h prev a hi (c ∷ r ∷ rs)
    → r.in_use ≡ false
    → 0 < a
    → hi < 2 ^ 32
    → Reshaped prev a hi (settle c (r ∷ rs)) h (join_prev a (behind a c) h)
join_prev-Reshaped h prev a hi c r rs s free low high =
    let e = join_prev-at a (behind a c) h c.in_use (ap (λ (o : Entry). o.flags) s.0) in
    rw e (either c.in_use r.in_use free)
  where
    either :
        (b b' : Bool)
        → b' ≡ false
        → Reshaped prev a hi
            (if b then c ∷ r ∷ rs else (if b' then c ∷ r ∷ rs else joined c r ∷ rs))
            h
            (if b then h else join a (behind a c) h)
    either true b' e = (s, λ x out. refl, refl)
    either false b' e = rw e (
      join-Seg h prev a hi c r rs s low high,
      join-SameOutside h prev a hi c r rs s low high,
      join-bitmap a (behind a c) h,
    )

FreeFirst-link : (a : ℕ) (cs : List Cell) → FreeFirst cs → link a cs ≡ a
FreeFirst-link a cs (r, rs, e, free) = ap (link a) e

-- Releasing the cell `d` behind `c`.
pub release-Reshaped :
    (h : Heap) (prev a hi : ℕ) (c d : Cell) (ds : List Cell)
    → Seg h prev a hi (c ∷ d ∷ ds)
    → d.in_use ≡ true
    → 0 < a
    → hi < 2 ^ 32
    → Reshaped prev a hi (settle c (absorb (freed d) ds)) h (release a (behind a c) h)
release-Reshaped h prev a hi c d ds s used low high =
    let f = behind a c in
    let h₁ = put_flags f flag_free h in
    let marked = mark-Reshaped h a f hi d ds s.1 in
    let next = join_next-Reshaped h₁ a f hi (freed d) ds marked.0 (omega arith) high in
    let shape = absorb-FreeFirst (freed d) ds refl in
    let whole =
      Reshaped-cons h (join_next f h₁) prev a hi c (d ∷ ds) (absorb (freed d) ds) s
        (sym (FreeFirst-link f (absorb (freed d) ds) shape))
        (Reshaped-after a f hi (absorb (freed d) ds) h h₁ (join_next f h₁) marked.1 marked.2
          next) in
    let flags : (h.entry f).flags ≡ flag_used =
      ap (λ (o : Entry). o.flags) s.1.0 ∙ ap flag_of used in
    rw (release-used a f h flags) (last h (join_next f h₁) (absorb (freed d) ds) shape whole)
  where
    last :
        (h h₂ : Heap) (cs : List Cell)
        → FreeFirst cs
        → Reshaped prev a hi (c ∷ cs) h h₂
        → Reshaped prev a hi (settle c cs) h (join_prev a (behind a c) h₂)
    last h h₂ cs (r, rs, e, free) whole =
        subst (λ l. Reshaped prev a hi (settle c l) h (join_prev a (behind a c) h₂)) (sym e)
          (let w : Reshaped prev a hi (c ∷ r ∷ rs) h h₂ =
              subst (λ l. Reshaped prev a hi (c ∷ l) h h₂) e whole in
            Reshaped-after prev a hi (settle c (r ∷ rs)) h h₂ (join_prev a (behind a c) h₂) w.1 w.2
              (join_prev-Reshaped h₂ prev a hi c r rs w.0 free low high))

join_prev-null : (e f : ℕ) (h : Heap) → (h.entry e).flags ≡ flag_null → join_prev e f h ≡ h
unfolding join_prev
join_prev-null e f h null = rw null refl

-- Releasing the first cell, behind an entry that is not free.
pub release_first-Reshaped :
    (h : Heap) (head lo hi : ℕ) (d : Cell) (ds : List Cell)
    → Seg h head lo hi (d ∷ ds)
    → d.in_use ≡ true
    → (head < lo) ⊎ (hi ≤ head)
    → (h.entry head).flags ≡ flag_null
    → 0 < lo
    → hi < 2 ^ 32
    → Reshaped head lo hi (absorb (freed d) ds) h (release head lo h)
release_first-Reshaped h head lo hi d ds s used out null low high =
    let h₁ = put_flags lo flag_free h in
    let marked = mark-Reshaped h head lo hi d ds s in
    let next = join_next-Reshaped h₁ head lo hi (freed d) ds marked.0 low high in
    let flags : (h.entry lo).flags ≡ flag_used =
      ap (λ (o : Entry). o.flags) s.0 ∙ ap flag_of used in
    let whole =
      Reshaped-after head lo hi (absorb (freed d) ds) h h₁ (join_next lo h₁) marked.1 marked.2
        next in
    let stays : ((join_next lo h₁).entry head).flags ≡ flag_null =
      ap (λ (o : Entry). o.flags) (whole.1 head out) ∙ null in
    let same : join_prev head lo (join_next lo h₁) ≡ join_next lo h₁ =
      join_prev-null head lo (join_next lo h₁) stays in
    rw (release-used head lo h flags, same) whole
