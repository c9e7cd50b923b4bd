-- ===== src/Mem/Heap/Carve.antt =====
-- Taking a cell of a contiguous heap: the list after it is the one that `cut` says.
use ata_driver.Common.{
  ℕ, suc, ◌+◌, ◌-◌, ◌*◌, ◌^◌, ◌≤◌, ◌<◌, ◌≡◌, ◌≢◌, ◌⊎◌, inl, inr, refl, ap, ◌∙◌, arith, true, false,
  not, ◌&&◌, some, List, [], ◌∷◌, ◌==◌, leb, if◌then◌else◌, Bool-cases, ==_ne, ==_refl,
}
use ata_driver.Mem.Heap.{
  Entry, Heap, entry_size, flag_free, flag_used, put_flags, split, kalloc_loop,
}
use ata_driver.Mem.Heap.Seg.{
  Cell, behind, link, entry_of, Seg, SameOutside, Seg-le, Seg-same, link-cases, cut, split-entry,
}

-- What `kalloc` does with the free entry that it takes.
pub carve : ℕ → ℕ → Heap → Heap
carve units e h =
    if leb (h.entry e).size (units + 1) then put_flags e flag_used h else split e units h

pub kalloc_loop-carve :
    (fuel total units e : ℕ) (h : Heap)
    → units + 1 < 2 ^ 32
    → (h.entry e).flags ≡ flag_free
    → units ≤ (h.entry e).size
    → kalloc_loop (suc fuel) total units e h ≡ some (e + entry_size, carve units e h)
unfolding kalloc_loop carve
kalloc_loop-carve fuel total units e h small free enough = ground arith

split-bitmap : (e units : ℕ) (h : Heap) → (split e units h).bitmap ≡ h.bitmap
unfolding split
split-bitmap e units h = ground arith

-- A segment whose first cell gets another predecessor.
pub Seg-prev :
    (h h' : Heap) (prev prev' a hi : ℕ) (cs : List Cell)
    → Seg h prev a hi cs
    → ((x : ℕ) → a < x → x < hi → h'.entry x ≡ h.entry x)
    → (a < hi → h'.entry a ≡ (let o = h.entry a in record o { prev = prev' }))
    → Seg h' prev' a hi cs
Seg-prev h h' prev prev' a hi [] s same first = s
Seg-prev h h' prev prev' a hi (c ∷ cs) s same first =
    let top = Seg-le h a (behind a c) hi cs s.1 in
    (
      first (omega arith) ∙ ap (λ (o : Entry). record o { prev = prev' }) s.0,
      Seg-same h h' a (behind a c) hi cs s.1 (λ x p q. same x (omega arith) q),
    )

exact-entry :
    (h : Heap) (prev a next : ℕ) (c : Cell)
    → h.entry a ≡ entry_of prev c next
    → (put_flags a flag_used h).entry a ≡ entry_of prev (record c { in_use = true }) next
exact-entry h prev a next c e = ground (arith, e)

pub put_flags-other : (h : Heap) (a v x : ℕ) → x ≢ a → (put_flags a v h).entry x ≡ h.entry x
put_flags-other h a v x ne = ground arith

leb-false : (a b : ℕ) → leb a b ≡ false → b < a
leb-false a b e = ground arith

pub link-first :
    (h : Heap) (prev a hi : ℕ) (cs : List Cell) → Seg h prev a hi cs → a < hi → link a cs ≡ a
link-first h prev a hi [] s q = absurd (omega arith)
link-first h prev a hi (c ∷ cs) s q = refl

pub link-inside :
    (h : Heap) (prev a hi : ℕ) (cs : List Cell)
    → Seg h prev a hi cs
    → 0 < a
    → link a cs ≡ a
    → a < hi
link-inside h prev a hi [] s p e = absurd (omega arith)
link-inside h prev a hi (c ∷ cs) s p e = omega (arith, Seg-le h a (behind a c) hi cs s.1)

exact-Seg :
    (h : Heap) (prev a hi : ℕ) (c : Cell) (cs : List Cell)
    → Seg h prev a hi (c ∷ cs)
    → Seg (put_flags a flag_used h) prev a hi (record c { in_use = true } ∷ cs)
exact-Seg h prev a hi c cs s = (
  exact-entry h prev a (link (behind a c) cs) c s.0,
  Seg-same h (put_flags a flag_used h) a (behind a c) hi cs s.1
      (λ x p q. put_flags-other h a flag_used x (λ e. omega arith)),
)

-- A cell `c` at `a` that is larger than the request, and the cells behind it.
module _ (h : Heap) (prev a hi units : ℕ) (c : Cell) (cs : List Cell) (s : Seg h prev a hi (c ∷ cs))
    (large : units + 1 < c.size) (low : 0 < a) (high : hi < 2 ^ 32) where
  n : ℕ
  n = a + (units + 1) * entry_size

  next : ℕ
  next = link (behind a c) cs

  top : behind a c ≤ hi
  top = Seg-le h a (behind a c) hi cs s.1

  next_apart : (next ≢ a) × (next ≢ a + (units + 1) * entry_size)
  unfolding next
  next_apart = elim (link-cases (behind a c) cs) [
    | inl none_left ↦ ((λ e. omega arith), (λ e. omega arith))
    | inr there ↦ ((λ e. omega arith), (λ e. omega arith))
  ]

  split_at :
      (x : ℕ)
      → (split a units h).entry x ≡ (
          if x == a
          then record { next = n; prev = prev; size = units; flags = flag_used }
          else (if x == n
              then record { next = next; prev = a; size = c.size - units - 1; flags = flag_free }
              else (if not (next == 0) && x == next
                  then (let o = h.entry x in record o { prev = n })
                  else h.entry x)))
  unfolding n next
  split_at x =
      split-entry a units h (entry_of prev c (link (behind a c) cs)) x s.0 (omega (arith, top))
        (omega (arith, top)) (omega arith) next_apart.0 next_apart.1

  rest_behind : behind n (record { size = c.size - units - 1; in_use = false }) ≡ behind a c
  unfolding n
  rest_behind = omega arith

  next-other : (x : ℕ) → x ≢ behind a c → (not (next == 0) && x == next) ≡ false
  unfolding next
  next-other x ne = elim (link-cases (behind a c) cs) [
    | inl none_left ↦ rw none_left refl
    | inr there ↦ rw (there, ==_ne x (behind a c) ne, ==_ne (behind a c) 0 (λ e. omega arith)) refl
  ]

  next-here : behind a c < hi → (not (next == 0) && behind a c == next) ≡ true
  unfolding next
  next-here q =
      rw
        (
          link-first h a (behind a c) hi cs s.1 q,
          ==_refl (behind a c),
          ==_ne (behind a c) 0 (λ e. omega arith),
        )
        refl

  tail_kept : (x : ℕ) → behind a c < x → x < hi → (split a units h).entry x ≡ h.entry x
  tail_kept x p q =
      let e₁ = ==_ne x a (λ e. omega arith) in
      let e₂ = ==_ne x n (unfold n in (λ e. omega arith)) in
      split_at x ∙ rw (e₁, e₂, next-other x (λ e. omega arith)) refl

  tail_first :
      behind a c < hi
      → (split a units h).entry (behind a c)
        ≡ (let o = h.entry (behind a c) in record o { prev = n })
  tail_first q =
      let e₁ = ==_ne (behind a c) a (λ e. omega arith) in
      let e₂ = ==_ne (behind a c) n (unfold n in (λ e. omega arith)) in
      split_at (behind a c) ∙ rw (e₁, e₂, next-here q) refl

  split-Seg : Seg (split a units h) prev a hi (
      record { size = units; in_use = true }
      ∷ record { size = c.size - units - 1; in_use = false }
      ∷ cs)
  unfolding n next
  split-Seg = (
    split_at a ∙ rw (==_refl a) refl,
    (
      split_at n ∙ rw (==_refl n, ==_ne n a (λ e. omega arith), rest_behind) refl,
      rw rest_behind (Seg-prev h (split a units h) a n (behind a c) hi cs s.1 tail_kept tail_first),
    ),
  )

  next-outside : (x : ℕ) → (x < a) ⊎ (hi ≤ x) → (not (next == 0) && x == next) ≡ false
  unfolding next
  next-outside x out = elim (link-cases (behind a c) cs) [
    | inl none_left ↦ rw none_left refl
    | inr there ↦
        let inside = link-inside h a (behind a c) hi cs s.1 (omega arith) there in
        rw
          (
            there,
            ==_ne x (behind a c) (λ e. omega (arith, inside)),
            ==_ne (behind a c) 0 (λ e. omega arith),
          )
          refl
  ]

  split-SameOutside : SameOutside a hi h (split a units h)
  split-SameOutside x out =
      let e₁ = ==_ne x a (λ e. omega (arith, top)) in
      let e₂ = ==_ne x n (unfold n in (λ e. omega (arith, top))) in
      split_at x ∙ rw (e₁, e₂, next-outside x out) refl

-- A free cell that is large enough is taken as `cut` says, and nothing outside of the area changes.
pub carve-Seg :
    (h : Heap) (prev a hi units : ℕ) (c : Cell) (cs : List Cell)
    → Seg h prev a hi (c ∷ cs)
    → 0 < a
    → hi < 2 ^ 32
    → Seg (carve units a h) prev a hi (cut units c cs)
      × SameOutside a hi h (carve units a h)
      × ((carve units a h).bitmap ≡ h.bitmap)
unfolding carve
carve-Seg h prev a hi units c cs s low high =
    let size : (h.entry a).size ≡ c.size = ap (λ (o : Entry). o.size) s.0 in
    let top = Seg-le h a (behind a c) hi cs s.1 in
    elim (Bool-cases (leb c.size (units + 1))) [
      | inl small ↦
          let here : leb (h.entry a).size (units + 1) ≡ true = rw size small in
          rw (here, small)
            (
              exact-Seg h prev a hi c cs s,
              λ x out. put_flags-other h a flag_used x (λ e. omega (arith, top)),
              refl,
            )
      | inr big ↦
          let large : units + 1 < c.size = leb-false c.size (units + 1) big in
          let here : leb (h.entry a).size (units + 1) ≡ false = rw size big in
          rw (here, big)
            (
              split-Seg h prev a hi units c cs s large low high,
              split-SameOutside h prev a hi units c cs s large low high,
              split-bitmap a units h,
            )
    ]
