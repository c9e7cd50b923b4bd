-- ===== src/Mem/Heap/Walk.antt =====
-- The loop of `kalloc` along the cells of a contiguous heap.
use ata_driver.Common.{
  ℕ, zero, suc, ◌+◌, ◌*◌, ◌^◌, ◌≤◌, ◌<◌, ◌≡◌, ◌⊎◌, inl, inr, refl, sym, ap, ◌∙◌, arith, Bool, true,
  false, not, ◌&&◌, none, some, List, [], ◌∷◌, ◌==◌, leb, Bool-cases, length,
}
use ata_driver.Mem.Heap.{Entry, Heap, entry_size, flag_free, kalloc_loop}
use ata_driver.Mem.Heap.Grant.{fits?, kalloc_loop-onward}
use ata_driver.Mem.Heap.Seg.{
  Cell, flag_of, behind, link, entry_of, Seg, SameOutside, Seg-le, cut, fits, alloc,
}
use ata_driver.Mem.Heap.Carve.{carve, kalloc_loop-carve, carve-Seg}

-- The first cell that fits, with what lies before it and what the cells become.
pub data Found (units : ℕ) : List Cell → ℕ → List Cell → Type 0 where
  here : (c : Cell) (cs : List Cell) → fits units c ≡ true → Found units (c ∷ cs) 0 (cut units c cs)
  later :
      (c : Cell) (cs cs' : List Cell) (before : ℕ)
      → fits units c ≡ false
      → Found units cs before cs'
      → Found units (c ∷ cs) (c.size + 1 + before) (c ∷ cs')

abbrev pub Full : ℕ → List Cell → Type 0
Full units [] = Unit {0}
Full units (c ∷ cs) = (fits units c ≡ false) × Full units cs

pub alloc-cases :
    (units : ℕ) (cs : List Cell)
    → ((before : ℕ) × (cs' : List Cell) × (alloc units cs ≡ some (before, cs'))
        × Found units cs before cs')
      ⊎ ((alloc units cs ≡ none) × Full units cs)
unfolding alloc
alloc-cases units [] = inr (refl, tt)
alloc-cases units (c ∷ cs) = elim (Bool-cases (fits units c)) [
  | inl yes_fits ↦ inl (0, cut units c cs, rw yes_fits refl, here c cs yes_fits)
  | inr no_fit ↦ elim (alloc-cases units cs) [
    | inl (before, cs', e, found) ↦
        inl (c.size + 1 + before, c ∷ cs', rw (no_fit, e) refl, later c cs cs' before no_fit found)
    | inr (e, full) ↦ inr (rw (no_fit, e) refl, (no_fit, full))
  ]
]

pub cut-link : (units a : ℕ) (c : Cell) (cs : List Cell) → link a (cut units c cs) ≡ a
cut-link units a c cs = elim (Bool-cases (leb c.size (units + 1))) [
  | inl small ↦ rw small refl
  | inr big ↦ rw big refl
]

pub Found-link :
    {units a before : ℕ} {cs cs' : List Cell} → Found units cs before cs' → link a cs ≡ a
Found-link (here c cs f) = refl
Found-link (later c cs cs' before f found) = refl

pub Found-link-after :
    {units a before : ℕ} {cs cs' : List Cell} → Found units cs before cs' → link a cs' ≡ a
Found-link-after (here c cs f) = cut-link _ _ c cs
Found-link-after (later c cs cs' before f found) = refl

pub fits?-cell :
    (h : Heap) (units prev a next : ℕ) (c : Cell)
    → h.entry a ≡ entry_of prev c next
    → fits? units (h.entry a) ≡ fits units c
fits?-cell h units prev a next c e = rw e (both c.in_use)
  where
    both : (b : Bool) → (flag_of b == flag_free && leb units c.size) ≡ (not b && leb units c.size)
    both true = refl
    both false = refl

-- The loop at `a` returns the space behind the entry of the cell that is taken.
abbrev pub Taken : ℕ → ℕ → ℕ → ℕ → ℕ → ℕ → ℕ → List Cell → Heap → Type 0
Taken fuel total units prev a hi before cs' h =
    (h' : Heap) × (kalloc_loop fuel total units a h
      ≡ some (a + before * entry_size + entry_size, h'))
    × Seg h' prev a hi cs'
    × SameOutside a hi h h'
    × (h'.bitmap ≡ h.bitmap)

module _ (h : Heap) (fuel total units prev a hi : ℕ) (c : Cell) (cs0 : List Cell)
    (s : Seg h prev a hi (c ∷ cs0)) (small : units + 1 < 2 ^ 31) (low : 0 < a)
    (high : hi < 2 ^ 32) where
  fits_here : (b : Bool) → fits units c ≡ b → fits? units (h.entry a) ≡ b
  fits_here b f = fits?-cell h units prev a (link (behind a c) cs0) c s.0 ∙ f

  first_cell : fits units c ≡ true → Taken (suc fuel) total units prev a hi 0 (cut units c cs0) h
  first_cell f =
      let e = fits_here true f in
      let done = carve-Seg h prev a hi units c cs0 s low high in
      let at : a + 0 * entry_size + entry_size ≡ a + entry_size = omega arith in
      (
        carve units a h,
        rw at (
            kalloc_loop-carve fuel total units a h (omega arith) (ground (arith, e))
              (ground (arith, e))),
        done.0,
        done.1,
        done.2,
      )

  next_cell :
      (before : ℕ) (cs1 : List Cell)
      → fits units c ≡ false
      → Found units cs0 before cs1
      → Taken fuel total units a (behind a c) hi before cs1 h
      → Taken (suc fuel) total units prev a hi (c.size + 1 + before) (c ∷ cs1) h
  next_cell before cs1 f found (h', r, seg, same, bm) =
      let next : (h.entry a).next ≡ behind a c =
        ap (λ (o : Entry). o.next) s.0 ∙ Found-link found in
      let onward =
        kalloc_loop-onward fuel total units a h (omega arith) (fits_here false f)
          (λ z. omega (arith, next)) in
      let top = Seg-le h a (behind a c) hi cs0 s.1 in
      let at : a + (c.size + 1 + before) * entry_size + entry_size
          ≡ behind a c + before * entry_size + entry_size =
        omega arith in
      (
        h',
        onward ∙ ap (λ p. kalloc_loop fuel total units p h) next ∙ rw at r,
        (
          same a (inl (omega arith))
              ∙ s.0
              ∙ ap (entry_of prev c) (Found-link found ∙ sym (Found-link-after found)),
          seg,
        ),
        λ x out. same x (elim out [ inl low ↦ inl (omega arith) | inr up ↦ inr up ]),
        bm,
      )

-- A fitting cell: the loop returns the space behind its entry and carves it.
pub kalloc_loop-Found :
    (h : Heap) (fuel total units prev a hi before : ℕ) (cs cs' : List Cell)
    → Found units cs before cs'
    → Seg h prev a hi cs
    → length cs ≤ fuel
    → units + 1 < 2 ^ 31
    → 0 < a
    → hi < 2 ^ 32
    → Taken fuel total units prev a hi before cs' h
kalloc_loop-Found h zero total units prev a hi before cs cs' (here c cs0 f) s enough small low
      high =
    absurd (omega arith)
kalloc_loop-Found h zero total units prev a hi before cs cs' (later c cs0 cs1 b f found) s enough
      small low high =
    absurd (omega arith)
kalloc_loop-Found h (suc fuel) total units prev a hi before cs cs' (here c cs0 f) s enough small low
      high =
    first_cell h fuel total units prev a hi c cs0 s small low high f
kalloc_loop-Found h (suc fuel) total units prev a hi before cs cs' (later c cs0 cs1 b f found) s
      enough small low high =
    next_cell h fuel total units prev a hi c cs0 s small low high b cs1 f found (
      kalloc_loop-Found h fuel total units a (behind a c) hi b cs0 cs1 found s.1 (omega arith) small
        (omega arith) high)
