-- ===== src/Mem/Heap/RoundTrip.antt =====
-- `kfree` after `kalloc`.
use ata_driver.Common.{
  ℕ, ◌+◌, ◌-◌, ◌*◌, ◌^◌, ◌≤◌, ◌<◌, ◌≡◌, ◌⊎◌, inl, inr, refl, sym, ap, ◌∙◌, arith, Bool, true, false,
  not, ◌&&◌, Option, none, some, List, [], ◌∷◌, ◌==◌, leb, Bool-cases, ==_ne, ==_refl, length,
}
use mathlib.Core.Path.{subst}
use ata_driver.Mem.Heap.{Heap, entry_size, units_of, kalloc, kfree}
use ata_driver.Mem.Heap.Seg.{Cell, behind, cut, fits, alloc}
use ata_driver.Mem.Heap.Walk.{Found, here, later, alloc-cases}
use ata_driver.Mem.Heap.Release.{freed, absorb}
use ata_driver.Mem.Heap.Spec.{Area, request-taken, Holds}
use ata_driver.Mem.Heap.Serve.{kalloc-request}
use ata_driver.Mem.Heap.Free.{give_after, give, kfree-give}

-- The first cell, if any, is in use.
abbrev pub UsedFirst : List Cell → Type 0
UsedFirst [] = Unit {0}
UsedFirst (c ∷ cs) = c.in_use ≡ true

-- No two free cells stand side by side.
abbrev pub Merged : List Cell → Type 0
Merged [] = Unit {0}
Merged (c ∷ cs) = ((c.in_use ≡ true) ⊎ UsedFirst cs) × Merged cs

both : (b l : Bool) → (not b && l) ≡ true → (b ≡ false) × (l ≡ true)
both true l e = absurd (ground (arith, e))
both false l e = (refl, e)

fits-free : (units : ℕ) (c : Cell) → fits units c ≡ true → (c.in_use ≡ false) × (units ≤ c.size)
fits-free units c f =
    let (free, large) = both c.in_use (leb units c.size) f in (free, ground (arith, large))

absorb-UsedFirst : (c : Cell) (cs : List Cell) → UsedFirst cs → absorb c cs ≡ c ∷ cs
absorb-UsedFirst c [] u = refl
absorb-UsedFirst c (d ∷ ds) u = rw u refl

-- The cell that is taken comes first, and freeing it undoes the cut.
Regained : Cell → List Cell → List Cell → Type 0
Regained c cs cs' =
    (x : Cell) × (xs : List Cell) × (cs' ≡ x ∷ xs)
    × (x.in_use ≡ true)
    × (absorb (freed x) xs ≡ c ∷ cs)

cut-Regained :
    (units : ℕ) (c : Cell) (cs : List Cell)
    → fits units c ≡ true
    → UsedFirst cs
    → Regained c cs (cut units c cs)
unfolding Regained
cut-Regained units c cs f u =
    let (free, large) = fits-free units c f in
    elim (Bool-cases (leb c.size (units + 1))) [
      | inl small ↦ (
        record c { in_use = true },
        cs,
        rw small refl,
        refl,
        absorb-UsedFirst (freed c) cs u ∙ ap (λ b. record c { in_use = b } ∷ cs) (sym free),
      )
      | inr big ↦
          let size : units + (c.size - units - 1) + 1 ≡ c.size = ground (arith, big) in
          (
            record { size = units; in_use = true },
            record { size = c.size - units - 1; in_use = false } ∷ cs,
            rw big refl,
            refl,
            ap (λ n. record { size = n; in_use = false } ∷ cs) size
                ∙ ap (λ b. record c { in_use = b } ∷ cs) (sym free),
          )
    ]

-- The cell that was taken lies behind `c`.
give_after-Found :
    (units before a : ℕ) (c : Cell) (cs cs' : List Cell)
    → Found units cs before cs'
    → Merged (c ∷ cs)
    → give_after a (behind a c + before * entry_size + entry_size) c cs' ≡ c ∷ cs
unfolding give_after Regained
give_after-Found units before a c cs cs' (here d ds f) m =
    let free = fits-free units d f in
    let used : c.in_use ≡ true = elim m.0 [ inl u ↦ u | inr u ↦ absurd (clash free.0 u) ] in
    let follows : UsedFirst ds = elim m.1.0 [ inl u ↦ absurd (clash free.0 u) | inr u ↦ u ] in
    let (x, xs, e, u, back) = cut-Regained units d ds f follows in
    let ptr : behind a c + 0 * entry_size + entry_size ≡ behind a c + entry_size = omega arith in
    rw (e, ptr, ==_refl (behind a c + entry_size), u, used, back) refl
  where
    clash : {b : Bool} → b ≡ false → b ≡ true → ⊥
    clash e e' = ground arith
give_after-Found units before a c cs cs' (later d ds ds' b f found) m =
    let at : behind a c + (d.size + 1 + b) * entry_size + entry_size
        ≡ behind (behind a c) d + b * entry_size + entry_size =
      omega arith in
    let ne : (behind a c + entry_size == behind (behind a c) d + b * entry_size + entry_size)
        ≡ false =
      ==_ne _ _ (λ z. omega arith) in
    rw (at, ne) (ap (λ l. c ∷ l) (give_after-Found units b (behind a c) d ds ds' found m.1))

give-Found :
    (units before lo : ℕ) (cs cs' : List Cell)
    → Found units cs before cs'
    → Merged cs
    → give lo (lo + before * entry_size + entry_size) cs' ≡ cs
unfolding Regained
give-Found units before lo cs cs' (here d ds f) m =
    let free = fits-free units d f in
    let follows : UsedFirst ds = elim m.0 [
      | inl u ↦ absurd (ground (arith, free.0, u))
      | inr u ↦ u
    ] in
    let (x, xs, e, u, back) = cut-Regained units d ds f follows in
    let ptr : lo + 0 * entry_size + entry_size ≡ lo + entry_size = omega arith in
    rw (e, ptr, ==_refl (lo + entry_size), u, back) refl
give-Found units before lo cs cs' (later d ds ds' b f found) m =
    let at : lo + (d.size + 1 + b) * entry_size + entry_size
        ≡ behind lo d + b * entry_size + entry_size =
      omega arith in
    let ne : (lo + entry_size == behind lo d + b * entry_size + entry_size) ≡ false =
      ==_ne _ _ (λ z. omega arith) in
    rw (at, ne) (give_after-Found units b lo d ds ds' found m)

Found-length :
    {units before : ℕ} {cs cs' : List Cell} → Found units cs before cs' → length cs' ≤ length cs + 1
Found-length {units} (here c cs f) = elim (Bool-cases (leb c.size (units + 1))) [
  | inl small ↦ rw small (omega arith)
  | inr big ↦ rw big (omega arith)
]
Found-length (later c cs cs' before f found) = omega (arith, Found-length found)

-- Where a cell is taken, giving its space back restores the cells.
abbrev GivesBack : ℕ → List Cell → Option (ℕ × List Cell) → Type 0
GivesBack lo cs none = Unit {0}
GivesBack lo cs (some (before, cs')) =
    (length cs' ≤ length cs + 1) × (give lo (lo + before * entry_size + entry_size) cs' ≡ cs)

alloc-GivesBack : (units lo : ℕ) (cs : List Cell) → Merged cs → GivesBack lo cs (alloc units cs)
alloc-GivesBack units lo cs m = elim (alloc-cases units cs) [
  | inl (before, cs', e, found) ↦
      subst (GivesBack lo cs) (sym e)
        (Found-length found, give-Found units before lo cs cs' found m)
  | inr (e, full) ↦ subst (GivesBack lo cs) (sym e) tt
]

-- On a heap that holds an area in which no two free cells stand side by side, where `kalloc` takes
-- a cell of the area, both calls return and a `kfree` of the pointer that `kalloc` returned makes
-- the heap hold the same area again: a cut is undone, and nothing else is joined.
pub kfree-kalloc :
    (fuel total limit head_addr bytes before : ℕ) (area : Area) (cells : List Cell) (h : Heap)
    → Holds total limit head_addr area h
    → Merged area.cells
    → alloc (units_of bytes) area.cells ≡ some (before, cells)
    → bytes < 2 ^ 31
    → total ≤ 2 ^ 20
    → length area.cells + 2 ≤ fuel
    → (ptr : ℕ) × (h₁ : Heap) × (h₂ : Heap) × (kalloc fuel total head_addr bytes h ≡ some (ptr, h₁))
      × (kfree fuel head_addr ptr h₁ ≡ some h₂)
      × Holds total limit head_addr area h₂
kfree-kalloc fuel total limit head_addr bytes before area cells h v m e small machine enough =
    let units = units_of bytes in
    let r = request-taken limit units area before cells e in
    let (h₁, called, holds) =
      kalloc-request fuel total limit head_addr bytes area h v small machine enough in
    let ptr = area.lo + before * entry_size + entry_size in
    let v₁ = subst (λ (p : ℕ × Area). Holds total limit head_addr p.1 h₁) r holds in
    let (shorter, back) =
      subst (GivesBack area.lo area.cells) e (alloc-GivesBack units area.lo area.cells m) in
    let (h₂, freed_too, v₂) =
      kfree-give fuel total limit head_addr ptr (record area { cells = cells }) h₁ v₁
        (omega (arith, shorter)) in
    (
      ptr,
      h₁,
      h₂,
      called ∙ ap (λ (p : ℕ × Area). some (p.0, h₁)) r,
      freed_too,
      subst (λ l. Holds total limit head_addr (record area { cells = l }) h₂) back v₂,
    )
