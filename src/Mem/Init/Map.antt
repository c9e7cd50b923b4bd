-- ===== src/Mem/Init/Map.antt =====
-- The bitmap that `mem_init` sets up, by the memory map alone.
use mathlib.Core.Path.{subst}
use ata_driver.Common.{
  ℕ, ◌+◌, ◌*◌, ◌/◌, ◌^◌, ◌≤◌, ◌<◌, ◌≡◌, ◌⊎◌, ◌∙◌, refl, sym, inl, inr, arith, Bool-cases, Bool,
  true, false, not, ◌&&◌, ◌||◌, none, some, List, [], ◌∷◌, ◌==◌, leb, ltb, if◌then◌else◌, u64,
}
use ata_driver.Mem.Bitmap.{Memory, bitmap_addr, entry_free, entry_reserved, get_entry}
use ata_driver.Mem.Init.{
  Region, end_of, highest, holds_bitmap, first_frame, last_frame, last_own, mem_init,
}
use ata_driver.Mem.Init.Outcome.{Below4G, is_reserved, highest_le, mem_init_lem}

-- An available region from the bitmap's address or below, with two bytes for each of the frames
-- behind that address.
abbrev pub IsHolder : ℕ → Region → Type 0
IsHolder total r =
    (r.kind ≡ 1) × (r.base ≤ bitmap_addr) × (bitmap_addr + 2 * total ≤ r.base + r.size)

abbrev pub HasHolder : ℕ → List Region → Type 0
HasHolder total [] = ⊥
HasHolder total (r ∷ map) = IsHolder total r ⊎ HasHolder total map

-- The highest end of a region, or 0 without regions.
abbrev pub Ends : ℕ → List Region → Type 0
Ends top [] = ⊥
Ends top (r ∷ map) = (top ≡ r.base + r.size) ⊎ Ends top map

abbrev pub Reaches : ℕ → List Region → Type 0
Reaches top [] = Unit {0}
Reaches top (r ∷ map) = (r.base + r.size ≤ top) × Reaches top map

pub record IsTop (top : ℕ) (map : List Region) : Type 0 where
  pub attained : (top ≡ 0) ⊎ Ends top map
  pub above : Reaches top map

-- A region that is not available has a byte in the frame `g`, or ends where the frame begins.
abbrev pub is_touched : List Region → ℕ → Bool
is_touched [] g = false
is_touched (r ∷ map) g =
    (not (r.kind == 1) && (ltb r.base ((g + 1) * 4096) && leb (g * 4096) (r.base + r.size)))
    || is_touched map g

is_reserved-is_touched :
    (map : List Region) (g : ℕ) → Below4G map → is_reserved map g ≡ is_touched map g
is_reserved-is_touched [] g all = refl
is_reserved-is_touched (r ∷ map) g all =
    let rest = is_reserved-is_touched map g all.1 in
    let low : leb (first_frame r) g ≡ ltb r.base ((g + 1) * 4096) = ground arith in
    let high : leb g (last_frame r) ≡ leb (g * 4096) (r.base + r.size) = ground (arith, all.0) in
    rw (rest, low, high) refl

holds_bitmap-HasHolder :
    (total : ℕ) (map : List Region)
    → Below4G map
    → total ≤ 2 ^ 20
    → ((holds_bitmap total map ≡ true) × HasHolder total map)
      ⊎ ((holds_bitmap total map ≡ false) × ¬ (HasHolder total map))
unfolding holds_bitmap
holds_bitmap-HasHolder total [] all small = inr (refl, λ h. h)
holds_bitmap-HasHolder total (r ∷ map) all small =
    elim (Bool-cases (
      r.kind == 1
      && (leb r.base bitmap_addr && leb (u64 (bitmap_addr + u64 (total * 2))) (end_of r)))) [
        | inl here ↦ inl (
          rw here refl,
          inl (ground (arith, here), ground (arith, here), ground (arith, here, all.0, small)),
        )
        | inr away ↦ elim (holds_bitmap-HasHolder total map all.1 small) [
          | inl (e, h) ↦ inl (rw (away, e) refl, inr h)
          | inr (e, h) ↦ inr (
            rw (away, e) refl,
            λ k. elim k [
              | inl (a, b, c) ↦ ground (arith, away, a, b, c, all.0, small)
              | inr there ↦ h there
            ],
          )
        ]
      ]

-- `top` is the highest of `acc` and the ends of the regions.
abbrev Highest : List Region → ℕ → ℕ → Type 0
Highest map acc top = (acc ≤ top) × ((top ≡ acc) ⊎ Ends top map) × Reaches top map

highest-more :
    (r : Region) (map : List Region) (acc : ℕ)
    → ltb acc (end_of r) ≡ true
    → highest (r ∷ map) acc ≡ highest map (end_of r)
unfolding highest
highest-more r map acc more = rw more refl

highest-less :
    (r : Region) (map : List Region) (acc : ℕ)
    → ltb acc (end_of r) ≡ false
    → highest (r ∷ map) acc ≡ highest map acc
unfolding highest
highest-less r map acc less = rw less refl

highest-nil : (acc : ℕ) → highest [] acc ≡ acc
unfolding highest
highest-nil acc = refl

highest_lem : (map : List Region) (acc : ℕ) → Below4G map → Highest map acc (highest map acc)
highest_lem [] acc all = subst (Highest [] acc) (sym (highest-nil acc)) (omega arith, inl refl, tt)
highest_lem (r ∷ map) acc all =
    let e : end_of r ≡ r.base + r.size = omega (arith, all.0) in
    elim (Bool-cases (ltb acc (end_of r))) [
      | inl more ↦
          let (above, from, rest) = highest_lem map (end_of r) all.1 in
          subst (Highest (r ∷ map) acc) (sym (highest-more r map acc more)) (
            ground (arith, more, above),
            inr (elim from [ inl same ↦ inl (same ∙ e) | inr other ↦ inr other ]),
            (omega (arith, above, e), rest),
          )
      | inr less ↦
          let (above, from, rest) = highest_lem map acc all.1 in
          subst (Highest (r ∷ map) acc) (sym (highest-less r map acc less)) (
            above,
            elim from [ inl same ↦ inl same | inr other ↦ inr (inr other) ],
            (ground (arith, less, above, e), rest),
          )
    ]

-- For a memory map with no region above 4G, of which `top` is the highest end: `mem_init` returns
-- -1 exactly where no available region, from the bitmap's address or below it, reaches two bytes for
-- each frame behind that address. Otherwise the number of frames is `top / 4096`, and of these
-- frames those are reserved that a region which is not available has a byte in or ends in front of,
-- and those up to the one with the end of the bitmap, at one byte for four frames; all others are
-- free.
pub mem_init-IsSetUp :
    (map : List Region) (m : Memory)
    → Below4G map
    → (top : ℕ) × IsTop top map
      × (let total = top / 4096 in
          (¬ (HasHolder total map) → mem_init map m ≡ none)
          × (HasHolder total map
              → (bm : Memory) × (mem_init map m ≡ some (total, bm))
                × ((g : ℕ)
                    → g < total
                    → get_entry bm g ≡ (
                        if is_touched map g || leb (g * 4096) (bitmap_addr + total / 4)
                        then entry_reserved
                        else entry_free))))
mem_init-IsSetUp map m all =
    let top = highest map 0 in
    let (_, from, above) = highest_lem map 0 all in
    let small : top / 4096 ≤ 2 ^ 20 = omega (arith, highest_le map 0 all (omega arith)) in
    let (fails, succeeds) = mem_init_lem map m all in
    (
      top,
      record { attained = from; above = above },
      (
        (λ missing. elim (holds_bitmap-HasHolder (top / 4096) map all small) [
          | inl (e, h) ↦ absurd (missing h)
          | inr (e, h) ↦ fails e
        ]),
        (λ holder. elim (holds_bitmap-HasHolder (top / 4096) map all small) [
          | inl (e, h) ↦
              let (bm, r, marks) = succeeds e in
              (
                bm,
                r,
                λ g l.
                    let own : leb g (last_own (top / 4096))
                        ≡ leb (g * 4096) (bitmap_addr + top / 4096 / 4) =
                      ground (arith, small) in
                    let reserved = is_reserved-is_touched map g all in
                    marks g l ∙ rw (own, reserved) refl,
              )
          | inr (e, h) ↦ absurd (h holder)
        ]),
      ),
    )
