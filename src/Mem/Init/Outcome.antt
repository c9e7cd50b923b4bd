-- ===== src/Mem/Init/Outcome.antt =====
-- The bitmap that `mem_init` sets up.
use ata_driver.Common.{
  ℕ, zero, suc, ◌+◌, ◌-◌, ◌*◌, ◌/◌, ◌%◌, ◌^◌, ◌≤◌, ◌<◌, ◌≡◌, refl, inl, inr, arith, Bool-cases,
  Bool, true, false, not, ◌&&◌, ◌||◌, none, some, List, [], ◌∷◌, ◌==◌, leb, ltb, if◌then◌else◌, u32,
}
use ata_driver.Mem.Bitmap.{
  Memory, bitmap_addr, load8, entry_free, entry_reserved, set_entry, get_entry, get_entry-set_entry,
  get_pack-zero,
}
use ata_driver.Mem.Frames.{frame_size}
use ata_driver.Mem.Init.{
  Region, region_available, bits_per_entry, end_of, highest, holds_bitmap, reserve, first_frame,
  last_frame, reserve_regions, last_own, mem_init,
}
use ata_driver.Str.{memset}
use ata_driver.Str.Block.{memset_lem}

reserve_lem :
    (n f : ℕ) (bm : Memory)
    → f + n ≤ 2 ^ 32
    → (bm' : Memory) × (reserve n f bm ≡ some bm')
      × ((g : ℕ)
          → get_entry bm' g ≡ (if leb f g && ltb g (f + n) then entry_reserved else get_entry bm g))
unfolding reserve
reserve_lem zero f bm h = (bm, refl, λ g. ground arith)
reserve_lem (suc n) f bm h =
    let bm₁ = set_entry bm (u32 f) entry_reserved in
    let (bm', e, marks) = reserve_lem n (f + 1) bm₁ (omega arith) in
    let set = get_entry-set_entry bm (u32 f) entry_reserved (u32 f) (omega arith) in
    (
      bm',
      ground (arith, e, set),
      λ g. ground (arith, marks g, get_entry-set_entry bm (u32 f) entry_reserved g),
    )

-- The frame is among those of a region that the map does not call available.
abbrev pub is_reserved : List Region → ℕ → Bool
is_reserved [] g = false
is_reserved (r ∷ map) g =
    (not (r.kind == region_available) && (leb (first_frame r) g && leb g (last_frame r)))
    || is_reserved map g

-- No region ends above 4G.
abbrev pub Below4G : List Region → Type 0
Below4G [] = Unit {0}
Below4G (r ∷ map) = (r.base + r.size ≤ 2 ^ 32) × Below4G map

pub highest_le :
    (map : List Region) (acc : ℕ) → Below4G map → acc ≤ 2 ^ 32 → highest map acc ≤ 2 ^ 32
unfolding highest
highest_le [] acc all h = h
highest_le (r ∷ map) acc all h =
    highest_le map (if ltb acc (end_of r) then end_of r else acc) all.1 (ground (arith, all.0))

reserve_regions_lem :
    (map : List Region) (bm : Memory)
    → Below4G map
    → (bm' : Memory) × (reserve_regions map bm ≡ some bm')
      × ((g : ℕ) → get_entry bm' g ≡ (if is_reserved map g then entry_reserved else get_entry bm g))
unfolding reserve_regions
reserve_regions_lem [] bm all = (bm, refl, λ g. refl)
reserve_regions_lem (r ∷ map) bm all = elim (Bool-cases (r.kind == region_available)) [
  | inl available ↦
      let (bm', e, marks) = reserve_regions_lem map bm all.1 in
      (bm', rw available e, λ g. ground (arith, marks g, available))
  | inr reserved ↦
      let (bm₁, e₁, marks₁) =
        reserve_lem (suc (last_frame r) - first_frame r) (first_frame r) bm
          (omega (arith, all.0)) in
      let (bm', e, marks) = reserve_regions_lem map bm₁ all.1 in
      (bm', rw (reserved, e₁) e, λ g. ground (arith, marks₁ g, marks g, reserved, all.0))
]

cleared-free :
    (m : Memory) (total g : ℕ)
    → total ≤ 2 ^ 20
    → g < total
    → get_entry (memset bitmap_addr 0 (u32 (total * bits_per_entry)) m) g ≡ entry_free
unfolding get_entry
cleared-free m total g h l =
    let byte : load8 (memset bitmap_addr 0 (u32 (total * bits_per_entry)) m) (bitmap_addr + g / 4)
        ≡ 0 =
      ground
        (arith, memset_lem bitmap_addr 0 (u32 (total * bits_per_entry)) m (bitmap_addr + g / 4)) in
    rw byte (get_pack-zero (g % 4) (omega arith))

-- For a memory map with no region above 4G: `mem_init` returns -1 exactly where no available
-- region holds the bitmap. Otherwise the number of frames is that of the highest end of a region,
-- and of these frames those that a region which is not available reaches, and those up to the end
-- of the bitmap, are reserved, and all others are free.
pub mem_init_lem :
    (map : List Region) (m : Memory)
    → Below4G map
    → (let total = highest map 0 / frame_size in
        (holds_bitmap total map ≡ false → mem_init map m ≡ none)
        × (holds_bitmap total map ≡ true
            → (bm : Memory) × (mem_init map m ≡ some (total, bm))
              × ((g : ℕ)
                  → g < total
                  → get_entry bm g ≡ (
                      if is_reserved map g || leb g (last_own total)
                      then entry_reserved
                      else entry_free))))
unfolding mem_init
mem_init_lem map m all =
    let total = highest map 0 / frame_size in
    let small : total ≤ 2 ^ 20 = omega (arith, highest_le map 0 all (omega arith)) in
    let zeroed = memset bitmap_addr 0 (u32 (total * bits_per_entry)) m in
    let (bm₁, e₁, marks₁) = reserve_regions_lem map zeroed all in
    let (bm₂, e₂, marks₂) = reserve_lem (suc (last_own total)) 0 bm₁ (omega arith) in
    (
      λ no. rw no refl,
      λ yes. (
        bm₂,
        rw (yes, e₁, e₂) refl,
        λ g l. ground (arith, marks₁ g, marks₂ g, cleared-free m total g small l),
      ),
    )
