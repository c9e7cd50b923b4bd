-- ===== src/Mem/Init.antt =====
-- `mem_init` of src/kernel/drivers/mem.c: the frame bitmap from the memory map of the BIOS. The map
-- is the list of its entries before the zero entry that ends it.
pub mod Outcome
pub mod Map
mod Tests
use ata_driver.Common.{
  ℕ, zero, suc, ◌+◌, ◌-◌, ◌*◌, ◌/◌, ◌%◌, Bool, true, false, not, ◌&&◌, ◌||◌, Option, none, some,
  List, [], ◌∷◌, ◌==◌, leb, ltb, if◌then◌else◌, u32, u64,
}
use ata_driver.Mem.Bitmap.{
  Memory, bitmap_addr, entries_per_byte, entry_reserved, set_entry, get_entry,
}
use ata_driver.Mem.Frames.{frame_size}
use ata_driver.Str.{memset}

pub record Region : Type 0 where
  pub base : ℕ
  pub size : ℕ
  pub kind : ℕ

abbrev pub region_available : ℕ
region_available = 0x00000001

abbrev pub bits_per_entry : ℕ
bits_per_entry = 2

abbrev pub end_of : Region → ℕ
end_of r = u64 (r.base + r.size)

-- The first loop.
unfoldable pub highest : List Region → ℕ → ℕ
highest [] max_addr = max_addr
highest (r ∷ map) max_addr = highest map (if ltb max_addr (end_of r) then end_of r else max_addr)

-- The second loop: whether it ends at a `break`.
unfoldable pub holds_bitmap : ℕ → List Region → Bool
holds_bitmap total [] = false
holds_bitmap total (r ∷ map) =
    (r.kind == region_available
      && (leb r.base bitmap_addr
          && leb (u64 (bitmap_addr + u64 (total * bits_per_entry))) (end_of r)))
    || holds_bitmap total map

-- The loops that mark the frames from `f` on as reserved, and check each. `none` stands for -1.
pub reserve : ℕ → ℕ → Memory → Option Memory
reserve zero f bm = some bm
reserve (suc rounds) f bm =
    let bm' = set_entry bm (u32 f) entry_reserved in
    let rest = reserve rounds (f + 1) bm' in
    if get_entry bm' (u32 f) == entry_reserved then rest else none

-- The first and the last frame of a region, as the code computes them.
abbrev pub first_frame : Region → ℕ
first_frame r = r.base / frame_size

abbrev pub last_frame : Region → ℕ
last_frame r = end_of r / frame_size

pub reserve_regions : List Region → Memory → Option Memory
reserve_regions [] bm = some bm
reserve_regions (r ∷ map) bm =
    if r.kind == region_available
    then reserve_regions map bm
    else elim (reserve (suc (last_frame r) - first_frame r) (first_frame r) bm) [
      | none ↦ none
      | some bm' ↦ reserve_regions map bm'
    ]

-- The last frame of the low memory and the bitmap.
abbrev pub last_own : ℕ → ℕ
last_own total = u64 (bitmap_addr + total / entries_per_byte) / frame_size

-- `mem_total_frames` and the memory, up to the call of `kalloc_init`; `none` stands for -1.
pub mem_init : List Region → Memory → Option (ℕ × Memory)
mem_init map m =
    let total = highest map 0 / frame_size in
    if holds_bitmap total map
    then elim (reserve_regions map (memset bitmap_addr 0 (u32 (total * bits_per_entry)) m)) [
      | none ↦ none
      | some bm ↦ elim (reserve (suc (last_own total)) 0 bm) [
        | none ↦ none
        | some bm' ↦ some (total, bm')
      ]
    ]
    else none
