-- ===== src/Mem/Frames.antt =====
-- The page frame allocator of src/kernel/drivers/mem.c: `mem_allocate_frames` and
-- `mem_release_frames` over the bitmap. `total` is the static `mem_total_frames`.
pub mod Run
pub mod Allocate
pub mod Release
use ata_driver.Common.{
  ℕ, zero, suc, ◌+◌, ◌-◌, ◌*◌, ◌/◌, ◌^◌, Bool, ◌||◌, ltb, leb, ◌==◌, if◌then◌else◌, u32, sub32,
}
use ata_driver.Mem.Bitmap.{Memory, entry_free, entry_used, set_entry, get_entry}

abbrev pub frame_size : ℕ
frame_size = 4096

-- `while (free_f > 0) { mem_bitmap_set_entry(f - free_f + 1, ...); free_f--; }`
pub mark_used : ℕ → ℕ → Memory → Memory
mark_used zero f bm = bm
mark_used (suc free_f) f bm =
    mark_used free_f f (set_entry bm (u32 (sub32 f (suc free_f) + 1)) entry_used)

-- The `for` loop with `rounds` frames left before `last`; `f + 1` is at most `last`. The result
-- is the address, 0 for `NULL`, and the memory.
pub scan : ℕ → ℕ → ℕ → ℕ → Memory → ℕ × Memory
scan count zero f free_f bm = (0, bm)
scan count (suc rounds) f free_f bm =
    let free_f' = if get_entry bm f == entry_free then u32 (free_f + 1) else 0 in
    let rest = scan count rounds (f + 1) free_f' bm in
    if free_f' == count
    then (u32 (u32 (sub32 f count + 1) * frame_size), mark_used free_f' f bm)
    else rest

unfoldable pub clamp_last : ℕ → ℕ → ℕ
clamp_last total last = if last == 0 || ltb total last then u32 total else last

pub allocate_frames : ℕ → ℕ → ℕ → ℕ → Memory → ℕ × Memory
unfolding clamp_last
allocate_frames total count first last bm = scan count (clamp_last total last - first) first 0 bm

-- The `for` loop of `mem_release_frames` with `rounds` frames left.
pub release_loop : ℕ → ℕ → Memory → Memory
release_loop zero f bm = bm
release_loop (suc rounds) f bm =
    release_loop rounds (f + 1)
      (if get_entry bm f == entry_used then set_entry bm f entry_free else bm)

pub release_frames : ℕ → ℕ → ℕ → Memory → Memory
release_frames total addr count bm =
    let f = addr / frame_size in
    let last = u32 (f + count) in
    let last' = if ltb total last then u32 total else last in
    if leb total f then bm else release_loop (last' - f) f bm
