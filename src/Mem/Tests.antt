-- ===== src/Mem/Tests.antt =====
-- Runs of the frame allocator on an empty bitmap.
use ata_driver.Common.{ℕ, ◌%◌, ◌+◌, ◌≡◌, ◌⊎◌, inl, inr, arith, min, ◌/◌}
use ata_driver.Mem.Bitmap.{Memory, get_pack-zero, get_entry}
use ata_driver.Mem.Frames.{clamp_last, allocate_frames, release_frames, frame_size}
use ata_driver.Mem.Frames.Allocate.{IsFirstFit, IsRefused, allocate_frames-IsFirstFit}
use ata_driver.Mem.Frames.Release.{
  IsReleased, release_frames-IsReleased, release_frames-allocate_frames,
}

abbrev empty : Memory
empty = λ a. 0

allocate_frames-IsFirstFit_example :
    IsFirstFit empty 3 5 (clamp_last 64 0) (allocate_frames 64 3 5 0 empty)
    ⊎ IsRefused empty 3 5 (clamp_last 64 0) (allocate_frames 64 3 5 0 empty)
allocate_frames-IsFirstFit_example =
    allocate_frames-IsFirstFit empty 64 3 5 0 (omega arith) (omega arith)

empty-free : (g : ℕ) → get_entry empty g ≡ 0
unfolding get_entry
empty-free g = get_pack-zero (g % 4) (omega arith)

empty-IsFirstFit : IsFirstFit empty 3 5 (clamp_last 64 0) (allocate_frames 64 3 5 0 empty)
unfolding clamp_last
empty-IsFirstFit = elim (allocate_frames-IsFirstFit_example) [
  | inl fit ↦ fit
  | inr refused ↦ absurd (refused.none_free 5 (omega arith) (omega arith) (λ g p q. empty-free g))
]

release_frames-IsReleased_example :
    IsReleased empty
      (release_frames 64 20480 3 empty)
      (20480 / frame_size)
      (min (20480 / frame_size + 3) 64)
release_frames-IsReleased_example =
    release_frames-IsReleased empty 64 20480 3 (omega arith) (omega arith)

release_frames-allocate_frames_example :
    (let r = allocate_frames 64 3 5 0 empty in
      get_entry (release_frames 64 r.0 3 r.1) 6 ≡ get_entry empty 6)
release_frames-allocate_frames_example =
    release_frames-allocate_frames empty 64 3 5 0 (omega arith) empty-IsFirstFit 6
