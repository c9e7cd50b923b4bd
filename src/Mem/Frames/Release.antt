-- ===== src/Mem/Frames/Release.antt =====
-- `mem_release_frames`: what it frees and what it leaves, and that it undoes an allocation.
use ata_driver.Common.{
  ℕ, zero, suc, ◌+◌, ◌-◌, ◌/◌, ◌≤◌, ◌<◌, ◌^◌, ◌≡◌, inl, inr, arith, ◌==◌, ◌&&◌, leb, ltb, min,
  if◌then◌else◌, Bool-cases,
}
use ata_driver.Mem.Bitmap.{
  Memory, entry_free, entry_used, set_entry, get_entry, get_entry-set_entry,
}
use ata_driver.Mem.Frames.{frame_size, release_loop, release_frames, allocate_frames, clamp_last}
use ata_driver.Mem.Frames.Allocate.{IsFirstFit, clamp_last-le}

-- `mem_release_frames` on frames `f` to `last - 1`: the used ones become free.
abbrev pub IsReleased : Memory → Memory → ℕ → ℕ → Type 0
IsReleased bm bm' f last =
    (g : ℕ)
    → get_entry bm' g ≡ (
        if leb f g && ltb g last && get_entry bm g == entry_used
        then entry_free
        else get_entry bm g)

release_loop-IsReleased :
    (rounds f last : ℕ) (bm : Memory)
    → f + rounds ≡ last
    → IsReleased bm (release_loop rounds f bm) f last
unfolding release_loop
release_loop-IsReleased zero f last bm e g = ground arith
release_loop-IsReleased (suc rounds) f last bm e g = ground (
  arith,
  release_loop-IsReleased rounds (f + 1) last
      (if get_entry bm f == entry_used then set_entry bm f entry_free else bm) (omega arith) g,
  get_entry-set_entry bm f entry_free g,
)

release_frames-inside :
    (bm : Memory) (total addr count : ℕ)
    → total ≤ 2 ^ 20
    → addr / frame_size + count < 2 ^ 32
    → addr / frame_size < total
    → release_frames total addr count bm
      ≡ release_loop
          (min (addr / frame_size + count) total - addr / frame_size)
          (addr / frame_size)
          bm
unfolding release_frames
release_frames-inside bm total addr count fits fits' h = ground arith

release_frames-past :
    (bm : Memory) (total addr count : ℕ)
    → total ≤ addr / frame_size
    → release_frames total addr count bm ≡ bm
unfolding release_frames
release_frames-past bm total addr count h = ground arith

-- On a machine of at most 2^20 frames, with `addr` and `count` such that the end of the range
-- fits 32 bits: exactly the used frames among the `count` frames from the one that holds `addr`
-- on, cut off at the end of memory, become free. Free and reserved frames, and all frames outside
-- the range, keep their status.
pub release_frames-IsReleased :
    (bm : Memory) (total addr count : ℕ)
    → total ≤ 2 ^ 20
    → addr / frame_size + count < 2 ^ 32
    → IsReleased bm
        (release_frames total addr count bm)
        (addr / frame_size)
        (min (addr / frame_size + count) total)
release_frames-IsReleased bm total addr count fits fits' g =
    elim (Bool-cases (leb total (addr / frame_size))) [
      | inl past ↦ rw (release_frames-past bm total addr count (ground arith)) (ground arith)
      | inr inside ↦
          rw (release_frames-inside bm total addr count fits fits' (ground arith))
            (release_loop-IsReleased (last - f) f last bm (ground arith) g)
    ]
  where
    f : ℕ
    f = addr / frame_size

    last : ℕ
    last = min (f + count) total

-- With at most 2^20 frames: releasing what a successful `mem_allocate_frames` returned gives
-- every frame its former status back.
pub release_frames-allocate_frames :
    (bm : Memory) (total count first last : ℕ)
    → total ≤ 2 ^ 20
    → IsFirstFit bm count first (clamp_last total last) (allocate_frames total count first last bm)
    → (g : ℕ)
    → (let r = allocate_frames total count first last bm in
        get_entry (release_frames total r.0 count r.1) g ≡ get_entry bm g)
release_frames-allocate_frames bm total count first last fits fit g =
    let r = allocate_frames total count first last bm in
    let e : r.0 / frame_size ≡ fit.start = omega (arith, fit.address) in
    let h : fit.start + count ≤ total = omega (arith, fit.below, clamp_last-le total last) in
    ground (
      arith,
      release_frames-IsReleased r.1 total r.0 count fits (omega arith) g,
      fit.marked g,
      fit.was_free g,
    )
