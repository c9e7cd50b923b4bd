-- ===== src/Mem/Frames/Allocate.antt =====
-- `mem_allocate_frames` is first fit: it takes the lowest run of free frames in its range, marks
-- exactly that run used, and fails only where there is no such run.
use ata_driver.Common.{
  ℕ, zero, suc, ◌+◌, ◌-◌, ◌*◌, ◌≤◌, ◌<◌, ◌^◌, ◌≡◌, ◌≢◌, refl, ◌⊎◌, inl, inr, arith, ◌==◌, leb,
  Bool-cases, u32, sub32,
}
use ata_driver.Mem.Bitmap.{Memory, entry_free, entry_used, get_entry, set_entry}
use ata_driver.Mem.Frames.{frame_size, mark_used, scan, clamp_last, allocate_frames}
use ata_driver.Mem.Frames.Run.{IsFreeRun, IsMarked, mark_used-IsMarked}

-- What a call with the bounds `first` and `last` may return, beside the new memory.
pub record IsFirstFit (bm : Memory) (count first last : ℕ) (r : ℕ × Memory) : Type 0 where
  pub start : ℕ
  pub address : r.0 ≡ start * frame_size
  pub above : first ≤ start
  pub below : start + count ≤ last
  pub was_free : IsFreeRun bm start count
  pub lowest : (s : ℕ) → first ≤ s → s < start → ¬ IsFreeRun bm s count
  pub marked : IsMarked bm r.1 start count entry_used

pub record IsRefused (bm : Memory) (count first last : ℕ) (r : ℕ × Memory) : Type 0 where
  pub null : r.0 ≡ 0
  pub unchanged : r.1 ≡ bm
  pub none_free : (s : ℕ) → first ≤ s → s + count ≤ last → ¬ IsFreeRun bm s count

-- The loop's invariant at frame `f`: `free` free frames end at `f`, no longer run does, and no
-- run of `count` frames lies below `f`.
record ScanInv (bm : Memory) (count first f free : ℕ) : Type 0 where
  inside : first + free ≤ f
  short : free < count
  tail : IsFreeRun bm (f - free) free
  longest : (s : ℕ) → first ≤ s → s < f - free → ¬ IsFreeRun bm s (f - s)
  none_free : (s : ℕ) → first ≤ s → s + count ≤ f → ¬ IsFreeRun bm s count

module _ (bm : Memory) (count first : ℕ) where
  ScanInv-first : 0 < count → ScanInv bm count first first 0
  ScanInv-first h = record {
    inside = omega arith;
    short = h;
    tail = λ g p q. absurd (omega arith);
    longest = λ s p q r. omega arith;
    none_free = λ s p q r. omega arith;
  }

  ScanInv-used :
      (f free : ℕ)
      → ScanInv bm count first f free
      → get_entry bm f ≢ entry_free
      → ScanInv bm count first (f + 1) 0
  ScanInv-used f free v used = record {
    inside = omega (arith, v.inside);
    short = omega (arith, v.short);
    tail = λ g p q. absurd (omega arith);
    longest = λ s p q r. used (r f (omega arith) (omega arith));
    none_free = λ s p q r. elim (Bool-cases (s + count == f + 1)) [
      | inl e ↦ used (r f (ground (arith, v.short)) (ground arith))
      | inr ne ↦ v.none_free s p (ground arith) r
    ];
  }

  tail_suc :
      (f free : ℕ)
      → first + free ≤ f
      → IsFreeRun bm (f - free) free
      → get_entry bm f ≡ entry_free
      → IsFreeRun bm (f - free) (suc free)
  tail_suc f free h t e g p q = elim (Bool-cases (g == f)) [
    | inl same ↦ let e' : g ≡ f = ground arith in rw e' e
    | inr ne ↦ t g p (ground arith)
  ]

  ScanInv-free :
      (f free : ℕ)
      → ScanInv bm count first f free
      → get_entry bm f ≡ entry_free
      → suc free < count
      → ScanInv bm count first (f + 1) (suc free)
  ScanInv-free f free v e h = record {
    inside = omega (arith, v.inside);
    short = h;
    tail = λ g p q. tail_suc f free v.inside v.tail e g (omega arith) (omega (arith, v.inside));
    longest = λ s p q r. v.longest s p (omega arith) (λ g a b. r g a (omega arith));
    none_free = λ s p q r. elim (Bool-cases (s + count == f + 1)) [
      | inl e' ↦ v.longest s p (ground arith) (λ g a b. r g a (ground arith))
      | inr ne ↦ v.none_free s p (ground arith) r
    ];
  }

  found :
      (f free last : ℕ)
      → ScanInv bm count first f free
      → get_entry bm f ≡ entry_free
      → suc free ≡ count
      → f < last
      → last ≤ 2 ^ 20
      → IsFirstFit bm count first last
          (u32 (u32 (sub32 f count + 1) * frame_size), mark_used count f bm)
  found f free last v e h lt fits = record {
    start = f - free;
    address = omega (arith, v.inside);
    above = omega (arith, v.inside);
    below = omega (arith, v.inside);
    was_free = rw (← h) (tail_suc f free v.inside v.tail e);
    lowest = λ s p q. v.none_free s p (omega (arith, v.inside));
    marked = λ g. ground (arith, v.inside, mark_used-IsMarked count f bm g);
  }

  scan-hit :
      (rounds f free : ℕ)
      → get_entry bm f ≡ entry_free
      → suc free ≡ count
      → free < 2 ^ 20
      → scan count (suc rounds) f free bm
        ≡ (u32 (u32 (sub32 f count + 1) * frame_size), mark_used count f bm)
  unfolding scan
  scan-hit rounds f free e h b = ground arith

  scan-free :
      (rounds f free : ℕ)
      → get_entry bm f ≡ entry_free
      → suc free < count
      → free < 2 ^ 20
      → scan count (suc rounds) f free bm ≡ scan count rounds (f + 1) (suc free) bm
  unfolding scan
  scan-free rounds f free e h b = ground arith

  scan-used :
      (rounds f free : ℕ)
      → get_entry bm f ≢ entry_free
      → 0 < count
      → scan count (suc rounds) f free bm ≡ scan count rounds (f + 1) 0 bm
  unfolding scan
  scan-used rounds f free e h = ground arith

  abbrev Outcome : ℕ → ℕ × Memory → Type 0
  Outcome last r = IsFirstFit bm count first last r ⊎ IsRefused bm count first last r

  scan_lem :
      (last rounds f free : ℕ)
      → f + rounds ≡ last
      → last ≤ 2 ^ 20
      → ScanInv bm count first f free
      → Outcome last (scan count rounds f free bm)
  scan_lem last zero f free e fits v = inr (record {
    null = unfold scan in refl;
    unchanged = unfold scan in refl;
    none_free = λ s p q. v.none_free s p (omega arith);
  })
  scan_lem last (suc rounds) f free e fits v = elim (Bool-cases (get_entry bm f == entry_free)) [
    | inl isf ↦ elim (Bool-cases (suc free == count)) [
      | inl hit ↦
          rw (scan-hit rounds f free (ground arith) (ground arith) (omega (arith, v.inside)))
            (inl (found f free last v (ground arith) (ground arith) (omega arith) fits))
      | inr miss ↦
          let short : suc free < count = ground (arith, v.short) in
          rw (scan-free rounds f free (ground arith) short (omega (arith, v.inside))) (
            scan_lem last rounds (f + 1) (suc free) (omega arith) fits
              (ScanInv-free f free v (ground arith) short))
    ]
    | inr used ↦
        rw (scan-used rounds f free (ground arith) (omega (arith, v.short)))
          (scan_lem last rounds (f + 1) 0 (omega arith) fits (ScanInv-used f free v (ground arith)))
  ]

  scan_range :
      (last : ℕ) → 0 < count → last ≤ 2 ^ 20 → Outcome last (scan count (last - first) first 0 bm)
  scan_range last h fits = elim (Bool-cases (leb first last)) [
    | inl up ↦ scan_lem last (last - first) first 0 (ground arith) fits (ScanInv-first h)
    | inr down ↦
        let e : last - first ≡ 0 = ground arith in
        rw e (
          inr (record {
            null = unfold scan in refl;
            unchanged = unfold scan in refl;
            none_free = λ s p q. ground arith;
          }))
  ]

pub clamp_last-le : (total last : ℕ) → clamp_last total last ≤ total
unfolding clamp_last
clamp_last-le total last = ground arith

-- For a positive count on a machine of at most 2^20 frames (4G), with `last` read as the code
-- reads it (0 or too large a bound means all frames): the call either returns the address of the
-- lowest run of `count` free frames within the bounds, marks exactly that run used and changes no
-- other frame's status; or it returns NULL, changes nothing, and there is no such run.
pub allocate_frames-IsFirstFit :
    (bm : Memory) (total count first last : ℕ)
    → 0 < count
    → total ≤ 2 ^ 20
    → IsFirstFit bm count first (clamp_last total last) (allocate_frames total count first last bm)
      ⊎ IsRefused bm count first (clamp_last total last) (allocate_frames total count first last bm)
unfolding allocate_frames
allocate_frames-IsFirstFit bm total count first last h fits =
    scan_range bm count first (clamp_last total last) h (omega (arith, clamp_last-le total last))

-- A request for one frame, where the first of its range is free.
pub allocate_frames-one :
    (total f last : ℕ) (bm : Memory)
    → f + 1 ≡ last
    → last ≤ total
    → f < 2 ^ 20
    → get_entry bm f ≡ entry_free
    → allocate_frames total 1 f last bm ≡ (f * frame_size, set_entry bm f entry_used)
unfolding allocate_frames scan mark_used clamp_last
allocate_frames-one total f last bm end large small free =
    let one : clamp_last total last - f ≡ 1 = ground (arith, end, large) in
    rw (one, free)
      (let at : u32 (sub32 f 1 + 1) ≡ f = ground (arith, small) in
        let addr : u32 (f * frame_size) ≡ f * frame_size = omega (arith, small) in
        rw (at, addr) refl)
