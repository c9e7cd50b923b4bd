-- ===== src/Mem/Heap/Grant.antt =====
-- `kalloc` returns, and what it returns is an entry that is large enough and now in use.
use ata_driver.Common.{
  ℕ, suc, ◌+◌, ◌-◌, ◌*◌, ◌/◌, ◌^◌, ◌≤◌, ◌<◌, ◌≡◌, ◌≢◌, ◌⊎◌, inl, inr, refl, ◌∙◌, arith, Bool, true,
  false, ◌&&◌, ◌||◌, Option, some, ◌==◌, leb, ltb, Bool-cases, u32, sub32,
}
use mathlib.Core.Path.{subst}
use ata_driver.Mem.Bitmap.{Memory}
use ata_driver.Mem.Frames.{frame_size, allocate_frames}
use ata_driver.Mem.Heap.{
  Entry, Heap, entry_size, flag_free, flag_used, kernel_first_frame, user_first_frame, put_flags,
  units_of, frames_of, split, append_frames, kalloc_loop, kalloc,
}

-- The list from the entry at `p` on ends behind `k` more entries.
pub data Chain (h : Heap) : ℕ → ℕ → Type 0 where
  last : (p : ℕ) → (h.entry p).next ≡ 0 → Chain h p 0
  more : (p k : ℕ) → (h.entry p).next ≢ 0 → Chain h (h.entry p).next k → Chain h p (suc k)

-- The frames that a request for `units` units takes from the frame allocator.
abbrev pub fresh_frames : ℕ → ℕ → Heap → ℕ × Memory
fresh_frames total units h =
    allocate_frames total (frames_of units) kernel_first_frame user_first_frame h.bitmap

-- The entry is free in `h`, or stands at the start of newly allocated frames.
abbrev pub WasFree : ℕ → ℕ → Heap → ℕ → Type 0
WasFree total units h e = ((h.entry e).flags ≡ flag_free) ⊎ (e ≡ (fresh_frames total units h).0)

-- What a request for `units` units may return: NULL, where the frame allocator has none either; or
-- the space behind a formerly free entry, which now is in use, with at most one unit to spare.
pub data IsGrant (total units : ℕ) (h : Heap) : ℕ × Heap → Type 0 where
  refused : (h' : Heap) → (fresh_frames total units h).0 ≡ 0 → IsGrant total units h (0, h')
  granted :
      (e : ℕ) (h' : Heap)
      → WasFree total units h e
      → (h'.entry e).flags ≡ flag_used
      → units ≤ (h'.entry e).size
      → (h'.entry e).size ≤ units + 1
      → IsGrant total units h (e + entry_size, h')

split_lem :
    (e units : ℕ) (h : Heap)
    → (((split e units h).entry e).flags ≡ flag_used) × (((split e units h).entry e).size ≡ units)
unfolding split
split_lem e units h = ground arith

append_frames_lem :
    (e n frames : ℕ) (h : Heap)
    → (((append_frames e n frames h).entry n).flags ≡ flag_free)
      × (((append_frames e n frames h).entry n).size
          ≡ sub32 (u32 (frames * frame_size) / entry_size) 1)
unfolding append_frames
append_frames_lem e n frames h = ground arith

-- What the loop does at a free entry that is large enough.
abbrev Fits : ℕ → Entry → Type 0
Fits units here = (here.flags ≡ flag_free) × (units ≤ here.size)

kalloc_loop-Fits :
    (fuel total units e : ℕ) (h : Heap)
    → units < 2 ^ 31
    → Fits units (h.entry e)
    → (h' : Heap) × (kalloc_loop (suc fuel) total units e h ≡ some (e + entry_size, h'))
      × ((h'.entry e).flags ≡ flag_used)
      × (units ≤ (h'.entry e).size)
      × ((h'.entry e).size ≤ units + 1)
unfolding kalloc_loop
kalloc_loop-Fits fuel total units e h small fits =
    elim (Bool-cases ((h.entry e).size == units || (h.entry e).size == u32 (units + 1))) [
      | inl exact ↦
          let free : ((h.entry e).flags == flag_free) ≡ true = ground (arith, fits.0) in
          (
            put_flags e flag_used h,
            rw (free, exact) refl,
            ground arith,
            ground (arith, exact, fits.1),
            ground (arith, exact, fits.1),
          )
      | inr other ↦
          let free : ((h.entry e).flags == flag_free) ≡ true = ground (arith, fits.0) in
          let big : ltb (u32 (units + 1)) (h.entry e).size ≡ true = ground (arith, other, fits.1) in
          let done = split_lem e units h in
          (
            split e units h,
            rw (free, other, big) refl,
            done.0,
            omega (arith, done.1),
            omega (arith, done.1),
          )
    ]

abbrev pub fits? : ℕ → Entry → Bool
fits? units here = here.flags == flag_free && leb units here.size

-- The heap behind the growth at the last entry `e`.
abbrev pub grown : ℕ → ℕ → ℕ → Heap → Heap
grown total units e h =
    append_frames e (fresh_frames total units h).0 (frames_of units)
      (record h { bitmap = (fresh_frames total units h).1 })

pub kalloc_loop-onward :
    (fuel total units e : ℕ) (h : Heap)
    → units < 2 ^ 31
    → fits? units (h.entry e) ≡ false
    → (h.entry e).next ≢ 0
    → kalloc_loop (suc fuel) total units e h ≡ kalloc_loop fuel total units (h.entry e).next h
unfolding kalloc_loop
kalloc_loop-onward fuel total units e h small short ne = ground arith

pub kalloc_loop-null :
    (fuel total units e : ℕ) (h : Heap)
    → units < 2 ^ 31
    → fits? units (h.entry e) ≡ false
    → (h.entry e).next ≡ 0
    → (fresh_frames total units h).0 ≡ 0
    → kalloc_loop (suc fuel) total units e h
      ≡ some (0, record h { bitmap = (fresh_frames total units h).1 })
unfolding kalloc_loop
kalloc_loop-null fuel total units e h small short end null = ground arith

pub kalloc_loop-grown :
    (fuel total units e : ℕ) (h : Heap)
    → units < 2 ^ 31
    → fits? units (h.entry e) ≡ false
    → (h.entry e).next ≡ 0
    → (fresh_frames total units h).0 ≢ 0
    → kalloc_loop (suc fuel) total units e h
      ≡ kalloc_loop fuel total units (fresh_frames total units h).0 (grown total units e h)
unfolding kalloc_loop
kalloc_loop-grown fuel total units e h small short end some_frames = ground arith

pub frames_of-enough :
    (units : ℕ) → units ≤ 2 ^ 27 → units ≤ sub32 (u32 (frames_of units * frame_size) / entry_size) 1
unfolding frames_of
frames_of-enough units h = ground arith

-- The outcome of the loop at `e`.
abbrev Granted : ℕ → ℕ → Heap → Option (ℕ × Heap) → Type 0
Granted total units h r = (p : ℕ × Heap) × (r ≡ some p) × IsGrant total units h p

kalloc_loop-here :
    (fuel total units e : ℕ) (h : Heap)
    → units ≤ 2 ^ 27
    → fits? units (h.entry e) ≡ true
    → Granted total units h (kalloc_loop (suc fuel) total units e h)
kalloc_loop-here fuel total units e h small large =
    let (h', r, used, low, high) =
      kalloc_loop-Fits fuel total units e h (omega arith) (ground (arith, large)) in
    ((e + entry_size, h'), r, granted e h' (inl (ground (arith, large))) used low high)

-- At the last entry, with fuel for one more round.
kalloc_loop-last :
    (fuel total units e : ℕ) (h : Heap)
    → units ≤ 2 ^ 27
    → fits? units (h.entry e) ≡ false
    → (h.entry e).next ≡ 0
    → Granted total units h (kalloc_loop (suc (suc fuel)) total units e h)
kalloc_loop-last fuel total units e h small short end =
    let n = (fresh_frames total units h).0 in
    elim (Bool-cases (n == 0)) [
      | inl none_left ↦
          let null : n ≡ 0 = ground (arith, none_left) in
          (
            (0, record h { bitmap = (fresh_frames total units h).1 }),
            kalloc_loop-null (suc fuel) total units e h (omega arith) short end null,
            refused _ null,
          )
      | inr found ↦
          let fresh =
            append_frames_lem e n (frames_of units)
              (record h { bitmap = (fresh_frames total units h).1 }) in
          let (h', r, used, low, high) =
            kalloc_loop-Fits fuel total units n (grown total units e h) (omega arith)
              (fresh.0, omega (arith, fresh.1, frames_of-enough units small)) in
          (
            (n + entry_size, h'),
            kalloc_loop-grown (suc fuel) total units e h (omega arith) short end
                  (ground (arith, found))
                ∙ r,
            granted n h' (inr refl) used low high,
          )
    ]

kalloc_loop-Granted :
    (h : Heap) (k fuel total units e : ℕ)
    → units ≤ 2 ^ 27
    → Chain h e k
    → Granted total units h (kalloc_loop (k + 2 + fuel) total units e h)
kalloc_loop-Granted h k fuel total units e small (last p end) =
    let f : 0 + 2 + fuel ≡ suc (suc fuel) = omega arith in
    rw f (elim (Bool-cases (fits? units (h.entry e))) [
      | inl large ↦ kalloc_loop-here (suc fuel) total units e h small large
      | inr short ↦ kalloc_loop-last fuel total units e h small short end
    ])
kalloc_loop-Granted h k fuel total units e small (more p k' ne rest) =
    let f : suc k' + 2 + fuel ≡ suc (k' + 2 + fuel) = omega arith in
    rw f (elim (Bool-cases (fits? units (h.entry e))) [
      | inl large ↦ kalloc_loop-here (k' + 2 + fuel) total units e h small large
      | inr short ↦
          rw (kalloc_loop-onward (k' + 2 + fuel) total units e h (omega arith) short ne)
            (kalloc_loop-Granted h k' fuel total units (h.entry e).next small rest)
    ])

-- For a request below 2^31 bytes and a list of `k` entries behind `mem_head`, `kalloc` returns
-- within `k + 2` rounds: NULL, where the frame allocator has no frames for the request, or the
-- space of an entry that was free or was made of newly allocated frames, that is in use now, and
-- that holds the request with at most one 16-byte unit to spare.
pub kalloc-IsGrant :
    (k fuel total head_addr bytes : ℕ) (h : Heap)
    → bytes < 2 ^ 31
    → Chain h head_addr k
    → k + 2 ≤ fuel
    → (r : ℕ × Heap) × (kalloc fuel total head_addr bytes h ≡ some r)
      × IsGrant total (units_of bytes) h r
      × (bytes ≤ units_of bytes * entry_size)
      × (units_of bytes * entry_size < bytes + entry_size)
unfolding kalloc units_of
kalloc-IsGrant k fuel total head_addr bytes h small chain enough =
    let f : k + 2 + (fuel - (k + 2)) ≡ fuel = omega arith in
    let units = units_of bytes in
    let (r, e, grant) =
      subst (λ n. Granted total units h (kalloc_loop n total units head_addr h)) f
        (kalloc_loop-Granted h k (fuel - (k + 2)) total units head_addr (ground arith) chain) in
    (r, e, grant, ground arith, ground arith)
