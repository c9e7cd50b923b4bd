-- ===== src/Mem/Inspect/Runs.antt =====
-- The lines of `mem_inspect` are the runs of equal entries in the bitmap.
use ata_driver.Common.{
  ℕ, zero, suc, ◌+◌, ◌-◌, ◌*◌, ◌/◌, ◌%◌, ◌>>>◌, ◌≤◌, ◌<◌, ◌≡◌, ◌≢◌, ◌∙◌, sym, ap, refl, inl, inr,
  arith, Bool-cases, true, false, List, [], ◌∷◌, ◌==◌, ltb,
}
use ata_driver.Common.Bits.{low_bits}
use ata_driver.Mem.Bitmap.{Memory, load8, bitmap_addr, get_pack, get_entry}
use ata_driver.Mem.Inspect.{Run, find_runs}

-- The entries from `a` up to `b` are all `w`.
abbrev pub All : Memory → ℕ → ℕ → ℕ → Type 0
All bm a b w = (f : ℕ) → a ≤ f → f < b → get_entry bm f ≡ w

-- From `a` on the lines follow one another without a gap and end before `z`: each has one status,
-- which is not that of the next frame.
abbrev pub AreRuns : Memory → ℕ → List Run → ℕ → Type 0
AreRuns bm a [] z = a ≡ z
AreRuns bm a (r ∷ rs) z =
    (r.first ≡ a)
    × (a ≤ r.last)
    × All bm a (r.last + 1) r.status
    × (get_entry bm (r.last + 1) ≢ r.status)
    × AreRuns bm (r.last + 1) rs z

-- The outcome of the loop up to the frame `end`: a run from `z` on is still open.
abbrev Outcome : Memory → ℕ → List Run → ℕ → Type 0
Outcome bm a rs end = (z : ℕ) × AreRuns bm a rs z × (z < end) × All bm z end (get_entry bm z)

get_entry_lt : (bm : Memory) (f : ℕ) → get_entry bm f < 4
unfolding get_entry get_pack
get_entry_lt bm f =
    let e = low_bits (load8 bm (bitmap_addr + f / 4) >>> (f % 4 * 2)) in omega (arith, e)

All-more : (bm : Memory) (a b w : ℕ) → All bm a b w → get_entry bm b ≡ w → All bm a (b + 1) w
All-more bm a b w same e f p q = elim (Bool-cases (f == b)) [
  | inl here ↦ let at : f ≡ b = ground (arith, here) in ap (get_entry bm) at ∙ e
  | inr before ↦ same f p (ground (arith, before, q))
]

find_runs_lem :
    (n f r w end : ℕ) (bm : Memory)
    → f + n ≡ end
    → r < f
    → w < 4
    → All bm r f w
    → Outcome bm r (find_runs n f w r bm) end
unfolding find_runs
find_runs_lem zero f r w end bm at begun small same =
    (r, refl, omega arith, λ g p q. same g p (omega arith) ∙ sym (same r (omega arith) begun))
find_runs_lem (suc n) f r w end bm at begun small same = elim (Bool-cases (get_entry bm f == w)) [
  | inl on ↦
      let e : get_entry bm f ≡ w = ground (arith, on) in
      let rest =
        find_runs_lem n (f + 1) r (get_entry bm f) end bm (omega arith) (omega arith)
          (get_entry_lt bm f)
          (All-more bm r f (get_entry bm f) (λ g p q. same g p q ∙ sym e) refl) in
      rw on rest
  | inr change ↦
      let begins : ltb w 4 ≡ true = ground (arith, small) in
      let next : f - 1 + 1 ≡ f = omega arith in
      let (z, runs, inside, last) =
        find_runs_lem n (f + 1) f (get_entry bm f) end bm (omega arith) (omega arith)
          (get_entry_lt bm f)
          (λ g p q. ap (get_entry bm) (let same_frame : g ≡ f = omega arith in same_frame)) in
      rw (change, begins)
        (
          z,
          (refl, omega arith, rw next same, rw next (λ e. ground (arith, e, change)), rw next runs),
          inside,
          last,
        )
]

-- For a memory of at least one frame: the lines that `mem_inspect` prints are, from frame 0 on, the
-- maximal runs of frames with one status, but for the last run, which is never printed.
pub find_runs-AreRuns :
    (total : ℕ) (bm : Memory)
    → 0 < total
    → (z : ℕ) × AreRuns bm 0 (find_runs total 0 4 0 bm) z
      × (z < total)
      × All bm z total (get_entry bm z)
unfolding find_runs
find_runs-AreRuns zero bm pos = absurd (omega arith)
find_runs-AreRuns (suc n) bm pos =
    let first : (get_entry bm 0 == 4) ≡ false = ground (arith, get_entry_lt bm 0) in
    rw first (
      find_runs_lem n 1 0 (get_entry bm 0) (suc n) bm (omega arith) (omega arith)
        (get_entry_lt bm 0)
        (λ g p q. ap (get_entry bm) (let same_frame : g ≡ 0 = omega arith in same_frame)))
