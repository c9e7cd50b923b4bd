-- ===== src/Mem/Frames/Run.antt =====
-- Runs of free frames, and what marking such a run does to the bitmap.
use ata_driver.Common.{
  ℕ, zero, suc, ◌+◌, ◌-◌, ◌≤◌, ◌<◌, ◌^◌, ◌≡◌, arith, ◌&&◌, ltb, leb, if◌then◌else◌, u32, sub32,
}
use ata_driver.Mem.Bitmap.{
  Memory, entry_free, entry_used, set_entry, get_entry, get_entry-set_entry,
}
use ata_driver.Mem.Frames.{mark_used}

-- The `count` frames from `start` on are free.
abbrev pub IsFreeRun : Memory → ℕ → ℕ → Type 0
IsFreeRun bm start count = (g : ℕ) → start ≤ g → g < start + count → get_entry bm g ≡ entry_free

-- `bm'` has status `status` on the `count` frames from `start` on, and is `bm` elsewhere.
abbrev pub IsMarked : Memory → Memory → ℕ → ℕ → ℕ → Type 0
IsMarked bm bm' start count status =
    (g : ℕ)
    → get_entry bm' g ≡ (if leb start g && ltb g (start + count) then status else get_entry bm g)

pub mark_used-IsMarked :
    (n f : ℕ) (bm : Memory) (g : ℕ)
    → n ≤ suc f
    → f < 2 ^ 32
    → get_entry (mark_used n f bm) g
      ≡ (if leb (suc f - n) g && ltb g (suc f) then entry_used else get_entry bm g)
unfolding mark_used
mark_used-IsMarked zero f bm g h b = ground arith
mark_used-IsMarked (suc n) f bm g h b = ground (
  arith,
  mark_used-IsMarked n f (set_entry bm (u32 (sub32 f (suc n) + 1)) entry_used) g,
  get_entry-set_entry bm (u32 (sub32 f (suc n) + 1)) entry_used g,
)
