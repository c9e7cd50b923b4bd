-- ===== src/Minix/Install/Needed.antt =====
-- The space that `minix_write` demands before it copies the kernel.
use ata_driver.Common.{ℕ, ◌+◌, ◌-◌, ◌/◌, ◌≤◌, ◌<◌, arith, ltb, if◌then◌else◌}
use ata_driver.Minix.{blocks_of}
use ata_driver.Minix.Install.{zones_needed}

-- The zones of a file of `b` blocks: the blocks, the single indirect block, the double indirect
-- block and the blocks below it.
abbrev pub zones_of : ℕ → ℕ
zones_of b =
    b
    + (if ltb 7 b then 1 else 0)
    + (if ltb (7 + 512) b then 1 + ((b - 7 - 512 - 1) / 512 + 1) else 0)

-- For a kernel that is not empty, the free zones that `minix_write` demands are enough for the
-- blocks of the kernel and all their indirect blocks, and at most two too many.
pub zones_needed-zones_of :
    (size : ℕ)
    → 0 < size
    → (zones_of (blocks_of size) ≤ zones_needed size)
      × (zones_needed size ≤ zones_of (blocks_of size) + 2)
unfolding zones_needed blocks_of
zones_needed-zones_of size h = (ground (arith, h), ground (arith, h))
