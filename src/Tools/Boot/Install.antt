-- ===== src/Tools/Boot/Install.antt =====
-- The boot loader and the kernel go to the same partition.
use ata_driver.Common.{
  ℕ, ◌+◌, ◌-◌, ◌*◌, ◌≤◌, ◌<◌, ◌≡◌, ◌⊎◌, true, false, ◌&&◌, leb, ltb, if◌then◌else◌, u8, min,
}
use ata_driver.Minix.{Bytes, Disk, byte_of}
use ata_driver.Minix.Volume.{sector_size}
use ata_driver.Tools.{part_at, is_active}
use ata_driver.Tools.Boot.{boot_size, loader}

-- Entry `i` is active, and no entry from `k` on before it.
pub record IsFirstActive (k i : ℕ) (mbr : Bytes) : Type 0 where
  pub active : is_active (part_at i mbr) ≡ true
  pub before : (j : ℕ) → k ≤ j → j < i → is_active (part_at j mbr) ≡ false

-- The boot loader of `image` at the sector `start` of the disk, with `start` at its offset 2; the
-- partition table and all else is as it was.
pub record IsInstalled (start : ℕ) (image old new : Disk) : Type 0 where
  pub loader :
      (x : ℕ)
      → x < min image.size boot_size
      → new.byte (start * sector_size + x)
        ≡ (if leb 2 x && ltb x 6 then byte_of start (x - 2) else u8 (image.byte x))
  pub others :
      (x : ℕ)
      → x < old.size
      → (x < start * sector_size) ⊎ (start * sector_size + min image.size boot_size ≤ x)
      → new.byte x ≡ old.byte x
  pub table : (i : ℕ) → i < 4 → part_at i new.byte ≡ part_at i old.byte
  pub size : old.size ≤ new.size
