-- ===== src/Minix/Install/Tests.antt =====
-- An image with one active partition: a root directory of two entries and no kernel.
use ata_driver.Common.{
  ℕ, ◌+◌, ◌≡◌, refl, Bool, true, false, ◌&&◌, arith, List, [], ◌∷◌, Option, none, some, ◌==◌,
  if◌then◌else◌,
}
use ata_driver.Minix.{
  Bytes, Disk, load_block, put_block, store_block, get_bit, set_bit, find_clear, take_zone,
  file_block_2_block, zone_of, blocks_of, add_file_block, add_direct, decode, encode, load_inode,
  save_inode,
}
use ata_driver.Minix.Volume.{
  partition_start, active_partition, load_map, put_map, store_map, mount, unmount,
}
use ata_driver.Minix.Before.{Each}
use ata_driver.Minix.Volume.Spared.{IsSpared}
use ata_driver.Minix.Install.Spared.{minix_write-IsSpared}
use ata_driver.Minix.Install.{
  find_kernel, delete_kernel, zones_needed, count_free, copy_kernel, free_dentry, link_kernel,
  install, minix_write,
}

abbrev look : List (ℕ × ℕ) → Bytes
look [] x = 0
look (r ∷ rs) x = if x == r.0 then r.1 else look rs x

-- The partition table, the superblock, the maps, the inode of the root and its entries.
abbrev blank : Disk
blank = record {
  size = 65536;
  byte = look (
      (446, 0x80)
      ∷ (450, 0x81)
      ∷ (454, 1)
      ∷ (1536, 32)
      ∷ (1538, 20)
      ∷ (1540, 1)
      ∷ (1542, 1)
      ∷ (1544, 10)
      ∷ (2560, 3)
      ∷ (3584, 1)
      ∷ (4609, 0x41)
      ∷ (4612, 64)
      ∷ (4622, 10)
      ∷ (10752, 1)
      ∷ (10754, 46)
      ∷ (10784, 1)
      ∷ (10786, 46)
      ∷ (10787, 46)
      ∷ []);
}

-- Whether there is an image in which byte `y` is `b`.
abbrev holds : Option Disk → ℕ → ℕ → Bool
holds none y b = false
holds (some d) y b = d.byte y == b

-- The image after a kernel of three bytes was written to it.
abbrev result : Option Disk
result = minix_write none 0 0 0 3 (λ x. 65 + x) blank

-- The kernel's first byte in a zone of its own, its size in inode 2, and the name in the directory.
kernel_written : (holds result 11776 65 && holds result 4644 3 && holds result 10818 107) ≡ true
unfolding partition_start active_partition load_map put_map store_map mount unmount load_block
    put_block store_block get_bit set_bit find_clear take_zone file_block_2_block zone_of blocks_of
    add_file_block add_direct decode encode load_inode save_inode find_kernel delete_kernel
    zones_needed count_free copy_kernel free_dentry link_kernel install minix_write
kernel_written = refl

start : partition_start none 0 blank ≡ some 512
unfolding partition_start active_partition
start = refl

minix_write-IsSpared_example : Each (IsSpared 512 blank) result
minix_write-IsSpared_example =
    minix_write-IsSpared none 0 0 0 3 (λ x. 65 + x) blank 512 start (omega arith)
