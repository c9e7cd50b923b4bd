-- ===== src/Minix/Tests.antt =====
-- Runs on a small empty file system.
use ata_driver.Common.{ℕ, ◌+◌, ◌<◌, ◌≤◌, ◌≡◌, ◌≢◌, refl, arith, Option, none, some}
use ata_driver.Minix.{
  Fs, Inode, load_block, put_block, store_block, get_bit, set_bit, find_clear, take_zone,
  file_block_2_block, blocks_of, indirect, enter, add_indirect, add_file_block, load_inode,
  save_inode,
}
use ata_driver.Minix.Zones.{IsZoneTaken, take_zone-IsZoneTaken}
use ata_driver.Minix.Files.{file_block_2_block-add_file_block}
use ata_driver.Minix.Install.{zones_needed}
use ata_driver.Minix.Install.Needed.{zones_of, zones_needed-zones_of}
use ata_driver.Minix.Layout.{IsWide, SameInode}
use ata_driver.Minix.Inodes.{load_inode-save_inode}
use ata_driver.Minix.Inodes.Back.{IsSameImage, save_inode-load_inode}

abbrev small_fs : Fs
small_fs = record {
  ps = 512;
  inodes = 32;
  nzones = 20;
  imap_blocks = 1;
  zmap_blocks = 1;
  first_data_zone = 10;
  disk = record { size = 65536; byte = λ x. 0 };
  inodes_map = λ x. 3;
  zones_map = λ x. 1;
}

-- A file of seven blocks, so that the next one needs the indirect block.
abbrev seven_blocks : Inode
seven_blocks = record {
  mode = 0x8180;
  uid = 0;
  size = 7168;
  time = 1000000;
  gid = 0;
  nlinks = 1;
  zones = λ j. j + 20;
}

abbrev or_else : {A : Type 0} → A → Option A → A
or_else d none = d
or_else d (some a) = a

take_zone-IsZoneTaken_example : IsZoneTaken small_fs (take_zone small_fs)
take_zone-IsZoneTaken_example = take_zone-IsZoneTaken small_fs

abbrev added : ℕ × Inode × Fs
added = or_else (0, seven_blocks, small_fs) (add_file_block small_fs seven_blocks)

added_run : add_file_block small_fs seven_blocks ≡ some (added.0, added.1, added.2)
unfolding add_file_block add_indirect indirect enter take_zone find_clear get_bit set_bit load_block
    put_block store_block blocks_of
added_run = refl

file_block_2_block-add_file_block_example :
    (file_block_2_block added.2 (let o = added.1 in record o { size = 7500 }) (blocks_of 7168)
      ≡ some added.0)
    × ((b : ℕ)
        → b < blocks_of 7168
        → file_block_2_block added.2 (let o = added.1 in record o { size = 7500 }) b
          ≡ file_block_2_block small_fs seven_blocks b)
unfolding blocks_of
file_block_2_block-add_file_block_example =
    file_block_2_block-add_file_block small_fs added.2 seven_blocks added.1 added.0 7500
      (omega arith) added_run (omega arith)

seven_blocks-IsWide : IsWide seven_blocks
seven_blocks-IsWide = record {
  mode = omega arith;
  uid = omega arith;
  size = omega arith;
  time = omega arith;
  gid = omega arith;
  nlinks = omega arith;
  zones = λ j p. omega (arith, p);
}

abbrev saved : Fs
saved = or_else small_fs (save_inode small_fs 2 seven_blocks)

saved_run : save_inode small_fs 2 seven_blocks ≡ some saved
unfolding save_inode load_block store_block
saved_run = refl

load_inode-save_inode_example :
    ((inode' : Inode) × (load_inode saved 2 ≡ some inode') × SameInode seven_blocks inode')
    × ((old : Inode)
        → ◌≢◌ {A = ℕ} 2 3
        → load_inode small_fs 3 ≡ some old
        → (new : Inode) × (load_inode saved 3 ≡ some new) × SameInode old new)
load_inode-save_inode_example =
    load_inode-save_inode small_fs saved 2 3 seven_blocks seven_blocks-IsWide
      ((omega arith), (omega arith), (omega arith)) ((omega arith), (omega arith), (omega arith))
      saved_run

zones_needed-zones_of_example :
    (zones_of (blocks_of 7168) ≤ zones_needed 7168)
    × (zones_needed 7168 ≤ zones_of (blocks_of 7168) + 2)
zones_needed-zones_of_example = zones_needed-zones_of 7168 (omega arith)

save_inode-load_inode_example :
    (inode : Inode) × (load_inode small_fs 3 ≡ some inode)
    × IsWide inode
    × (fs' : Fs) × (save_inode small_fs 3 inode ≡ some fs')
    × IsSameImage small_fs fs'
save_inode-load_inode_example = save_inode-load_inode small_fs 3 (omega arith, omega arith)
