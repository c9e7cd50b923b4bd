-- ===== src/Minix/Volume.antt =====
-- `minix_write` of tools/src/minix.c: the partition, the superblock and the maps. The value of the
-- partition argument and what a variable holds that the program does not set are arguments.
pub mod Maps
pub mod Spared
mod Tests
use ata_driver.Common.{
  ℕ, zero, suc, ◌+◌, ◌-◌, ◌*◌, not, ◌&&◌, ◌||◌, Option, none, some, ◌==◌, ltb, leb, if◌then◌else◌,
  bit_and, u8, u32,
}
use ata_driver.Minix.{
  Bytes, Disk, Fs, ◌>>=◌, int_offset, is_negative, block_size, inode_map, zone_map, load_block,
  short_from, int_from,
}

abbrev pub sector_size : ℕ
sector_size = 512

abbrev pub part_active : ℕ
part_active = 0x80

-- The offset of an entry of the partition table.
abbrev pub entry_at : ℕ → ℕ
entry_at i = 446 + 16 * i

-- The first active partition of the `rounds` from `i` on; `junk` if there is none.
unfoldable pub active_partition : ℕ → ℕ → ℕ → Bytes → ℕ
active_partition zero i junk mbr = junk
active_partition (suc rounds) i junk mbr =
    let rest = active_partition rounds (i + 1) junk mbr in
    if bit_and (u8 (mbr (entry_at i))) part_active == 0 then rest else i

-- The start of the partition, the 32 bits of the `int` `ps`, which is negative from 2^31 on. An
-- argument is counted from 1, and 0 stands for any below.
unfoldable pub partition_start : Option ℕ → ℕ → Disk → Option ℕ
partition_start choice junk disk =
    let mbr = disk.byte in
    let partno : Option ℕ = elim choice [
      | none ↦ some (active_partition 4 0 junk mbr)
      | some n ↦ if n == 0 then none else some (n - 1)
    ] in
    if ltb disk.size sector_size
    then none
    else (partno >>= λ i.
        if ltb 3 i || not (u8 (mbr (entry_at i + 4)) == 0x81)
        then none
        else some (u32 (sector_size * int_from mbr (entry_at i + 8))))

-- The map of `blocks` blocks from block `first` on.
unfoldable pub load_map : Disk → ℕ → ℕ → ℕ → Option Bytes
load_map disk ps first blocks =
    let off = int_offset ps first in
    if is_negative off || ltb disk.size (off + blocks * block_size)
    then none
    else some (λ x. u8 (disk.byte (off + x)))

unfoldable pub put_map : ℕ → ℕ → ℕ → Bytes → Disk → Disk
put_map ps first blocks map disk =
    let off = int_offset ps first in
    let end = off + blocks * block_size in
    record {
      size = if ltb disk.size end then end else disk.size;
      byte = λ x.
          if leb off x && ltb x end
          then u8 (map (x - off))
          else (if ltb x disk.size then disk.byte x else 0);
    }

unfoldable pub store_map : ℕ → ℕ → ℕ → Bytes → Disk → Option Disk
store_map ps first blocks map disk =
    if is_negative (int_offset ps first) then none else some (put_map ps first blocks map disk)

-- The superblock and the maps.
unfoldable pub mount : ℕ → Disk → Option Fs
mount ps disk =
    let bare : Fs = record {
      ps = ps;
      inodes = 0;
      nzones = 0;
      imap_blocks = 0;
      zmap_blocks = 0;
      first_data_zone = 0;
      disk = disk;
      inodes_map = λ x. 0;
      zones_map = λ x. 0;
    } in
    load_block bare 1 >>= λ sb.
    let fs = record bare {
      inodes = short_from sb 0;
      nzones = short_from sb 2;
      imap_blocks = short_from sb 4;
      zmap_blocks = short_from sb 6;
      first_data_zone = short_from sb 8;
    } in
    load_map disk ps inode_map fs.imap_blocks >>= λ imap.
    load_map disk ps (zone_map fs) fs.zmap_blocks >>= λ zmap.
    some (record fs { inodes_map = imap; zones_map = zmap })

unfoldable pub unmount : Fs → Option Disk
unmount fs = store_map fs.ps inode_map fs.imap_blocks fs.inodes_map fs.disk >>= λ disk.
    store_map fs.ps (zone_map fs) fs.zmap_blocks fs.zones_map disk
