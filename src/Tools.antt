-- ===== src/Tools.antt =====
-- tools/src/btool.c and btool.h: the commands of the image tool, over the C library of the host. A
-- file is there or not; errors of the host's input and output, which the commands report as well,
-- are not modelled.
pub mod Mbr
pub mod Boot
pub mod Command
mod Tests
use ata_driver.Common.{
  ℕ, ◌+◌, ◌-◌, ◌*◌, Bool, true, false, not, ◌&&◌, Option, none, some, List, [], ◌∷◌, ◌==◌, leb, ltb,
  if◌then◌else◌, bit_and, u8, u32, length, get_or,
}
use ata_driver.Minix.{Disk, Bytes, int_from, byte_of}
use ata_driver.Minix.Volume.{entry_at, sector_size, part_active}

-- What the commands use of the C library: `atoi` as an unsigned number, the tokens that `strtok`
-- finds between commas, one after the other, and whether `strcmp` finds two strings equal.
pub record Libc : Type 0 where
  pub atoi : List ℕ → ℕ
  pub tokens : List ℕ → List (List ℕ)
  pub same : List ℕ → List ℕ → Bool

-- `wrote`: the command returns 0 and leaves this image. `helped`: it prints its help and returns
-- this value. `quit`: `scream_and_quit`.
pub data Exit : Type 0 where
  wrote : Disk → Exit
  helped : ℕ → Exit
  quit : Exit

-- `struct mbr_entry`, without the two addresses in cylinders, heads and sectors.
pub record Part : Type 0 where
  pub status : ℕ
  pub kind : ℕ
  pub start : ℕ
  pub sectors : ℕ

-- An entry of the partition table.
abbrev pub part_at : ℕ → Bytes → Part
part_at i mbr = record {
  status = u8 (mbr (entry_at i));
  kind = u8 (mbr (entry_at i + 4));
  start = int_from mbr (entry_at i + 8);
  sectors = int_from mbr (entry_at i + 12);
}

abbrev pub is_active : Part → Bool
is_active p = not (bit_and p.status part_active == 0)

-- `fwrite(bytes, 1, n, f)` at the offset `off`. A write behind the end makes the file longer, with
-- zero bytes between.
unfoldable pub write_at : ℕ → ℕ → Bytes → Disk → Disk
write_at off n bytes disk = record {
  size = if ltb disk.size (off + n) then off + n else disk.size;
  byte = λ x.
      if leb off x && ltb x (off + n)
      then u8 (bytes (x - off))
      else (if ltb x disk.size then disk.byte x else 0);
}

-- `fread` of up to `n` bytes from the start of a file into the bytes of `before`.
unfoldable pub read_start : ℕ → Disk → Bytes → Bytes
read_start n file before = λ x. if ltb x n && ltb x file.size then u8 (file.byte x) else before x
