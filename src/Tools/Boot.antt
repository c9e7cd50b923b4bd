-- ===== src/Tools/Boot.antt =====
-- tools/src/bootloader.c: the boot loader at the start of a partition.
pub mod Install
use ata_driver.Common.{
  codes, ℕ, zero, suc, ◌+◌, ◌-◌, ◌*◌, Bool, ◌&&◌, not, Option, none, some, List, [], ◌∷◌, ◌==◌, leb,
  ltb, if◌then◌else◌, u32, length, get_or, get_elem?, min,
}
use ata_driver.Minix.{Disk, Bytes}
use ata_driver.Minix.Volume.{sector_size}
use ata_driver.Tools.{
  Libc, Exit, wrote, helped, quit, Part, part_at, is_active, write_at, read_start,
}
use ata_driver.Tools.Mbr.{put_int}

-- `sizeof(struct buhos_boot)`
abbrev pub boot_size : ℕ
boot_size = 1024

-- The first active entry of the `rounds` from `i` on; their end if there is none.
pub first_active : ℕ → ℕ → Bytes → ℕ
first_active zero i mbr = i
first_active (suc rounds) i mbr =
    let rest = first_active rounds (i + 1) mbr in if is_active (part_at i mbr) then i else rest

-- The partition that the arguments choose.
pub choose : Libc → List (List ℕ) → Bytes → Option ℕ
unfolding first_active
choose c argv mbr = elim (get_elem? argv 4) [
  | none ↦ let partno = first_active 4 0 mbr in if partno == 4 then none else some partno
  | some arg ↦ let partno = u32 (c.atoi arg) in if ltb 3 partno then none else some partno
]

-- The boot loader with `boot.vbr_offset` set; `junk` is what `boot` holds before.
abbrev pub loader : Bytes → Disk → ℕ → Bytes
loader junk image start = put_int 2 start (read_start boot_size image junk)

-- `argv[2]` and `argv[3]` name the files `disk` and `image`.
pub bootloader_write : Libc → List (List ℕ) → Bytes → Option Disk → Option Disk → Exit
unfolding choose
bootloader_write c argv junk disk image =
    if ltb (length argv) 4
    then helped 1
    else (if c.same (get_or argv 2 []) (codes "--help") then helped 0 else elim disk [
      | none ↦ quit
      | some old ↦ if ltb old.size sector_size then quit else elim (choose c argv old.byte) [
        | none ↦ quit
        | some partno ↦
            let p = part_at partno old.byte in
            if p.sectors == 0 then quit else elim image [
              | none ↦ quit
              | some file ↦ wrote (
                  write_at (u32 (p.start * sector_size)) (min file.size boot_size)
                    (loader junk file p.start) old)
            ]
      ]
    ])
