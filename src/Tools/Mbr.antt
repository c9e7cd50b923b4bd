-- ===== src/Tools/Mbr.antt =====
-- tools/src/mbr.c: the partition table and the boot code in the first sector.
pub mod Table
pub mod Fill
pub mod Sector
use ata_driver.Common.{
  codes, ℕ, zero, suc, ◌+◌, ◌-◌, Bool, ◌&&◌, Option, none, some, List, [], ◌∷◌, ◌==◌, leb, ltb,
  if◌then◌else◌, u8, u32, length, get_or, get_elem?,
}
use ata_driver.Minix.{Disk, Bytes, byte_of}
use ata_driver.Minix.Volume.{entry_at, sector_size, part_active}
use ata_driver.Tools.{Libc, Exit, wrote, helped, quit, Part, write_at, read_start}

-- `PART_INACTIVE`
abbrev pub part_inactive : ℕ
part_inactive = 0x00

-- The four tokens of a partition definition. `none` stands for a missing one.
unfoldable pub part_of : Libc → List (List ℕ) → Option Part
part_of c (start ∷ sectors ∷ kind ∷ status ∷ _) = some (record {
  status = if u32 (c.atoi status) == 0 then part_inactive else part_active;
  kind = u8 (c.atoi kind);
  start = u32 (c.atoi start);
  sectors = u32 (c.atoi sectors);
})
part_of c _ = none

abbrev pub put_byte : ℕ → ℕ → Bytes → Bytes
put_byte o v mbr = λ x. if x == o then u8 v else mbr x

abbrev pub put_int : ℕ → ℕ → Bytes → Bytes
put_int o v mbr = λ x. if leb o x && ltb x (o + 4) then byte_of v (x - o) else mbr x

-- The assignments to the fields of `mbr.entries[i]`.
pub set_part : ℕ → Part → Bytes → Bytes
set_part i p mbr =
    let mbr = put_int (entry_at i + 8) p.start mbr in
    let mbr = put_int (entry_at i + 12) p.sectors mbr in
    let mbr = put_byte (entry_at i + 4) p.kind mbr in put_byte (entry_at i) p.status mbr

-- An argument, if there is one, and what its tokens say.
unfoldable pub defined : Libc → Option (List ℕ) → Option (Option Part)
unfolding part_of
defined c none = none
defined c (some arg) = some (part_of c (c.tokens arg))

-- The argument for entry `i`.
abbrev pub definition : Libc → List (List ℕ) → ℕ → Option (Option Part)
definition c argv i = defined c (get_elem? argv (i + 4))

-- The loop over the entries, `rounds` of them from `i` on.
pub fill_table : Libc → ℕ → ℕ → List (List ℕ) → Bytes → Option Bytes
unfolding set_part
fill_table c zero i argv mbr = some mbr
fill_table c (suc rounds) i argv mbr = elim (definition c argv i) [
  | none ↦ fill_table c rounds (i + 1) argv mbr
  | some none ↦ none
  | some (some p) ↦ fill_table c rounds (i + 1) argv (set_part i p mbr)
]

-- `mbr.signature = 0xaa55;`
abbrev pub sign : Bytes → Bytes
sign mbr = put_byte 511 0xaa (put_byte 510 0x55 mbr)

-- `argv[2]` and `argv[3]` name the files `disk` and `image`.
pub mbr_write : Libc → List (List ℕ) → Option Disk → Option Disk → Exit
unfolding fill_table
mbr_write c argv disk image =
    if ltb (length argv) 4
    then helped 1
    else (if c.same (get_or argv 2 []) (codes "--help") then helped 0 else elim image [
      | none ↦ quit
      | some file ↦ elim (fill_table c 4 0 argv (read_start sector_size file (λ x. 0))) [
        | none ↦ quit
        | some mbr ↦ elim disk [
          | none ↦ quit
          | some old ↦ wrote (write_at 0 sector_size (sign mbr) old)
        ]
      ]
    ])
