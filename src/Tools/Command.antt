-- ===== src/Tools/Command.antt =====
-- The choice of a command: `main` of tools/src/btool.c.
use ata_driver.Common.{
  ℕ, ◌^◌, Option, none, some, List, [], leb, ltb, if◌then◌else◌, u32, codes, length, get_or,
  get_elem?,
}
use ata_driver.Minix.{Bytes, Disk}
use ata_driver.Minix.Install.{minix_write}
use ata_driver.Tools.{Libc, Exit, wrote, helped, quit}
use ata_driver.Tools.Mbr.{mbr_write}
use ata_driver.Tools.Boot.{bootloader_write}

-- The two files that the arguments name, the time, and what variables that the program does not set
-- hold.
pub record Surroundings : Type 0 where
  pub disk : Option Disk
  pub image : Option Disk
  pub time : ℕ
  pub boot : Bytes
  pub partno : ℕ
  pub block : ℕ

-- The number of a partition, counted from 1; 0 stands for any below.
abbrev pub partition_argument : Libc → List (List ℕ) → Option ℕ
partition_argument c argv = elim (get_elem? argv 4) [
  | none ↦ none
  | some arg ↦ let n = u32 (c.atoi arg) in some (if leb (2 ^ 31) n then 0 else n)
]

-- `minix_write` with its files.
pub kernel_write : Libc → List (List ℕ) → Surroundings → Exit
kernel_write c argv s = elim s.disk [
  | none ↦ quit
  | some disk ↦ elim s.image [
    | none ↦ quit
    | some file ↦
        elim (minix_write (partition_argument c argv) s.partno s.block s.time file.size file.byte
          disk) [ none ↦ quit | some new ↦ wrote new ]
  ]
]

pub main : Libc → List (List ℕ) → Surroundings → Exit
unfolding kernel_write
main c argv s =
    let cmd = get_or argv 1 [] in
    if ltb (length argv) 2
    then helped 0
    else (if c.same cmd (codes "mbr")
        then mbr_write c argv s.disk s.image
        else (if c.same cmd (codes "boot")
            then bootloader_write c argv s.boot s.disk s.image
            else (if c.same cmd (codes "kernel") then kernel_write c argv s else helped 0)))
