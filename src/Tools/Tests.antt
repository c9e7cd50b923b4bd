-- ===== src/Tools/Tests.antt =====
-- Runs of the image tool.
use ata_driver.Common.{
  ◌+◌, get_elem?, ℕ, zero, suc, ◌<◌, ◌≡◌, refl, arith, codes, Bool, true, false, ◌&&◌, some, List,
  [], ◌∷◌, ◌==◌, if◌then◌else◌, get_or,
}
use ata_driver.Minix.{Disk}
use ata_driver.Tools.{Libc, wrote}
use ata_driver.Tools.Mbr.{mbr_write}
use ata_driver.Tools.Mbr.Sector.{HasTokens, IsPartitioned, mbr_write-IsPartitioned}

abbrev equal : List ℕ → List ℕ → Bool
equal [] [] = true
equal [] (d ∷ ds) = false
equal (c ∷ cs) [] = false
equal (c ∷ cs) (d ∷ ds) = (c == d) && equal cs ds

-- Every number is one character, its code; every token too.
abbrev plain : Libc
plain = record {
  atoi = λ s. get_or s 0 0;
  tokens = λ s. (1 ∷ []) ∷ (9 ∷ []) ∷ (0x81 ∷ []) ∷ (1 ∷ []) ∷ [];
  same = equal;
}

abbrev mbr_argv : List (List ℕ)
mbr_argv = codes "btool" ∷ codes "mbr" ∷ codes "disk" ∷ codes "image" ∷ codes "1,9,129,1" ∷ []

abbrev blank : Disk
blank = record { size = 4096; byte = λ x. 0 }

definitions-HasTokens : (i : ℕ) → i < 4 → HasTokens plain (get_elem? mbr_argv (i + 4))
definitions-HasTokens zero l = omega arith
definitions-HasTokens (suc zero) l = tt
definitions-HasTokens (suc (suc zero)) l = tt
definitions-HasTokens (suc (suc (suc zero))) l = tt
definitions-HasTokens (suc (suc (suc (suc i)))) l = absurd (omega arith)

mbr_write-IsPartitioned_example :
    (new : Disk) × (mbr_write plain mbr_argv (some blank) (some blank) ≡ wrote new)
    × IsPartitioned plain mbr_argv blank blank new
mbr_write-IsPartitioned_example =
    mbr_write-IsPartitioned plain mbr_argv blank blank (omega arith) refl definitions-HasTokens

-- One active MINIX partition of 9 sectors from sector 1 on.
abbrev partitioned : Disk
partitioned = record {
  size = 4096;
  byte = λ x.
      if x == 446
      then 0x80
      else (if x == 450 then 0x81 else (if x == 454 then 1 else (if x == 458 then 9 else 0)));
}

abbrev boot_argv : List (List ℕ)
boot_argv = codes "btool" ∷ codes "boot" ∷ codes "disk" ∷ codes "image" ∷ []
