-- ===== src/Tools/Mbr/Table.antt =====
-- The partition table: what is written to an entry is read from it, and nothing else changes.
use mathlib.Core.Path.{subst}
use mathlib.Core.Option.{none-ne-some, some-injective}
use ata_driver.Common.{ℕ, ◌+◌, ◌^◌, ◌≤◌, ◌<◌, ◌≡◌, ◌∙◌, ◌⊎◌, arith, some, List, [], ◌∷◌, u8}
use ata_driver.Minix.{Bytes, int_from}
use ata_driver.Minix.Volume.{entry_at}
use ata_driver.Tools.{Libc, Part, part_at}
use ata_driver.Tools.Mbr.{part_of, put_int, set_part}

-- The fields fit.
pub record IsPart (p : Part) : Type 0 where
  pub status : p.status < 2 ^ 8
  pub kind : p.kind < 2 ^ 8
  pub start : p.start < 2 ^ 32
  pub sectors : p.sectors < 2 ^ 32

pub part_of-IsPart : (c : Libc) (ts : List (List ℕ)) (p : Part) → part_of c ts ≡ some p → IsPart p
unfolding part_of
part_of-IsPart c (start ∷ sectors ∷ kind ∷ status ∷ _) p e =
    subst IsPart (some-injective _ _ e) (record {
      status = ground arith;
      kind = omega arith;
      start = omega arith;
      sectors = omega arith;
    })
part_of-IsPart c (start ∷ sectors ∷ kind ∷ []) p e = absurd (none-ne-some p e)
part_of-IsPart c (start ∷ sectors ∷ []) p e = absurd (none-ne-some p e)
part_of-IsPart c (start ∷ []) p e = absurd (none-ne-some p e)
part_of-IsPart c [] p e = absurd (none-ne-some p e)

int_from-put_int : (o v : ℕ) (mbr : Bytes) → v < 2 ^ 32 → int_from (put_int o v mbr) o ≡ v
int_from-put_int o v mbr small = ground (arith, small)

int_same :
    (o : ℕ) (mbr mbr' : Bytes)
    → ((x : ℕ) → o ≤ x → x < o + 4 → u8 (mbr' x) ≡ u8 (mbr x))
    → int_from mbr' o ≡ int_from mbr o
int_same o mbr mbr' same = omega (
  arith,
  same o (omega arith) (omega arith),
  same (o + 1) (omega arith) (omega arith),
  same (o + 2) (omega arith) (omega arith),
  same (o + 2 + 1) (omega arith) (omega arith),
)

part_eq :
    {p q : Part}
    → p.status ≡ q.status
    → p.kind ≡ q.kind
    → p.start ≡ q.start
    → p.sectors ≡ q.sectors
    → p ≡ q
part_eq a b c d = λ i. record { status = a i; kind = b i; start = c i; sectors = d i }

-- Bytes that agree hold the same entry.
pub part_at-same :
    (i : ℕ) (mbr mbr' : Bytes)
    → ((x : ℕ) → entry_at i ≤ x → x < entry_at (i + 1) → u8 (mbr' x) ≡ u8 (mbr x))
    → part_at i mbr' ≡ part_at i mbr
part_at-same i mbr mbr' same =
    part_eq (same (entry_at i) (omega arith) (omega arith))
      (same (entry_at i + 4) (omega arith) (omega arith))
      (int_same (entry_at i + 8) mbr mbr' (λ x p q. same x (omega arith) (omega arith)))
      (int_same (entry_at i + 12) mbr mbr' (λ x p q. same x (omega arith) (omega arith)))

pub part_at-set_part :
    (i : ℕ) (p : Part) (mbr : Bytes) → IsPart p → part_at i (set_part i p mbr) ≡ p
unfolding set_part
part_at-set_part i p mbr v =
    part_eq (ground (arith, v.status)) (ground (arith, v.kind))
      (int_same (entry_at i + 8) (put_int (entry_at i + 8) p.start mbr) (set_part i p mbr)
          (λ x l u. ground arith)
        ∙ int_from-put_int (entry_at i + 8) p.start mbr v.start)
      (int_same (entry_at i + 12)
          (put_int (entry_at i + 12) p.sectors (put_int (entry_at i + 8) p.start mbr))
          (set_part i p mbr) (λ x l u. ground arith)
        ∙ int_from-put_int (entry_at i + 12) p.sectors (put_int (entry_at i + 8) p.start mbr)
            v.sectors)

pub set_part-others :
    (i : ℕ) (p : Part) (mbr : Bytes) (x : ℕ)
    → (x < entry_at i) ⊎ (entry_at (i + 1) ≤ x)
    → set_part i p mbr x ≡ mbr x
unfolding set_part
set_part-others i p mbr x out = ground (arith, out)
