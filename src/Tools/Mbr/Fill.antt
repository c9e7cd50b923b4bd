-- ===== src/Tools/Mbr/Fill.antt =====
-- The first sector that `mbr_write` makes of the partition definitions.
use mathlib.Core.Path.{subst}
use mathlib.Core.Option.{none-ne-some, some-injective}
use ata_driver.Common.{
  ℕ, zero, suc, ◌+◌, ◌≤◌, ◌<◌, ◌≡◌, ◌∙◌, refl, ap, inl, inr, ◌⊎◌, arith, Option, none, some, List,
  ◌==◌, u8, get_elem?, Bool-cases,
}
use ata_driver.Minix.{Bytes}
use ata_driver.Minix.Volume.{entry_at}
use ata_driver.Tools.{Libc, Part, part_at}
use ata_driver.Tools.Mbr.Table.{
  IsPart, part_of-IsPart, part_at-same, part_at-set_part, set_part-others,
}
use ata_driver.Tools.Mbr.{part_of, defined, definition, set_part, fill_table}

-- An entry behind the loop.
abbrev pub Holds : Option (Option Part) → ℕ → Bytes → Bytes → Type 0
Holds none i mbr mbr' = part_at i mbr' ≡ part_at i mbr
Holds (some none) i mbr mbr' = Unit {0}
Holds (some (some p)) i mbr mbr' = part_at i mbr' ≡ p

-- The definitions that are there are complete.
abbrev pub Complete : Option (Option Part) → Type 0
Complete none = Unit {0}
Complete (some none) = ⊥
Complete (some (some p)) = Unit {0}

-- What the loop leaves: every entry as its definition says, and all other bytes as they were.
abbrev pub Filled : Libc → ℕ → ℕ → List (List ℕ) → Bytes → Type 0
Filled c n i argv mbr =
    (mbr' : Bytes) × (fill_table c n i argv mbr ≡ some mbr')
    × ((j : ℕ) → i ≤ j → j < i + n → Holds (definition c argv j) j mbr mbr')
    × ((x : ℕ) → (x < entry_at i) ⊎ (entry_at (i + n) ≤ x) → mbr' x ≡ mbr x)

defined-IsPart :
    (c : Libc) (o : Option (List ℕ)) (p : Part) → defined c o ≡ some (some p) → IsPart p
unfolding defined
defined-IsPart c none p e = absurd (none-ne-some (some p) e)
defined-IsPart c (some arg) p e =
    part_of-IsPart c (c.tokens arg) p (some-injective (part_of c (c.tokens arg)) (some p) e)

definition-IsPart :
    (c : Libc) (argv : List (List ℕ)) (i : ℕ) (p : Part)
    → definition c argv i ≡ some (some p)
    → IsPart p
definition-IsPart c argv i p e = defined-IsPart c (get_elem? argv (i + 4)) p e

Holds-same :
    (d : Option (Option Part)) (j : ℕ) (mbr mbr₁ mbr' : Bytes)
    → ((x : ℕ) → entry_at j ≤ x → x < entry_at (j + 1) → u8 (mbr₁ x) ≡ u8 (mbr x))
    → Holds d j mbr₁ mbr'
    → Holds d j mbr mbr'
Holds-same none j mbr mbr₁ mbr' same h = h ∙ part_at-same j mbr mbr₁ same
Holds-same (some none) j mbr mbr₁ mbr' same h = tt
Holds-same (some (some p)) j mbr mbr₁ mbr' same h = h

pub Holds-after :
    (d : Option (Option Part)) (j : ℕ) (mbr mbr₁ mbr' : Bytes)
    → ((x : ℕ) → entry_at j ≤ x → x < entry_at (j + 1) → u8 (mbr' x) ≡ u8 (mbr₁ x))
    → Holds d j mbr mbr₁
    → Holds d j mbr mbr'
Holds-after none j mbr mbr₁ mbr' same h = part_at-same j mbr₁ mbr' same ∙ h
Holds-after (some none) j mbr mbr₁ mbr' same h = tt
Holds-after (some (some p)) j mbr mbr₁ mbr' same h = part_at-same j mbr₁ mbr' same ∙ h

Filled-cons :
    (c : Libc) (n i : ℕ) (argv : List (List ℕ)) (mbr mbr₁ : Bytes)
    → fill_table c (suc n) i argv mbr ≡ fill_table c n (i + 1) argv mbr₁
    → Holds (definition c argv i) i mbr mbr₁
    → ((x : ℕ) → (x < entry_at i) ⊎ (entry_at (i + 1) ≤ x) → mbr₁ x ≡ mbr x)
    → Filled c n (i + 1) argv mbr₁
    → Filled c (suc n) i argv mbr
Filled-cons c n i argv mbr mbr₁ e here out (mbr', r, holds, others) = (
  mbr',
  e ∙ r,
  (λ j p q. elim (Bool-cases (j == i)) [
    | inl first ↦
        let at : i ≡ j = ground (arith, first) in
        subst (λ k. Holds (definition c argv k) k mbr mbr') at
          (Holds-after (definition c argv i) i mbr mbr₁ mbr'
            (λ x l u. ap u8 (others x (inl (omega arith)))) here)
    | inr later ↦
        let after : i + 1 ≤ j = ground (arith, later) in
        Holds-same (definition c argv j) j mbr mbr₁ mbr'
          (λ x l u. ap u8 (out x (inr (omega arith)))) (holds j after (omega arith))
  ]),
  (λ x far.
      others x (elim far [ inl low ↦ inl (omega arith) | inr high ↦ inr (omega arith) ])
      ∙ out x (elim far [ inl low ↦ inl (omega arith) | inr high ↦ inr (omega arith) ])),
)

Filled-step :
    (c : Libc) (n i : ℕ) (argv : List (List ℕ)) (mbr : Bytes) (d : Option (Option Part))
    → definition c argv i ≡ d
    → Complete (definition c argv i)
    → ((mbr : Bytes) → Filled c n (i + 1) argv mbr)
    → Filled c (suc n) i argv mbr
unfolding fill_table
Filled-step c n i argv mbr none e all rest =
    Filled-cons c n i argv mbr mbr (rw (fill_table, e) refl) (rw e refl) (λ x out. refl) (rest mbr)
Filled-step c n i argv mbr (some none) e all rest = absurd (subst Complete e all)
Filled-step c n i argv mbr (some (some p)) e all rest =
    Filled-cons c n i argv mbr (set_part i p mbr) (rw (fill_table, e) refl)
      (rw e (part_at-set_part i p mbr (definition-IsPart c argv i p e))) (set_part-others i p mbr)
      (rest (set_part i p mbr))

pub fill_table_lem :
    (c : Libc) (n i : ℕ) (argv : List (List ℕ)) (mbr : Bytes)
    → ((j : ℕ) → i ≤ j → j < i + n → Complete (definition c argv j))
    → Filled c n i argv mbr
unfolding fill_table
fill_table_lem c zero i argv mbr all = (mbr, refl, (λ j p q. absurd (omega arith)), (λ x out. refl))
fill_table_lem c (suc n) i argv mbr all =
    Filled-step c n i argv mbr (definition c argv i) refl (all i (omega arith) (omega arith))
      (λ mbr. fill_table_lem c n (i + 1) argv mbr (λ j p q. all j (omega arith) (omega arith)))
