-- ===== src/Tools/Mbr/Sector.antt =====
-- The first sector that `mbr_write` makes, byte by byte.
use mathlib.Core.Path.{subst}
use mathlib.Core.Option.{none-ne-some, some-injective}
use ata_driver.Common.{
  codes, length, get_or, ℕ, zero, suc, ◌+◌, ◌*◌, ◌^◌, ◌%◌, ◌≤◌, ◌<◌, ◌≡◌, ◌≢◌, ◌∙◌, ◌⊎◌, inl, inr,
  refl, sym, ap, arith, false, Option, none, some, List, [], ◌∷◌, ◌==◌, ltb, if◌then◌else◌, u8, u32,
  get_elem?, Bool-cases,
}
use ata_driver.Minix.{Bytes, Disk}
use ata_driver.Minix.Volume.{sector_size}
use ata_driver.Tools.{Libc, Part, part_at, wrote, write_at, read_start}
use ata_driver.Tools.Mbr.{part_of, defined, definition, set_part, fill_table, sign, mbr_write}
use ata_driver.Tools.Mbr.Fill.{Complete, Holds, Holds-after, fill_table_lem}

-- The tokens START, SIZE, TYPE and BOOT of a definition describe the entry `p`.
abbrev pub IsDescribed : Libc → List (List ℕ) → Part → Type 0
IsDescribed c (start ∷ size ∷ kind ∷ boot ∷ _) p =
    (p.start ≡ u32 (c.atoi start))
    × (p.sectors ≡ u32 (c.atoi size))
    × (p.kind ≡ u8 (c.atoi kind))
    × ((c.atoi boot % 2 ^ 32 ≡ 0) × (p.status ≡ 0) ⊎ (c.atoi boot % 2 ^ 32 ≢ 0) × (p.status ≡ 0x80))
IsDescribed c _ p = ⊥

-- The entry that the argument of entry `i`, if there is one, leaves of the entry `old`.
abbrev pub Described : Libc → Option (List ℕ) → Part → Part → Type 0
Described c none old p = p ≡ old
Described c (some arg) old p = IsDescribed c (c.tokens arg) p

-- An argument that is there has four tokens.
abbrev pub HasTokens : Libc → Option (List ℕ) → Type 0
HasTokens c none = Unit {0}
HasTokens c (some arg) = 4 ≤ length (c.tokens arg)

-- A byte of the sector that is no status, type, start or size of an entry, nor the signature.
pub record IsElse (x : ℕ) : Type 0 where
  pub inside : x < 510
  pub status : (i : ℕ) → i < 4 → x ≢ 446 + 16 * i
  pub kind : (i : ℕ) → i < 4 → x ≢ 450 + 16 * i
  pub numbers : (i : ℕ) → i < 4 → (x < 454 + 16 * i) ⊎ (462 + 16 * i ≤ x)

-- What `mbr_write` leaves of an image and of the disk that was there.
pub record IsPartitioned (c : Libc) (argv : List (List ℕ)) (file old new : Disk) : Type 0 where
  pub entries :
      (i : ℕ)
      → i < 4
      → Described c
          (get_elem? argv (i + 4))
          (part_at i (read_start 512 file (λ x. 0)))
          (part_at i new.byte)
  pub image : (x : ℕ) → IsElse x → new.byte x ≡ (if ltb x file.size then u8 (file.byte x) else 0)
  pub signature : (new.byte 510 ≡ 0x55) × (new.byte 511 ≡ 0xaa)
  pub others : (x : ℕ) → 512 ≤ x → x < old.size → new.byte x ≡ old.byte x
  pub size : new.size ≡ (if ltb old.size 512 then 512 else old.size)

part_of-IsDescribed :
    (c : Libc) (ts : List (List ℕ)) (p : Part) → part_of c ts ≡ some p → IsDescribed c ts p
unfolding part_of
part_of-IsDescribed c (start ∷ size ∷ kind ∷ boot ∷ rest) p e =
    subst (IsDescribed c (start ∷ size ∷ kind ∷ boot ∷ rest)) (some-injective _ _ e) (
      refl,
      refl,
      refl,
      elim (Bool-cases (u32 (c.atoi boot) == 0)) [
        | inl off ↦ inl (ground (arith, off), rw off refl)
        | inr on ↦ inr (ground (arith, on), rw on refl)
      ],
    )
part_of-IsDescribed c (start ∷ size ∷ kind ∷ []) p e = absurd (none-ne-some p e)
part_of-IsDescribed c (start ∷ size ∷ []) p e = absurd (none-ne-some p e)
part_of-IsDescribed c (start ∷ []) p e = absurd (none-ne-some p e)
part_of-IsDescribed c [] p e = absurd (none-ne-some p e)

part_of_complete :
    (c : Libc) (ts : List (List ℕ)) → 4 ≤ length ts → (p : Part) × (part_of c ts ≡ some p)
unfolding part_of
part_of_complete c (start ∷ size ∷ kind ∷ boot ∷ _) l = (_, refl)
part_of_complete c (start ∷ size ∷ kind ∷ []) l = absurd (omega arith)
part_of_complete c (start ∷ size ∷ []) l = absurd (omega arith)
part_of_complete c (start ∷ []) l = absurd (omega arith)
part_of_complete c [] l = absurd (omega arith)

HasTokens-Complete : (c : Libc) (o : Option (List ℕ)) → HasTokens c o → Complete (defined c o)
unfolding defined
HasTokens-Complete c none h = tt
HasTokens-Complete c (some arg) h =
    let (p, e) = part_of_complete c (c.tokens arg) h in subst (λ o. Complete (some o)) (sym e) tt

Holds-Described :
    (c : Libc) (o : Option (List ℕ)) (i : ℕ) (mbr mbr' : Bytes)
    → HasTokens c o
    → Holds (defined c o) i mbr mbr'
    → Described c o (part_at i mbr) (part_at i mbr')
unfolding defined
Holds-Described c none i mbr mbr' h held = held
Holds-Described c (some arg) i mbr mbr' h held =
    let (p, e) = part_of_complete c (c.tokens arg) h in
    let same : part_at i mbr' ≡ p = subst (λ o. Holds (some o) i mbr mbr') e held in
    subst (IsDescribed c (c.tokens arg)) (sym same) (part_of-IsDescribed c (c.tokens arg) p e)

set_part-else :
    (i : ℕ) (p : Part) (mbr : Bytes) (x : ℕ) → i < 4 → IsElse x → set_part i p mbr x ≡ mbr x
unfolding set_part
set_part-else i p mbr x l v = ground (arith, v.status i l, v.kind i l, v.numbers i l)

-- The loop leaves the other bytes of the table.
Keeps : Bytes → Option Bytes → Type 0
Keeps mbr none = Unit {0}
Keeps mbr (some mbr') = (x : ℕ) → IsElse x → mbr' x ≡ mbr x

Keeps-after :
    (mbr mbr₁ : Bytes) (o : Option Bytes)
    → ((x : ℕ) → IsElse x → mbr₁ x ≡ mbr x)
    → Keeps mbr₁ o
    → Keeps mbr o
unfolding Keeps
Keeps-after mbr mbr₁ none same k = tt
Keeps-after mbr mbr₁ (some mbr') same k = λ x v. k x v ∙ same x v

fill_table-Keeps :
    (c : Libc) (n i : ℕ) (argv : List (List ℕ)) (mbr : Bytes)
    → i + n ≤ 4
    → Keeps mbr (fill_table c n i argv mbr)
unfolding fill_table Keeps
fill_table-Keeps c zero i argv mbr l = λ x v. refl
fill_table-Keeps c (suc n) i argv mbr l =
    elim (definition c argv i)
      as (λ d. Keeps mbr (elim d [
        | none ↦ fill_table c n (i + 1) argv mbr
        | some none ↦ none
        | some (some p) ↦ fill_table c n (i + 1) argv (set_part i p mbr)
      ])) [
        | none ↦ fill_table-Keeps c n (i + 1) argv mbr (omega (arith, l))
        | some none ↦ tt
        | some (some p) ↦
            Keeps-after mbr (set_part i p mbr) (fill_table c n (i + 1) argv (set_part i p mbr))
              (λ x v. set_part-else i p mbr x (omega (arith, l)) v)
              (fill_table-Keeps c n (i + 1) argv (set_part i p mbr) (omega (arith, l)))
      ]

-- With at least the two file names, the first of which is not "--help", both files there, and four
-- tokens in each of the up to four partition definitions: `mbr_write` succeeds. Each entry of the
-- new first sector has the start, the size, the type and the status that its definition says; the
-- entries without a definition, and all other bytes of the sector but the signature, are those of
-- the image, with zeros behind its end; and nothing behind that sector changes.
pub mbr_write-IsPartitioned :
    (c : Libc) (argv : List (List ℕ)) (old file : Disk)
    → 4 ≤ length argv
    → c.same (get_or argv 2 []) (codes "--help") ≡ false
    → ((i : ℕ) → i < 4 → HasTokens c (get_elem? argv (i + 4)))
    → (new : Disk) × (mbr_write c argv (some old) (some file) ≡ wrote new)
      × IsPartitioned c argv file old new
unfolding mbr_write read_start write_at Keeps
mbr_write-IsPartitioned c argv old file enough given all =
    let before = read_start sector_size file (λ x. 0) in
    let (mbr, e, entries, others) =
      fill_table_lem c 4 0 argv before
        (λ j p q. HasTokens-Complete c (get_elem? argv (j + 4)) (all j (omega (arith, q)))) in
    let kept : Keeps before (some mbr) =
      subst (Keeps before) e (fill_table-Keeps c 4 0 argv before (omega arith)) in
    let new = write_at 0 sector_size (sign mbr) old in
    let few : ltb (length argv) 4 ≡ false = ground (arith, enough) in
    let copied : (x : ℕ) → x < 510 → new.byte x ≡ u8 (mbr x) = λ x l. ground (arith, l) in
    (
      new,
      rw (few, given, e) refl,
      record {
        entries = λ i l. Holds-Described c (get_elem? argv (i + 4)) i before new.byte (all i l) (
            Holds-after (definition c argv i) i before mbr new.byte
              (λ x p q. ap u8 (copied x (omega (arith, l))) ∙ omega arith)
              (entries i (omega arith) l));
        image = λ x v. ground (arith, copied x v.inside, kept x v, v.inside);
        signature = (ground arith, ground arith);
        others = λ x l q. ground (arith, l, q);
        size = refl;
      },
    )
