-- ===== src/Str/Number.antt =====
-- `itoa` of src/kernel/string.c.
pub mod RoundTrip
use ata_driver.Common.{
  ℕ, zero, suc, ◌+◌, ◌-◌, ◌*◌, ◌/◌, ◌%◌, Bool, ◌||◌, Option, none, some, List, [], ◌∷◌, ◌++◌, ◌==◌,
  leb, ltb, if◌then◌else◌, length, replicate,
}

-- The entries of `map`.
abbrev pub digit_char : ℕ → ℕ
digit_char r = if ltb r 10 then 48 + r else 87 + r

-- The loop over the digits: what it writes to `tmp`, the last digit first.
pub digits_loop : ℕ → ℕ → ℕ → Option (List ℕ)
digits_loop zero i base = if i == 0 then some [] else none
digits_loop (suc fuel) i base =
    let rest = digits_loop fuel (i / base) base in
    if i == 0
    then some []
    else elim rest [ none ↦ none | some ds ↦ some (digit_char (i % base) ∷ ds) ]

-- What the `switch` adds behind the digits and the padding; for any other base, the zero byte that
-- `c` then points at.
abbrev pub base_mark : ℕ → List ℕ
base_mark base =
    if base == 2 || base == 10
    then []
    else (if base == 8 then 48 ∷ [] else (if base == 16 then 120 ∷ 48 ∷ [] else 0 ∷ []))

abbrev pub rev : List ℕ → List ℕ
rev [] = []
rev (x ∷ xs) = rev xs ++ (x ∷ [])

-- The padding of `tmp`, the base's mark, and the copy to `buf` in reverse order. `none`: more
-- than the 65 bytes of `tmp` are used.
pub print : ℕ → ℕ → List ℕ → Option (List ℕ)
print base padding ds =
    let tmp = (ds ++ replicate (padding - length ds) 0) ++ base_mark base in
    if leb (length tmp) 65 then some (rev tmp ++ (0 ∷ [])) else none

-- The bytes written to `buf`; also `none` where the digits do not end within 32 rounds.
pub itoa : ℕ → ℕ → ℕ → Option (List ℕ)
unfolding print
itoa i base padding = elim (if i == 0 then some (48 ∷ []) else digits_loop 32 i base) [
  | none ↦ none
  | some ds ↦ print base padding ds
]
