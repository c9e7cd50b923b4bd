-- ===== src/Str/Number/RoundTrip.antt =====
-- A number printed by `itoa` reads back as that number.
use mathlib.Core.List.{append-nil, append_assoc}
use ata_driver.Common.{
  codes, ◌⊎◌, ℕ, zero, suc, ◌+◌, ◌-◌, ◌*◌, ◌/◌, ◌%◌, ◌^◌, ◌≤◌, ◌<◌, ◌≡◌, ◌≢◌, ◌∙◌, sym, true, ap,
  refl, inl, inr, arith, Bool-cases, some, List, [], ◌∷◌, ◌++◌, ◌==◌, leb, ltb, if◌then◌else◌,
  length, length-append, replicate,
}
use ata_driver.Str.Number.{digit_char, digits_loop, base_mark, rev, print, itoa}

pub data IsBase : ℕ → Type 0 where
  binary : IsBase 2
  octal : IsBase 8
  decimal : IsBase 10
  hexadecimal : IsBase 16

abbrev pub digit_value : ℕ → ℕ
digit_value c = if ltb c 58 then c - 48 else c - 87

-- A character from '0' to '9' or from 'a' to 'f', of a value below the base.
abbrev pub IsDigit : ℕ → ℕ → Type 0
IsDigit base c = ((48 ≤ c) × (c ≤ 57) ⊎ (97 ≤ c) × (c ≤ 102)) × (digit_value c < base)

abbrev pub IsDigits : ℕ → List ℕ → Type 0
IsDigits base [] = Unit {0}
IsDigits base (c ∷ cs) = IsDigit base c × IsDigits base cs

-- The number that a string of digits denotes, read from left to right.
abbrev pub value_from : ℕ → ℕ → List ℕ → ℕ
value_from base acc [] = acc
value_from base acc (c ∷ cs) = value_from base (acc * base + digit_value c) cs

-- No character is zero.
abbrev pub NonZero : List ℕ → Type 0
NonZero [] = Unit {0}
NonZero (c ∷ s) = (c ≢ 0) × NonZero s

pub NonZero-append : (xs ys : List ℕ) → NonZero xs → NonZero ys → NonZero (xs ++ ys)
NonZero-append [] ys h k = k
NonZero-append (x ∷ xs) ys h k = (h.0, NonZero-append xs ys h.1 k)

IsDigits-append :
    (base : ℕ) (xs ys : List ℕ) → IsDigits base xs → IsDigits base ys → IsDigits base (xs ++ ys)
IsDigits-append base [] ys h k = k
IsDigits-append base (x ∷ xs) ys h k = (h.0, IsDigits-append base xs ys h.1 k)

pub IsDigits-NonZero : (base : ℕ) (ds : List ℕ) → IsDigits base ds → NonZero ds
IsDigits-NonZero base [] h = tt
IsDigits-NonZero base (d ∷ ds) h = (
  (λ e. elim h.0.0 [
    | inl (low, high) ↦ omega (arith, e, low)
    | inr (low, high) ↦ omega (arith, e, low)
  ]),
  IsDigits-NonZero base ds h.1,
)

digit_char-IsDigit : (base r : ℕ) → r < base → base ≤ 16 → IsDigit base (digit_char r)
digit_char-IsDigit base r small few = elim (Bool-cases (ltb r 10)) [
  | inl ten ↦ rw ten (inl (omega arith, ground (arith, ten)), ground (arith, ten, small))
  | inr letter ↦
      rw letter
        (inr (ground (arith, letter), omega (arith, small, few)), ground (arith, letter, small))
]

remainder-IsDigit : {base : ℕ} (i : ℕ) → IsBase base → IsDigit base (digit_char (i % base))
remainder-IsDigit i binary = digit_char-IsDigit 2 (i % 2) (omega arith) (omega arith)
remainder-IsDigit i octal = digit_char-IsDigit 8 (i % 8) (omega arith) (omega arith)
remainder-IsDigit i decimal = digit_char-IsDigit 10 (i % 10) (omega arith) (omega arith)
remainder-IsDigit i hexadecimal = digit_char-IsDigit 16 (i % 16) (omega arith) (omega arith)

zero-IsDigit : {base : ℕ} → IsBase base → IsDigit base 48
zero-IsDigit binary = (inl (omega arith, omega arith), omega arith)
zero-IsDigit octal = (inl (omega arith, omega arith), omega arith)
zero-IsDigit decimal = (inl (omega arith, omega arith), omega arith)
zero-IsDigit hexadecimal = (inl (omega arith, omega arith), omega arith)

some_digit : (base i : ℕ) (ds : List ℕ) → value_from base 0 ds ≡ i → i ≢ 0 → 0 < length ds
some_digit base i [] v ne = absurd (ne (omega (arith, v)))
some_digit base i (d ∷ ds) v ne = omega arith

value-snoc :
    (base acc : ℕ) (xs : List ℕ) (c : ℕ)
    → value_from base acc (xs ++ (c ∷ [])) ≡ value_from base acc xs * base + digit_value c
value-snoc base acc [] c = refl
value-snoc base acc (x ∷ xs) c = value-snoc base (acc * base + digit_value x) xs c

-- Twice `double n` is `double (suc n)`.
double : ℕ → ℕ
double zero = 1
double (suc n) = 2 * double n

last_digit :
    {base : ℕ} (i : ℕ) → IsBase base → (i / base) * base + digit_value (digit_char (i % base)) ≡ i
last_digit i binary = ground arith
last_digit i octal = ground arith
last_digit i decimal = ground arith
last_digit i hexadecimal = ground arith

div-small : {base : ℕ} (i d : ℕ) → IsBase base → i < 2 * d → i / base < d
div-small i d binary h = omega arith
div-small i d octal h = omega arith
div-small i d decimal h = omega arith
div-small i d hexadecimal h = omega arith

digits_loop_lem :
    (fuel i : ℕ) {base : ℕ}
    → IsBase base
    → i < double fuel
    → (ds : List ℕ) × (digits_loop fuel i base ≡ some ds)
      × (value_from base 0 (rev ds) ≡ i)
      × (length ds ≤ fuel)
      × IsDigits base (rev ds)
unfolding digits_loop double
digits_loop_lem zero i b h =
    let e : i ≡ 0 = omega arith in ([], rw e refl, omega arith, omega arith, tt)
digits_loop_lem (suc fuel) i {base} b h = elim (Bool-cases (i == 0)) [
  | inl z ↦ ([], rw z refl, ground arith, omega arith, tt)
  | inr nz ↦
      let (ds, e, v, l, digits) =
        digits_loop_lem fuel (i / base) b (div-small i (double fuel) b h) in
      (
        digit_char (i % base) ∷ ds,
        rw (nz, e) refl,
        value-snoc base 0 (rev ds) (digit_char (i % base))
            ∙ ap (λ w. w * base + digit_value (digit_char (i % base))) v
            ∙ last_digit i b,
        omega (arith, l),
        IsDigits-append base (rev ds) (digit_char (i % base) ∷ []) digits
            (remainder-IsDigit i b, tt),
      )
]

-- The characters in front of the digits.
abbrev pub prefix : {base : ℕ} → IsBase base → List ℕ
prefix binary = []
prefix octal = codes "0"
prefix decimal = []
prefix hexadecimal = codes "0x"

prefix-base_mark : {base : ℕ} (b : IsBase base) → rev (base_mark base) ≡ prefix b
prefix-base_mark binary = refl
prefix-base_mark octal = refl
prefix-base_mark decimal = refl
prefix-base_mark hexadecimal = refl

pub prefix-NonZero : {base : ℕ} (b : IsBase base) → NonZero (prefix b)
prefix-NonZero binary = tt
prefix-NonZero octal = ((λ e. omega arith), tt)
prefix-NonZero decimal = tt
prefix-NonZero hexadecimal = ((λ e. omega arith), ((λ e. omega arith), tt))

rev-append : (xs ys : List ℕ) → rev (xs ++ ys) ≡ rev ys ++ rev xs
rev-append [] ys = sym (append-nil (rev ys))
rev-append (x ∷ xs) ys =
    ap (λ w. w ++ (x ∷ [])) (rev-append xs ys) ∙ append_assoc (rev ys) (rev xs) (x ∷ [])

no_padding : (ds : List ℕ) → ds ++ replicate (0 - length ds) 0 ≡ ds
no_padding ds = let e : 0 - length ds ≡ 0 = omega arith in rw e (append-nil ds)

length-base_mark : {base : ℕ} → IsBase base → length (base_mark base) ≤ 2
length-base_mark binary = omega arith
length-base_mark octal = omega arith
length-base_mark decimal = omega arith
length-base_mark hexadecimal = omega arith

print-digits :
    {base : ℕ} (ds : List ℕ) (b : IsBase base)
    → length ds ≤ 32
    → print base 0 ds ≡ some (prefix b ++ (rev ds ++ (0 ∷ [])))
unfolding print
print-digits {base} ds b h =
    let fits : leb (length (ds ++ base_mark base)) 65 ≡ true =
      ground (arith, length-append ds (base_mark base), length-base_mark b) in
    rw (no_padding ds, fits, rev-append ds (base_mark base), prefix-base_mark b)
      (ap some (append_assoc (prefix b) (rev ds) (0 ∷ [])))

-- For each of the four bases and every 32-bit number: `itoa` without padding writes the mark of
-- the base ("", "0" or "0x"), at least one digit, all of them digits of the base, which denote
-- exactly that number, and a zero byte.
pub itoa-value :
    (i : ℕ) {base : ℕ} (b : IsBase base)
    → i < 2 ^ 32
    → (ds : List ℕ) × (itoa i base 0 ≡ some (prefix b ++ (ds ++ (0 ∷ []))))
      × (value_from base 0 ds ≡ i)
      × IsDigits base ds
      × (0 < length ds)
unfolding itoa
itoa-value i {base} b h = elim (Bool-cases (i == 0)) [
  | inl z ↦ (
    48 ∷ [],
    rw (itoa, z) (print-digits (48 ∷ []) b (omega arith)),
    ground arith,
    (zero-IsDigit b, tt),
    omega arith,
  )
  | inr nz ↦
      let (ds, e, v, l, digits) = digits_loop_lem 32 i b (unfold double in h) in
      (
        rev ds,
        rw (itoa, nz, e) (print-digits ds b l),
        v,
        digits,
        some_digit base i (rev ds) v (ground (arith, nz)),
      )
]
