-- ===== src/Str/Format/Numbers.antt =====
-- `sprintf` on plain text and on the placeholders of 32-bit numbers.
use mathlib.Core.List.{append_assoc}
use ata_driver.Common.{
  length, ℕ, ◌^◌, ◌<◌, ◌≡◌, ◌≢◌, ◌∙◌, ap, sym, refl, arith, some, List, [], ◌∷◌, ◌++◌, ◌==◌, u32,
  false,
}
use ata_driver.Str.Number.RoundTrip.{
  IsBase, IsDigits, IsDigits-NonZero, binary, octal, decimal, hexadecimal, NonZero, NonZero-append,
  prefix-NonZero, value_from, prefix, itoa-value,
}
use ata_driver.Str.Format.{
  Arg, number, literal, Output, printed, bad_format, fault, emit, until_zero, base_of, print_based,
  format, sprintf,
}

-- Text without a `%`.
abbrev pub IsPlain : List ℕ → Type 0
IsPlain [] = Unit {0}
IsPlain (c ∷ s) = (c ≢ 37) × IsPlain s

emit-nil : (o : Output) → emit [] o ≡ o
unfolding emit
emit-nil (printed out) = refl
emit-nil (bad_format out) = refl
emit-nil fault = refl

emit-emit : (xs ys : List ℕ) (o : Output) → emit xs (emit ys o) ≡ emit (xs ++ ys) o
unfolding emit
emit-emit xs ys (printed out) = ap printed (sym (append_assoc xs ys out))
emit-emit xs ys (bad_format out) = ap bad_format (sym (append_assoc xs ys out))
emit-emit xs ys fault = refl

format-plain :
    (s fmt : List ℕ) (args : List Arg)
    → IsPlain s
    → format literal (s ++ fmt) args ≡ emit s (format literal fmt args)
unfolding format
format-plain [] fmt args plain = sym (emit-nil (format literal fmt args))
format-plain (c ∷ s) fmt args plain =
    let other : (c == 37) ≡ false = ground (arith, plain.0) in
    rw other (
      ap (emit (c ∷ [])) (format-plain s fmt args plain.1)
      ∙ emit-emit (c ∷ []) s (format literal fmt args))

until_zero-end : (s : List ℕ) → NonZero s → until_zero (s ++ (0 ∷ [])) ≡ s
until_zero-end [] h = refl
until_zero-end (c ∷ s) h =
    let other : (c == 0) ≡ false = ground (arith, h.0) in
    rw other (ap (λ w. c ∷ w) (until_zero-end s h.1))

print_based-value :
    (n c : ℕ) {base : ℕ}
    → base_of c ≡ some base
    → (b : IsBase base) → n < 2 ^ 32
    → (ds : List ℕ) × (print_based n c ≡ some (some (prefix b ++ ds)))
      × (value_from base 0 ds ≡ n)
      × IsDigits base ds
      × (0 < length ds)
unfolding print_based
print_based-value n c {base} e b h =
    let (ds, printed_at, value, digits, some_digits) = itoa-value n b h in
    let cut : until_zero (prefix b ++ (ds ++ (0 ∷ []))) ≡ prefix b ++ ds =
      ap until_zero (sym (append_assoc (prefix b) ds (0 ∷ [])))
      ∙ until_zero-end (prefix b ++ ds)
          (NonZero-append (prefix b) ds (prefix-NonZero b) (IsDigits-NonZero base ds digits)) in
    (ds, rw (print_based, e, printed_at) (ap (λ w. some (some w)) cut), value, digits, some_digits)

-- The second character of the placeholder: "b", "o", "d" or "x".
abbrev pub letter : {base : ℕ} → IsBase base → ℕ
letter binary = 98
letter octal = 111
letter decimal = 100
letter hexadecimal = 120

base_of-letter : {base : ℕ} (b : IsBase base) → base_of (letter b) ≡ some base
base_of-letter binary = refl
base_of-letter octal = refl
base_of-letter decimal = refl
base_of-letter hexadecimal = refl

-- For plain text, then the placeholder `%d` with the letter of one of the four bases, and a 32-bit
-- number as the next argument: `sprintf` writes the text, the mark of the base and at least one
-- digit, all of them digits of the base, which denote exactly that number, and goes on with the
-- rest of the format and of the arguments.
pub sprintf-number :
    (s fmt : List ℕ) (args : List Arg) (n : ℕ) {base : ℕ} (b : IsBase base)
    → IsPlain s
    → n < 2 ^ 32
    → (ds : List ℕ) × (sprintf (s ++ (37 ∷ 100 ∷ letter b ∷ fmt)) (number n ∷ args)
        ≡ emit (s ++ (prefix b ++ ds)) (sprintf fmt args))
      × (value_from base 0 ds ≡ n)
      × IsDigits base ds
      × (0 < length ds)
unfolding sprintf
sprintf-number s fmt args n {base} b plain h =
    let (ds, printed_at, value, digits, some_digits) =
      print_based-value n (letter b) (base_of-letter b) b h in
    let narrow : u32 n ≡ n = omega arith in
    (
      ds,
      format-plain s (37 ∷ 100 ∷ letter b ∷ fmt) (number n ∷ args) plain
          ∙ ap (emit s) (unfold format in rw (narrow, printed_at) refl)
          ∙ emit-emit s (prefix b ++ ds) (format literal fmt args),
      value,
      digits,
      some_digits,
    )
