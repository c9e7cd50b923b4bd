-- ===== src/Fb/Printf/Digits.antt =====
-- What the placeholders of `fb_printf` (src/kernel/drivers/fb.c) pick and print.
use ata_driver.Common.{
  ℕ, ◌/◌, ◌^◌, arith, Bool, true, false, Option, none, some, List, [], ◌∷◌, ◌==◌, if◌then◌else◌,
  u32, drop, inl, inr, Bool-cases,
}
use ata_driver.Str.Number.RoundTrip.{NonZero, NonZero-append}
use ata_driver.Str.Number.{itoa}
use ata_driver.Str.Format.{
  Arg, number, text, Pick, percent, string, waits, unknown, mismatch, pick, print_based, print_quad,
  until_zero, in_buffer, based_digits, halves, join_halves, quad_digits, base_of,
}

-- A string that a number prints has no zero byte.
abbrev pub AreDigits : Option (Option (List ℕ)) → Type 0
AreDigits none = Unit {0}
AreDigits (some none) = Unit {0}
AreDigits (some (some xs)) = NonZero xs

until_zero-NonZero : (xs : List ℕ) → NonZero (until_zero xs)
until_zero-NonZero [] = tt
until_zero-NonZero (x ∷ xs) = elim (Bool-cases (x == 0)) [
  | inl end ↦ rw end tt
  | inr on ↦ rw on ((λ e. ground (arith, on)), until_zero-NonZero xs)
]

in_buffer-AreDigits : (o : Option (List ℕ)) → AreDigits (some (in_buffer o))
in_buffer-AreDigits none = tt
in_buffer-AreDigits (some buf) = until_zero-NonZero buf

based_digits-AreDigits : (d : ℕ) (o : Option ℕ) → AreDigits (based_digits d o)
based_digits-AreDigits d none = tt
based_digits-AreDigits d (some base) = in_buffer-AreDigits (itoa d base 0)

join_halves-AreDigits :
    (skipped : ℕ) (o p : Option (List ℕ)) → AreDigits (some (join_halves skipped o p))
join_halves-AreDigits skipped none p = tt
join_halves-AreDigits skipped (some high) none = tt
join_halves-AreDigits skipped (some high) (some low) =
    NonZero-append (until_zero high) (until_zero (drop skipped low)) (until_zero-NonZero high)
      (until_zero-NonZero (drop skipped low))

if-AreDigits :
    (b : Bool) (o p : Option (List ℕ))
    → AreDigits (some o)
    → AreDigits (some p)
    → AreDigits (some (if b then o else p))
if-AreDigits true o p x y = x
if-AreDigits false o p x y = y

quad_digits-AreDigits : (q : ℕ) (o : Option ℕ) → AreDigits (quad_digits q o)
quad_digits-AreDigits q none = tt
quad_digits-AreDigits q (some base) =
    if-AreDigits (base == 2) (halves q 2 32 0) (halves q 16 8 2)
      (join_halves-AreDigits 0 (itoa (u32 (q / 2 ^ 32)) 2 0) (itoa (u32 q) 2 32))
      (join_halves-AreDigits 2 (itoa (u32 (q / 2 ^ 32)) 16 0) (itoa (u32 q) 16 8))

pub print_based-AreDigits : (d c : ℕ) → AreDigits (print_based d c)
unfolding print_based
print_based-AreDigits d c = based_digits-AreDigits d (base_of c)

pub print_quad-AreDigits : (q c : ℕ) → AreDigits (print_quad q c)
unfolding print_quad
print_quad-AreDigits q c = quad_digits-AreDigits q (base_of c)

abbrev pub AreNumbers : List Arg → Type 0
AreNumbers [] = Unit {0}
AreNumbers (number n ∷ args) = AreNumbers args
AreNumbers (text s ∷ args) = ⊥

-- What a character picks from arguments that are numbers.
abbrev pub IsNumeric : Pick → Type 0
IsNumeric (percent left) = AreNumbers left
IsNumeric (string s left) = ⊥
IsNumeric (waits state left) = AreNumbers left
IsNumeric unknown = Unit {0}
IsNumeric mismatch = Unit {0}

if-IsNumeric : (b : Bool) (p q : Pick) → IsNumeric p → IsNumeric q → IsNumeric (if b then p else q)
if-IsNumeric true p q x y = x
if-IsNumeric false p q x y = y

pub pick-IsNumeric : (c : ℕ) (args : List Arg) → AreNumbers args → IsNumeric (pick c args)
unfolding pick
pick-IsNumeric c [] n = if-IsNumeric (c == 37) _ _ tt (if-IsNumeric _ mismatch unknown tt tt)
pick-IsNumeric c (number m ∷ args) n = if-IsNumeric (c == 37) _ _ n (
    if-IsNumeric (c == 115) _ _ tt (
      if-IsNumeric (c == 113) _ _ n (
        if-IsNumeric (c == 98) _ _ n
          (if-IsNumeric (c == 119) _ _ n (if-IsNumeric (c == 100) _ _ n tt)))))
pick-IsNumeric c (text m ∷ args) n = absurd n
