-- ===== src/Str/Format.antt =====
-- `sprintf` of src/kernel/string.c, character by character. The format and the string arguments are
-- the bytes before their terminating zero.
pub mod Numbers
use ata_driver.Common.{
  ℕ, ◌/◌, ◌^◌, Option, none, some, List, [], ◌∷◌, ◌++◌, drop, ◌==◌, if◌then◌else◌, u8, u16, u32,
  u64, Bool, true, false, ◌||◌,
}
use ata_driver.Str.Number.{itoa}

-- The variable arguments, by the types that `va_arg` asks for.
pub data Arg : Type 0 where
  text : List ℕ → Arg
  number : ℕ → Arg

-- `STATE_LITERAL` and `STATE_PLACEHOLDER`, and where a placeholder waits for its second character.
pub data State : Type 0 where
  literal : State
  placeholder : State
  based : ℕ → State
  quad : ℕ → State

-- The bytes written to `dst`, with the count or with -1. `fault`: an argument is missing or of the
-- other type, or `itoa` leaves its buffer.
pub data Output : Type 0 where
  printed : List ℕ → Output
  bad_format : List ℕ → Output
  fault : Output

unfoldable pub emit : List ℕ → Output → Output
emit s (printed out) = printed (s ++ out)
emit s (bad_format out) = bad_format (s ++ out)
emit s fault = fault

-- `for (; *s != '\0'; ...)`
abbrev pub until_zero : List ℕ → List ℕ
until_zero [] = []
until_zero (c ∷ s) = if c == 0 then [] else c ∷ until_zero s

-- The base of the second character of a placeholder.
abbrev pub base_of : ℕ → Option ℕ
base_of c =
    if c == 98
    then some 2
    else (if c == 111
        then some 8
        else (if c == 100 then some 10 else (if c == 120 then some 16 else none)))

-- The string in the buffer that `itoa` wrote.
abbrev pub in_buffer : Option (List ℕ) → Option (List ℕ)
in_buffer none = none
in_buffer (some buf) = some (until_zero buf)

-- What is printed of a number up to 32 bits, and of one of 64 bits, in a base: `none` is a bad
-- format, `some none` a fault.
abbrev pub based_digits : ℕ → Option ℕ → Option (Option (List ℕ))
based_digits d none = none
based_digits d (some base) = some (in_buffer (itoa d base 0))

-- The upper half, and the lower one behind it without its first `skipped` bytes.
abbrev pub join_halves : ℕ → Option (List ℕ) → Option (List ℕ) → Option (List ℕ)
join_halves skipped none low = none
join_halves skipped (some high) none = none
join_halves skipped (some high) (some low) = some (until_zero high ++ until_zero (drop skipped low))

abbrev pub halves : ℕ → ℕ → ℕ → ℕ → Option (List ℕ)
halves q base padding skipped =
    join_halves skipped (itoa (u32 (q / 2 ^ 32)) base 0) (itoa (u32 q) base padding)

abbrev pub quad_digits : ℕ → Option ℕ → Option (Option (List ℕ))
quad_digits q none = none
quad_digits q (some base) = some (if base == 2 then halves q 2 32 0 else halves q 16 8 2)

-- The same for the second character `c` of the placeholder.
unfoldable pub print_based : ℕ → ℕ → Option (Option (List ℕ))
print_based d c = based_digits d (base_of c)

unfoldable pub print_quad : ℕ → ℕ → Option (Option (List ℕ))
print_quad q c = quad_digits q (base_of c)

abbrev pub finish : Option (Option (List ℕ)) → Output → Output
finish none rest = bad_format []
finish (some none) rest = fault
finish (some (some s)) rest = emit s rest

-- What the first character of a placeholder asks for, and the arguments that are left.
pub data Pick : Type 0 where
  percent : List Arg → Pick
  string : List ℕ → List Arg → Pick
  waits : State → List Arg → Pick
  unknown : Pick
  mismatch : Pick

-- The placeholders that take an argument.
abbrev takes : ℕ → Bool
takes c = c == 115 || c == 113 || c == 98 || c == 119 || c == 100

unfoldable pub pick : ℕ → List Arg → Pick
pick c [] = if c == 37 then percent [] else (if takes c then mismatch else unknown)
pick c (text s ∷ args) =
    if c == 37
    then percent (text s ∷ args)
    else (if c == 115 then string s args else (if takes c then mismatch else unknown))
pick c (number n ∷ args) =
    if c == 37
    then percent (number n ∷ args)
    else (if c == 115
        then mismatch
        else (if c == 113
            then waits (quad (u64 n)) args
            else (if c == 98
                then waits (based (u8 n)) args
                else (if c == 119
                    then waits (based (u16 n)) args
                    else (if c == 100 then waits (based (u32 n)) args else unknown)))))

unfoldable pub format : State → List ℕ → List Arg → Output
unfolding emit print_based print_quad pick
format literal [] args = printed []
format placeholder [] args = printed []
format (based d) [] args = bad_format []
format (quad q) [] args = bad_format []
format literal (c ∷ fmt) args =
    let more = format placeholder fmt args in
    let rest = format literal fmt args in if c == 37 then more else emit (c ∷ []) rest
format placeholder (c ∷ fmt) args = elim (pick c args) [
  | percent left ↦ emit (37 ∷ []) (format literal fmt left)
  | string s left ↦ emit s (format literal fmt left)
  | waits state left ↦ format state fmt left
  | unknown ↦ bad_format []
  | mismatch ↦ fault
]
format (based d) (c ∷ fmt) args = finish (print_based d c) (format literal fmt args)
format (quad q) (c ∷ fmt) args = finish (print_quad q c) (format literal fmt args)

unfoldable pub sprintf : List ℕ → List Arg → Output
unfolding format
sprintf fmt args = format literal fmt args
