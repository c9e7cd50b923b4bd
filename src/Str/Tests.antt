-- ===== src/Str/Tests.antt =====
-- Runs of the string functions.
use ata_driver.Common.{
  length, ℕ, zero, suc, ◌+◌, ◌-◌, ◌<◌, ◌≡◌, ◌≢◌, refl, arith, List, [], ◌∷◌, ◌++◌, some, get_or,
}
use ata_driver.Mem.Bitmap.{Memory, load8}
use ata_driver.Str.{memcmp, memcmp_loop, strcmp, minus}
use ata_driver.Str.Text.{IsText}
use ata_driver.Str.Format.{number, emit, sprintf}
use ata_driver.Str.Format.Numbers.{sprintf-number}
use ata_driver.Str.Number.{itoa}
use ata_driver.Str.Number.RoundTrip.{decimal, prefix, value_from, IsDigits, itoa-value}

-- "ab" at address 1000, zero elsewhere.
abbrev text : Memory
text = λ a. get_or (97 ∷ 98 ∷ []) (a - 1000) 0

text-IsText : IsText text 1000 2
text-IsText = record { chars = text-chars; end = refl }
  where
    text-chars : (j : ℕ) → j < 2 → load8 text (1000 + j) ≢ 0
    text-chars zero h = λ e. omega arith
    text-chars (suc zero) h = λ e. omega arith
    text-chars (suc (suc j)) h = absurd (omega arith)

itoa-value_example :
    (ds : List ℕ) × (itoa 4096 10 0 ≡ some (prefix decimal ++ (ds ++ (0 ∷ []))))
    × (value_from 10 0 ds ≡ 4096)
    × IsDigits 10 ds
    × (0 < length ds)
itoa-value_example = itoa-value 4096 decimal (omega arith)

memcmp_run : memcmp 1000 1001 2 text ≡ minus
unfolding memcmp memcmp_loop
memcmp_run = refl

strcmp_run : strcmp 5 text 1000 1001 0 ≡ some minus
unfolding strcmp
strcmp_run = refl

sprintf-number_example :
    (ds : List ℕ) × (sprintf ((78 ∷ 61 ∷ []) ++ (37 ∷ 100 ∷ 100 ∷ 46 ∷ [])) (number 4096 ∷ [])
      ≡ emit ((78 ∷ 61 ∷ []) ++ (prefix decimal ++ ds)) (sprintf (46 ∷ []) []))
    × (value_from 10 0 ds ≡ 4096)
    × IsDigits 10 ds
    × (0 < length ds)
sprintf-number_example =
    sprintf-number (78 ∷ 61 ∷ []) (46 ∷ []) [] 4096 decimal
      ((λ e. omega arith), ((λ e. omega arith), tt)) (omega arith)
