-- ===== src/Pic/Lines.antt =====
-- The bits of a mask register, by evaluation over all bytes.
use ata_driver.Common.{
  ℕ, ◌/◌, ◌%◌, ◌^◌, ◌<◌, ◌≡◌, refl, Bool, true, false, ◌==◌, if◌then◌else◌, bit_and, bit_or, u8,
  not32, ◌<<<◌, arith,
}
use ata_driver.Common.Table.{all_below, all_below_sound}

-- Bit `n` of a byte.
abbrev pub bit : ℕ → ℕ → ℕ
bit m n = m / 2 ^ n % 2

abbrev line_law : ℕ → ℕ → ℕ → Bool
line_law m n j =
    (if bit (u8 (bit_or m (1 <<< n))) j == (if n == j then 1 else bit m j)
      then bit (u8 (bit_and m (not32 (1 <<< n)))) j == (if n == j then 0 else bit m j)
      else false)

abbrev line_laws : ℕ → ℕ → Bool
unfolding all_below
line_laws m n = all_below 8 (line_law m n)

abbrev line_laws_at : ℕ → Bool
unfolding all_below
line_laws_at m = all_below 8 (line_laws m)

line_table : all_below 256 line_laws_at ≡ true
unfolding all_below
line_table = refl

line_law-true : (m n j : ℕ) → m < 256 → n < 8 → j < 8 → line_law m n j ≡ true
unfolding line_laws_at
line_law-true m n j hm hn hj =
    all_below_sound 8 (line_law m n) j
      (all_below_sound 8 (line_laws m) n (all_below_sound 256 line_laws_at m line_table hm) hn) hj

pub bit-set_line :
    (m n j : ℕ)
    → m < 256
    → n < 8
    → j < 8
    → bit (u8 (bit_or m (1 <<< n))) j ≡ (if n == j then 1 else bit m j)
bit-set_line m n j hm hn hj = ground (arith, line_law-true m n j hm hn hj)

pub bit-clear_line :
    (m n j : ℕ)
    → m < 256
    → n < 8
    → j < 8
    → bit (u8 (bit_and m (not32 (1 <<< n)))) j ≡ (if n == j then 0 else bit m j)
bit-clear_line m n j hm hn hj = ground (arith, line_law-true m n j hm hn hj)
