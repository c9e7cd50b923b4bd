-- ===== src/Common/Bits.antt =====
-- `&` with a mask of consecutive bits, as arithmetic. The native operation means a recursion on
-- binary digits with fuel; one equation for the lowest digit removes the fuel.
use Prim.Native.Nat.{
  ℕ, zero, suc, ◌+◌, ◌*◌, ◌/◌, ◌%◌, ◌≤◌, ◌^◌, min, bit_and, digits, bit_and-bitwise,
}
use mathlib.Core.Path.{◌≡◌, refl}
use native.Mathlib.Omega.{arith}

-- The recursion does not depend on how much spare fuel it has.
fuel_irrelevant :
    (k l a b : ℕ) → a ≤ k → a ≤ l → digits (λ _. zero) min k a b ≡ digits (λ _. zero) min l a b
fuel_irrelevant k l zero b h i =
    elim k as (λ k. digits (λ _. zero) min k 0 b ≡ digits (λ _. zero) min l 0 b) [
      | zero ↦ elim l as (λ l. digits (λ _. zero) min 0 0 b ≡ digits (λ _. zero) min l 0 b) [
        | zero ↦ refl
        | suc l ↦ refl
      ]
      | suc k ↦ elim l as (λ l. digits (λ _. zero) min (suc k) 0 b ≡ digits (λ _. zero) min l 0 b) [
        | zero ↦ refl
        | suc l ↦ refl
      ]
    ]
fuel_irrelevant zero l (suc a) b h i = absurd (omega arith)
fuel_irrelevant (suc k) zero (suc a) b h i = absurd (omega arith)
fuel_irrelevant (suc k) (suc l) (suc a) b h i =
    let ih = fuel_irrelevant k l (suc a / 2) (b / 2) (omega arith) (omega arith) in
    omega (arith, ih)

lowest_digit : (a b : ℕ) → bit_and a b ≡ bit_and (a / 2) (b / 2) * 2 + min (a % 2) (b % 2)
lowest_digit zero b = omega (arith, bit_and-bitwise 0 b, bit_and-bitwise 0 (b / 2))
lowest_digit (suc a) b = omega (
  arith,
  bit_and-bitwise (suc a) b,
  bit_and-bitwise (suc a / 2) (b / 2),
  fuel_irrelevant a (suc a / 2) (suc a / 2) (b / 2) (omega arith) (omega arith),
)

-- `k` ones, and the number that the lowest `k` digits of `a` make.
abbrev ones : ℕ → ℕ
ones zero = 0
ones (suc k) = ones k * 2 + 1

abbrev low : ℕ → ℕ → ℕ
low zero a = 0
low (suc k) a = low k (a / 2) * 2 + a % 2

abbrev half_times : ℕ → ℕ → ℕ
half_times zero a = a
half_times (suc k) a = half_times k (a / 2)

abbrev double_times : ℕ → ℕ → ℕ
double_times zero a = a
double_times (suc k) a = double_times k a * 2

bit_and-zero : (n a : ℕ) → a ≤ n → bit_and a 0 ≡ 0
bit_and-zero n zero h = bit_and-bitwise 0 0
bit_and-zero zero (suc a) h = absurd (omega arith)
bit_and-zero (suc n) (suc a) h =
    omega (arith, lowest_digit (suc a) 0, bit_and-zero n (suc a / 2) (omega arith))

bit_and-ones : (k a : ℕ) → bit_and a (ones k) ≡ low k a
bit_and-ones zero a = bit_and-zero a a (omega arith)
bit_and-ones (suc k) a =
    let e : (ones k * 2 + 1) / 2 ≡ ones k = omega arith in
    rw (lowest_digit a (ones k * 2 + 1), e, bit_and-ones k (a / 2)) (omega arith)

bit_and-double_times :
    (k a m : ℕ) → bit_and a (double_times k m) ≡ double_times k (bit_and (half_times k a) m)
bit_and-double_times zero a m = refl
bit_and-double_times (suc k) a m =
    let e : double_times k m * 2 / 2 ≡ double_times k m = omega arith in
    rw (lowest_digit a (double_times k m * 2), e, bit_and-double_times k (a / 2) m) (omega arith)

-- The lowest two digits.
pub low_bits : (a : ℕ) → bit_and a 0x03 ≡ a % 4
low_bits a = omega (arith, bit_and-ones 2 a)

-- The three bytes of a sector number.
pub byte_0 : (a : ℕ) → bit_and a 0x000000FF ≡ a % 256
byte_0 a = omega (arith, bit_and-ones 8 a)

pub byte_1 : (a : ℕ) → bit_and a 0x0000FF00 / 2 ^ 8 ≡ a / 256 % 256
byte_1 a = omega (arith, bit_and-double_times 8 a 255, byte_0 (half_times 8 a))

pub byte_2 : (a : ℕ) → bit_and a 0x00FF0000 / 2 ^ 16 ≡ a / 65536 % 256
byte_2 a = omega (arith, bit_and-double_times 16 a 255, byte_0 (half_times 16 a))
