-- ===== src/Str/Text.antt =====
-- `strlen`, `strcpy` and `strcmp` on zero-terminated strings.
use ata_driver.Common.{
  ℕ, zero, suc, ◌+◌, ◌-◌, ◌≤◌, ◌<◌, ◌≡◌, ◌≢◌, refl, ◌⊎◌, inl, inr, arith, ◌&&◌, ◌==◌, leb, ltb,
  if◌then◌else◌, Bool-cases, some,
}
use ata_driver.Mem.Bitmap.{Memory, load8, store8}
use ata_driver.Str.{strlen, strcpy}

-- A string of `n` characters, none of them zero, at `s`.
pub record IsText (m : Memory) (s n : ℕ) : Type 0 where
  pub chars : (j : ℕ) → j < n → load8 m (s + j) ≢ 0
  pub end : load8 m (s + n) ≡ 0

strlen-from :
    (fuel : ℕ) (m : Memory) (s c n : ℕ)
    → IsText m s n
    → c ≤ n
    → n - c < fuel
    → strlen fuel m s c ≡ some n
unfolding strlen
strlen-from zero m s c n text h f = absurd (omega arith)
strlen-from (suc fuel) m s c n text h f = elim (Bool-cases (c == n)) [
  | inl at ↦ let e : c ≡ n = ground arith in rw (e, text.end) refl
  | inr ne ↦
      let ih = strlen-from fuel m s (c + 1) n text (ground arith) (ground arith) in
      let nonzero = text.chars c (ground arith) in ground (arith, ih, nonzero)
]

-- `strlen` returns the number of characters before the first zero byte.
pub strlen_lem :
    (fuel : ℕ) (m : Memory) (s n : ℕ) → IsText m s n → n < fuel → strlen fuel m s 0 ≡ some n
strlen_lem fuel m s n text h = strlen-from fuel m s 0 n text (omega arith) (omega arith)

-- The target lies behind the string, or ends before it.
abbrev pub IsApart : ℕ → ℕ → ℕ → Type 0
IsApart dst src n = (src + n < dst) ⊎ (dst + n < src)

-- The result of a copy of the `k` bytes from `src + i` on.
abbrev pub IsCopied : Memory → Memory → ℕ → ℕ → ℕ → ℕ → Type 0
IsCopied m m' dst src i k =
    (b : ℕ)
    → load8 m' b
      ≡ (if leb (dst + i) b && ltb b (dst + i + k) then load8 m (src + (b - dst)) else load8 m b)

strcpy-from :
    (fuel i k n dst src : ℕ) (m : Memory)
    → IsText m src n
    → IsApart dst src n
    → i + k ≡ n
    → k < fuel
    → (m' : Memory) × (strcpy fuel dst src i m ≡ some m') × IsCopied m m' dst src i (suc k)
unfolding strcpy
strcpy-from zero i k n dst src m text apart h f = absurd (omega arith)
strcpy-from (suc fuel) i zero n dst src m text apart h f =
    let e : i ≡ n = omega arith in
    (store8 m (dst + i) 0, rw (e, text.end) refl, λ b. ground (arith, text.end))
strcpy-from (suc fuel) i (suc k) n dst src m text apart h f =
    let m₁ = store8 m (dst + i) (load8 m (src + i)) in
    let text₁ : IsText m₁ src n = record {
      chars = λ j p. ground (arith, text.chars j p);
      end = ground (arith, text.end);
    } in
    let (m', e, c) =
      strcpy-from fuel (i + 1) k n dst src m₁ text₁ apart (omega arith) (omega arith) in
    let nonzero = text.chars i (omega arith) in
    (m', ground (arith, e, nonzero), λ b. ground (arith, c b))

-- For a string of `n` characters and a target that does not overlap it: `strcpy` writes the
-- characters and the terminating zero to the target, and no other byte changes.
pub strcpy_lem :
    (fuel n dst src : ℕ) (m : Memory)
    → IsText m src n
    → IsApart dst src n
    → n < fuel
    → (m' : Memory) × (strcpy fuel dst src 0 m ≡ some m') × IsCopied m m' dst src 0 (suc n)
strcpy_lem fuel n dst src m text apart h =
    strcpy-from fuel 0 n n dst src m text apart (omega arith) (omega arith)
