-- ===== src/Str/Block.antt =====
-- `memset`, `memcpy` and `memcmp`: what they do to every byte.
use ata_driver.Common.{
  ℕ, zero, suc, ◌+◌, ◌-◌, ◌≤◌, ◌<◌, ◌≡◌, ◌⊎◌, inl, inr, arith, true, ◌&&◌, ◌==◌, leb, ltb,
  if◌then◌else◌, u8, Bool-cases,
}
use ata_driver.Mem.Bitmap.{Memory, load8, store8}
use ata_driver.Str.{
  Sign, minus, equal, plus, char_less, memset_loop, memset, memcpy_loop, memcpy, memcmp_loop,
  memcmp,
}

memset_loop_lem :
    (rounds mem value i : ℕ) (m : Memory) (b : ℕ)
    → memset_loop rounds mem value i m b
      ≡ (if leb (mem + i) b && ltb b (mem + i + rounds) then u8 value else m b)
unfolding memset_loop
memset_loop_lem zero mem value i m b = ground arith
memset_loop_lem (suc rounds) mem value i m b =
    ground (arith, memset_loop_lem rounds mem value (i + 1) (store8 m (mem + i) value) b)

-- `memset` sets exactly the `count` bytes from `mem` on.
pub memset_lem :
    (mem value count : ℕ) (m : Memory) (b : ℕ)
    → memset mem value count m b ≡ (if leb mem b && ltb b (mem + count) then u8 value else m b)
unfolding memset
memset_lem mem value count m b = ground (arith, memset_loop_lem count mem value 0 m b)

memcpy_loop_lem :
    (rounds dst src i : ℕ) (m : Memory) (b : ℕ)
    → (dst ≤ src) ⊎ (src + i + rounds ≤ dst)
    → memcpy_loop rounds dst src i m b
      ≡ (if leb (dst + i) b && ltb b (dst + i + rounds) then u8 (m (src + (b - dst))) else m b)
unfolding memcpy_loop
memcpy_loop_lem zero dst src i m b apart = ground arith
memcpy_loop_lem (suc rounds) dst src i m b apart =
    let m' = store8 m (dst + i) (load8 m (src + i)) in
    ground (arith, memcpy_loop_lem rounds dst src (i + 1) m' b)

-- Where the target begins at or below the source, or behind its end, `memcpy` sets exactly the
-- `count` bytes from `dst` on, each to what stood at its place in the source before the call.
pub memcpy_lem :
    (dst src count : ℕ) (m : Memory) (b : ℕ)
    → (dst ≤ src) ⊎ (src + count ≤ dst)
    → memcpy dst src count m b
      ≡ (if leb dst b && ltb b (dst + count) then u8 (m (src + (b - dst))) else m b)
unfolding memcpy
memcpy_lem dst src count m b apart = ground (arith, memcpy_loop_lem count dst src 0 m b)

-- The blocks agree on their first `i` bytes.
abbrev pub AgreeTo : Memory → ℕ → ℕ → ℕ → Type 0
AgreeTo m p1 p2 n = (j : ℕ) → j < n → load8 m (p1 + j) ≡ load8 m (p2 + j)

-- What a comparison of `n` bytes may return: equality of all of them, or the order of the first
-- two bytes that differ.
pub data IsComparison (m : Memory) (p1 p2 n : ℕ) : Sign → Type 0 where
  same : AgreeTo m p1 p2 n → IsComparison m p1 p2 n equal
  below :
      (k : ℕ)
      → k < n
      → AgreeTo m p1 p2 k
      → char_less (load8 m (p1 + k)) (load8 m (p2 + k)) ≡ true
      → IsComparison m p1 p2 n minus
  above :
      (k : ℕ)
      → k < n
      → AgreeTo m p1 p2 k
      → char_less (load8 m (p2 + k)) (load8 m (p1 + k)) ≡ true
      → IsComparison m p1 p2 n plus

AgreeTo-suc :
    (m : Memory) (p1 p2 i : ℕ)
    → AgreeTo m p1 p2 i
    → load8 m (p1 + i) ≡ load8 m (p2 + i)
    → AgreeTo m p1 p2 (i + 1)
AgreeTo-suc m p1 p2 i before e j h = elim (Bool-cases (j == i)) [
  | inl at ↦ let e' : j ≡ i = ground arith in rw e' e
  | inr ne ↦ before j (ground arith)
]

memcmp_loop_lem :
    (rounds p1 p2 i n : ℕ) (m : Memory)
    → i + rounds ≡ n
    → AgreeTo m p1 p2 i
    → IsComparison m p1 p2 n (memcmp_loop rounds p1 p2 i m)
unfolding memcmp_loop
memcmp_loop_lem zero p1 p2 i n m e before = same (λ j h. before j (omega arith))
memcmp_loop_lem (suc rounds) p1 p2 i n m e before =
    elim (Bool-cases (char_less (load8 m (p1 + i)) (load8 m (p2 + i)))) [
      | inl lt ↦ rw lt (below i (omega arith) before lt)
      | inr ge ↦ elim (Bool-cases (char_less (load8 m (p2 + i)) (load8 m (p1 + i)))) [
        | inl gt ↦ rw (ge, gt) (above i (omega arith) before gt)
        | inr le ↦
            rw (ge, le)
              (memcmp_loop_lem rounds p1 p2 (i + 1) n m (omega arith)
                (AgreeTo-suc m p1 p2 i before (ground arith)))
      ]
    ]

-- `memcmp` returns 0 where the two blocks are equal, and otherwise the order of the first two
-- bytes that differ, as signed characters.
pub memcmp-IsComparison :
    (p1 p2 count : ℕ) (m : Memory) → IsComparison m p1 p2 count (memcmp p1 p2 count m)
unfolding memcmp
memcmp-IsComparison p1 p2 count m =
    memcmp_loop_lem count p1 p2 0 count m (omega arith) (λ j h. absurd (omega arith))
