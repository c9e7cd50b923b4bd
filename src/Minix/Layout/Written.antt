-- ===== src/Minix/Layout/Written.antt =====
-- An inode that is written back as it was read, by tools/src/minix.c.
use ata_driver.Common.{
  ℕ, zero, suc, ◌+◌, ◌-◌, ◌*◌, ◌/◌, ◌%◌, ◌<◌, ◌≤◌, ◌≡◌, ap, ◌∙◌, arith, inl, inr, Bool-cases, ◌==◌,
  ltb, u8, if◌then◌else◌,
}
use ata_driver.Minix.{Bytes, inode_size, short_from, int_from, decode, encode, byte_of}
use ata_driver.Minix.Layout.{IsWide}

short_byte : (bytes : Bytes) (o k : ℕ) → k < 2 → byte_of (short_from bytes o) k ≡ u8 (bytes (o + k))
short_byte bytes o zero p = let at : o + 0 ≡ o = omega arith in omega (arith, ap bytes at)
short_byte bytes o (suc zero) p = omega arith
short_byte bytes o (suc (suc k)) p = absurd (omega arith)

int_byte : (bytes : Bytes) (o k : ℕ) → k < 4 → byte_of (int_from bytes o) k ≡ u8 (bytes (o + k))
int_byte bytes o zero p = let at : o + 0 ≡ o = omega arith in omega (arith, ap bytes at)
int_byte bytes o (suc zero) p = omega arith
int_byte bytes o (suc (suc zero)) p = omega arith
int_byte bytes o (suc (suc (suc zero))) p =
    let at : o + 2 + 1 ≡ o + 3 = omega arith in omega (arith, ap bytes at)
int_byte bytes o (suc (suc (suc (suc k)))) p = absurd (omega arith)

short_within :
    (bytes : Bytes) (o f k : ℕ)
    → f ≤ k
    → k < f + 2
    → byte_of (short_from bytes (o + f)) (k - f) ≡ u8 (bytes (o + k))
short_within bytes o f k low high =
    let at : o + f + (k - f) ≡ o + k = omega (arith, low) in
    short_byte bytes (o + f) (k - f) (omega (arith, low, high)) ∙ ap (λ x. u8 (bytes x)) at

int_within :
    (bytes : Bytes) (o f k : ℕ)
    → f ≤ k
    → k < f + 4
    → byte_of (int_from bytes (o + f)) (k - f) ≡ u8 (bytes (o + k))
int_within bytes o f k low high =
    let at : o + f + (k - f) ≡ o + k = omega (arith, low) in
    int_byte bytes (o + f) (k - f) (omega (arith, low, high)) ∙ ap (λ x. u8 (bytes x)) at

-- The bytes behind the time: the group, the number of links and the zones.
tail_byte :
    (bytes : Bytes) (o k : ℕ)
    → 12 ≤ k
    → k < inode_size
    → (if k == 12
        then u8 (u8 (bytes (o + 12)))
        else (if k == 13
            then u8 (u8 (bytes (o + 13)))
            else byte_of (short_from bytes (o + 14 + 2 * ((k - 14) / 2))) ((k - 14) % 2)))
      ≡ u8 (bytes (o + k))
tail_byte bytes o k low high = elim (Bool-cases (k == 12)) [
  | inl e ↦ let at : k ≡ 12 = ground (arith, e) in rw (e, at) (omega arith)
  | inr e ↦ elim (Bool-cases (k == 13)) [
    | inl f ↦ let at : k ≡ 13 = ground (arith, f) in rw (e, f, at) (omega arith)
    | inr f ↦
        let at : o + 14 + 2 * ((k - 14) / 2) + (k - 14) % 2 ≡ o + k = ground (arith, low, e, f) in
        rw (e, f)
          (short_byte bytes (o + 14 + 2 * ((k - 14) / 2)) ((k - 14) % 2) (omega arith)
            ∙ ap (λ x. u8 (bytes x)) at)
  ]
]

pub encode-decode :
    (bytes : Bytes) (o k : ℕ) → k < inode_size → encode (decode bytes o) k ≡ u8 (bytes (o + k))
unfolding encode decode
encode-decode bytes o k p = elim (Bool-cases (ltb k 2)) [
  | inl a ↦ rw a (short_byte bytes o k (ground (arith, a)))
  | inr a ↦ elim (Bool-cases (ltb k 4)) [
    | inl b ↦ rw (a, b) (short_within bytes o 2 k (ground (arith, a)) (ground (arith, b)))
    | inr b ↦ elim (Bool-cases (ltb k 8)) [
      | inl c ↦ rw (a, b, c) (int_within bytes o 4 k (ground (arith, b)) (ground (arith, c)))
      | inr c ↦ elim (Bool-cases (ltb k 12)) [
        | inl d ↦ rw (a, b, c, d) (int_within bytes o 8 k (ground (arith, c)) (ground (arith, d)))
        | inr d ↦ rw (a, b, c, d) (tail_byte bytes o k (ground (arith, d)) p)
      ]
    ]
  ]
]

pub decode-IsWide : (bytes : Bytes) (o : ℕ) → IsWide (decode bytes o)
unfolding decode
decode-IsWide bytes o = record {
  mode = omega arith;
  uid = omega arith;
  size = omega arith;
  time = omega arith;
  gid = omega arith;
  nlinks = omega arith;
  zones = λ j p. omega arith;
}
