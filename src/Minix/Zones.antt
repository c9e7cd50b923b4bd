-- ===== src/Minix/Zones.antt =====
-- The bitmaps, and the zone that `minix_add_file_block` takes.
use ata_driver.Common.{
  ℕ, zero, suc, ◌+◌, ◌/◌, ◌%◌, ◌<◌, ◌≤◌, ◌≡◌, inl, inr, refl, arith, Bool, true, false, not, Option,
  none, some, ◌==◌, if◌then◌else◌, Bool-cases, bit_and, bit_or, u8, u16, ◌<<<◌,
}
use ata_driver.Common.Table.{all_below, all_below_sound}
use ata_driver.Minix.{Fs, get_bit, set_bit, find_clear, take_zone}

abbrev same : Bool → Bool → Bool
same true b = b
same false b = not b

same-eq : (a b : Bool) → same a b ≡ true → a ≡ b
same-eq true true e = refl
same-eq true false e = absurd (ground arith)
same-eq false true e = absurd (ground arith)
same-eq false false e = refl

abbrev bit_law : ℕ → ℕ → ℕ → Bool
bit_law p k j =
    same (not (bit_and (u8 (bit_or p (1 <<< k))) (1 <<< j) == 0))
      (if k == j then true else not (bit_and p (1 <<< j) == 0))

abbrev bit_laws : ℕ → ℕ → Bool
unfolding all_below
bit_laws p k = all_below 8 (bit_law p k)

abbrev bit_laws_at : ℕ → Bool
unfolding all_below
bit_laws_at p = all_below 8 (bit_laws p)

bit_table : all_below 256 bit_laws_at ≡ true
unfolding all_below
bit_table = refl

bit_lem :
    (p k j : ℕ)
    → p < 256
    → k < 8
    → j < 8
    → not (bit_and (u8 (bit_or p (1 <<< k))) (1 <<< j) == 0)
      ≡ (if k == j then true else not (bit_and p (1 <<< j) == 0))
unfolding all_below bit_laws_at
bit_lem p k j hp hk hj = same-eq _ _ (
    all_below_sound 8 (bit_law p k) j
      (all_below_sound 8 (bit_laws p) k (all_below_sound 256 bit_laws_at p bit_table hp) hk) hj)

-- The bit that is set, and any other one.
pub get_bit-set_bit :
    (map : ℕ → ℕ) (n m : ℕ) → get_bit (set_bit n map) m ≡ (if n == m then true else get_bit map m)
unfolding get_bit set_bit
get_bit-set_bit map n m = elim (Bool-cases (m / 8 == n / 8)) [
  | inl byte ↦
      let law =
        bit_lem (u8 (map (n / 8))) (n % 8) (m % 8) (omega arith) (omega arith) (omega arith) in
      let at : m / 8 ≡ n / 8 = ground (arith, byte) in
      let eq : (n == m) ≡ (n % 8 == m % 8) = ground (arith, at) in rw (byte, eq, at) law
  | inr away ↦ let ne : (n == m) ≡ false = ground (arith, away) in rw (away, ne) refl
]

-- The search stops at the lowest clear bit, or at the limit.
pub record IsLowestClear (map : ℕ → ℕ) (limit k : ℕ) : Type 0 where
  pub inside : k ≤ limit
  pub clear : k < limit → get_bit map k ≡ false
  pub below : (j : ℕ) → j < k → get_bit map j ≡ true

find_clear_lem :
    (map : ℕ → ℕ) (rounds k : ℕ)
    → ((j : ℕ) → j < k → get_bit map j ≡ true)
    → IsLowestClear map (k + rounds) (find_clear rounds k map)
unfolding find_clear
find_clear_lem map zero k set = record {
  inside = omega arith;
  clear = λ p. absurd (omega arith);
  below = set;
}
find_clear_lem map (suc rounds) k set = elim (Bool-cases (get_bit map k)) [
  | inl used ↦
      let e : k + suc rounds ≡ k + 1 + rounds = omega arith in
      rw (used, e)
        (find_clear_lem map rounds (k + 1) (λ j p. elim (Bool-cases (j == k)) [
          | inl here ↦ let at : j ≡ k = ground (arith, here) in rw at used
          | inr there ↦ set j (ground (arith, there))
        ]))
  | inr free ↦ rw free (record { inside = omega arith; clear = λ p. free; below = set })
]

-- The outcome of taking a zone.
pub data IsZoneTaken (fs : Fs) : Option (ℕ × Fs) → Type 0 where
  full : ((k : ℕ) → k < fs.nzones → get_bit fs.zones_map k ≡ true) → IsZoneTaken fs none
  taken :
      (k : ℕ) (fs' : Fs)
      → k < fs.nzones
      → get_bit fs.zones_map k ≡ false
      → ((j : ℕ) → j < k → get_bit fs.zones_map j ≡ true)
      → fs' ≡ record fs { zones_map = fs'.zones_map }
      → ((j : ℕ) → get_bit fs'.zones_map j ≡ (if k == j then true else get_bit fs.zones_map j))
      → IsZoneTaken fs (some (u16 (fs.first_data_zone + k), fs'))

-- The zone that is taken is the lowest one whose bit is clear, its bit becomes set, and no other
-- bit and nothing else changes; the program stops with an error only where every bit is set.
pub take_zone-IsZoneTaken : (fs : Fs) → IsZoneTaken fs (take_zone fs)
unfolding take_zone
take_zone-IsZoneTaken fs =
    let lowest = find_clear_lem fs.zones_map fs.nzones 0 (λ j p. absurd (omega arith)) in
    let k = find_clear fs.nzones 0 fs.zones_map in
    elim (Bool-cases (k == fs.nzones)) [
      | inl end ↦
          let e : k ≡ fs.nzones = ground (arith, end) in
          rw end (full (λ j p. lowest.below j (omega (arith, e))))
      | inr inside ↦
          let p : k < fs.nzones = ground (arith, inside, lowest.inside) in
          rw inside (
            taken k (record fs { zones_map = set_bit k fs.zones_map }) p
              (lowest.clear (omega (arith, p))) lowest.below refl (get_bit-set_bit fs.zones_map k))
    ]
