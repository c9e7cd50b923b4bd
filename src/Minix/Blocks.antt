-- ===== src/Minix/Blocks.antt =====
-- Blocks of the image and the shorts in them.
use ata_driver.Common.{
  ℕ, ◌+◌, ◌*◌, ◌^◌, ◌<◌, ◌≤◌, ◌≡◌, ◌≢◌, inl, inr, refl, sym, ap, ◌∙◌, arith, true, false, ◌&&◌,
  Option, none, some, ◌==◌, leb, ltb, ==_ne, if◌then◌else◌, Bool-cases, u8, u16, ◌||◌, ◌⊎◌,
}
use mathlib.Core.Path.{subst}
use mathlib.Core.Option.{some-injective, none-ne-some}
use ata_driver.Minix.{
  ◌>>=◌, Bytes, Fs, block_size, int_offset, is_negative, block_at, put_block, load_block,
  store_block, short_at, set_short,
}

-- What holds of a chain holds where its first step gives a value.
pub >>=-cases :
    {A B : Type 0} (P : Option B → Type 0) (o : Option A) (f : A → Option B)
    → P none
    → ((a : A) → o ≡ some a → P (f a))
    → P (o >>= f)
>>=-cases P none f n s = n
>>=-cases P (some a) f n s = s a refl

pub short_at-set_short :
    (bytes : Bytes) (i v j : ℕ)
    → v < 2 ^ 16
    → short_at (set_short i v bytes) j ≡ (if i == j then v else short_at bytes j)
short_at-set_short bytes i v j small = elim (Bool-cases (i == j)) [
  | inl same ↦ let e : i ≡ j = ground (arith, same) in ground (arith, e)
  | inr other ↦
      let ne : i ≢ j = ground (arith, other) in
      rw
        (
          other,
          ==_ne (2 * j) (2 * i) (λ z. ne (omega arith)),
          ==_ne (2 * j) (2 * i + 1) (λ z. omega arith),
          ==_ne (2 * j + 1) (2 * i) (λ z. omega arith),
          ==_ne (2 * j + 1) (2 * i + 1) (λ z. ne (omega arith)),
        )
        refl
]

-- A block that lies in the image can be read.
abbrev pub Inside : Fs → ℕ → Type 0
Inside fs blk = (block_at fs blk < 2 ^ 31) × (block_at fs blk + block_size ≤ fs.disk.size)

pub load_block-Inside :
    (fs : Fs) (blk : ℕ)
    → Inside fs blk
    → load_block fs blk ≡ some (λ i. u8 (fs.disk.byte (block_at fs blk + i)))
unfolding load_block
load_block-Inside fs blk h =
    let e : (is_negative (block_at fs blk) || ltb fs.disk.size (block_at fs blk + block_size))
        ≡ false =
      ground (arith, h.0, h.1) in
    rw e refl

-- The bytes of two blocks agree.
abbrev pub SameBytes : Bytes → Bytes → Type 0
SameBytes d d' = (i : ℕ) → i < block_size → d' i ≡ d i

pub Option-cases :
    {A : Type 0} (P : Option A → Type 0) (o : Option A)
    → P none
    → ((a : A) → o ≡ some a → P (some a))
    → P o
Option-cases P none f s = f
Option-cases P (some a) f s = s a refl

pub store_block-put_block :
    (fs : Fs) (blk : ℕ) (d : Bytes)
    → block_at fs blk < 2 ^ 31
    → store_block fs blk d ≡ some (put_block fs blk d)
unfolding store_block
store_block-put_block fs blk d low =
    let e : is_negative (block_at fs blk) ≡ false = ground (arith, low) in rw e refl

-- Where a block is stored, its offset is not negative.
pub store_block-view :
    (fs fs' : Fs) (blk : ℕ) (d : Bytes)
    → store_block fs blk d ≡ some fs'
    → (block_at fs blk < 2 ^ 31) × (put_block fs blk d ≡ fs')
unfolding store_block
store_block-view fs fs' blk d e = elim (Bool-cases (is_negative (block_at fs blk))) [
  | inl low ↦
      let n : store_block fs blk d ≡ none = rw low refl in absurd (none-ne-some fs' (sym n ∙ e))
  | inr high ↦
      let n : store_block fs blk d ≡ some (put_block fs blk d) = rw high refl in
      (ground (arith, high), some-injective _ _ (sym n ∙ e))
]

-- The block that was stored is read back, up to the width of a byte.
put_block-back :
    (fs : Fs) (blk : ℕ) (d : Bytes)
    → block_at fs blk < 2 ^ 31
    → (d' : Bytes) × (load_block (put_block fs blk d) blk ≡ some d')
      × ((i : ℕ) → i < block_size → d' i ≡ u8 (d i))
unfolding put_block
put_block-back fs blk d low =
    (_, load_block-Inside (put_block fs blk d) blk (low, ground arith), λ i p. ground (arith, p))

pub load_block-store_block :
    (fs fs' : Fs) (blk : ℕ) (d : Bytes)
    → store_block fs blk d ≡ some fs'
    → (d' : Bytes) × (load_block fs' blk ≡ some d') × ((i : ℕ) → i < block_size → d' i ≡ u8 (d i))
load_block-store_block fs fs' blk d e =
    let (low, at) = store_block-view fs fs' blk d e in
    subst
      (λ f.
        (d' : Bytes) × (load_block f blk ≡ some d') × ((i : ℕ) → i < block_size → d' i ≡ u8 (d i)))
      at (put_block-back fs blk d low)

pub load_block-view :
    (fs : Fs) (blk : ℕ) (d : Bytes)
    → load_block fs blk ≡ some d
    → Inside fs blk × (d ≡ (λ i. u8 (fs.disk.byte (block_at fs blk + i))))
unfolding load_block
load_block-view fs blk d e =
    elim (Bool-cases
      (is_negative (block_at fs blk) || ltb fs.disk.size (block_at fs blk + block_size))) [
        | inl short ↦
            let n : load_block fs blk ≡ none = rw short refl in absurd (none-ne-some d (sym n ∙ e))
        | inr long ↦
            let n : load_block fs blk ≡ some (λ i. u8 (fs.disk.byte (block_at fs blk + i))) =
              rw long refl in
            ((ground (arith, long), ground (arith, long)), some-injective _ _ (sym e ∙ n))
      ]

-- The blocks of two numbers do not overlap, also where an offset wraps.
offsets_apart :
    (ps a b : ℕ)
    → a ≢ b
    → a < 2 ^ 16
    → b < 2 ^ 16
    → int_offset ps a < 2 ^ 31
    → int_offset ps b < 2 ^ 31
    → (int_offset ps b + block_size ≤ int_offset ps a)
      ⊎ (int_offset ps a + block_size ≤ int_offset ps b)
offsets_apart ps a b ne small small' low low' = ground (arith, ne, small, small', low, low')

put_block-other :
    (fs : Fs) (blk other : ℕ) (d : Bytes) (i : ℕ)
    → u16 blk ≢ u16 other
    → block_at fs blk < 2 ^ 31
    → Inside fs other
    → i < block_size
    → (put_block fs blk d).disk.byte (block_at fs other + i) ≡ fs.disk.byte (block_at fs other + i)
unfolding put_block
put_block-other fs blk other d i ne low h p =
    let apart : (leb (block_at fs blk) (block_at fs other + i)
          && ltb (block_at fs other + i) (block_at fs blk + block_size))
        ≡ false =
      (let away =
          offsets_apart fs.ps (u16 blk) (u16 other) ne (omega arith) (omega arith) low h.0 in
        ground (arith, away, p)) in
    let old : ltb (block_at fs other + i) fs.disk.size ≡ true = ground (arith, h.1, p) in
    rw (apart, old) refl

put_block-longer :
    (fs : Fs) (blk other : ℕ) (d : Bytes) → Inside fs other → Inside (put_block fs blk d) other
unfolding put_block
put_block-longer fs blk other d h = (h.0, ground (arith, h.1))

put_block-keeps :
    (fs : Fs) (blk other : ℕ) (d d₁ : Bytes)
    → u16 blk ≢ u16 other
    → block_at fs blk < 2 ^ 31
    → load_block fs other ≡ some d₁
    → (d' : Bytes) × (load_block (put_block fs blk d) other ≡ some d') × SameBytes d₁ d'
unfolding put_block
put_block-keeps fs blk other d d₁ ne low e =
    let (inside, view) = load_block-view fs other d₁ e in
    (
      _,
      load_block-Inside (put_block fs blk d) other (put_block-longer fs blk other d inside),
      λ i p.
          ap u8 (put_block-other fs blk other d i ne low inside p)
          ∙ sym (ap (λ (f : Bytes). f i) view),
    )

-- Any other block that could be read before is read as before.
pub load_block-other :
    (fs fs' : Fs) (blk other : ℕ) (d d₁ : Bytes)
    → u16 blk ≢ u16 other
    → store_block fs blk d ≡ some fs'
    → load_block fs other ≡ some d₁
    → (d' : Bytes) × (load_block fs' other ≡ some d') × SameBytes d₁ d'
load_block-other fs fs' blk other d d₁ ne e l =
    let (low, at) = store_block-view fs fs' blk d e in
    subst (λ f. (d' : Bytes) × (load_block f other ≡ some d') × SameBytes d₁ d') at
      (put_block-keeps fs blk other d d₁ ne low l)
