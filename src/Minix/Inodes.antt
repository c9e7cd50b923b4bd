-- ===== src/Minix/Inodes.antt =====
-- `minix_save_inode` and `minix_load_inode`.
pub mod Back
use ata_driver.Minix.Layout.{IsWide, SameInode, decode-encode, encode-lt, decode-same}
use mathlib.Core.Path.{subst}
use mathlib.Core.Option.{some-injective, none-ne-some}
use ata_driver.Common.{
  ℕ, ◌+◌, ◌-◌, ◌*◌, ◌/◌, ◌%◌, ◌^◌, ◌<◌, ◌≤◌, ◌≡◌, ◌≢◌, refl, sym, ap, ◌∙◌, arith, true, false, ◌&&◌,
  Option, none, some, ◌==◌, leb, ltb, Bool-cases, u8, u16, u64, inl, inr,
}
use ata_driver.Minix.{
  Bytes, Fs, Inode, ◌>>=◌, load_block, put_block, store_block, inode_size, decode, encode,
  inode_table, inode_block, inode_offset, inodes_per_block, load_inode, put_inode, save_inode,
}
use ata_driver.Minix.Blocks.{
  >>=-cases, Option-cases, store_block-view, load_block-store_block, load_block-other,
}

put_inode-inside :
    (inode : Inode) (d : Bytes) (o k : ℕ)
    → k < inode_size
    → put_inode o inode d (o + k) ≡ encode inode k
put_inode-inside inode d o k p =
    let in_range : (leb o (o + k) && ltb (o + k) (o + inode_size)) ≡ true = ground (arith, p) in
    let back : o + k - o ≡ k = omega arith in rw (in_range, back) refl

put_inode-apart :
    (inode : Inode) (d : Bytes) (a b k : ℕ)
    → a ≢ b
    → k < inode_size
    → put_inode (a * inode_size) inode d (b * inode_size + k) ≡ d (b * inode_size + k)
put_inode-apart inode d a b k ne p =
    let x = b * inode_size + k in
    let out : (leb (a * inode_size) x && ltb x (a * inode_size + inode_size)) ≡ false =
      elim (Bool-cases (leb a b)) [
        | inl up ↦ let lt : a < b = ground (arith, up, ne) in ground (arith, lt, p)
        | inr down ↦ let gt : b < a = ground (arith, down) in ground (arith, gt, p)
      ] in
    rw out refl

-- A block that is stored does not move the inodes.
inode_block-store_block :
    (fs fs' : Fs) (blk : ℕ) (d : Bytes) (j : ℕ)
    → store_block fs blk d ≡ some fs'
    → inode_block fs' j ≡ inode_block fs j
unfolding put_block
inode_block-store_block fs fs' blk d j e =
    subst (λ f. inode_block f j ≡ inode_block fs j) (store_block-view fs fs' blk d e).1 refl

-- The inode in the block that stands where inode `j` did.
read_inode :
    (fs fs' : Fs) (blk : ℕ) (d d' : Bytes) (j : ℕ)
    → store_block fs blk d ≡ some fs'
    → load_block fs' (inode_block fs j) ≡ some d'
    → load_inode fs' j ≡ some (decode d' (inode_offset j))
unfolding load_inode
read_inode fs fs' blk d d' j e l =
    ap (λ r. r >>= λ bytes. some (decode bytes (inode_offset j)))
      (ap (load_block fs') (inode_block-store_block fs fs' blk d j e) ∙ l)

-- What `minix_save_inode` leaves for `minix_load_inode`.
abbrev IsSaved : ℕ → Inode → Option Fs → Type 0
IsSaved i inode none = Unit {0}
IsSaved i inode (some fs') =
    (inode' : Inode) × (load_inode fs' i ≡ some inode') × SameInode inode inode'

save_inode-IsSaved :
    (fs : Fs) (i : ℕ) (inode : Inode) → IsWide inode → IsSaved i inode (save_inode fs i inode)
unfolding save_inode
save_inode-IsSaved fs i inode w =
    let o = inode_offset i in
    >>=-cases (IsSaved i inode) (load_block fs (inode_block fs i)) _ tt (λ d e.
      Option-cases (IsSaved i inode) (store_block fs (inode_block fs i) (put_inode o inode d)) tt
        (λ fs' e'.
          let (d', l, same) =
            load_block-store_block fs fs' (inode_block fs i) (put_inode o inode d) e' in
          (
            decode d' o,
            read_inode fs fs' _ _ d' i e' l,
            decode-encode inode w d' o (λ k p.
                same (o + k) (omega arith)
                ∙ ap u8 (put_inode-inside inode d o k p)
                ∙ omega (arith, encode-lt inode k)),
          )))

-- The number of an inode whose block the file system can address.
abbrev pub HasInode : Fs → ℕ → Type 0
HasInode fs i = (1 ≤ i) × (i < 2 ^ 32) × (inode_table fs + i / inodes_per_block < 2 ^ 16)

-- What it leaves of another inode `j`, whose block is `d₁` before.
abbrev IsKept : Fs → ℕ → Option Fs → Type 0
IsKept fs j none = Unit {0}
IsKept fs j (some fs') =
    (d₁ : Bytes)
    → load_block fs (inode_block fs j) ≡ some d₁
    → (new : Inode) × (load_inode fs' j ≡ some new) × SameInode (decode d₁ (inode_offset j)) new

module _ (fs : Fs) (i j : ℕ) (inode : Inode) (has_i : HasInode fs i) (has_j : HasInode fs j)
    (ne : i ≢ j) where
  offsets_apart :
      inode_block fs i ≡ inode_block fs j
      → u64 (i + 2 ^ 64 - 1) % inodes_per_block ≢ u64 (j + 2 ^ 64 - 1) % inodes_per_block
  offsets_apart e z =
      let a : u64 (i + 2 ^ 64 - 1) ≡ i - 1 = omega (arith, has_i.0, has_i.1) in
      let b : u64 (j + 2 ^ 64 - 1) ≡ j - 1 = omega (arith, has_j.0, has_j.1) in
      ne (omega (arith, a, b, has_i.0, has_j.0, has_i.2, has_j.2))

  inode_blocks_apart :
      inode_block fs i ≢ inode_block fs j → u16 (inode_block fs i) ≢ u16 (inode_block fs j)
  inode_blocks_apart ne z = ne (omega (arith, z))

  same_block :
      (fs' : Fs) (d d₁ : Bytes)
      → store_block fs (inode_block fs i) (put_inode (inode_offset i) inode d) ≡ some fs'
      → load_block fs (inode_block fs i) ≡ some d
      → load_block fs (inode_block fs j) ≡ some d₁
      → inode_block fs i ≡ inode_block fs j
      → IsKept fs j (some fs')
  same_block fs' d d₁ stored e e₁ at d₂ e₂ =
      let (d', l, same) =
        load_block-store_block fs fs' (inode_block fs i) (put_inode (inode_offset i) inode d)
          stored in
      let l' : load_block fs' (inode_block fs j) ≡ some d' = ap (load_block fs') (sym at) ∙ l in
      let old : d ≡ d₂ = some-injective _ _ (sym e ∙ ap (load_block fs) at ∙ e₂) in
      let kept = decode-same d d' (inode_offset j) (λ k p.
        ap u8 (
          same (inode_offset j + k) (omega arith)
          ∙ ap u8 (put_inode-apart inode d _ _ k (offsets_apart at) p))
        ∙ omega arith) in
      (
        decode d' (inode_offset j),
        read_inode fs fs' _ _ d' j stored l',
        subst (λ b. SameInode (decode b (inode_offset j)) (decode d' (inode_offset j))) old kept,
      )

  save_inode-IsKept : IsKept fs j (save_inode fs i inode)
  unfolding save_inode
  save_inode-IsKept = >>=-cases (IsKept fs j) (load_block fs (inode_block fs i)) _ tt (λ d e.
      Option-cases (IsKept fs j)
        (store_block fs (inode_block fs i) (put_inode (inode_offset i) inode d)) tt
        (λ fs' stored d₁ e₁. elim (Bool-cases (inode_block fs i == inode_block fs j)) [
          | inl same ↦ same_block fs' d d₁ stored e e₁ (ground (arith, same)) d₁ e₁
          | inr other ↦
              let (d', l, bytes) =
                load_block-other fs fs' (inode_block fs i) (inode_block fs j)
                  (put_inode (inode_offset i) inode d) d₁
                  (λ z. inode_blocks_apart (ground (arith, other)) z) stored e₁ in
              (
                decode d' (inode_offset j),
                read_inode fs fs' _ _ d' j stored l,
                decode-same d₁ d' (inode_offset j)
                    (λ k p. ap u8 (bytes (inode_offset j + k) (omega arith))),
              )
        ]))

loaded :
    (fs : Fs) (j : ℕ) (old : Inode)
    → load_inode fs j ≡ some old
    → (d : Bytes) × (load_block fs (inode_block fs j) ≡ some d) × (decode d (inode_offset j) ≡ old)
unfolding load_inode
loaded fs j old =
    >>=-cases
      (λ o.
        o ≡ some old
        → (d : Bytes) × (load_block fs (inode_block fs j) ≡ some d)
          × (decode d (inode_offset j) ≡ old))
      (load_block fs (inode_block fs j)) _ (λ z. absurd (none-ne-some old z))
      (λ d e z. (d, e, some-injective _ _ z))

-- An inode that `minix_save_inode` wrote is the one that `minix_load_inode` reads, in every field,
-- and every other inode that could be read before is read as before, in the same block of the
-- inode table or in another one.
pub load_inode-save_inode :
    (fs fs' : Fs) (i j : ℕ) (inode : Inode)
    → IsWide inode
    → HasInode fs i
    → HasInode fs j
    → save_inode fs i inode ≡ some fs'
    → ((inode' : Inode) × (load_inode fs' i ≡ some inode') × SameInode inode inode')
      × ((old : Inode)
          → i ≢ j
          → load_inode fs j ≡ some old
          → (new : Inode) × (load_inode fs' j ≡ some new) × SameInode old new)
load_inode-save_inode fs fs' i j inode wide has_i has_j e = (
  subst (IsSaved i inode) e (save_inode-IsSaved fs i inode wide),
  λ old ne l.
      let (d, at, same) = loaded fs j old l in
      subst (λ o. (new : Inode) × (load_inode fs' j ≡ some new) × SameInode o new) same
        (subst (IsKept fs j) e (save_inode-IsKept fs i j inode has_i has_j ne) d at),
)
