-- ===== src/Minix/Layout.antt =====
-- The bytes of an inode in its block, by tools/src/minix.c.
pub mod Written
use mathlib.Core.Path.{subst}
use ata_driver.Common.{
  ℕ, ◌+◌, ◌-◌, ◌*◌, ◌/◌, ◌%◌, ◌^◌, ◌<◌, ◌≡◌, refl, sym, ap, ◌∙◌, arith, false, ◌==◌, ltb, u8,
}
use ata_driver.Minix.{Bytes, Inode, inode_size, short_from, int_from, decode, encode, byte_of}

-- The fields fit their widths.
pub record IsWide (inode : Inode) : Type 0 where
  pub mode : inode.mode < 2 ^ 16
  pub uid : inode.uid < 2 ^ 16
  pub size : inode.size < 2 ^ 32
  pub time : inode.time < 2 ^ 32
  pub gid : inode.gid < 2 ^ 8
  pub nlinks : inode.nlinks < 2 ^ 8
  pub zones : (j : ℕ) → j < 9 → inode.zones j < 2 ^ 16

-- The nine zones and the other fields agree.
pub record SameInode (inode inode' : Inode) : Type 0 where
  pub mode : inode'.mode ≡ inode.mode
  pub uid : inode'.uid ≡ inode.uid
  pub size : inode'.size ≡ inode.size
  pub time : inode'.time ≡ inode.time
  pub gid : inode'.gid ≡ inode.gid
  pub nlinks : inode'.nlinks ≡ inode.nlinks
  pub zones : (j : ℕ) → j < 9 → inode'.zones j ≡ inode.zones j

module _ (inode : Inode) (w : IsWide inode) (bytes : Bytes) (o : ℕ)
    (stands : (k : ℕ) → k < inode_size → bytes (o + k) ≡ encode inode k) where
  short_at_offset :
      (k v : ℕ)
      → v < 2 ^ 16
      → k + 1 < inode_size
      → encode inode k ≡ byte_of v 0
      → encode inode (k + 1) ≡ byte_of v 1
      → short_from bytes (o + k) ≡ v
  short_at_offset k v small p e e' =
      let at : o + k + 1 ≡ o + (k + 1) = omega arith in
      rw (at, stands k (omega arith), stands (k + 1) p, e, e') (omega arith)

  byte_at_offset : (k v x : ℕ) → x ≡ o + k → k < inode_size → encode inode k ≡ v → bytes x ≡ v
  byte_at_offset k v x at p e = ap bytes at ∙ stands k p ∙ e

  int_at_offset :
      (k v : ℕ)
      → v < 2 ^ 32
      → k + 3 < inode_size
      → encode inode k ≡ byte_of v 0
      → encode inode (k + 1) ≡ byte_of v 1
      → encode inode (k + 2) ≡ byte_of v 2
      → encode inode (k + 3) ≡ byte_of v 3
      → int_from bytes (o + k) ≡ v
  int_at_offset k v small p e₀ e₁ e₂ e₃ =
      let b₀ = byte_at_offset k (byte_of v 0) (o + k) refl (omega arith) e₀ in
      let b₁ = byte_at_offset (k + 1) (byte_of v 1) (o + k + 1) (omega arith) (omega arith) e₁ in
      let b₂ = byte_at_offset (k + 2) (byte_of v 2) (o + k + 2) (omega arith) (omega arith) e₂ in
      let b₃ = byte_at_offset (k + 3) (byte_of v 3) (o + k + 2 + 1) (omega arith) p e₃ in
      omega (arith, b₀, b₁, b₂, b₃)

  zone_byte : (j r : ℕ) → r < 2 → encode inode (14 + 2 * j + r) ≡ byte_of (inode.zones j) r
  unfolding encode
  zone_byte j r q =
      let k = 14 + 2 * j + r in
      let a : ltb k 2 ≡ false = ground arith in
      let b : ltb k 4 ≡ false = ground arith in
      let c : ltb k 8 ≡ false = ground arith in
      let d : ltb k 12 ≡ false = ground arith in
      let e : (k == 12) ≡ false = ground arith in
      let f : (k == 13) ≡ false = ground arith in
      let index : (k - 14) / 2 ≡ j = omega (arith, q) in
      let half : (k - 14) % 2 ≡ r = omega (arith, q) in rw (a, b, c, d, e, f, index, half) refl

  zone_at_offset : (j : ℕ) → j < 9 → short_from bytes (o + 14 + 2 * j) ≡ inode.zones j
  zone_at_offset j p =
      let at : o + 14 + 2 * j ≡ o + (14 + 2 * j) = omega arith in
      let here : 14 + 2 * j + 0 ≡ 14 + 2 * j = omega arith in
      let first : encode inode (14 + 2 * j) ≡ byte_of (inode.zones j) 0 =
        ap (encode inode) (sym here) ∙ zone_byte j 0 (omega arith) in
      rw at (
        short_at_offset (14 + 2 * j) (inode.zones j) (w.zones j p) (omega arith) first
          (zone_byte j 1 (omega arith)))

  pub decode-encode : SameInode inode (decode bytes o)
  unfolding decode encode
  decode-encode =
      let start : o ≡ o + 0 = omega arith in
      record {
        mode =
            ap (short_from bytes) start
            ∙ short_at_offset 0 inode.mode w.mode (omega arith) refl refl;
        uid = short_at_offset 2 inode.uid w.uid (omega arith) refl refl;
        size = int_at_offset 4 inode.size w.size (omega arith) refl refl refl refl;
        time = int_at_offset 8 inode.time w.time (omega arith) refl refl refl refl;
        gid =
            let b = byte_at_offset 12 (u8 inode.gid) (o + 12) refl (omega arith) refl in
            omega (arith, b, w.gid);
        nlinks =
            let b = byte_at_offset 13 (u8 inode.nlinks) (o + 13) refl (omega arith) refl in
            omega (arith, b, w.nlinks);
        zones = zone_at_offset;
      }

pub encode-lt : (inode : Inode) (k : ℕ) → encode inode k < 2 ^ 8
unfolding encode
encode-lt inode k = ground arith

-- Two blocks that agree on the bytes of an inode.
pub decode-same :
    (d d' : Bytes) (o : ℕ)
    → ((k : ℕ) → k < inode_size → u8 (d' (o + k)) ≡ u8 (d (o + k)))
    → SameInode (decode d o) (decode d' o)
unfolding decode
decode-same d d' o same = record {
  mode =
      (let start : o + 0 ≡ o = omega arith in
        subst (λ x. short_from d' x ≡ short_from d x) start (shorts 0 (omega arith)));
  uid = shorts 2 (omega arith);
  size = ints 4 (omega arith);
  time = ints 8 (omega arith);
  gid = same 12 (omega arith);
  nlinks = same 13 (omega arith);
  zones = λ j p.
      (let at : o + 14 + 2 * j ≡ o + (14 + 2 * j) = omega arith in
        rw at (shorts (14 + 2 * j) (omega arith)));
}
  where
    bytes_at : (x k : ℕ) → x ≡ o + k → k < inode_size → u8 (d' x) ≡ u8 (d x)
    bytes_at x k e p = rw e (same k p)

    shorts : (k : ℕ) → k + 1 < inode_size → short_from d' (o + k) ≡ short_from d (o + k)
    shorts k p = rw (same k (omega arith), bytes_at (o + k + 1) (k + 1) (omega arith) p) refl

    ints : (k : ℕ) → k + 3 < inode_size → int_from d' (o + k) ≡ int_from d (o + k)
    ints k p =
        let low = shorts k (omega arith) in
        let b = bytes_at (o + k + 2) (k + 2) (omega arith) (omega arith) in
        let c = bytes_at (o + k + 2 + 1) (k + 3) (omega arith) p in rw (b, c) (omega (arith, low))
