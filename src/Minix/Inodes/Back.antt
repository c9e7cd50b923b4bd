-- ===== src/Minix/Inodes/Back.antt =====
-- `minix_load_inode` and then `minix_save_inode`.
use ata_driver.Common.{
  ℕ, ◌+◌, ◌-◌, ◌<◌, ◌≤◌, ◌≡◌, refl, ap, ◌∙◌, arith, true, ◌&&◌, inl, inr, Bool-cases, leb, ltb, u8,
  some,
}
use ata_driver.Minix.{
  Bytes, Fs, Inode, block_size, block_at, put_block, inode_size, decode, inode_block, inode_offset,
  load_inode, put_inode, save_inode,
}
use ata_driver.Minix.Blocks.{Inside, load_block-Inside, store_block-put_block}
use ata_driver.Minix.Layout.{IsWide}
use ata_driver.Minix.Layout.Written.{encode-decode, decode-IsWide}

-- The image holds the same bytes.
pub record IsSameImage (fs fs' : Fs) : Type 0 where
  pub size : fs'.disk.size ≡ fs.disk.size
  pub bytes : (y : ℕ) → y < fs.disk.size → u8 (fs'.disk.byte y) ≡ u8 (fs.disk.byte y)

put_inode-decode :
    (bytes : Bytes) (o t : ℕ) → u8 (put_inode o (decode bytes o) bytes t) ≡ u8 (bytes t)
put_inode-decode bytes o t = elim (Bool-cases (leb o t && ltb t (o + inode_size))) [
  | inl within ↦
      let low : o ≤ t = ground (arith, within) in
      let high : t - o < inode_size = ground (arith, within) in
      let at : o + (t - o) ≡ t = omega (arith, low) in
      rw within (omega (arith, encode-decode bytes o (t - o) high, ap bytes at))
  | inr out ↦ rw out refl
]

put_block-IsSameImage :
    (fs : Fs) (blk : ℕ) (bytes : Bytes)
    → Inside fs blk
    → ((t : ℕ) → u8 (bytes t) ≡ u8 (fs.disk.byte (block_at fs blk + t)))
    → IsSameImage fs (put_block fs blk bytes)
unfolding put_block
put_block-IsSameImage fs blk bytes h same = record {
  size = ground (arith, h.1);
  bytes = λ y p.
      elim (Bool-cases (leb (block_at fs blk) y && ltb y (block_at fs blk + block_size))) [
        | inl within ↦
            let low : block_at fs blk ≤ y = ground (arith, within) in
            let at : block_at fs blk + (y - block_at fs blk) ≡ y = omega (arith, low) in
            rw within (omega (arith, same (y - block_at fs blk), ap fs.disk.byte at))
        | inr out ↦ let old : ltb y fs.disk.size ≡ true = ground (arith, p) in rw (out, old) refl
      ];
}

-- Where the inode's block lies in the image, at an offset below 2^31, `minix_load_inode` succeeds, every field of the inode
-- fits its width, and `minix_save_inode` of that inode succeeds and leaves every byte of the image
-- as it was, and its size.
pub save_inode-load_inode :
    (fs : Fs) (i : ℕ)
    → Inside fs (inode_block fs i)
    → (inode : Inode) × (load_inode fs i ≡ some inode)
      × IsWide inode
      × (fs' : Fs) × (save_inode fs i inode ≡ some fs')
      × IsSameImage fs fs'
unfolding load_inode save_inode
save_inode-load_inode fs i h =
    let blk = inode_block fs i in
    let bytes : Bytes = λ t. u8 (fs.disk.byte (block_at fs blk + t)) in
    let there = load_block-Inside fs blk h in
    let inode = decode bytes (inode_offset i) in
    (
      inode,
      rw there refl,
      decode-IsWide bytes (inode_offset i),
      put_block fs blk (put_inode (inode_offset i) inode bytes),
      rw there (store_block-put_block fs blk _ h.0),
      put_block-IsSameImage fs blk _ h
          (λ t. put_inode-decode bytes (inode_offset i) t ∙ omega arith),
    )
