-- ===== src/Minix/Volume/Maps.antt =====
-- The maps survive an unmount and a mount.
use ata_driver.Common.{
  ◌^◌, ◌||◌, some, ℕ, ◌+◌, ◌-◌, ◌*◌, ◌≤◌, ◌<◌, ◌≡◌, ◌∙◌, refl, ap, arith, false, ◌⊎◌, inl, some,
  ltb, u8,
}
use ata_driver.Minix.{
  Bytes, Disk, Fs, int_offset, is_negative, block_size, inode_map, zone_map, block_at, load_block,
  short_from,
}
use ata_driver.Minix.Volume.{load_map, put_map, store_map, mount, unmount}

-- The bytes of the superblock.
abbrev pub superblock : Fs → Bytes
superblock fs = λ i. u8 (fs.disk.byte (block_at fs 1 + i))

-- The fields of the file system are those of its superblock, the image reaches behind the maps, and an `int` does.
pub record IsMounted (fs : Fs) : Type 0 where
  pub inodes : short_from (superblock fs) 0 ≡ fs.inodes
  pub nzones : short_from (superblock fs) 2 ≡ fs.nzones
  pub imap_blocks : short_from (superblock fs) 4 ≡ fs.imap_blocks
  pub zmap_blocks : short_from (superblock fs) 6 ≡ fs.zmap_blocks
  pub first_data_zone : short_from (superblock fs) 8 ≡ fs.first_data_zone
  pub reach : fs.ps + block_size * (2 + fs.imap_blocks + fs.zmap_blocks) < 2 ^ 31
  pub room : fs.ps + block_size * (2 + fs.imap_blocks + fs.zmap_blocks) ≤ fs.disk.size

-- The two file systems are of one shape.
pub record IsAlike (fs fs' : Fs) : Type 0 where
  pub ps : fs'.ps ≡ fs.ps
  pub inodes : fs'.inodes ≡ fs.inodes
  pub nzones : fs'.nzones ≡ fs.nzones
  pub imap_blocks : fs'.imap_blocks ≡ fs.imap_blocks
  pub zmap_blocks : fs'.zmap_blocks ≡ fs.zmap_blocks
  pub first_data_zone : fs'.first_data_zone ≡ fs.first_data_zone
  pub imap : (x : ℕ) → x < block_size * fs.imap_blocks → fs'.inodes_map x ≡ u8 (fs.inodes_map x)
  pub zmap : (x : ℕ) → x < block_size * fs.zmap_blocks → fs'.zones_map x ≡ u8 (fs.zones_map x)
  pub size : fs'.disk.size ≡ fs.disk.size
  pub others :
      (y : ℕ)
      → y < fs.disk.size
      → (y < fs.ps + block_size * inode_map)
        ⊎ (fs.ps + block_size * (2 + fs.imap_blocks + fs.zmap_blocks) ≤ y)
      → fs'.disk.byte y ≡ fs.disk.byte y

module _ (fs : Fs) (v : IsMounted fs) where
  -- The image behind `unmount`.
  abbrev image : Disk
  image =
      put_map fs.ps (zone_map fs) fs.zmap_blocks fs.zones_map
        (put_map fs.ps inode_map fs.imap_blocks fs.inodes_map fs.disk)

  stored : unmount fs ≡ some image
  unfolding unmount store_map
  stored =
      let imap : is_negative (int_offset fs.ps inode_map) ≡ false = ground (arith, v.reach) in
      let zmap : is_negative (int_offset fs.ps (zone_map fs)) ≡ false = ground (arith, v.reach) in
      rw (imap, zmap) refl

  size-image : image.size ≡ fs.disk.size
  unfolding put_map
  size-image = ground (arith, v.room, v.reach)

  others-image :
      (y : ℕ)
      → y < fs.disk.size
      → (y < fs.ps + block_size * inode_map)
        ⊎ (fs.ps + block_size * (2 + fs.imap_blocks + fs.zmap_blocks) ≤ y)
      → image.byte y ≡ fs.disk.byte y
  unfolding put_map
  others-image y inside out = ground (arith, v.room, v.reach, inside, out)

  imap-image :
      (x : ℕ)
      → x < block_size * fs.imap_blocks
      → u8 (image.byte (int_offset fs.ps inode_map + x)) ≡ u8 (fs.inodes_map x)
  unfolding put_map
  imap-image x inside =
      let at : int_offset fs.ps inode_map + x - int_offset fs.ps inode_map ≡ x = omega arith in
      ground (arith, v.room, v.reach, inside, ap fs.inodes_map at)

  zmap-image :
      (x : ℕ)
      → x < block_size * fs.zmap_blocks
      → u8 (image.byte (int_offset fs.ps (zone_map fs) + x)) ≡ u8 (fs.zones_map x)
  unfolding put_map
  zmap-image x inside =
      let at : int_offset fs.ps (zone_map fs) + x - int_offset fs.ps (zone_map fs) ≡ x =
        omega arith in
      ground (arith, v.room, v.reach, inside, ap fs.zones_map at)

  -- The superblock lies before the maps.
  short-image :
      (i : ℕ)
      → i < 100
      → short_from (λ k. u8 (image.byte (block_at fs 1 + k))) i ≡ short_from (superblock fs) i
  short-image i low =
      let at : block_at fs 1 ≡ fs.ps + block_size = omega (arith, v.reach) in
      omega (
        arith,
        others-image (block_at fs 1 + i) (omega (arith, v.room, at)) (inl (omega (arith, at))),
        others-image (block_at fs 1 + (i + 1)) (omega (arith, v.room, at))
            (inl (omega (arith, at))),
      )

  -- A file system whose fields are those of its superblock, in an image that reaches behind its
  -- maps, which end below 2^31: `unmount` succeeds, and then `mount` at the same place succeeds
  -- and gives the same fields and the same bits of both maps; the image has its size, and no byte
  -- outside of the maps has changed.
  pub mount-unmount :
      (disk : Disk) × (unmount fs ≡ some disk)
      × (fs' : Fs) × (mount fs.ps disk ≡ some fs')
      × IsAlike fs fs'
  unfolding mount load_block load_map
  mount-unmount =
      let super : (is_negative (block_at fs 1) || ltb image.size (block_at fs 1 + block_size))
          ≡ false =
        ground (arith, size-image, v.room, v.reach) in
      let imap : (is_negative (int_offset fs.ps inode_map)
            || ltb image.size (int_offset fs.ps inode_map + fs.imap_blocks * block_size))
          ≡ false =
        ground (arith, size-image, v.room, v.reach) in
      let zmap : (is_negative (int_offset fs.ps (inode_map + fs.imap_blocks))
            || ltb image.size
                (int_offset fs.ps (inode_map + fs.imap_blocks) + fs.zmap_blocks * block_size))
          ≡ false =
        ground (arith, size-image, v.room, v.reach) in
      let i = short-image 4 (omega arith) ∙ v.imap_blocks in
      let z = short-image 6 (omega arith) ∙ v.zmap_blocks in
      (
        image,
        stored,
        _,
        rw (super, i, z, imap, zmap) refl,
        record {
          ps = refl;
          inodes = short-image 0 (omega arith) ∙ v.inodes;
          nzones = short-image 2 (omega arith) ∙ v.nzones;
          imap_blocks = refl;
          zmap_blocks = refl;
          first_data_zone = short-image 8 (omega arith) ∙ v.first_data_zone;
          imap = imap-image;
          zmap = zmap-image;
          size = size-image;
          others = others-image;
        },
      )
