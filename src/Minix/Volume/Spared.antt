-- ===== src/Minix/Volume/Spared.antt =====
-- `mount` and `unmount` and what lies before the partition.
use ata_driver.Common.{◌^◌, ℕ, ◌≤◌, ◌<◌, ◌≡◌, ◌∙◌, refl, arith}
use ata_driver.Minix.{Bytes, Disk, Fs, inode_map, zone_map, load_block}
use ata_driver.Minix.Before.{Each, failed, gives, Each-bind, Each-map, Each-any, Each-if}
use ata_driver.Minix.Volume.{load_map, put_map, store_map, mount, unmount}

-- `disk'` is no shorter, and has the bytes of `disk` before `ps`.
pub record IsSpared (ps : ℕ) (disk disk' : Disk) : Type 0 where
  pub size : disk.size ≤ disk'.size
  pub before : (y : ℕ) → y < ps → y < disk.size → disk'.byte y ≡ disk.byte y

IsSpared-trans :
    {ps : ℕ} {disk disk₁ disk₂ : Disk}
    → IsSpared ps disk disk₁
    → IsSpared ps disk₁ disk₂
    → IsSpared ps disk disk₂
IsSpared-trans v w = record {
  size = omega (arith, v.size, w.size);
  before = λ y l q. w.before y l (omega (arith, q, v.size)) ∙ v.before y l q;
}

store_map-IsSpared :
    (ps first blocks : ℕ) (map : Bytes) (disk : Disk)
    → ps < 2 ^ 31
    → first < 2 ^ 20
    → Each (IsSpared ps disk) (store_map ps first blocks map disk)
unfolding store_map put_map
store_map-IsSpared ps first blocks map disk low small =
    Each-if _ failed
      (gives (record { size = ground arith; before = λ y l q. ground (arith, l, q, low, small) }))

pub unmount-IsSpared :
    (fs : Fs)
    → fs.ps < 2 ^ 31
    → fs.imap_blocks < 2 ^ 16
    → Each (IsSpared fs.ps fs.disk) (unmount fs)
unfolding unmount
unmount-IsSpared fs low small =
    let P = IsSpared fs.ps fs.disk in
    Each-bind P P
      (store_map-IsSpared fs.ps inode_map fs.imap_blocks fs.inodes_map fs.disk low (omega arith))
      (λ disk v.
        Each-map
          (store_map-IsSpared fs.ps (zone_map fs) fs.zmap_blocks fs.zones_map disk low
            (omega (arith, small)))
          (λ disk' w. IsSpared-trans v w))

-- A file system that stands at `ps` on `disk`; the size of a map is a short.
pub record IsOn (ps : ℕ) (disk : Disk) (fs : Fs) : Type 0 where
  pub start : fs.ps ≡ ps
  pub image : fs.disk ≡ disk
  pub small : fs.imap_blocks < 2 ^ 16

pub mount-IsOn : (ps : ℕ) (disk : Disk) → Each (IsOn ps disk) (mount ps disk)
unfolding mount
mount-IsOn ps disk = Each-any (IsOn ps disk) (load_block _ 1) (λ sb.
    Each-any (IsOn ps disk) (load_map disk ps inode_map _) (λ imap.
      Each-any (IsOn ps disk) (load_map disk ps _ _)
        (λ zmap. gives (record { start = refl; image = refl; small = omega arith }))))
