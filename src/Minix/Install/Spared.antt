-- ===== src/Minix/Install/Spared.antt =====
-- `minix_write` and the sectors before the partition.
use ata_driver.Common.{ℕ, ◌<◌, ◌^◌, ◌≡◌, ◌∙◌, refl, ap, arith, Option, some}
use ata_driver.Minix.{Bytes, Disk, Fs}
use ata_driver.Minix.Before.{IsKept, IsKept-same, Each, Each-map, Each-bind}
use ata_driver.Minix.Volume.{partition_start, unmount}
use ata_driver.Minix.Volume.Spared.{IsSpared, IsOn, mount-IsOn, unmount-IsSpared}
use ata_driver.Minix.Install.{minix_write}
use ata_driver.Minix.Install.Kept.{install-IsKept}

spared :
    (ps : ℕ) (disk : Disk) (fs fs₁ : Fs)
    → IsOn ps disk fs
    → IsKept fs fs₁
    → Each (IsSpared ps disk) (unmount fs₁)
spared ps disk fs fs₁ on v =
    let same = ap (λ d. d.size) on.image in
    Each-map (unmount-IsSpared fs₁ (omega (arith, v.start, v.ps)) (omega (arith, v.maps, on.small)))
      (λ disk' w. record {
        size = omega (arith, w.size, v.size, same);
        before = λ y l q.
            w.before y (omega (arith, l, v.ps, on.start)) (omega (arith, q, v.size, same))
            ∙ v.before y (omega (arith, l, on.start)) (omega (arith, q, same))
            ∙ ap (λ d. d.byte y) on.image;
      })

-- For a partition whose start `ps` is below 2^31, whatever the image holds: an image that
-- `minix_write` gives is no shorter than the one it was given, and has the same bytes before `ps`.
pub minix_write-IsSpared :
    (choice : Option ℕ) (junk fb time size : ℕ) (kernel : Bytes) (disk : Disk) (ps : ℕ)
    → partition_start choice junk disk ≡ some ps
    → ps < 2 ^ 31
    → Each (IsSpared ps disk) (minix_write choice junk fb time size kernel disk)
unfolding minix_write
minix_write-IsSpared choice junk fb time size kernel disk ps at low = rw at (
    Each-bind (IsOn ps disk) (IsSpared ps disk) (mount-IsOn ps disk) (λ fs on.
      Each-bind (IsKept fs) (IsSpared ps disk)
        (install-IsKept fs fb time size kernel fs
          (IsKept-same (omega (arith, low, on.start)) refl refl refl))
        (λ fs₁ v. spared ps disk fs fs₁ on v)))
