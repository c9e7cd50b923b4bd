-- ===== src/Minix/Trunc/Kept.antt =====
-- `minix_trunc_inode` changes no byte of the image.
use ata_driver.Common.{ℕ, Bool, zero, suc, ◌+◌, refl, ◌==◌}
use ata_driver.Minix.{Fs, Inode}
use ata_driver.Minix.Before.{IsKept, IsKept-next, Each, failed, gives, Each-bind, Each-any, Each-if}
use ata_driver.Minix.Trunc.{
  Trunc, release_zone, release_in, enter_table, enter_inner, trunc_block, trunc_indirect,
  trunc_double, trunc_loop, trunc_inode,
}

module _ (fs : Fs) where
  abbrev Going : Trunc → Type 0
  Going t = IsKept fs t.fs

  release_zone-IsKept : (z : ℕ) (fs₁ : Fs) → IsKept fs fs₁ → Each (IsKept fs) (release_zone z fs₁)
  unfolding release_zone
  release_zone-IsKept z fs₁ v = Each-if _ failed (gives (IsKept-next v refl refl refl))

  release_in-IsKept : (z : ℕ) (t : Trunc) → Going t → Each Going (release_in z t)
  release_in-IsKept z t v =
      Each-bind (IsKept fs) Going (release_zone-IsKept z t.fs v) (λ fs₁ w. gives w)

  enter_table-IsKept :
      (first : Bool) (z : ℕ) (t : Trunc) → Going t → Each Going (enter_table first z t)
  unfolding enter_table
  enter_table-IsKept first z t v =
      Each-if first (Each-any Going _ (λ bytes. release_in-IsKept z _ v)) (gives v)

  enter_inner-IsKept :
      (first : Bool) (z : ℕ) (t : Trunc) → Going t → Each Going (enter_inner first z t)
  unfolding enter_inner
  enter_inner-IsKept first z t v =
      Each-if first (Each-any Going _ (λ bytes. release_in-IsKept z _ v)) (gives v)

  trunc_indirect-IsKept :
      (i : ℕ) (inode : Inode) (t : Trunc) → Going t → Each Going (trunc_indirect i inode t)
  unfolding trunc_indirect
  trunc_indirect-IsKept i inode t v =
      Each-bind Going Going (enter_table-IsKept (i == 7) (inode.zones 7) t v)
        (λ t w. release_in-IsKept _ t w)

  trunc_double-IsKept :
      (i : ℕ) (inode : Inode) (t : Trunc) → Going t → Each Going (trunc_double i inode t)
  unfolding trunc_double
  trunc_double-IsKept i inode t v =
      Each-bind Going Going (enter_table-IsKept (i == 7 + 512) (inode.zones 8) t v)
        (λ t w. Each-bind Going Going (enter_inner-IsKept _ _ t w) (λ t u. release_in-IsKept _ t u))

  trunc_block-IsKept :
      (i : ℕ) (inode : Inode) (t : Trunc) → Going t → Each Going (trunc_block i inode t)
  unfolding trunc_block
  trunc_block-IsKept i inode t v =
      Each-if _ (release_in-IsKept _ t v)
        (Each-if _ (trunc_indirect-IsKept i inode t v) (trunc_double-IsKept i inode t v))

  trunc_loop-IsKept :
      (rounds i : ℕ) (inode : Inode) (t : Trunc)
      → Going t
      → Each Going (trunc_loop rounds i inode t)
  unfolding trunc_loop
  trunc_loop-IsKept zero i inode t v = gives v
  trunc_loop-IsKept (suc rounds) i inode t v =
      Each-bind Going Going (trunc_block-IsKept i inode t v)
        (λ t w. trunc_loop-IsKept rounds (i + 1) inode t w)

  pub trunc_inode-IsKept :
      (fb : ℕ) (inode : Inode) (fs₁ : Fs)
      → IsKept fs fs₁
      → Each (IsKept fs) (trunc_inode fb inode fs₁)
  unfolding trunc_inode
  trunc_inode-IsKept fb inode fs₁ v =
      Each-bind Going (IsKept fs) (trunc_loop-IsKept fb 0 inode _ v) (λ t w. gives w)
