-- ===== src/Minix/Install/Kept.antt =====
-- The kernel is installed without a change to what lies before the partition.
use ata_driver.Common.{ℕ, zero, suc, ◌+◌, ◌*◌, refl, none, some, leb, if◌then◌else◌}
use ata_driver.Minix.{
  ◌>>=◌, block_size, Bytes, Fs, Inode, load_block, store_block, save_inode, file_block_2_block,
}
use ata_driver.Minix.Before.{
  IsKept, IsKept-next, IsKept-store_block, Each, failed, gives, Each-bind, Each-any, Each-if, Third,
  add_file_block-IsKept, save_inode-IsKept,
}
use ata_driver.Minix.Trunc.Kept.{trunc_inode-IsKept}
use ata_driver.Minix.Install.{
  find_kernel, remove_kernel, delete_kernel, copy_kernel, free_dentry, link_kernel, put_dentry,
  dentry_size, dentries_per_block, install, longer,
}

module _ (fs : Fs) where
  remove_kernel-IsKept :
      (fb k blk : ℕ) (bytes : Bytes) (fs₁ : Fs)
      → IsKept fs fs₁
      → Each (IsKept fs) (remove_kernel fb k blk bytes fs₁)
  unfolding remove_kernel
  remove_kernel-IsKept fb k blk bytes fs₁ v = Each-any (IsKept fs) _ (λ inode.
      Each-bind (IsKept fs) (IsKept fs) (trunc_inode-IsKept fs fb inode fs₁ v) (λ fs₂ w.
        Each-bind (IsKept fs) (IsKept fs) (save_inode-IsKept fs fs₂ _ _ w)
          (λ fs₃ u. IsKept-store_block _ _ (IsKept-next u refl refl refl))))

  delete_kernel-IsKept :
      (fb rounds i : ℕ) (root : Inode) (fs₁ : Fs)
      → IsKept fs fs₁
      → Each (IsKept fs) (delete_kernel fb rounds i root fs₁)
  unfolding delete_kernel
  delete_kernel-IsKept fb zero i root fs₁ v = gives v
  delete_kernel-IsKept fb (suc rounds) i root fs₁ v =
      let rest = delete_kernel-IsKept fb rounds (i + 1) root fs₁ v in
      Each-any (IsKept fs) (file_block_2_block fs₁ root i) (λ blk.
        Each-any (IsKept fs) (load_block fs₁ blk) (λ bytes.
          elim (find_kernel dentries_per_block 0 i root bytes)
            as (λ o. Each (IsKept fs) (elim o [
              | none ↦ delete_kernel fb rounds (i + 1) root fs₁
              | some k ↦ remove_kernel fb k blk bytes fs₁
            ])) [ none ↦ rest | some k ↦ remove_kernel-IsKept fb k blk bytes fs₁ v ]))

  copy_kernel-IsKept :
      (rounds k i size : ℕ) (kernel : Bytes) (inode : Inode) (fs₁ : Fs)
      → IsKept fs fs₁
      → Each (IsKept fs) (copy_kernel rounds k i size kernel inode fs₁)
  unfolding copy_kernel
  copy_kernel-IsKept zero k i size kernel inode fs₁ v = gives v
  copy_kernel-IsKept (suc rounds) k i size kernel inode fs₁ v =
      Each-bind (Third fs) (IsKept fs) (add_file_block-IsKept fs fs₁ inode v) (λ r w.
        Each-bind (IsKept fs) (IsKept fs) (IsKept-store_block r.0 _ w) (λ fs₂ t.
          Each-bind (IsKept fs) (IsKept fs) (save_inode-IsKept fs fs₂ i _ t)
            (λ fs₃ u. copy_kernel-IsKept rounds (k + 1) i size kernel _ fs₃ u)))

  link_kernel-IsKept :
      (rounds i n : ℕ) (last : Bytes) (root : Inode) (fs₁ : Fs)
      → IsKept fs fs₁
      → Each (IsKept fs) (link_kernel rounds i n last root fs₁)
  unfolding link_kernel
  link_kernel-IsKept zero i n last root fs₁ v =
      Each-bind (Third fs) (IsKept fs) (add_file_block-IsKept fs fs₁ root v) (λ r w.
        Each-bind (IsKept fs) (IsKept fs) (IsKept-store_block r.0 _ w)
          (λ fs₂ u. save_inode-IsKept fs fs₂ 1 _ u))
  link_kernel-IsKept (suc rounds) i n last root fs₁ v =
      Each-any (IsKept fs) (file_block_2_block fs₁ root i) (λ blk.
        Each-any (IsKept fs) (load_block fs₁ blk) (λ bytes.
          let rest = link_kernel-IsKept rounds (i + 1) n bytes root fs₁ v in
          elim (free_dentry dentries_per_block 0 bytes)
            as (λ o. Each (IsKept fs) (elim o [
              | none ↦ link_kernel rounds (i + 1) n bytes root fs₁
              | some k ↦ store_block fs₁ blk (put_dentry k n bytes) >>= λ fs'.
                  if leb root.size (i * block_size + k * dentry_size)
                  then save_inode fs' 1 (longer root)
                  else some fs'
            ])) [
              | none ↦ rest
              | some k ↦
                  Each-bind (IsKept fs) (IsKept fs)
                    (IsKept-store_block blk (put_dentry k n bytes) v)
                    (λ fs₂ w. Each-if _ (save_inode-IsKept fs fs₂ 1 _ w) (gives w))
            ]))

  pub install-IsKept :
      (fb time size : ℕ) (kernel : Bytes) (fs₁ : Fs)
      → IsKept fs fs₁
      → Each (IsKept fs) (install fb time size kernel fs₁)
  unfolding install
  install-IsKept fb time size kernel fs₁ v = Each-any (IsKept fs) _ (λ root.
      Each-bind (IsKept fs) (IsKept fs) (delete_kernel-IsKept fb _ 0 root fs₁ v) (λ fs₂ w.
        Each-if _ failed (
          Each-bind (IsKept fs) (IsKept fs)
            (save_inode-IsKept fs _ _ _ (IsKept-next w refl refl refl))
            (λ fs₃ u.
              Each-bind (IsKept fs) (IsKept fs) (copy_kernel-IsKept _ 0 _ size kernel _ fs₃ u)
                (λ fs₄ x.
                  Each-any (IsKept fs) _ (λ root. link_kernel-IsKept _ 0 _ _ root fs₄ x))))))
