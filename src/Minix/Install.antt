-- ===== src/Minix/Install.antt =====
-- `minix_write` of tools/src/minix.c: the kernel becomes the file `kernel` of the root directory.
-- The kernel's size and bytes and the time are arguments.
pub mod Needed
pub mod Spared
mod Tests
pub mod Kept
use ata_driver.Minix.Trunc.{trunc_inode}
use ata_driver.Minix.Volume.{partition_start, mount, unmount}
use ata_driver.Common.{
  ℕ, zero, suc, ◌+◌, ◌-◌, ◌*◌, ◌/◌, ◌%◌, ◌^◌, Bool, true, false, not, ◌&&◌, ◌||◌, Option, none,
  some, List, [], ◌∷◌, get_or, ◌==◌, ltb, leb, if◌then◌else◌, bit_and, u8, u16, u32, sub32,
}
use ata_driver.Minix.{
  Bytes, Disk, Fs, Inode, ◌>>=◌, block_size, inode_map, zone_map, load_block, store_block, short_at,
  get_bit, set_bit, unset_bit, find_clear, file_block_2_block, add_file_block, short_from, int_from,
  byte_of, load_inode, save_inode,
}

abbrev pub dentry_size : ℕ
dentry_size = 32

abbrev pub dentries_per_block : ℕ
dentries_per_block = block_size / dentry_size

-- "kernel", with its terminating zero.
abbrev kernel_name : List ℕ
kernel_name = 107 ∷ 101 ∷ 114 ∷ 110 ∷ 101 ∷ 108 ∷ 0 ∷ []

-- `memcmp(name, bytes + o, ...) == 0`
abbrev has_name : List ℕ → Bytes → ℕ → Bool
has_name [] bytes o = true
has_name (c ∷ name) bytes o = u8 (bytes o) == c && has_name name bytes (o + 1)

abbrev dentry_inode : Bytes → ℕ → ℕ
dentry_inode bytes k = short_from bytes (k * dentry_size)

-- The blocks that a directory's loop visits.
abbrev dir_blocks : Inode → ℕ
dir_blocks root = sub32 root.size 1 / block_size + 1

-- The entry `kernel` in block `i` of the directory, from entry `k` on.
pub find_kernel : ℕ → ℕ → ℕ → Inode → Bytes → Option ℕ
find_kernel zero k i root bytes = none
find_kernel (suc rounds) k i root bytes =
    let rest = find_kernel rounds (k + 1) i root bytes in
    if ltb (i * block_size + k * dentry_size) root.size
    then (if not (dentry_inode bytes k == 0) && has_name kernel_name bytes (k * dentry_size + 2)
        then some k
        else rest)
    else none

-- The entry's number and the six letters become 0.
abbrev clear_dentry : ℕ → Bytes → Bytes
clear_dentry k bytes =
    λ x. if leb (k * dentry_size) x && ltb x (k * dentry_size + 8) then 0 else bytes x

abbrev no_inode : Inode
no_inode = record { mode = 0; uid = 0; size = 0; time = 0; gid = 0; nlinks = 0; zones = λ j. 0 }

-- The file of entry `k` of the block `blk` goes.
pub remove_kernel : ℕ → ℕ → ℕ → Bytes → Fs → Option Fs
remove_kernel fb k blk bytes fs =
    let n = dentry_inode bytes k in
    load_inode fs n >>= λ inode. trunc_inode fb inode fs >>= λ fs.
    save_inode fs n no_inode >>= λ fs.
    store_block (record fs { inodes_map = unset_bit n fs.inodes_map }) blk (clear_dentry k bytes)

-- The scan of the directory from its block `i` on.
pub delete_kernel : ℕ → ℕ → ℕ → Inode → Fs → Option Fs
delete_kernel fb zero i root fs = some fs
delete_kernel fb (suc rounds) i root fs = file_block_2_block fs root i >>= λ blk.
    load_block fs blk >>= λ bytes. elim (find_kernel dentries_per_block 0 i root bytes) [
      | none ↦ delete_kernel fb rounds (i + 1) root fs
      | some k ↦ remove_kernel fb k blk bytes fs
    ]

-- The zones that a kernel of `size` bytes needs.
pub zones_needed : ℕ → ℕ
zones_needed size =
    let kerb = (size - 1) / block_size + 1 in
    if leb 7 kerb && ltb kerb (7 + 512)
    then kerb + 1
    else (if leb (512 + 7) kerb then kerb + 2 + ((kerb - 7 - 512 - 1) / 512 + 1) else kerb)

-- The count of free zones from zone `i` on, up to `kerb`.
pub count_free : ℕ → ℕ → ℕ → ℕ → (ℕ → ℕ) → ℕ
count_free zero i count kerb map = count
count_free (suc rounds) i count kerb map =
    let count' = if get_bit map i then count else count + 1 in
    let rest = count_free rounds (i + 1) count' kerb map in if count' == kerb then count' else rest

-- Block `k` of the kernel, filled up with zero bytes, and how much of it was read.
abbrev read_kernel : ℕ → Bytes → ℕ → ℕ × Bytes
read_kernel size kernel k =
    let off = k * block_size in
    let br = if ltb size (off + block_size) then size - off else block_size in
    (br, λ x. if ltb x br then u8 (kernel (off + x)) else 0)

pub copy_kernel : ℕ → ℕ → ℕ → ℕ → Bytes → Inode → Fs → Option Fs
copy_kernel zero k i size kernel inode fs = some fs
copy_kernel (suc rounds) k i size kernel inode fs =
    let (br, bytes) = read_kernel size kernel k in
    add_file_block fs inode >>= λ r.
    let inode' = (let o = r.1 in record o { size = u32 (o.size + br) }) in
    store_block r.2 r.0 bytes >>= λ fs.
    save_inode fs i inode' >>= λ fs. copy_kernel rounds (k + 1) i size kernel inode' fs

-- The bytes of the new entry, and a block in which it is entry `k`.
abbrev dentry : ℕ → Bytes
dentry i x = if ltb x 2 then byte_of i x else get_or kernel_name (x - 2) 0

abbrev pub put_dentry : ℕ → ℕ → Bytes → Bytes
put_dentry k i bytes = λ x.
    if leb (k * dentry_size) x && ltb x (k * dentry_size + dentry_size)
    then dentry i (x - k * dentry_size)
    else bytes x

-- The first entry that is not in use, from entry `k` on.
pub free_dentry : ℕ → ℕ → Bytes → Option ℕ
free_dentry zero k bytes = none
free_dentry (suc rounds) k bytes =
    let rest = free_dentry rounds (k + 1) bytes in
    if dentry_inode bytes k == 0 then some k else rest

abbrev pub longer : Inode → Inode
longer root = record root { size = u32 (root.size + dentry_size) }

-- The entry for inode `n` is put into the directory, from its block `i` on; `bytes` is what the
-- last block held, and a new block keeps the rest of it.
pub link_kernel : ℕ → ℕ → ℕ → Bytes → Inode → Fs → Option Fs
link_kernel zero i n bytes root fs = add_file_block fs root >>= λ r.
    store_block r.2 r.0 (put_dentry 0 n bytes) >>= λ fs. save_inode fs 1 (longer r.1)
link_kernel (suc rounds) i n last root fs = file_block_2_block fs root i >>= λ blk.
    load_block fs blk >>= λ bytes. elim (free_dentry dentries_per_block 0 bytes) [
      | none ↦ link_kernel rounds (i + 1) n bytes root fs
      | some k ↦ store_block fs blk (put_dentry k n bytes) >>= λ fs'.
          if leb root.size (i * block_size + k * dentry_size)
          then save_inode fs' 1 (longer root)
          else some fs'
    ]

-- From the maps in memory to the maps to be written. `S_IFREG | S_IRUSR | S_IWUSR` is 0x8180.
pub install : ℕ → ℕ → ℕ → Bytes → Fs → Option Fs
install fb time size kernel fs = load_inode fs 1 >>= λ root.
    delete_kernel fb (dir_blocks root) 0 root fs >>= λ fs.
    let kerb = zones_needed size in
    let n = find_clear (fs.inodes - 2) 2 fs.inodes_map in
    let fs' = record fs { inodes_map = set_bit n fs.inodes_map } in
    let inode = record no_inode { mode = 0x8180; nlinks = 1; time = u32 time } in
    if ltb (count_free fs.nzones 0 0 kerb fs.zones_map) kerb || n == fs.inodes
    then none
    else (save_inode fs' n inode >>= λ fs.
        copy_kernel ((size - 1) / block_size + 1) 0 n size kernel inode fs >>= λ fs.
        load_inode fs 1 >>= λ root. link_kernel (dir_blocks root) 0 n (λ x. 0) root fs)

-- The disk image with the kernel in it.
pub minix_write : Option ℕ → ℕ → ℕ → ℕ → ℕ → Bytes → Disk → Option Disk
minix_write choice junk fb time size kernel disk = partition_start choice junk disk >>= λ ps.
    mount ps disk >>= λ fs. install fb time size kernel fs >>= λ fs. unmount fs
