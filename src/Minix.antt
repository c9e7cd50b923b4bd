-- ===== src/Minix.antt =====
-- tools/src/minix.c: the blocks, zones and inodes of a MINIX file system in a disk image. `none`
-- stands for `scream_and_quit`. The bitmaps are byte memories of their own, as the program keeps
-- them; an access behind their end, which the program does not prevent, is not a fault here.
pub mod Zones
pub mod Blocks
pub mod Layout
pub mod Files
pub mod Inodes
pub mod Volume
pub mod Trunc
pub mod Before
pub mod Install
mod Tests
use ata_driver.Common.{
  ℕ, zero, suc, ◌+◌, ◌-◌, ◌*◌, ◌/◌, ◌%◌, ◌^◌, Bool, true, false, not, ◌&&◌, ◌||◌, ◌||◌, Option,
  none, some, ◌==◌, ltb, leb, if◌then◌else◌, bit_and, bit_or, u8, u16, u32, u64, not32, ◌<<<◌,
}

infixl 5 ◌>>=◌
abbrev pub ◌>>=◌ : {A B : Type 0} → Option A → (A → Option B) → Option B
none >>= f = none
some a >>= f = f a

abbrev pub block_size : ℕ
block_size = 1024

abbrev pub inode_map : ℕ
inode_map = 2

-- The image file: its size and its bytes.
pub record Disk : Type 0 where
  pub size : ℕ
  pub byte : ℕ → ℕ

-- The bytes of a block.
abbrev pub Bytes : Type 0
Bytes = ℕ → ℕ

-- The globals: `ps`, the fields of `sb` that are used, the image and the bitmaps.
pub record Fs : Type 0 where
  pub ps : ℕ
  pub inodes : ℕ
  pub nzones : ℕ
  pub imap_blocks : ℕ
  pub zmap_blocks : ℕ
  pub first_data_zone : ℕ
  pub disk : Disk
  pub inodes_map : ℕ → ℕ
  pub zones_map : ℕ → ℕ

-- `ps + MINIX_BLK2OFF(n)` as an `int`, by its 32 bits, as `ps` is given too.
abbrev pub int_offset : ℕ → ℕ → ℕ
int_offset ps n = u32 (ps + block_size * n)

-- `fseek` refuses a negative offset.
abbrev pub is_negative : ℕ → Bool
is_negative off = leb (2 ^ 31) off

abbrev pub block_at : Fs → ℕ → ℕ
block_at fs blk = int_offset fs.ps (u16 blk)

pub load_block : Fs → ℕ → Option Bytes
load_block fs blk =
    let off = block_at fs blk in
    if is_negative off || ltb fs.disk.size (off + block_size)
    then none
    else some (λ i. u8 (fs.disk.byte (off + i)))

-- A write behind the end makes the file longer, with zero bytes between.
pub put_block : Fs → ℕ → Bytes → Fs
put_block fs blk bytes =
    let off = block_at fs blk in
    let end = off + block_size in
    let size = fs.disk.size in
    record fs {
      disk = record {
        size = if ltb size end then end else size;
        byte = λ x.
            if leb off x && ltb x end
            then u8 (bytes (x - off))
            else (if ltb x size then fs.disk.byte x else 0);
      };
    }

pub store_block : Fs → ℕ → Bytes → Option Fs
store_block fs blk bytes =
    if is_negative (block_at fs blk) then none else some (put_block fs blk bytes)

-- The array of shorts in a block.
abbrev pub short_at : Bytes → ℕ → ℕ
short_at bytes i = u8 (bytes (2 * i)) + 2 ^ 8 * u8 (bytes (2 * i + 1))

abbrev pub set_short : ℕ → ℕ → Bytes → Bytes
set_short i v bytes =
    λ x. if x == 2 * i then u8 v else (if x == 2 * i + 1 then u8 (v / 2 ^ 8) else bytes x)

pub get_bit : (ℕ → ℕ) → ℕ → Bool
get_bit map n = not (bit_and (u8 (map (n / 8))) (1 <<< (n % 8)) == 0)

pub set_bit : ℕ → (ℕ → ℕ) → ℕ → ℕ
set_bit n map = λ x. if x == n / 8 then bit_or (u8 (map x)) (1 <<< (n % 8)) else map x

pub unset_bit : ℕ → (ℕ → ℕ) → ℕ → ℕ
unset_bit n map = λ x. if x == n / 8 then bit_and (u8 (map x)) (not32 (1 <<< (n % 8))) else map x

-- `for (; k < limit && MAP_GET_BIT(map, k); k ++);` with `rounds` rounds to `limit`.
pub find_clear : ℕ → ℕ → (ℕ → ℕ) → ℕ
find_clear zero k map = k
find_clear (suc rounds) k map =
    let rest = find_clear rounds (k + 1) map in if get_bit map k then rest else k

-- The number of a free zone, which is marked used.
pub take_zone : Fs → Option (ℕ × Fs)
take_zone fs =
    let k = find_clear fs.nzones 0 fs.zones_map in
    if k == fs.nzones
    then none
    else some (u16 (fs.first_data_zone + k), record fs { zones_map = set_bit k fs.zones_map })

pub record Inode : Type 0 where
  pub mode : ℕ
  pub uid : ℕ
  pub size : ℕ
  pub time : ℕ
  pub gid : ℕ
  pub nlinks : ℕ
  pub zones : ℕ → ℕ

abbrev pub put_zone : ℕ → ℕ → Inode → Inode
put_zone i z inode = record inode { zones = λ j. if j == i then z else inode.zones j }

-- The zone of block `b` of a file.
pub zone_of : Fs → Inode → ℕ → Option ℕ
zone_of fs inode b =
    if ltb b 7
    then some (inode.zones b)
    else (if ltb b (7 + 512)
        then (load_block fs (inode.zones 7) >>= λ bytes. some (short_at bytes (b - 7)))
        else (load_block fs (inode.zones 8) >>= λ bytes.
            load_block fs (short_at bytes ((b - 519) / 512)) >>= λ bytes.
            some (short_at bytes ((b - 519) % 512))))

pub file_block_2_block : Fs → Inode → ℕ → Option ℕ
file_block_2_block fs inode b = if ltb inode.size (b * block_size) then none else zone_of fs inode b

-- The blocks of a file.
unfoldable pub blocks_of : ℕ → ℕ
blocks_of size = size / block_size + (if size % block_size == 0 then 0 else 1)

-- The zone `i` of the inode; it is taken first where `fresh` says so.
pub indirect : ℕ → Bool → Fs → Inode → Option (Inode × Fs)
indirect i fresh fs inode =
    if fresh then take_zone fs >>= (λ r. some (put_zone i r.0 inode, r.1)) else some (inode, fs)

-- A free zone becomes entry `i` of the block `blk`, whose bytes are `bytes`.
pub enter : Fs → ℕ → Bytes → ℕ → Option (ℕ × Bytes × Fs)
enter fs blk bytes i = take_zone fs >>= λ r.
    let bytes' = set_short i r.0 bytes in
    store_block r.1 blk bytes' >>= λ fs. some (r.0, bytes', fs)

pub add_direct : ℕ → Fs → Inode → Option (ℕ × Inode × Fs)
add_direct fb fs inode = take_zone fs >>= λ r. some (r.0, put_zone fb r.0 inode, r.1)

pub add_indirect : ℕ → Fs → Inode → Option (ℕ × Inode × Fs)
add_indirect fb fs inode = indirect 7 (fb == 7) fs inode >>= λ p.
    load_block p.1 (p.0.zones 7) >>= λ bytes.
    enter p.1 (p.0.zones 7) bytes (fb - 7) >>= λ r. some (r.0, p.0, r.2)

-- The block of the table in `bytes`, entry `i`; a new one is taken first where `fresh` says so.
pub inner : Bool → ℕ → ℕ → Bytes → Fs → Option (ℕ × Fs)
inner fresh i blk bytes fs =
    if fresh
    then enter fs blk bytes i >>= (λ r. some (short_at r.1 i, r.2))
    else some (short_at bytes i, fs)

pub add_double : ℕ → Fs → Inode → Option (ℕ × Inode × Fs)
add_double fb fs inode = indirect 8 (fb == 519) fs inode >>= λ p.
    load_block p.1 (p.0.zones 8) >>= λ bytes.
    inner ((fb - 7 + 512) % 512 == 0) ((fb - 519) / 512) (p.0.zones 8) bytes p.1 >>= λ q.
    load_block q.1 q.0 >>= λ bytes.
    enter q.1 q.0 bytes ((fb - 519) % 512) >>= λ r. some (r.0, p.0, r.2)

pub add_file_block : Fs → Inode → Option (ℕ × Inode × Fs)
add_file_block fs inode =
    let fb = blocks_of inode.size in
    if ltb fb 7
    then add_direct fb fs inode
    else (if ltb fb (7 + 512) then add_indirect fb fs inode else add_double fb fs inode)

-- `MINIX_ZONE_MAP` and `MINIX_INODE_TABLE`.
abbrev pub zone_map : Fs → ℕ
zone_map fs = inode_map + fs.imap_blocks

abbrev pub inode_table : Fs → ℕ
inode_table fs = zone_map fs + fs.zmap_blocks

abbrev pub inode_size : ℕ
inode_size = 32

abbrev pub inodes_per_block : ℕ
inodes_per_block = block_size / inode_size

abbrev pub short_from : Bytes → ℕ → ℕ
short_from bytes o = u8 (bytes o) + 2 ^ 8 * u8 (bytes (o + 1))

abbrev pub int_from : Bytes → ℕ → ℕ
int_from bytes o = short_from bytes o + 2 ^ 16 * short_from bytes (o + 2)

-- The packed structure at the offset `o` of a block.
pub decode : Bytes → ℕ → Inode
decode bytes o = record {
  mode = short_from bytes o;
  uid = short_from bytes (o + 2);
  size = int_from bytes (o + 4);
  time = int_from bytes (o + 8);
  gid = u8 (bytes (o + 12));
  nlinks = u8 (bytes (o + 13));
  zones = λ j. short_from bytes (o + 14 + 2 * j);
}

abbrev pub byte_of : ℕ → ℕ → ℕ
byte_of v i = v / 2 ^ (8 * i) % 2 ^ 8

-- Byte `k` of the structure.
pub encode : Inode → Bytes
encode inode k =
    if ltb k 2
    then byte_of inode.mode k
    else (if ltb k 4
        then byte_of inode.uid (k - 2)
        else (if ltb k 8
            then byte_of inode.size (k - 4)
            else (if ltb k 12
                then byte_of inode.time (k - 8)
                else (if k == 12
                    then u8 inode.gid
                    else (if k == 13
                        then u8 inode.nlinks
                        else byte_of (inode.zones ((k - 14) / 2)) ((k - 14) % 2))))))

-- `i - 1`, which the division takes as an unsigned 64-bit number.
abbrev pub index_of : ℕ → ℕ
index_of i = u64 (i + 2 ^ 64 - 1)

abbrev pub inode_block : Fs → ℕ → ℕ
inode_block fs i = u16 (inode_table fs + index_of i / inodes_per_block)

abbrev pub inode_offset : ℕ → ℕ
inode_offset i = index_of i % inodes_per_block * inode_size

pub load_inode : Fs → ℕ → Option Inode
load_inode fs i = load_block fs (inode_block fs i) >>= λ bytes. some (decode bytes (inode_offset i))

abbrev pub put_inode : ℕ → Inode → Bytes → Bytes
put_inode o inode bytes =
    λ x. if leb o x && ltb x (o + inode_size) then encode inode (x - o) else bytes x

pub save_inode : Fs → ℕ → Inode → Option Fs
save_inode fs i inode = load_block fs (inode_block fs i) >>= λ bytes.
    store_block fs (inode_block fs i) (put_inode (inode_offset i) inode bytes)
