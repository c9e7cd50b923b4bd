-- ===== src/Minix/Trunc.antt =====
-- `minix_trunc_inode` of tools/src/minix.c.
pub mod Kept
use ata_driver.Common.{
  ℕ, zero, suc, Bool, ◌+◌, ◌-◌, ◌/◌, ◌%◌, Option, none, some, ◌==◌, ltb, if◌then◌else◌,
}
use ata_driver.Minix.{Bytes, Fs, Inode, ◌>>=◌, load_block, short_at, unset_bit}

-- `MAP_UNSET_BIT` for a zone. For one below the first data zone the program writes before the
-- map, which is `none` as well.
pub release_zone : ℕ → Fs → Option Fs
release_zone z fs =
    if ltb z fs.first_data_zone
    then none
    else some (record fs { zones_map = unset_bit (z - fs.first_data_zone) fs.zones_map })

-- The loop of `minix_trunc_inode` between two rounds: `blk` and `blk2`.
pub record Trunc : Type 0 where
  pub blk : Bytes
  pub blk2 : Bytes
  pub fs : Fs

abbrev release_in : ℕ → Trunc → Option Trunc
release_in z t = release_zone z t.fs >>= λ fs. some (record t { fs = fs })

-- The zone `z` of a table: its block goes to `blk`, and it is released.
pub enter_table : Bool → ℕ → Trunc → Option Trunc
enter_table first z t =
    if first
    then (load_block t.fs z >>= λ bytes. release_in z (record t { blk = bytes }))
    else some t

-- The same for a table in a table, whose block goes to `blk2`.
pub enter_inner : Bool → ℕ → Trunc → Option Trunc
enter_inner first z t =
    if first
    then (load_block t.fs z >>= λ bytes. release_in z (record t { blk2 = bytes }))
    else some t

pub trunc_indirect : ℕ → Inode → Trunc → Option Trunc
trunc_indirect i inode t =
    enter_table (i == 7) (inode.zones 7) t >>= λ t. release_in (short_at t.blk (i - 7)) t

pub trunc_double : ℕ → Inode → Trunc → Option Trunc
trunc_double i inode t =
    let j = i - 7 - 512 in
    enter_table (i == 7 + 512) (inode.zones 8) t >>= λ t.
    enter_inner (j % 512 == 0) (short_at t.blk (j / 512)) t >>= λ t.
    release_in (short_at t.blk2 (j % 512)) t

-- One round.
pub trunc_block : ℕ → Inode → Trunc → Option Trunc
trunc_block i inode t =
    if ltb i 7
    then release_in (inode.zones i) t
    else (if ltb i (7 + 512) then trunc_indirect i inode t else trunc_double i inode t)

pub trunc_loop : ℕ → ℕ → Inode → Trunc → Option Trunc
trunc_loop zero i inode t = some t
trunc_loop (suc rounds) i inode t = trunc_block i inode t >>= λ t. trunc_loop rounds (i + 1) inode t

-- `fb` is the bound of the loop, which the program does not set.
pub trunc_inode : ℕ → Inode → Fs → Option Fs
trunc_inode fb inode fs =
    trunc_loop fb 0 inode (record { blk = λ x. 0; blk2 = λ x. 0; fs = fs }) >>= λ t. some t.fs
