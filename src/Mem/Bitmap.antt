-- ===== src/Mem/Bitmap.antt =====
-- The frame bitmap of src/kernel/drivers/mem.c: two bits for each page frame, four entries to a
-- byte, from physical address 1M on. Memory is a function from addresses to bytes.
use ata_driver.Common.{
  ℕ, zero, suc, ◌+◌, ◌*◌, ◌/◌, ◌%◌, ◌<◌, ◌≡◌, refl, true, Bool, arith, ◌==◌, ==_iff, if◌then◌else◌,
  bit_and, bit_or, u8, not32, ◌<<<◌, ◌>>>◌,
}
use ata_driver.Common.Table.{all_below, all_below_sound}

abbrev pub Memory : Type 0
Memory = ℕ → ℕ

-- A byte read and a byte write.
abbrev pub load8 : Memory → ℕ → ℕ
load8 m a = u8 (m a)

abbrev pub store8 : Memory → ℕ → ℕ → Memory
store8 m a v = λ x. if x == a then u8 v else m x

abbrev pub bitmap_addr : ℕ
bitmap_addr = 0x00100000

abbrev pub entries_per_byte : ℕ
entries_per_byte = 4

abbrev pub entry_free : ℕ
entry_free = 0x00

abbrev pub entry_used : ℕ
entry_used = 0x01

abbrev pub entry_reserved : ℕ
entry_reserved = 0x02

unfoldable pub set_pack : ℕ → ℕ → ℕ → ℕ
set_pack pack k status =
    let cleared = bit_and pack (not32 (0x03 <<< (k * 2))) in
    bit_or cleared (bit_and status 0x03 <<< (k * 2))

unfoldable pub get_pack : ℕ → ℕ → ℕ
get_pack pack k = bit_and (pack >>> (k * 2)) 0x03

pub set_entry : Memory → ℕ → ℕ → Memory
set_entry bm frame status =
    let byte = bitmap_addr + frame / entries_per_byte in
    store8 bm byte (set_pack (load8 bm byte) (frame % entries_per_byte) status)

unfoldable pub get_entry : Memory → ℕ → ℕ
get_entry bm frame =
    get_pack (load8 bm (bitmap_addr + frame / entries_per_byte)) (frame % entries_per_byte)

-- For every byte, slot and status: what is read from slot `j` after a write to slot `k`.
abbrev pack_law : ℕ → ℕ → ℕ → ℕ → Bool
unfolding set_pack get_pack
pack_law s p k j = get_pack (u8 (set_pack p k s)) j == (if k == j then s else get_pack p j)

abbrev pack_laws : ℕ → ℕ → ℕ → Bool
unfolding set_pack get_pack all_below
pack_laws s p k = all_below 4 (pack_law s p k)

abbrev pack_laws_at : ℕ → ℕ → Bool
unfolding set_pack get_pack all_below
pack_laws_at s p = all_below 4 (pack_laws s p)

pack_table : all_below 4 (λ s. all_below 256 (pack_laws_at s)) ≡ true
unfolding all_below set_pack get_pack
pack_table = refl

get_pack-set_pack :
    (s p k j : ℕ)
    → s < 4
    → p < 256
    → k < 4
    → j < 4
    → get_pack (u8 (set_pack p k s)) j ≡ (if k == j then s else get_pack p j)
unfolding pack_laws_at
get_pack-set_pack s p k j hs hp hk hj = (==_iff _ _).0 (
    all_below_sound 4 (pack_law s p k) j
      (all_below_sound 4 (pack_laws s p) k
        (all_below_sound 256 (pack_laws_at s) p
          (all_below_sound 4 (λ s. all_below 256 (pack_laws_at s)) s pack_table hs) hp)
        hk)
      hj)

pub get_pack-zero : (k : ℕ) → k < 4 → get_pack 0 k ≡ 0
unfolding get_pack
get_pack-zero zero h = refl
get_pack-zero (suc zero) h = refl
get_pack-zero (suc (suc zero)) h = refl
get_pack-zero (suc (suc (suc zero))) h = refl
get_pack-zero (suc (suc (suc (suc k)))) h = absurd (omega arith)

-- A status written to a frame is read back from it, and no other frame's status changes.
pub get_entry-set_entry :
    (bm : Memory) (frame status other : ℕ)
    → status < 4
    → get_entry (set_entry bm frame status) other
      ≡ (if frame == other then status else get_entry bm other)
unfolding get_entry set_entry
get_entry-set_entry bm frame status other h =
    ground
      (arith, get_pack-set_pack status (load8 bm (bitmap_addr + frame / 4)) (frame % 4) (other % 4))
