-- ===== src/Kb/Inv.antt =====
-- The keyboard's buffers are never indexed out of range.
use ata_driver.Common.{
  ℕ, zero, suc, ◌+◌, ◌%◌, ◌≤◌, ◌<◌, ◌≡◌, ◌⊎◌, get_or, set, length, length-set, get_or-set_self,
  get_or-set_ne, arith,
}
use ata_driver.Kb.{Kb, buf_len, keeps, copy_loop, flush, on_byte}

abbrev pub IsPrefixByte : ℕ → Type 0
IsPrefixByte b = (b ≡ 0xe0) ⊎ (b ≡ 0xe1)

-- Between interrupts: `len` bytes are pending, at most two, and the first of them is a prefix.
pub record IsValid (kb : Kb) : Type 0 where
  pub storage : length kb.buffer ≡ buf_len
  pub head_in : kb.head < buf_len
  pub count_in : kb.count ≤ buf_len
  pub partial_storage : length kb.partial ≡ 6
  pub len_in : kb.len ≤ 2
  pub prefix : 0 < kb.len → IsPrefixByte (get_or kb.partial 0 0)

copy_loop-shape :
    (rounds i : ℕ) (kb : Kb)
    → (length (copy_loop rounds i kb).buffer ≡ length kb.buffer)
      × ((copy_loop rounds i kb).head ≡ kb.head)
      × ((copy_loop rounds i kb).count ≡ kb.count + rounds)
      × ((copy_loop rounds i kb).partial ≡ kb.partial)
      × ((copy_loop rounds i kb).len ≡ kb.len)
unfolding copy_loop
copy_loop-shape zero i kb = ground arith
copy_loop-shape (suc rounds) i kb = ground (
  arith,
  copy_loop-shape rounds (i + 1) (record kb {
    buffer = set kb.buffer ((kb.head + kb.count) % buf_len) (get_or kb.partial i 0);
    count = kb.count + 1;
  }),
  length-set kb.buffer ((kb.head + kb.count) % buf_len) (get_or kb.partial i 0),
)

-- A byte from the encoder keeps the invariant: in particular no more than two bytes are ever
-- pending, so `partial[len++]` stays inside its six bytes, and `kb_buf_count` stays within 32.
pub on_byte-IsValid : (byte : ℕ) {kb : Kb} → IsValid kb → IsValid (on_byte byte kb)
unfolding on_byte keeps flush
on_byte-IsValid byte {kb} v = ground (
  arith,
  length-set kb.partial kb.len byte,
  get_or-set_self kb.partial kb.len byte 0,
  get_or-set_ne kb.partial kb.len 0 byte 0,
  copy_loop-shape (kb.len + 1) 0
      (record kb { partial = set kb.partial kb.len byte; len = kb.len + 1 }),
)
