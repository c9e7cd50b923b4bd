-- ===== src/Kb.antt =====
-- src/kernel/drivers/kb.c: the scan code buffer, its interrupt handler and its reader.
pub mod Inv
pub mod Refine
pub mod Read
pub mod Codes
mod Tests
use ata_driver.Common.{
  ℕ, zero, suc, ◌+◌, ◌-◌, ◌%◌, Bool, true, false, ◌||◌, ◌&&◌, Option, none, some, List, [], ◌∷◌,
  ◌==◌, leb, ltb, if◌then◌else◌, get_or, set, replicate,
}
use ata_driver.Io.{Bus, inb}
use ata_driver.Pic.{send_eoi}

-- `kb_buffer` (32 bytes of `kalloc`), `kb_buf_head`, `kb_buf_count`, and the handler's static
-- `partial` (6 bytes) and `len`.
pub record Kb : Type 0 where
  pub buffer : List ℕ
  pub head : ℕ
  pub count : ℕ
  pub partial : List ℕ
  pub len : ℕ

abbrev pub encoder_buf : ℕ
encoder_buf = 0x60

abbrev pub buf_len : ℕ
buf_len = 32

-- `kb_init` up to the registration of the handler; `buffer` is what `kalloc` returns, `none` for
-- NULL, and false stands for -1. Behind the registration the code falls off its end; true stands
-- for what it then returns.
unfoldable pub init : Option (List ℕ) → Kb → Bool × Kb
init none kb = (false, record kb { buffer = []; head = 0; count = 0 })
init (some fresh) kb = (true, record kb { buffer = fresh; head = 0; count = 0 })

-- Whether the `do ... while (0)` breaks off to wait for more bytes.
pub keeps : List ℕ → ℕ → Bool
keeps partial len =
    if len == 1
    then get_or partial 0 0 == 0xe0 || get_or partial 0 0 == 0xe1
    else (if len == 2
        then get_or partial 0 0 == 0xe1 || get_or partial 1 0 == 0x2a || get_or partial 1 0 == 0xb7
        else (if len == 4 then get_or partial 0 0 == 0xe1 else false))

-- `while (i < len)`, with `rounds` bytes left from index `i` on.
pub copy_loop : ℕ → ℕ → Kb → Kb
copy_loop zero i kb = kb
copy_loop (suc rounds) i kb = copy_loop rounds (i + 1) (record kb {
  buffer = set kb.buffer ((kb.head + kb.count) % buf_len) (get_or kb.partial i 0);
  count = kb.count + 1;
})

pub flush : Kb → Kb
unfolding copy_loop
flush kb = record (if leb (kb.count + kb.len) buf_len then copy_loop kb.len 0 kb else kb) {
  len = 0;
}

-- The handler on the byte that was read.
pub on_byte : ℕ → Kb → Kb
unfolding keeps flush
on_byte byte kb =
    let kb' = record kb { partial = set kb.partial kb.len byte; len = kb.len + 1 } in
    if keeps kb'.partial kb'.len then kb' else flush kb'

pub interrupt_handler : (bus : Bus) → ℕ → Kb → bus.State → Kb × bus.State
unfolding on_byte
interrupt_handler bus irq kb s =
    let (byte, s') = inb bus encoder_buf s in (on_byte byte kb, send_eoi bus irq s')

-- The size of the scan code at the head of a non-empty buffer, by its first two bytes.
unfoldable pub code_size : ℕ → ℕ → ℕ
code_size first second =
    if first == 0xe1
    then 6
    else (if first == 0xe0 && (second == 0x2a || second == 0xb7)
        then 4
        else (if first == 0xe0 then 2 else 1))

-- `while (size < n)`: the bytes copied to `buf` and the new head.
pub take_loop : ℕ → List ℕ → ℕ → List ℕ × ℕ
take_loop zero buffer head = ([], head)
take_loop (suc n) buffer head =
    let (bytes, head') = take_loop n buffer ((head + 1) % buf_len) in
    (get_or buffer head 0 ∷ bytes, head')

-- The bytes that go to `buf`, as many as the returned size. `none`: `kb_buf_count` becomes
-- negative, a state in which the handler writes out of range.
pub scan_code : Kb → Option (List ℕ × Kb)
unfolding code_size take_loop
scan_code kb =
    let size =
      code_size (get_or kb.buffer kb.head 0) (get_or kb.buffer ((kb.head + 1) % buf_len) 0) in
    let (bytes, head') = take_loop size kb.buffer kb.head in
    if kb.count == 0
    then some ([], kb)
    else (if ltb kb.count size
        then none
        else some (bytes, record kb { head = head'; count = kb.count - size }))
