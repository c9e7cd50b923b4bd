-- ===== src/Ata.antt =====
-- src/kernel/drivers/ata.c: ports, polling, and sector transfers in PIO mode.
pub mod Channel
pub mod Poll
pub mod Sector
pub mod ReadWords
pub mod Read
pub mod WriteWords
pub mod Write
pub mod RoundTrip
pub mod Identify
pub mod Detail
mod Tests
use ata_driver.Common.{
  ℕ, zero, suc, ◌+◌, ◌*◌, ◌/◌, ◌%◌, ◌^◌, Bool, true, false, ◌||◌, not, Option, none, some, List, [],
  ◌∷◌, ◌==◌, ltb, if◌then◌else◌, get_elem?, set, length, bit_and, bit_or, u8, u32, ◌<<<◌, ◌>>>◌,
}
use ata_driver.Io.{Bus, inb, inw, outb, outw}
use ata_driver.Io.Run.{Cmd, done, waiting, fault, pure, ◌>>=◌, ◌>>◌, effect, read_from}

-- The 0 and -1 that the driver's functions return.
pub data Status : Type 0 where
  ok : Status
  failed : Status

abbrev pub sr_bsy : ℕ
sr_bsy = 0x80

abbrev pub sr_df : ℕ
sr_df = 0x20

abbrev pub sr_drq : ℕ
sr_drq = 0x08

abbrev pub sr_err : ℕ
sr_err = 0x01

abbrev pub cmd_read_pio : ℕ
cmd_read_pio = 0x20

abbrev pub cmd_write_pio : ℕ
cmd_write_pio = 0x30

abbrev pub bus_port : List ℕ
bus_port = 0x01f0 ∷ 0x0170 ∷ 0x01e8 ∷ 0x0168 ∷ []

abbrev pub bus_control : List ℕ
bus_control = 0x03f6 ∷ 0x0376 ∷ 0x03e6 ∷ 0x0366 ∷ []

abbrev pub has_bit : ℕ → ℕ → Bool
has_bit status flag = not (bit_and status flag == 0)

pub record AtaDev : Type 0 where
  pub present : ℕ
  pub channel : ℕ
  pub drive : ℕ
  pub kind : ℕ
  pub signature : ℕ
  pub capabilities : ℕ
  pub commandsets : ℕ
  pub size : ℕ
  pub model : List ℕ

-- `a[i]`, a fault out of range.
abbrev pub index : {S : Type 0} → List ℕ → ℕ → Cmd S ℕ
index xs i = elim (get_elem? xs i) [ none ↦ λ s. fault | some x ↦ pure x ]

-- The `int` loop bound: a negative `count` makes no round.
abbrev pub rounds : ℕ → ℕ
rounds count = if ltb count (2 ^ 31) then count else 0

module _ (bus : Bus) where
  pub delay_loop : ℕ → ℕ → bus.State → bus.State
  delay_loop zero dev s = s
  delay_loop (suc n) dev s = delay_loop n dev (inb bus (dev + 0x07) s).1

  -- `ns = ns/100; while (ns--) inb(...)`, for a delay that is not negative.
  pub delay : ℕ → ℕ → bus.State → bus.State
  unfolding delay_loop
  delay dev ns = delay_loop (ns / 100) dev

  -- `while (inb(ATA_REG_STATUS(ch)) & ATA_SR_BSY);`
  pub wait_idle : ℕ → ℕ → Cmd bus.State (Unit {0})
  wait_idle zero ch s = waiting
  wait_idle (suc fuel) ch s =
      let (status, s') = inb bus (ch + 0x07) s in
      let rest = wait_idle fuel ch s' in if has_bit status sr_bsy then rest else done tt s'

  -- `while (status & ATA_SR_BSY) status = inb(...)`, with the status read last.
  pub poll_busy : ℕ → ℕ → ℕ → Cmd bus.State ℕ
  poll_busy zero channel status s = waiting
  poll_busy (suc fuel) channel status s =
      let (status', s') = inb bus (channel + 0x07) s in
      let rest = poll_busy fuel channel status' s' in
      if has_bit status sr_bsy then rest else done status s

  -- The `while (TRUE)` loop.
  pub poll_drq : ℕ → ℕ → ℕ → Cmd bus.State Status
  poll_drq zero channel status s = waiting
  poll_drq (suc fuel) channel status s =
      let (status', s') = inb bus (channel + 0x07) s in
      let rest = poll_drq fuel channel status' s' in
      if has_bit status sr_err || has_bit status sr_df
      then done failed s
      else (if has_bit status sr_drq then done ok s else rest)

  pub poll : ℕ → ℕ → Cmd bus.State Status
  unfolding delay poll_busy poll_drq
  poll fuel channel = do
    effect (delay channel 400)
    status ← read_from (inb bus (channel + 0x07))
    status ← poll_busy fuel channel status
    poll_drq fuel channel status

  -- The register writes before a transfer: device and LBA mode, the sector count, and bits 0 to 23
  -- of the sector number; then the command.
  pub set_up : ℕ → ℕ → ℕ → ℕ → ℕ → bus.State → bus.State
  set_up ch drive start count command s =
      let s = outb bus (ch + 0x06) (bit_or 0xE0 (drive <<< 4)) s in
      let s = outb bus (ch + 0x01) 0 s in
      let s = outb bus (ch + 0x02) count s in
      let s = outb bus (ch + 0x03) (bit_and start 0x000000FF) s in
      let s = outb bus (ch + 0x04) (bit_and start 0x0000FF00 >>> 8) s in
      let s = outb bus (ch + 0x05) (bit_and start 0x00FF0000 >>> 16) s in
      outb bus (ch + 0x07) command s

  -- `for (j = 0; j < 256; ++j) ptr[i*256 + j] = inw(ATA_REG_DATA(ch))`, `n` words from index `k` on.
  pub read_words : ℕ → ℕ → ℕ → List ℕ → Cmd bus.State (List ℕ)
  read_words zero ch k buf s = done buf s
  read_words (suc n) ch k buf s =
      let (w, s') = inw bus ch s in
      let rest = read_words n ch (k + 1) (set buf k w) s' in
      if ltb k (length buf) then rest else fault

  -- The `for` loop over the sectors, `n` of them from index `i` on. The buffer comes back with the
  -- status.
  pub read_sectors : ℕ → ℕ → ℕ → ℕ → List ℕ → Cmd bus.State (Status × List ℕ)
  read_sectors fuel zero ch i buf s = done (ok, buf) s
  read_sectors fuel (suc n) ch i buf s = elim (poll fuel ch s) [
    | waiting ↦ waiting
    | fault ↦ fault
    | done failed s' ↦ done (failed, buf) s'
    | done ok s' ↦ elim (read_words 256 ch (i * 256) buf s') [
      | waiting ↦ waiting
      | fault ↦ fault
      | done buf' s'' ↦ read_sectors fuel n ch (i + 1) buf' s''
    ]
  ]

  -- `start` and `count` are the bit patterns of the `int` arguments.
  pub ata_read : ℕ → AtaDev → ℕ → ℕ → List ℕ → Cmd bus.State (Status × List ℕ)
  ata_read fuel dev start count buf = do
    ch ← index bus_port dev.channel
    wait_idle fuel ch
    effect (set_up ch dev.drive start count cmd_read_pio)
    read_sectors fuel (rounds count) ch 0 buf

  pub write_words : ℕ → ℕ → ℕ → List ℕ → Cmd bus.State (Unit {0})
  write_words zero ch k buf s = done tt s
  write_words (suc n) ch k buf s = elim (get_elem? buf k) [
    | none ↦ fault
    | some w ↦ write_words n ch (k + 1) buf (outw bus ch w s)
  ]

  pub write_sectors : ℕ → ℕ → ℕ → ℕ → List ℕ → Cmd bus.State Status
  write_sectors fuel zero ch i buf s = done ok s
  write_sectors fuel (suc n) ch i buf s = elim (poll fuel ch s) [
    | waiting ↦ waiting
    | fault ↦ fault
    | done failed s' ↦ done failed s'
    | done ok s' ↦ elim (write_words 256 ch (i * 256) buf s') [
      | waiting ↦ waiting
      | fault ↦ fault
      | done _ s'' ↦ write_sectors fuel n ch (i + 1) buf s''
    ]
  ]

  pub ata_write : ℕ → AtaDev → ℕ → ℕ → List ℕ → Cmd bus.State Status
  ata_write fuel dev start count buf = do
    ch ← index bus_port dev.channel
    wait_idle fuel ch
    effect (set_up ch dev.drive start count cmd_write_pio)
    write_sectors fuel (rounds count) ch 0 buf
