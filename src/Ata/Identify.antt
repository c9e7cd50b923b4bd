-- ===== src/Ata/Identify.antt =====
-- `identify_command` and `ata_init` of src/kernel/drivers/ata.c.
pub mod Outcome
pub mod Total
pub mod Found
pub mod Devices
use ata_driver.Common.{
  ℕ, zero, suc, ◌+◌, ◌*◌, ◌-◌, ◌^◌, ◌/◌, ◌%◌, Bool, true, false, ◌||◌, ◌&&◌, not, List, [], ◌∷◌,
  ◌==◌, if◌then◌else◌, get_or, bit_and, bit_or, u8, u16, ◌<<<◌,
}
use ata_driver.Io.{Bus, inb, inw, outb}
use ata_driver.Io.Run.{Cmd, done, waiting, fault, and_then, ◌>>=◌, ◌>>◌, effect, read_from}
use ata_driver.Ata.{
  AtaDev, bus_port, bus_control, has_bit, index, sr_bsy, sr_df, sr_drq, sr_err, delay,
}

abbrev pub device_empty : ℕ
device_empty = 0x00

abbrev pub device_present : ℕ
device_present = 0x01

abbrev pub type_ata : ℕ
type_ata = 0x00

abbrev pub type_atapi : ℕ
type_atapi = 0x01

abbrev pub cmd_identify : ℕ
cmd_identify = 0xEC

abbrev pub cmd_identify_packet : ℕ
cmd_identify_packet = 0xA1

-- Reads of the 512-byte buffer, which is kept as 256 words with the low byte first.
abbrev pub word_at : List ℕ → ℕ → ℕ
word_at words offset = get_or words (offset / 2) 0

abbrev pub long_at : List ℕ → ℕ → ℕ
long_at words offset = word_at words offset + word_at words (offset + 2) * 65536

abbrev pub byte_at : List ℕ → ℕ → ℕ
byte_at words offset =
    if offset % 2 == 0 then word_at words offset % 256 else word_at words offset / 256

-- `for(i = 0; i < 40; i += 2)`, `n` rounds from `i` on, and the terminating zero.
pub model_loop : ℕ → ℕ → List ℕ → List ℕ
model_loop zero i words = 0 ∷ []
model_loop (suc n) i words =
    byte_at words (54 + i + 1) ∷ byte_at words (54 + i) ∷ model_loop n (i + 2) words

pub fill : AtaDev → ℕ → ℕ → List ℕ → AtaDev
unfolding model_loop
fill dev channel drive words =
    let commandsets = long_at words 164 in
    record dev {
      channel = channel;
      drive = drive;
      signature = word_at words 0;
      capabilities = word_at words 98;
      commandsets = commandsets;
      size = if has_bit commandsets (1 <<< 26) then long_at words 200 else long_at words 120;
      model = model_loop 20 0 words;
    }

module _ (bus : Bus) where
  -- The `while (TRUE)` loop; the result is the value of `error` behind it.
  pub poll_identify : ℕ → ℕ → ℕ → Cmd bus.State ℕ
  poll_identify zero port error s = waiting
  poll_identify (suc fuel) port error s =
      let (status, s') = inb bus (port + 0x07) s in
      let rest = poll_identify fuel port error s' in
      if has_bit status sr_err || has_bit status sr_df
      then done 1 s'
      else (if not (has_bit status sr_bsy) && has_bit status sr_drq then done error s' else rest)

  pub read_identity : ℕ → ℕ → bus.State → List ℕ × bus.State
  read_identity zero port s = ([], s)
  read_identity (suc n) port s =
      let (w, s') = inw bus port s in let (words, s'') = read_identity n port s' in (w ∷ words, s'')

  -- Steps (I) and (II).
  pub send_identify : ℕ → ℕ → ℕ → bus.State → bus.State
  send_identify port control idx s =
      let s = outb bus (port + 0x06) (bit_or 0xA0 ((idx % 2) <<< 4)) s in
      let s = outb bus (port + 0x02) 0 s in
      let s = outb bus (port + 0x03) 0 s in
      let s = outb bus (port + 0x04) 0 s in
      let s = outb bus (port + 0x05) 0 s in
      let s = outb bus (port + 0x07) cmd_identify s in delay bus control 400 s

  abbrev pub is_atapi : ℕ → ℕ → Bool
  is_atapi lba1 lba2 = (lba1 == 0x14 && lba2 == 0xeb) || (lba1 == 0x69 && lba2 == 0x96)

  pub finish : AtaDev → ℕ → ℕ → Cmd bus.State (ℕ × AtaDev)
  finish dev idx port s =
      let (words, s') = read_identity 256 port s in done (0, fill dev (idx / 2) (idx % 2) words) s'

  -- Behind the polling loop. A result of 255 is the -1 of the `u8` function.
  pub after_poll : AtaDev → ℕ → ℕ → ℕ → ℕ → Cmd bus.State (ℕ × AtaDev)
  after_poll dev idx port control error s =
      let dev' = record dev { kind = type_ata } in
      let (lba1, s₁) = inb bus (port + 0x04) s in
      let (lba2, s₂) = inb bus (port + 0x05) s₁ in
      let s₃ = delay bus control 400 (outb bus (port + 0x07) cmd_identify_packet s₂) in
      if error == 0
      then finish dev' idx port s
      else (if is_atapi lba1 lba2
          then finish (record dev { kind = type_atapi }) idx port s₃
          else done (255, dev') s₂)

  -- Behind the first read of the status. `garbage` is what the uninitialised `error` holds.
  pub answered : ℕ → ℕ → AtaDev → ℕ → ℕ → ℕ → ℕ → Cmd bus.State (ℕ × AtaDev)
  answered fuel garbage dev idx port control status s =
      if status == 0
      then done (0, record dev { present = device_empty }) s
      else and_then (poll_identify fuel port garbage s)
          (λ error. after_poll (record dev { present = device_present }) idx port control error)

  pub identify_at : ℕ → ℕ → AtaDev → ℕ → ℕ → ℕ → Cmd bus.State (ℕ × AtaDev)
  identify_at fuel garbage dev idx port control = do
    effect (send_identify port control idx)
    status ← read_from (inb bus (port + 0x07))
    answered fuel garbage dev idx port control status

  pub identify_command : ℕ → ℕ → AtaDev → ℕ → Cmd bus.State (ℕ × AtaDev)
  identify_command fuel garbage dev idx = do
    port ← index bus_port (idx / 2)
    control ← index bus_control (idx / 2)
    identify_at fuel garbage dev idx port control

  -- The loop of `ata_init`: `rounds` rounds from device `i` on, with the `u8` variable `error`. The
  -- access to a device that the array does not have is a fault.
  pub init_loop : ℕ → ℕ → ℕ → List AtaDev → ℕ → ℕ → Cmd bus.State (ℕ × List AtaDev)
  init_loop zero fuel garbage devs i error s = done (error, devs) s
  init_loop (suc rounds) fuel garbage [] i error s = fault
  init_loop (suc rounds) fuel garbage (dev ∷ devs) i error s =
      elim (identify_command fuel garbage dev i s) [
        | waiting ↦ waiting
        | fault ↦ fault
        | done (r, dev') s' ↦
            elim (init_loop rounds fuel garbage devs (i + 1)
              (if r == 0 then error else u8 (2 ^ 32 - 1)) s') [
                | waiting ↦ waiting
                | fault ↦ fault
                | done (error', devs') s'' ↦ done (error', dev' ∷ devs') s''
              ]
      ]

  pub ata_init : ℕ → ℕ → List AtaDev → Cmd bus.State (ℕ × List AtaDev)
  ata_init fuel garbage devs = init_loop 4 fuel garbage devs 0 0
