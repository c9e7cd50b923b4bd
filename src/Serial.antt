-- ===== src/Serial.antt =====
-- src/kernel/drivers/serial.c: the four serial ports and their receive buffers.
pub mod Receive
pub mod Lines
mod Tests
use ata_driver.Common.{
  ℕ, zero, suc, ◌+◌, ◌-◌, ◌%◌, Bool, true, false, ◌||◌, ◌&&◌, not, Option, none, some, List, [],
  ◌∷◌, ◌==◌, leb, ltb, if◌then◌else◌, get_or, get_elem?, set, replicate, bit_and, bit_or, ◌>>>◌,
  u16,
}
use ata_driver.Io.{Bus, inb, outb}
use ata_driver.Io.Run.{Cmd, done, waiting, fault}
use ata_driver.Pic.{send_eoi}

-- `serial_buffer_t`; `buffer` is empty before `kalloc` has given the device its 64 bytes.
pub record SerialBuffer : Type 0 where
  pub write_head : ℕ
  pub read_head : ℕ
  pub buffer : List ℕ

pub record PortConfig : Type 0 where
  pub divisor : ℕ
  pub available_interrupts : ℕ
  pub line_config : ℕ

abbrev pub buffer_len : ℕ
buffer_len = 64

abbrev pub com1 : ℕ
com1 = 0x03f8

abbrev pub com2 : ℕ
com2 = 0x02f8

abbrev pub com3 : ℕ
com3 = 0x03e8

abbrev pub com4 : ℕ
com4 = 0x02e8

abbrev pub serial_1_irq : ℕ
serial_1_irq = 0x24

abbrev pub serial_2_irq : ℕ
serial_2_irq = 0x23

abbrev pub data_received : ℕ
data_received = 0x01

abbrev pub empty_transmitter : ℕ
empty_transmitter = 0x20

-- `none` is `SERIAL_OFFSET_INVALID`.
unfoldable pub dev2offset : ℕ → Option ℕ
dev2offset dev =
    if dev == com1
    then some 0
    else (if dev == com2
        then some 1
        else (if dev == com3 then some 2 else (if dev == com4 then some 3 else none)))

unfoldable pub irq2offset : ℕ → Option ℕ
irq2offset irq =
    if irq == serial_1_irq then some 0 else (if irq == serial_2_irq then some 1 else none)

-- 0 is `SERIAL_DEVICE_INVALID`.
pub irq2dev : ℕ → ℕ
irq2dev irq = if irq == serial_1_irq then com1 else (if irq == serial_2_irq then com2 else 0)

-- `buffer[write_head] = c; write_head = (write_head + 1) % 64`
pub store_char : ℕ → SerialBuffer → SerialBuffer
store_char c b = record b {
  buffer = set b.buffer b.write_head c;
  write_head = (b.write_head + 1) % buffer_len;
}

-- The copy of the one byte read and the step of `read_head`.
pub take_char : SerialBuffer → ℕ × SerialBuffer
take_char b =
    (get_or b.buffer b.read_head 0, record b { read_head = (b.read_head + 1) % buffer_len })

abbrev pub no_buffer : SerialBuffer
no_buffer = record { write_head = 0; read_head = 0; buffer = [] }

module _ (bus : Bus) where
  -- The register writes of `serial_init`.
  pub configure : ℕ → PortConfig → bus.State → bus.State
  configure dev config s =
      let s = outb bus (dev + 3) 0x80 s in
      let s = outb bus dev (bit_and config.divisor 0x00ff) s in
      let s = outb bus (dev + 1) (bit_and (config.divisor >>> 8) 0x00ff) s in
      let s = outb bus (dev + 3) (bit_and config.line_config 0x7f) s in
      let s = outb bus (dev + 1) config.available_interrupts s in
      let s = outb bus (dev + 2) 0x07 s in outb bus (dev + 4) 0x0 s

  -- `serial_init` up to the registration of its handler. `fresh` is what `kalloc` returns; false
  -- stands for -1.
  unfoldable pub init :
      ℕ
      → PortConfig
      → Option (List ℕ)
      → List SerialBuffer
      → bus.State
      → Bool × List SerialBuffer × bus.State
  unfolding configure
  init dev config fresh buffers s = elim (dev2offset dev) [
    | none ↦ (false, buffers, s)
    | some offset ↦ elim fresh [
      | none ↦ (
        false,
        set buffers offset (let b = get_or buffers offset no_buffer in record b { buffer = [] }),
        configure dev config s,
      )
      | some bytes ↦ (
        true,
        set buffers offset (record { write_head = 0; read_head = 0; buffer = bytes }),
        configure dev config s,
      )
    ]
  ]

  -- The `while` loop that waits for the transmitter.
  pub wait_transmitter : ℕ → ℕ → Cmd bus.State (Unit {0})
  wait_transmitter zero dev s = waiting
  wait_transmitter (suc fuel) dev s =
      let (status, s') = inb bus (dev + 5) s in
      let rest = wait_transmitter fuel dev s' in
      if bit_and status empty_transmitter == 0 then rest else done tt s'

  -- `serial_write` of the bytes of `buf`.
  pub write : ℕ → ℕ → List ℕ → Cmd bus.State (Unit {0})
  write fuel dev [] s = done tt s
  write fuel dev (c ∷ buf) s = elim (wait_transmitter fuel dev s) [
    | waiting ↦ waiting
    | fault ↦ fault
    | done _ s' ↦ write fuel dev buf (outb bus dev c s')
  ]

  -- What the handler does between its tests and the end of the interrupt.
  pub receive : ℕ → SerialBuffer → bus.State → SerialBuffer × bus.State
  unfolding store_char
  receive dev b s =
      let (status, s') = inb bus (dev + 5) s in
      let (c, s'') = inb bus dev s' in
      if bit_and status data_received == 0 then (b, s') else (store_char c b, s'')

  pub interrupt_handler : ℕ → List SerialBuffer → bus.State → List SerialBuffer × bus.State
  interrupt_handler irq buffers s = elim (irq2offset irq) [
    | none ↦ (buffers, send_eoi bus irq s)
    | some offset ↦
        let (b, s') = receive (irq2dev irq) (get_or buffers offset no_buffer) s in
        if irq2dev irq == 0
        then (buffers, send_eoi bus irq s)
        else (set buffers offset b, send_eoi bus irq s')
  ]

-- `serial_read`: the number of bytes read, the byte and the buffers. `none`: the buffer is empty,
-- and the code halts until an interrupt.
pub read : ℕ → ℕ → List SerialBuffer → Option (List ℕ × List SerialBuffer)
unfolding dev2offset take_char
read dev len buffers = if ltb len 1 then some ([], buffers) else elim (dev2offset dev) [
  | none ↦ some ([], buffers)
  | some offset ↦
      let b = get_or buffers offset no_buffer in
      let (c, b') = take_char b in
      if b.write_head == b.read_head then none else some (c ∷ [], set buffers offset b')
]
