-- ===== src/Serial/Lines.antt =====
-- The two serial lines of the machine and what their interrupts do to the receive buffers.
use ata_driver.Common.{
  ℕ, ◌+◌, ◌<◌, ◌≡◌, ◌≢◌, ◌∙◌, refl, List, [], ◌∷◌, ◌++◌, ◌==◌, ltb, if◌then◌else◌, length, get_or,
  Option, none, some, bit_and,
}
use ata_driver.Io.{Bus, inb}
use ata_driver.Serial.{SerialBuffer, no_buffer, irq2offset, irq2dev, interrupt_handler}
use ata_driver.Serial.Receive.{IsValid, queue, accept, offered, interrupt_handler-queue}

-- The interrupt of a line, after `pic_init`, its first port, and the place of its buffer: COM1 has
-- IRQ 4 and COM2 has IRQ 3.
pub data IsLine : ℕ → ℕ → ℕ → Type 0 where
  first_line : IsLine 0x24 0x3F8 0
  second_line : IsLine 0x23 0x2F8 1

module _ (bus : Bus) where
  -- The byte at the data register of a line whose status register says that there is one.
  abbrev pub offered_at : ℕ → bus.State → Option ℕ
  offered_at port s =
      let (status, s') = inb bus (port + 5) s in
      if bit_and status 1 == 0 then none else some (inb bus port s').0

  -- The queue behind it: with 63 bytes waiting, one more byte leaves none of them.
  abbrev pub queued : Option ℕ → List ℕ → List ℕ
  queued none q = q
  queued (some c) q = if ltb (length q) 63 then q ++ (c ∷ []) else []

  accept-queued : (o : Option ℕ) (q : List ℕ) → accept bus o q ≡ queued o q
  accept-queued none q = refl
  accept-queued (some c) q = refl

  -- For the interrupt of COM1 or COM2 and a valid buffer of that line: the handler appends the byte
  -- that the line offers at its own port to the queue of that line, or, with 63 bytes waiting
  -- already, leaves that queue empty, and leaves it as it is where the line offers none; the
  -- buffer stays valid, and the buffers of the other lines are as they were.
  pub interrupt_handler-IsLine :
      (irq port offset : ℕ) (buffers : List SerialBuffer) (s : bus.State)
      → IsLine irq port offset
      → offset < length buffers
      → IsValid (get_or buffers offset no_buffer)
      → (let out = (interrupt_handler bus irq buffers s).0 in
          (queue (get_or out offset no_buffer)
            ≡ queued (offered_at port s) (queue (get_or buffers offset no_buffer)))
          × IsValid (get_or out offset no_buffer)
          × ((other : ℕ)
              → offset ≢ other
              → get_or out other no_buffer ≡ get_or buffers other no_buffer))
  unfolding offered irq2dev
  interrupt_handler-IsLine irq port offset buffers s first_line inside v =
      let got = interrupt_handler-queue bus 0x24 0 buffers s (unfold irq2offset in refl) inside v in
      (
        got.0 ∙ accept-queued (offered_at 0x3F8 s) (queue (get_or buffers 0 no_buffer)),
        got.1,
        got.2,
      )
  interrupt_handler-IsLine irq port offset buffers s second_line inside v =
      let got = interrupt_handler-queue bus 0x23 1 buffers s (unfold irq2offset in refl) inside v in
      (
        got.0 ∙ accept-queued (offered_at 0x2F8 s) (queue (get_or buffers 1 no_buffer)),
        got.1,
        got.2,
      )
