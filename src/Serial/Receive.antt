-- ===== src/Serial/Receive.antt =====
-- The receive buffer of a serial port as a queue, between the interrupt handler and the reader.
use mathlib.Core.Path.{ap₂}
use ata_driver.Common.{
  ℕ, suc, ◌+◌, ◌-◌, ◌%◌, ◌<◌, ◌≡◌, ◌≢◌, ◌∙◌, sym, ap, refl, inl, inr, arith, true, false, List, [],
  ◌∷◌, ◌++◌, ◌==◌, ltb, if◌then◌else◌, Bool-cases, Option, some, none, get_or, set, length,
  length-set, get_or-set_self, get_or-set_ne, bit_and,
}
use ata_driver.Common.Ring.{window, length-window, window-push, window-mod}
use ata_driver.Io.{Bus, inb}
use ata_driver.Serial.{
  SerialBuffer, buffer_len, data_received, no_buffer, store_char, take_char, dev2offset, irq2offset,
  irq2dev, receive, interrupt_handler, read,
}

pub record IsValid (b : SerialBuffer) : Type 0 where
  pub storage : length b.buffer ≡ buffer_len
  pub write_in : b.write_head < buffer_len
  pub read_in : b.read_head < buffer_len

-- The bytes between the two heads.
abbrev pub waiting_count : SerialBuffer → ℕ
waiting_count b = (b.write_head + buffer_len - b.read_head) % buffer_len

abbrev pub queue : SerialBuffer → List ℕ
queue b = window buffer_len b.buffer b.read_head (waiting_count b)

-- What a new byte does to the queue: with 63 bytes waiting, the heads meet and all are lost.
abbrev pub push : ℕ → List ℕ → List ℕ
push c q = if ltb (length q) 63 then q ++ (c ∷ []) else []

queue-store_char :
    (c : ℕ) (b : SerialBuffer) → IsValid b → queue (store_char c b) ≡ push c (queue b)
unfolding store_char
queue-store_char c b v =
    rw (length-window buffer_len b.buffer b.read_head n) (elim (Bool-cases (ltb n 63)) [
      | inl room ↦
          let at : b.write_head ≡ (b.read_head + n) % buffer_len =
            omega (arith, v.write_in, v.read_in) in
          let count : waiting_count (store_char c b) ≡ suc n =
            ground (arith, v.write_in, v.read_in) in
          rw room (
            ap (window buffer_len (store_char c b).buffer b.read_head) count
            ∙ ap (λ k. window buffer_len (set b.buffer k c) b.read_head (suc n)) at
            ∙ window-push buffer_len b.buffer c b.read_head n (omega (arith, v.storage))
                (ground arith))
      | inr full ↦
          let count : waiting_count (store_char c b) ≡ 0 = ground (arith, v.write_in, v.read_in) in
          rw full (ap (window buffer_len (store_char c b).buffer b.read_head) count)
    ])
  where
    n : ℕ
    n = waiting_count b

store_char-IsValid : (c : ℕ) (b : SerialBuffer) → IsValid b → IsValid (store_char c b)
unfolding store_char
store_char-IsValid c b v = record {
  storage = length-set b.buffer b.write_head c ∙ v.storage;
  write_in = omega arith;
  read_in = v.read_in;
}

take_char_lem :
    (b : SerialBuffer)
    → IsValid b
    → b.write_head ≢ b.read_head
    → queue b ≡ (take_char b).0 ∷ queue (take_char b).1
unfolding take_char
take_char_lem b v ne =
    let n = waiting_count (take_char b).1 in
    let count : waiting_count b ≡ suc n = ground (arith, v.write_in, v.read_in) in
    let at : b.read_head % buffer_len ≡ b.read_head = omega (arith, v.read_in) in
    ap (window buffer_len b.buffer b.read_head) count
    ∙ ap₂ (λ k q. get_or b.buffer k 0 ∷ q) at
        (window-mod buffer_len b.buffer (b.read_head + 1) ((b.read_head + 1) % buffer_len) n
          (omega arith))

take_char-IsValid : (b : SerialBuffer) → IsValid b → IsValid (take_char b).1
unfolding take_char
take_char-IsValid b v = record { storage = v.storage; write_in = v.write_in; read_in = omega arith }

-- For a length of at least 1, a serial device and a valid buffer of it with a byte waiting:
-- `serial_read` returns exactly the first waiting byte and leaves the rest of the queue, in a valid
-- buffer.
pub read-queue :
    (dev len offset c : ℕ) (rest : List ℕ) (buffers : List SerialBuffer)
    → 0 < len
    → dev2offset dev ≡ some offset
    → offset < length buffers
    → IsValid (get_or buffers offset no_buffer)
    → queue (get_or buffers offset no_buffer) ≡ c ∷ rest
    → (buffers' : List SerialBuffer) × (read dev len buffers ≡ some (c ∷ [], buffers'))
      × (queue (get_or buffers' offset no_buffer) ≡ rest)
      × IsValid (get_or buffers' offset no_buffer)
      × (length buffers' ≡ length buffers)
unfolding read
read-queue dev len offset c rest buffers pos found inside v e =
    let b = get_or buffers offset no_buffer in
    let ne : b.write_head ≢ b.read_head = λ same.
      let none : waiting_count b ≡ 0 = omega (arith, v.write_in, v.read_in) in
      absurd (
        ground
          (arith, ap length e, length-window buffer_len b.buffer b.read_head (waiting_count b))) in
    let taken = sym (take_char_lem b v ne) ∙ e in
    let big : ltb len 1 ≡ false = ground arith in
    let differs : (b.write_head == b.read_head) ≡ false = ground arith in
    (
      set buffers offset (take_char b).1,
      rw (big, found, differs) (ap (λ x. some (x ∷ [], set buffers offset (take_char b).1)) (cc)),
      rw (get_or-set_self buffers offset (take_char b).1 no_buffer inside) (cc),
      rw (get_or-set_self buffers offset (take_char b).1 no_buffer inside) (take_char-IsValid b v),
      length-set buffers offset (take_char b).1,
    )

-- With no byte waiting, `serial_read` halts.
pub read-waits :
    (dev len offset : ℕ) (buffers : List SerialBuffer)
    → 0 < len
    → dev2offset dev ≡ some offset
    → IsValid (get_or buffers offset no_buffer)
    → queue (get_or buffers offset no_buffer) ≡ []
    → read dev len buffers ≡ none
unfolding read
read-waits dev len offset buffers pos found v e =
    let b = get_or buffers offset no_buffer in
    let empty : waiting_count b ≡ 0 =
      sym (length-window buffer_len b.buffer b.read_head (waiting_count b)) ∙ ap length e in
    let big : ltb len 1 ≡ false = ground arith in
    let same : (b.write_head == b.read_head) ≡ true =
      ground (arith, empty, v.write_in, v.read_in) in
    rw (read, big, found, same) refl

irq2dev_valid : (irq offset : ℕ) → irq2offset irq ≡ some offset → (irq2dev irq == 0) ≡ false
unfolding irq2offset irq2dev
irq2dev_valid irq offset found = ground arith

module _ (bus : Bus) where
  -- The byte that the handler finds at the port of `irq`, if the line status announces one.
  unfoldable pub offered : ℕ → bus.State → Option ℕ
  offered irq s =
      let (status, s') = inb bus (irq2dev irq + 5) s in
      if bit_and status data_received == 0 then none else some (inb bus (irq2dev irq) s').0

  -- The queue of a port behind the handler.
  abbrev pub accept : Option ℕ → List ℕ → List ℕ
  accept none q = q
  accept (some c) q = push c q

  receive_lem :
      (irq : ℕ) (b : SerialBuffer) (s : bus.State)
      → IsValid b
      → (queue (receive bus (irq2dev irq) b s).0 ≡ accept (offered irq s) (queue b))
        × IsValid (receive bus (irq2dev irq) b s).0
  unfolding receive offered
  receive_lem irq b s v =
      elim (Bool-cases (bit_and (inb bus (irq2dev irq + 5) s).0 data_received == 0)) [
        | inl quiet ↦ rw quiet (refl, v)
        | inr ready ↦
            let c = (inb bus (irq2dev irq) (inb bus (irq2dev irq + 5) s).1).0 in
            rw ready (queue-store_char c b v, store_char-IsValid c b v)
      ]

  interrupt_handler-set :
      (irq offset : ℕ) (buffers : List SerialBuffer) (s : bus.State)
      → irq2offset irq ≡ some offset
      → (interrupt_handler bus irq buffers s).0
        ≡ set buffers offset (receive bus (irq2dev irq) (get_or buffers offset no_buffer) s).0
  unfolding interrupt_handler
  interrupt_handler-set irq offset buffers s found =
      let valid : (irq2dev irq == 0) ≡ false = irq2dev_valid irq offset found in
      rw (interrupt_handler, found, valid) refl

  pub length-interrupt_handler :
      (irq offset : ℕ) (buffers : List SerialBuffer) (s : bus.State)
      → irq2offset irq ≡ some offset
      → length (interrupt_handler bus irq buffers s).0 ≡ length buffers
  length-interrupt_handler irq offset buffers s found =
      rw (interrupt_handler-set irq offset buffers s found) (
        length-set buffers offset (receive bus (irq2dev irq) (get_or buffers offset no_buffer) s).0)

  -- For one of the two interrupt numbers and a valid buffer of its port: the handler pushes the
  -- byte that the port offers onto the queue of that port, or leaves the queue where the port
  -- offers none; the buffer stays valid, and the buffers of the other ports are as they were.
  pub interrupt_handler-queue :
      (irq offset : ℕ) (buffers : List SerialBuffer) (s : bus.State)
      → irq2offset irq ≡ some offset
      → offset < length buffers
      → IsValid (get_or buffers offset no_buffer)
      → (let out = (interrupt_handler bus irq buffers s).0 in
          (queue (get_or out offset no_buffer)
            ≡ accept (offered irq s) (queue (get_or buffers offset no_buffer)))
          × IsValid (get_or out offset no_buffer)
          × ((other : ℕ)
              → offset ≢ other
              → get_or out other no_buffer ≡ get_or buffers other no_buffer))
  interrupt_handler-queue irq offset buffers s found inside v =
      let got = receive_lem irq (get_or buffers offset no_buffer) s v in
      let b' = (receive bus (irq2dev irq) (get_or buffers offset no_buffer) s).0 in
      let at = get_or-set_self buffers offset b' no_buffer inside in
      rw (interrupt_handler-set irq offset buffers s found)
        (rw at got.0, rw at got.1, λ other ne. get_or-set_ne buffers offset other b' no_buffer ne)
