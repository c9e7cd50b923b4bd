-- ===== src/Kernel/Idle.antt =====
-- The idle loop: what one round and one interrupt do.
use mathlib.Core.Path.{subst}
use mathlib.Core.Option.{none-ne-some, some-injective}
use ata_driver.Common.{
  ℕ, ◌<◌, ◌≡◌, ◌∙◌, refl, sym, ap, arith, none, some, List, [], ◌∷◌, length, get_or,
}
use ata_driver.Io.{Bus}
use ata_driver.Io.Run.{Run, done, waiting, fault}
use ata_driver.Serial
use ata_driver.Serial.{SerialBuffer, com1, serial_1_irq, no_buffer, dev2offset}
use ata_driver.Serial.Receive
use ata_driver.Serial.Receive.{
  queue, accept, offered, read-queue, read-waits, length-interrupt_handler, interrupt_handler-queue,
}
use ata_driver.Fb.{write}
use ata_driver.Kernel.{keyboard, serial, Machine, keyboard_irq, idle_round}
use ata_driver.Kernel.Interrupt.{on_interrupt, on_interrupt-keyboard, on_interrupt-serial}

-- The bytes that COM1 has received and the idle loop has not printed.
abbrev pub pending : {S : Type 0} → Machine S → List ℕ
pending m = queue (get_or m.ports 0 no_buffer)

-- Both handlers are registered and the buffer of COM1 is in order.
pub record IsServing {S : Type 0} (m : Machine S) : Type 0 where
  pub key_handler : get_or m.tables.handlers keyboard_irq none ≡ some keyboard
  pub char_handler : get_or m.tables.handlers serial_1_irq none ≡ some serial
  pub ports : 0 < length m.ports
  pub port : Serial.Receive.IsValid (get_or m.ports 0 no_buffer)

-- From `m` on the loop can go on at `m'`, with `cs` pending and the screen as it is.
abbrev pub Serves : {S : Type 0} → Machine S → List ℕ → Machine S → Type 0
Serves m cs m' = IsServing m' × (pending m' ≡ cs) × (m'.fb ≡ m.fb)

-- The machine behind a run, `m` if it has none.
abbrev final : {S : Type 0} → Machine S → Run (Machine S) (Unit {0}) → Machine S
final m (done _ m') = m'
final m waiting = m
final m fault = m

pub moved :
    {S : Type 0} {m : Machine S} → IsServing m → (s : S) → IsServing (record m { hardware = s })
moved v s = record {
  key_handler = v.key_handler;
  char_handler = v.char_handler;
  ports = v.ports;
  port = v.port;
}

module _ (bus : Bus) where
  -- With a byte pending, a round prints it and takes it from the queue.
  pub idle_round-prints :
      (m : Machine bus.State) (c : ℕ) (cs : List ℕ)
      → IsServing m
      → pending m ≡ c ∷ cs
      → (m' : Machine bus.State) × (idle_round bus m ≡ some m')
        × IsServing m'
        × (pending m' ≡ cs)
        × (m'.fb ≡ write (c ∷ []) m.fb)
  unfolding idle_round Serial.dev2offset
  idle_round-prints m c cs v e =
      let (ports, r, left, valid, same) =
        read-queue com1 1 0 c cs m.ports (omega arith) refl v.ports v.port e in
      let m' : Machine bus.State = record m { ports = ports; fb = write (c ∷ []) m.fb } in
      (
        m',
        rw (idle_round, r) refl,
        record {
          key_handler = v.key_handler;
          char_handler = v.char_handler;
          ports = omega (arith, same, v.ports);
          port = valid;
        },
        left,
        refl,
      )

  -- With none pending, a round does not end.
  pub idle_round-waits :
      (m : Machine bus.State) → IsServing m → pending m ≡ [] → idle_round bus m ≡ none
  unfolding idle_round Serial.dev2offset
  idle_round-waits m v e =
      let halts = read-waits com1 1 0 m.ports (omega arith) refl v.port e in
      rw (idle_round, halts) refl

  -- What a round that ends has done.
  abbrev pub Printed : Machine bus.State → Machine bus.State → Type 0
  Printed m m' =
      (c : ℕ) × (left : List ℕ) × (pending m ≡ c ∷ left)
      × IsServing m'
      × (pending m' ≡ left)
      × (m'.fb ≡ write (c ∷ []) m.fb)

  pub idle_round-some :
      (m m' : Machine bus.State) → IsServing m → idle_round bus m ≡ some m' → Printed m m'
  idle_round-some m m' v e = go (pending m) refl
    where
      go : (q : List ℕ) → pending m ≡ q → Printed m m'
      go [] p = absurd (none-ne-some m' (sym (idle_round-waits m v p) ∙ e))
      go (c ∷ left) p =
          let (m₁, e₁, v₁, q₁, f₁) = idle_round-prints m c left v p in
          subst (Printed m) (some-injective m₁ m' (sym e₁ ∙ e)) (c, left, p, v₁, q₁, f₁)

  -- An interrupt of the keyboard is none of the loop's business.
  pub key_lem :
      (m m' : Machine bus.State)
      → IsServing m
      → on_interrupt bus keyboard_irq m ≡ done tt m'
      → Serves m (pending m) m'
  key_lem m m' v e =
      subst (Serves m (pending m))
        (ap (final m) (sym (on_interrupt-keyboard bus keyboard_irq m v.key_handler) ∙ e))
        (
          record {
            key_handler = v.key_handler;
            char_handler = v.char_handler;
            ports = v.ports;
            port = v.port;
          },
          refl,
          refl,
        )

  pub char_lem :
      (m m' : Machine bus.State)
      → IsServing m
      → on_interrupt bus serial_1_irq m ≡ done tt m'
      → Serves m (accept bus (offered bus serial_1_irq m.hardware) (pending m)) m'
  unfolding Serial.irq2offset
  char_lem m m' v e =
      let (pushed, valid, others) =
        interrupt_handler-queue bus serial_1_irq 0 m.ports m.hardware refl v.ports v.port in
      let same = length-interrupt_handler bus serial_1_irq 0 m.ports m.hardware refl in
      subst (Serves m (accept bus (offered bus serial_1_irq m.hardware) (pending m)))
        (ap (final m) (sym (on_interrupt-serial bus serial_1_irq m v.char_handler) ∙ e))
        (
          record {
            key_handler = v.key_handler;
            char_handler = v.char_handler;
            ports = omega (arith, same, v.ports);
            port = valid;
          },
          pushed,
          refl,
        )
