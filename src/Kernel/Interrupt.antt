-- ===== src/Kernel/Interrupt.antt =====
-- Interrupts while the kernel runs: `itr_interrupt_handler` of src/kernel/interrupts.c with the
-- handlers that the drivers register, on the state of the whole machine.
use ata_driver.Common.{ℕ, ◌≡◌, none, some, [], ◌∷◌, get_or}
use ata_driver.Io.{Bus}
use ata_driver.Io.Run.{Cmd, done, waiting, fault}
use ata_driver.Interrupts
use ata_driver.Interrupts.Dispatch.{interrupt_handler-registered}
use ata_driver.Kb
use ata_driver.Serial
use ata_driver.Str.Format.{number}
use ata_driver.Fb.Printf.Print.{print}
use ata_driver.Kernel.{Handler, keyboard, serial, Machine}

-- The ports, seen from the machine.
abbrev pub machine_bus : Bus → Bus
machine_bus bus = record {
  State = Machine bus.State;
  in8 = λ p m. let (v, s) = bus.in8 p m.hardware in (v, record m { hardware = s });
  in16 = λ p m. let (v, s) = bus.in16 p m.hardware in (v, record m { hardware = s });
  out8 = λ p v m. record m { hardware = bus.out8 p v m.hardware };
  out16 = λ p v m. record m { hardware = bus.out16 p v m.hardware };
}

module _ (bus : Bus) where
  pub call_handler : Handler → ℕ → Cmd (Machine bus.State) (Unit {0})
  call_handler keyboard irq m =
      let (kb, s) = Kb.interrupt_handler bus irq m.kb m.hardware in
      done tt (record m { kb = kb; hardware = s })
  call_handler serial irq m =
      let (ports, s) = Serial.interrupt_handler bus irq m.ports m.hardware in
      done tt (record m { ports = ports; hardware = s })

  -- The message for an interrupt without a handler.
  pub report : ℕ → Cmd (Machine bus.State) (Unit {0})
  report irq m =
      elim (print bus ">> Generic intr handler called with IRQ: %dd\n" (number irq ∷ [])
        (m.fb, m.hardware)) [
          | waiting ↦ waiting
          | fault ↦ fault
          | done _ (fb, s) ↦ done tt (record m { fb = fb; hardware = s })
        ]

  pub on_interrupt : ℕ → Cmd (Machine bus.State) (Unit {0})
  unfolding call_handler report
  on_interrupt irq m =
      Interrupts.interrupt_handler (machine_bus bus) report call_handler irq m.tables m

  -- Where the handler of a driver is registered, the interrupt calls it, and nothing else.
  pub on_interrupt-keyboard :
      (irq : ℕ) (m : Machine bus.State)
      → get_or m.tables.handlers irq none ≡ some keyboard
      → (let (kb, s) = Kb.interrupt_handler bus irq m.kb m.hardware in
          on_interrupt irq m ≡ done tt (record m { kb = kb; hardware = s }))
  unfolding on_interrupt call_handler
  on_interrupt-keyboard irq m =
      interrupt_handler-registered (machine_bus bus) report call_handler irq keyboard m.tables m

  pub on_interrupt-serial :
      (irq : ℕ) (m : Machine bus.State)
      → get_or m.tables.handlers irq none ≡ some serial
      → (let (ports, s) = Serial.interrupt_handler bus irq m.ports m.hardware in
          on_interrupt irq m ≡ done tt (record m { ports = ports; hardware = s }))
  unfolding on_interrupt call_handler
  on_interrupt-serial irq m =
      interrupt_handler-registered (machine_bus bus) report call_handler irq serial m.tables m
