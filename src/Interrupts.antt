-- ===== src/Interrupts.antt =====
-- src/kernel/interrupts.c: the table of handlers and the interrupt descriptor table. A handler is
-- of any type; what calling it does is an argument. The assembly that fills the offsets, and what
-- `kalloc` returns for the two tables, are arguments as well.
pub mod Dispatch
pub mod Registry
mod Tests
use ata_driver.Common.{
  ℕ, zero, suc, ◌+◌, ◌*◌, ◌-◌, Bool, true, false, Option, none, some, List, get_or, set, bit_or,
}
use ata_driver.Io.{Bus}
use ata_driver.Io.Run.{Cmd, ◌>>◌, effect}
use ata_driver.Pic.{send_eoi}

pub record IdtEntry : Type 0 where
  pub off_low : ℕ
  pub segment : ℕ
  pub flags : ℕ
  pub off_high : ℕ

abbrev pub no_entry : IdtEntry
no_entry = record { off_low = 0; segment = 0; flags = 0; off_high = 0 }

abbrev pub idt_entries : ℕ
idt_entries = 256

abbrev pub kernel_code_segment : ℕ
kernel_code_segment = 0x08

-- `IDT_PRESENT | IDT_GATE_INTR | IDT_DPL_RING_0`
abbrev pub interrupt_gate : ℕ
interrupt_gate = bit_or (bit_or 0x8000 0x0e00) 0x0000

-- The two tables; a handler is `none` for NULL.
pub record Tables (Handler : Type 0) : Type 0 where
  pub handlers : List (Option Handler)
  pub idt : List IdtEntry

-- The second loop of `itr_set_up` with `rounds` rounds left from index `i` on.
pub gate_loop : ℕ → ℕ → List IdtEntry → List IdtEntry
gate_loop zero i idt = idt
gate_loop (suc rounds) i idt = gate_loop rounds (i + 1) (
    set idt i (
      let e = get_or idt i no_entry in
      record e { segment = kernel_code_segment; flags = interrupt_gate }))

module _ {Handler : Type 0} where
  pub set_interrupt_handler : ℕ → Option Handler → ℕ → Tables Handler → Tables Handler
  set_interrupt_handler irq handler flags t = record {
    handlers = set t.handlers irq handler;
    idt = set t.idt irq (let e = get_or t.idt irq no_entry in record e { flags = flags });
  }

  -- `report` stands for the message that is printed; `call` runs a handler.
  pub interrupt_handler :
      (bus : Bus)
      → (ℕ → Cmd bus.State (Unit {0}))
      → (Handler → ℕ → Cmd bus.State (Unit {0}))
      → ℕ
      → Tables Handler
      → Cmd bus.State (Unit {0})
  interrupt_handler bus report call irq t = elim (get_or t.handlers irq none) [
    | none ↦ report irq >> effect (send_eoi bus irq)
    | some handler ↦ call handler irq
  ]

  -- The first loop.
  pub clear_loop : ℕ → ℕ → List (Option Handler) → List (Option Handler)
  clear_loop zero i handlers = handlers
  clear_loop (suc rounds) i handlers = clear_loop rounds (i + 1) (set handlers i none)

  -- The tables and the limit that is loaded; `none` stands for -1.
  pub set_up :
      (List IdtEntry → List IdtEntry)
      → Option (List (Option Handler))
      → Option (List IdtEntry)
      → Option (Tables Handler × ℕ)
  set_up offsets none idt = none
  set_up offsets (some handlers) none = none
  set_up offsets (some handlers) (some idt) = some (
    record {
      handlers = clear_loop idt_entries 0 handlers;
      idt = gate_loop idt_entries 0 (offsets idt);
    },
    idt_entries * 8 - 1,
  )
