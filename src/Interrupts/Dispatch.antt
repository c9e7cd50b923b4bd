-- ===== src/Interrupts/Dispatch.antt =====
-- Which handler an interrupt reaches.
use ata_driver.Common.{
  ℕ, zero, suc, ◌+◌, ◌≤◌, ◌<◌, ◌≡◌, ◌∙◌, refl, sym, ap, arith, Option, none, some, List, length,
  length-set, get_or, set, get_or-set_self, get_or-set_ne, ◌==◌, leb, ltb, ◌&&◌, if◌then◌else◌, inl,
  inr, Bool-cases,
}
use ata_driver.Io.{Bus}
use ata_driver.Io.Run.{Cmd}
use ata_driver.Interrupts.{
  IdtEntry, no_entry, kernel_code_segment, interrupt_gate, Tables, set_interrupt_handler,
  interrupt_handler, clear_loop, gate_loop,
}

-- The entry as the loop of `itr_set_up` leaves it: an interrupt gate of the kernel's code segment.
abbrev pub as_gate : IdtEntry → IdtEntry
as_gate e = record e { segment = kernel_code_segment; flags = interrupt_gate }

pub gate_loop_lem :
    (n i : ℕ) (idt : List IdtEntry) (irq : ℕ)
    → i + n ≤ length idt
    → get_or (gate_loop n i idt) irq no_entry ≡ (
        if leb i irq && ltb irq (i + n)
        then as_gate (get_or idt irq no_entry)
        else get_or idt irq no_entry)
unfolding gate_loop
gate_loop_lem zero i idt irq fits = ground arith
gate_loop_lem (suc n) i idt irq fits =
    let e = as_gate (get_or idt i no_entry) in
    gate_loop_lem n (i + 1) (set idt i e) irq (omega (arith, length-set idt i e))
    ∙ elim (Bool-cases (irq == i)) [
      | inl here ↦
          let at : irq ≡ i = ground arith in
          rw (at, get_or-set_self idt i e no_entry (omega arith)) (ground arith)
      | inr other ↦
          rw (get_or-set_ne idt i irq e no_entry (λ q. ground (arith, q, other)))
            (ground (arith, other))
    ]

module _ {Handler : Type 0} where
  pub clear_loop_lem :
      (n i : ℕ) (handlers : List (Option Handler)) (irq : ℕ)
      → i + n ≤ length handlers
      → get_or (clear_loop n i handlers) irq none
        ≡ (if leb i irq && ltb irq (i + n) then none else get_or handlers irq none)
  unfolding clear_loop
  clear_loop_lem zero i handlers irq fits = ground arith
  clear_loop_lem (suc n) i handlers irq fits =
      clear_loop_lem n (i + 1) (set handlers i none) irq (omega (arith, length-set handlers i none))
      ∙ elim (Bool-cases (irq == i)) [
        | inl here ↦
            let at : irq ≡ i = ground arith in
            rw (at, get_or-set_self handlers i none none (omega arith)) (ground arith)
        | inr other ↦
            rw (get_or-set_ne handlers i irq none none (λ q. ground (arith, q, other)))
              (ground (arith, other))
      ]

  pub interrupt_handler-registered :
      (bus : Bus) (report : ℕ → Cmd bus.State (Unit {0}))
      (call : Handler → ℕ → Cmd bus.State (Unit {0})) (irq : ℕ) (handler : Handler)
      (t : Tables Handler) (s : bus.State)
      → get_or t.handlers irq none ≡ some handler
      → interrupt_handler bus report call irq t s ≡ call handler irq s
  unfolding interrupt_handler
  interrupt_handler-registered bus report call irq handler t s e = rw (interrupt_handler, e) refl

  -- A handler that is set for an interrupt within the tables is the one that this interrupt calls,
  -- and every other interrupt is handled as before.
  pub interrupt_handler-set_interrupt_handler :
      (bus : Bus) (report : ℕ → Cmd bus.State (Unit {0}))
      (call : Handler → ℕ → Cmd bus.State (Unit {0})) (irq : ℕ) (handler : Handler)
      (flags other : ℕ) (t : Tables Handler) (s : bus.State)
      → irq < length t.handlers
      → interrupt_handler bus report call other (set_interrupt_handler irq (some handler) flags t) s
        ≡ (if irq == other
            then call handler other s
            else interrupt_handler bus report call other t s)
  unfolding interrupt_handler set_interrupt_handler
  interrupt_handler-set_interrupt_handler bus report call irq handler flags other t s inside =
      elim (Bool-cases (irq == other)) [
        | inl same ↦
            let e : irq ≡ other = ground arith in
            rw
              (
                interrupt_handler,
                same,
                ← e,
                get_or-set_self t.handlers irq (some handler) none inside,
              )
              (ap (λ o. call handler o s) (sym e))
        | inr ne ↦
            rw
              (
                interrupt_handler,
                ne,
                get_or-set_ne t.handlers irq other (some handler) none (λ e. ground (arith, e, ne)),
              )
              refl
      ]
