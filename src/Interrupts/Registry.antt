-- ===== src/Interrupts/Registry.antt =====
-- The tables as a registry: which handler each interrupt has, behind gates that are all set.
use ata_driver.Common.{
  ℕ, zero, suc, ◌+◌, ◌<◌, ◌≡◌, ◌∙◌, refl, ap, arith, Option, none, some, List, length, length-set,
  get_or, set, get_or-set_self, get_or-set_ne, ◌==◌, if◌then◌else◌, inl, inr, Bool-cases,
}
use ata_driver.Interrupts.{
  IdtEntry, no_entry, idt_entries, interrupt_gate, Tables, set_interrupt_handler, clear_loop,
  gate_loop, set_up,
}
use ata_driver.Interrupts.Dispatch.{as_gate, gate_loop_lem, clear_loop_lem}

-- Both tables are full, the handlers are those of `registered`, and every entry is an interrupt
-- gate with its offset from `idt`.
pub record IsRegistry {Handler : Type 0} (registered : ℕ → Option Handler) (idt : List IdtEntry)
    (t : Tables Handler) : Type 0 where
  pub room : length t.handlers ≡ idt_entries
  pub gate_room : length t.idt ≡ idt_entries
  pub handlers : (irq : ℕ) → irq < idt_entries → get_or t.handlers irq none ≡ registered irq
  pub gates :
      (irq : ℕ) → irq < idt_entries → get_or t.idt irq no_entry ≡ as_gate (get_or idt irq no_entry)

length-gate_loop : (n i : ℕ) (idt : List IdtEntry) → length (gate_loop n i idt) ≡ length idt
unfolding gate_loop
length-gate_loop zero i idt = refl
length-gate_loop (suc n) i idt =
    length-gate_loop n (i + 1) (set idt i (as_gate (get_or idt i no_entry)))
    ∙ length-set idt i (as_gate (get_or idt i no_entry))

-- What `itr_set_interrupt_handler` makes of the entry of `irq`.
abbrev flagged : {Handler : Type 0} → Tables Handler → ℕ → IdtEntry
flagged t irq = let e = get_or t.idt irq no_entry in record e { flags = interrupt_gate }

-- A registry with one more handler.
abbrev pub register : {Handler : Type 0} → ℕ → Handler → (ℕ → Option Handler) → ℕ → Option Handler
register irq handler registered other = if irq == other then some handler else registered other

module _ {Handler : Type 0} where
  length-clear_loop :
      (n i : ℕ) (handlers : List (Option Handler))
      → length (clear_loop n i handlers) ≡ length handlers
  unfolding clear_loop
  length-clear_loop zero i handlers = refl
  length-clear_loop (suc n) i handlers =
      length-clear_loop n (i + 1) (set handlers i none) ∙ length-set handlers i none

  pub set_up-IsRegistry :
      (offsets : List IdtEntry → List IdtEntry) (handlers : List (Option Handler))
      (idt : List IdtEntry)
      → length handlers ≡ idt_entries
      → length (offsets idt) ≡ idt_entries
      → (t : Tables Handler) × (set_up offsets (some handlers) (some idt) ≡ some (t, 2047))
        × IsRegistry (λ irq. none) (offsets idt) t
  unfolding set_up
  set_up-IsRegistry offsets handlers idt h k = (
    _,
    refl,
    record {
      room = length-clear_loop idt_entries 0 handlers ∙ h;
      gate_room = length-gate_loop idt_entries 0 (offsets idt) ∙ k;
      handlers =
          λ irq l. clear_loop_lem idt_entries 0 handlers irq (omega (arith, h)) ∙ ground (arith, l);
      gates = λ irq l.
          gate_loop_lem idt_entries 0 (offsets idt) irq (omega (arith, k)) ∙ ground (arith, l);
    },
  )

  pub set_interrupt_handler-IsRegistry :
      (irq : ℕ) (handler : Handler) (registered : ℕ → Option Handler) (idt : List IdtEntry)
      (t : Tables Handler)
      → irq < idt_entries
      → IsRegistry registered idt t
      → IsRegistry
          (register irq handler registered)
          idt
          (set_interrupt_handler irq (some handler) interrupt_gate t)
  unfolding set_interrupt_handler
  set_interrupt_handler-IsRegistry irq handler registered idt t inside v = record {
    room = length-set t.handlers irq (some handler) ∙ v.room;
    gate_room = length-set t.idt irq (flagged t irq) ∙ v.gate_room;
    handlers = λ other l. elim (Bool-cases (irq == other)) [
      | inl same ↦
          let e : irq ≡ other = ground arith in
          rw (same, ← e)
            (get_or-set_self t.handlers irq (some handler) none (omega (arith, v.room)))
      | inr ne ↦
          rw
            (
              ne,
              get_or-set_ne t.handlers irq other (some handler) none (λ e. ground (arith, e, ne)),
            )
            (v.handlers other l)
    ];
    gates = λ other l. elim (Bool-cases (irq == other)) [
      | inl same ↦
          let e : irq ≡ other = ground arith in
          rw (← e) (
            get_or-set_self t.idt irq (flagged t irq) no_entry (omega (arith, v.gate_room))
            ∙ ap (λ (g : IdtEntry). record g { flags = interrupt_gate }) (v.gates irq inside))
      | inr ne ↦
          rw (get_or-set_ne t.idt irq other (flagged t irq) no_entry (λ e. ground (arith, e, ne)))
            (v.gates other l)
    ];
  }
