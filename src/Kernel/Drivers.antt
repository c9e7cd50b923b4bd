-- ===== src/Kernel/Drivers.antt =====
-- The steps of `kmain2` that set up the drivers, each from the heap that the one before it leaves.
use ata_driver.Common.{
  ℕ, ◌+◌, ◌*◌, ◌≤◌, ◌<◌, ◌^◌, ◌≡◌, refl, arith, true, false, none, some, ◌∷◌, [], length, ◌==◌,
}
use ata_driver.Io.{Bus}
use ata_driver.Io.Run.{done}
use ata_driver.Interrupts.{Tables, idt_entries, interrupt_gate, set_interrupt_handler, set_up}
use ata_driver.Interrupts.Registry.{IsRegistry, set_up-IsRegistry}
use ata_driver.Mem.Heap.{Heap}
use ata_driver.Mem.Heap.Spec.{Area, Holds}
use ata_driver.Mem.Heap.Start.{
  empty_area, one_frame, used_cell, free_cell, request-handlers, request-idt, request-keyboard,
  request-serial,
}
use ata_driver.Kb
use ata_driver.Serial
use ata_driver.Serial.{com1, serial_1_irq, configure}
use ata_driver.Kernel.{
  Handler, keyboard, serial, Machine, Given, failure, keyboard_irq, com1_config, heap_of, with_heap,
  fill_tables, itr_set_up, kb_init, serial_init,
}
use ata_driver.Kernel.Space.{get_space-request}

-- The blocks have the sizes that were asked for, `kb_init` happens to return no -1, and the fuel is
-- enough for a heap of up to four cells.
pub record IsSupplied (g : Given) : Type 0 where
  pub handlers : length g.handlers ≡ idt_entries
  pub idt : length (g.offsets g.idt) ≡ idt_entries
  pub keys : length g.kb_space ≡ Kb.buf_len
  pub chars : length g.port_space ≡ Serial.buffer_len
  pub returned : (g.leftover == failure) ≡ false
  pub fuel : 6 ≤ g.fuel

-- The heap of a machine.
abbrev pub HoldsIn : {S : Type 0} → ℕ → Given → Area → Machine S → Type 0
HoldsIn limit g area m = Holds m.total limit g.head_addr area (heap_of m)

module _ (bus : Bus) (g : Given) (first limit : ℕ) (k : IsSupplied g) (m : Machine bus.State)
    (small : m.total ≤ 2 ^ 20) where
  tables_filled :
      (q : ℕ) (m : Machine bus.State) (t : Tables Handler)
      → (q == 0) ≡ false
      → set_up g.offsets (some g.handlers) (some g.idt) ≡ some (t, 2047)
      → fill_tables bus g q m ≡ done true (record m { tables = t })
  unfolding fill_tables
  tables_filled q m t valid e = rw (fill_tables, valid, e) refl

  pub itr_set_up_lem :
      first < limit
      → HoldsIn limit g (empty_area first) m
      → (h' : Heap) × (t : Tables Handler) × (itr_set_up bus g m
          ≡ done true (record (with_heap h' m) { tables = t }))
        × IsRegistry (λ irq. none) (g.offsets g.idt) t
        × Holds m.total limit g.head_addr
            (one_frame first (used_cell 64 ∷ used_cell 128 ∷ free_cell 61 ∷ []))
            h'
  unfolding itr_set_up
  itr_set_up_lem room v =
      let (h₁, e₁, v₁) =
        get_space-request bus g m limit (empty_area first) v 1024 _ _
          (request-handlers first limit room) (omega arith) small (omega (arith, k.fuel)) in
      let (h₂, e₂, v₂) =
        get_space-request bus g (with_heap h₁ m) limit
          (one_frame first (used_cell 64 ∷ free_cell 190 ∷ [])) v₁ 2048 _ _
          (request-idt first limit) (omega arith) small (omega (arith, k.fuel)) in
      let (t, e, registry) = set_up-IsRegistry g.offsets g.handlers g.idt k.handlers k.idt in
      let some_p : (first * 4096 + 16 == 0) ≡ false = ground arith in
      let some_q : (first * 4096 + 65 * 16 + 16 == 0) ≡ false = ground arith in
      (
        h₂,
        t,
        rw (e₁, some_p, e₂)
            (tables_filled (first * 4096 + 65 * 16 + 16) (with_heap h₂ m) t some_q e),
        registry,
        v₂,
      )

  pub kb_init_lem :
      HoldsIn limit g (one_frame first (used_cell 64 ∷ used_cell 128 ∷ free_cell 61 ∷ [])) m
      → (h' : Heap) × (kb_init bus g m
          ≡ done true (record (with_heap h' m) {
            kb = (Kb.init (some g.kb_space) m.kb).1;
            tables = set_interrupt_handler keyboard_irq (some keyboard) interrupt_gate m.tables;
          }))
        × Holds m.total limit g.head_addr
            (one_frame first (used_cell 64 ∷ used_cell 128 ∷ used_cell 2 ∷ free_cell 58 ∷ []))
            h'
  unfolding kb_init Kb.init
  kb_init_lem v =
      let (h₁, e₁, v₁) =
        get_space-request bus g m limit _ v 32 _ _ (request-keyboard first limit) (omega arith)
          small (omega (arith, k.fuel)) in
      let some_p : (first * 4096 + 194 * 16 + 16 == 0) ≡ false = ground arith in
      (h₁, rw (e₁, some_p, k.returned) refl, v₁)

  pub serial_init_lem :
      HoldsIn limit g
        (one_frame first (used_cell 64 ∷ used_cell 128 ∷ used_cell 2 ∷ free_cell 58 ∷ []))
        m
      → (let (ok, ports, s) =
            Serial.init bus com1 com1_config (some g.port_space) m.ports m.hardware in
          (h' : Heap) × (serial_init bus g com1 com1_config m
            ≡ done true (record (with_heap h' m) {
              ports = ports;
              hardware = s;
              tables = set_interrupt_handler serial_1_irq (some serial) interrupt_gate m.tables;
            }))
          × Holds m.total limit g.head_addr
              (one_frame first
                (used_cell 64 ∷ used_cell 128 ∷ used_cell 2 ∷ used_cell 4 ∷ free_cell 53 ∷ []))
              h')
  unfolding serial_init Serial.init Serial.dev2offset
  serial_init_lem v =
      let (h₁, e₁, v₁) =
        get_space-request bus g m limit _ v 64 _ _ (request-serial first limit) (omega arith) small
          (omega (arith, k.fuel)) in
      let some_p : (first * 4096 + 197 * 16 + 16 == 0) ≡ false = ground arith in
      (h₁, rw (e₁, some_p) refl, v₁)
