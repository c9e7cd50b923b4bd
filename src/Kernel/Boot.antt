-- ===== src/Kernel/Boot.antt =====
-- The start of the kernel as a whole, from the memory map to the idle loop.
use ata_driver.Common.{
  ℕ, suc, ◌*◌, ◌/◌, ◌≤◌, ◌<◌, ◌^◌, ◌≡◌, ◌∙◌, refl, arith, Bool, true, false, none, some, ◌∷◌, [],
  length, get_or, length-set, get_or-set_self,
}
use ata_driver.Io.{Bus}
use ata_driver.Io.Run.{Cmd, done}
use ata_driver.Pic
use ata_driver.Pic.{unmask_dev}
use ata_driver.Interrupts.{interrupt_gate, set_interrupt_handler}
use ata_driver.Interrupts.Registry.{IsRegistry, register, set_interrupt_handler-IsRegistry}
use ata_driver.Mem.Bitmap.{entry_used, set_entry, entry_free, entry_reserved, get_entry}
use ata_driver.Mem.Frames.{frame_size}
use ata_driver.Mem.Frames.Allocate.{allocate_frames-one}
use ata_driver.Mem.Init.{highest, holds_bitmap, last_own}
use ata_driver.Mem.Init.Outcome.{is_reserved, Below4G, highest_le, mem_init_lem}
use ata_driver.Mem.Heap.{kalloc_init, user_first_frame}
use ata_driver.Mem.Heap.Start.{empty_area, one_frame, used_cell, free_cell, empty-Holds}
use ata_driver.Fb.{reset}
use ata_driver.Kb
use ata_driver.Kb.Inv
use ata_driver.Serial
use ata_driver.Serial.{SerialBuffer, com1, serial_1_irq, no_buffer}
use ata_driver.Serial.Receive
use ata_driver.Serial.Receive.{queue}
use ata_driver.Kernel.{
  keyboard, serial, Machine, Given, Outcome, stack_frame, keyboard_irq, com1_config, color_blue,
  color_white, with_heap, paint, or_panic, itr_set_up, kb_init, serial_init, start_disks, kmain2,
  kmain, start_stack,
}
use ata_driver.Kernel.Space.{paint-Holds}
use ata_driver.Kernel.Drivers.{IsSupplied, HoldsIn, itr_set_up_lem, kb_init_lem, serial_init_lem}

-- The statics before the start: four serial ports, and no scan code begun.
pub record IsStatic {S : Type 0} (m : Machine S) : Type 0 where
  pub ports : length m.ports ≡ 4
  pub partial : length m.kb.partial ≡ 6
  pub len : m.kb.len ≡ 0

-- A machine whose drivers are set up. The heap is the frame `first`: the two tables, the buffers of
-- the keyboard and of COM1, and 53 free units. Exactly these two devices have handlers, behind
-- gates that are all set, and their buffers are empty.
pub record IsReady {S : Type 0} (g : Given) (first : ℕ) (m : Machine S) : Type 0 where
  pub heap :
      HoldsIn stack_frame g
        (one_frame first
          (used_cell 64 ∷ used_cell 128 ∷ used_cell 2 ∷ used_cell 4 ∷ free_cell 53 ∷ []))
        m
  pub registry :
      IsRegistry
        (register serial_1_irq serial (register keyboard_irq keyboard (λ irq. none)))
        (g.offsets g.idt)
        m.tables
  pub keys : Kb.Inv.IsValid m.kb
  pub no_key : m.kb.count ≡ 0
  pub ports : length m.ports ≡ 4
  pub port : Serial.Receive.IsValid (get_or m.ports 0 no_buffer)
  pub no_char : queue (get_or m.ports 0 no_buffer) ≡ []

or_panic-ok :
    (bus : Bus) (init : Cmd (Machine bus.State) Bool) (msg : _)
    (rest : Cmd (Machine bus.State) Outcome) (m m' : Machine bus.State)
    → init m ≡ done true m'
    → or_panic bus init msg rest m ≡ rest m'
unfolding or_panic
or_panic-ok bus init msg rest m m' e = rw (or_panic, e) refl

-- The buffer of COM1 at first.
abbrev fresh_port : Given → SerialBuffer
fresh_port g = record { write_head = 0; read_head = 0; buffer = g.port_space }

fresh-IsValid : (g : Given) → IsSupplied g → Serial.Receive.IsValid (fresh_port g)
fresh-IsValid g k = record { storage = k.chars; write_in = omega arith; read_in = omega arith }

module _ (bus : Bus) (g : Given) (k : IsSupplied g) where
  kmain2-IsReady :
      (first : ℕ) (m : Machine bus.State)
      → m.total ≤ 2 ^ 20
      → first < stack_frame
      → IsStatic m
      → HoldsIn stack_frame g (empty_area first) m
      → (m' : Machine bus.State) × (kmain2 bus g m ≡ start_disks bus g m') × IsReady g first m'
  unfolding kmain2 reset Kb.init Serial.init Serial.dev2offset
  kmain2-IsReady first m small room st v =
      let m₀ = paint bus color_blue color_white (record m { fb = reset m.fb }) in
      let (h₁, t, e₁, registry, v₁) = itr_set_up_lem bus g first stack_frame k m₀ small room (
        paint-Holds bus g (record m { fb = reset m.fb }) stack_frame (empty_area first) v color_blue
          color_white) in
      let m₁ = record (with_heap h₁ m₀) { tables = t; hardware = Pic.init bus m₀.hardware } in
      let (h₂, e₂, v₂) = kb_init_lem bus g first stack_frame k m₁ small v₁ in
      let m₂ : Machine bus.State = record (with_heap h₂ m₁) {
        kb = (Kb.init (some g.kb_space) m.kb).1;
        tables = set_interrupt_handler keyboard_irq (some keyboard) interrupt_gate t;
        hardware = unmask_dev bus keyboard_irq m₁.hardware;
      } in
      let (h₃, e₃, v₃) = serial_init_lem bus g first stack_frame k m₂ small v₂ in
      let got = Serial.init bus com1 com1_config (some g.port_space) m.ports m₂.hardware in
      let m₃ : Machine bus.State = record (with_heap h₃ m₂) {
        ports = got.1;
        tables = set_interrupt_handler serial_1_irq (some serial) interrupt_gate m₂.tables;
        hardware = unmask_dev bus serial_1_irq got.2;
      } in
      let new = get_or-set_self m.ports 0 (fresh_port g) no_buffer (omega (arith, st.ports)) in
      (
        m₃,
        or_panic-ok bus (itr_set_up bus g) _ _ m₀ _ e₁
            ∙ or_panic-ok bus (kb_init bus g) _ _ m₁ _ e₂
            ∙ or_panic-ok bus (serial_init bus g com1 com1_config) _ _ m₂ _ e₃,
        record {
          heap = v₃;
          registry =
              set_interrupt_handler-IsRegistry serial_1_irq serial _ _ _ (omega arith) (
                set_interrupt_handler-IsRegistry keyboard_irq keyboard _ _ _ (omega arith)
                  registry);
          keys = record {
            storage = k.keys;
            head_in = omega arith;
            count_in = omega arith;
            partial_storage = st.partial;
            len_in = omega (arith, st.len);
            prefix = λ begun. absurd (omega (arith, st.len, begun));
          };
          no_key = refl;
          ports = length-set m.ports 0 (fresh_port g) ∙ st.ports;
          port = rw new (fresh-IsValid g k);
          no_char = rw new refl;
        },
      )

-- The number of frames, and the first frame behind the bitmap.
abbrev pub frames_of_map : Given → ℕ
frames_of_map g = highest g.map 0 / frame_size

abbrev pub first_free : Given → ℕ
first_free g = suc (last_own (frames_of_map g))

-- A machine that the kernel can start on: its map has no region above 4G, has an available one that
-- holds the bitmap, reaches 3M, and reserves none of the frames from the bitmap up to there;
-- `mem_head` lies below the end of the bitmap.
pub record IsBootable (g : Given) : Type 0 where
  pub below : Below4G g.map
  pub roomy : holds_bitmap (frames_of_map g) g.map ≡ true
  pub large : user_first_frame ≤ frames_of_map g
  pub unreserved : (f : ℕ) → first_free g ≤ f → f < user_first_frame → is_reserved g.map f ≡ false
  pub static : g.head_addr < first_free g * frame_size

module _ (bus : Bus) (g : Given) where
  -- For a memory map with no region above 4G, with an available region that holds the bitmap, and
  -- with all of the frames between the bitmap and the user's first frame there and not reserved; with
  -- the statics as they are before the start and below the heap, blocks of the sizes asked for, fuel
  -- for six entries of the heap, and where what `kb_init` leaves as its value without a `return` is
  -- not -1: `kmain` never panics. It reaches the start of the disks, with the keyboard and COM1
  -- registered, their buffers empty, and the heap as the four requests leave it, in the first frame
  -- behind the bitmap.
  pub kmain-IsReady :
      (m : Machine bus.State)
      → IsSupplied g
      → IsBootable g
      → IsStatic m
      → (m' : Machine bus.State) × (kmain bus g m ≡ start_disks bus g m')
        × IsReady g (first_free g) m'
  unfolding kmain start_stack reset kalloc_init
  kmain-IsReady m k b st =
      let total = frames_of_map g in
      let small : total ≤ 2 ^ 20 = omega (arith, highest_le g.map 0 b.below (omega arith)) in
      let (bm, e, marks) = (mem_init_lem g.map m.fb.mem b.below).1 b.roomy in
      let free : (f : ℕ) → first_free g ≤ f → f < user_first_frame → get_entry bm f ≡ entry_free =
        λ f p q. ground (arith, marks f (omega (arith, q, b.large)), b.unreserved f p q, p) in
      let taken : (f : ℕ) → f < first_free g → get_entry bm f ≡ entry_reserved =
        λ f p. ground (arith, marks f (omega (arith, p, small, b.large)), p) in
      let stack =
        allocate_frames-one total stack_frame user_first_frame bm refl b.large (omega arith)
          (free stack_frame (omega (arith, small)) (omega arith)) in
      let v =
        empty-Holds total stack_frame (first_free g) g.head_addr bm m.entries (omega arith)
          (omega (arith, small)) refl b.large b.static (λ f p q z. ground (arith, taken f q, z))
          free in
      let ready : Machine bus.State =
        with_heap
          (record (kalloc_init g.head_addr (record { entry = m.entries; bitmap = bm })) {
            bitmap = set_entry bm stack_frame entry_used;
          })
          (record m { fb = reset m.fb; total = total }) in
      let started : kmain bus g m ≡ kmain2 bus g ready = rw (kmain, e, start_stack, stack) refl in
      let (m', run, state) =
        kmain2-IsReady bus g k (first_free g) ready small (omega (arith, small))
          (record { ports = st.ports; partial = st.partial; len = st.len }) v in
      (m', started ∙ run, state)
