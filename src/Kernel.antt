-- ===== src/Kernel.antt =====
-- src/kernel/kernel.c: the start of the kernel, over the drivers. The framebuffer and the frame
-- bitmap are in one memory. What the assembly around the kernel gives, and what is in memory that
-- nobody has set, are arguments.
pub mod Space
pub mod Drivers
pub mod Boot
pub mod Interrupt
pub mod Panic
pub mod Idle
pub mod Serving
pub mod Echo
mod Tests
use Prim.Native.String.{String}
use ata_driver.Common.{
  codes, ℕ, ◌+◌, ◌*◌, Bool, true, false, not, Option, none, some, List, [], ◌∷◌, ◌==◌, ltb,
  if◌then◌else◌,
}
use ata_driver.Io.{Bus}
use ata_driver.Io.Run.{Run, Cmd, done, waiting, fault, pure, ◌>>=◌, ◌>>◌}
use ata_driver.Pic
use ata_driver.Pic.{unmask_dev}
use ata_driver.Interrupts.{
  IdtEntry, Tables, idt_entries, interrupt_gate, set_interrupt_handler, set_up,
}
use ata_driver.Mem.Bitmap.{Memory}
use ata_driver.Mem.Frames.{allocate_frames}
use ata_driver.Mem.Init.{Region, mem_init}
use ata_driver.Mem.Heap.{Entry, Heap, user_first_frame, kalloc_init, kalloc}
use ata_driver.Fb.{Fb, color_white, reset, set_fg_color, set_bg_color, write, clear}
use ata_driver.Kb
use ata_driver.Kb.{Kb}
use ata_driver.Serial
use ata_driver.Serial.{SerialBuffer, PortConfig, com1, serial_1_irq, dev2offset, read}
use ata_driver.Ata.{AtaDev}
use ata_driver.Ata.Identify.{ata_init}

-- The handlers that the drivers register.
pub data Handler : Type 0 where
  keyboard : Handler
  serial : Handler

-- The state of the drivers; `S` is that of the hardware.
pub record Machine (S : Type 0) : Type 0 where
  pub fb : Fb
  pub entries : ℕ → Entry
  pub total : ℕ
  pub tables : Tables Handler
  pub kb : Kb
  pub ports : List SerialBuffer
  pub hardware : S

-- What the kernel meets: the memory map; the address of `mem_head`; the contents of the blocks
-- that `kalloc` returns; the assembly that sets the offsets; what `kb_init`, which has no `return`
-- at its end, leaves as its result; the fuel, and the uninitialised values of the ATA driver.
pub record Given : Type 0 where
  pub map : List Region
  pub head_addr : ℕ
  pub handlers : List (Option Handler)
  pub idt : List IdtEntry
  pub kb_space : List ℕ
  pub port_space : List ℕ
  pub offsets : List IdtEntry → List IdtEntry
  pub leftover : ℕ
  pub fuel : ℕ
  pub garbage : ℕ
  pub disk : ℕ → AtaDev

-- `halted`: `kernel_panic` stops the machine. `idle`: the idle loop is reached.
pub data Outcome : Type 0 where
  halted : Outcome
  idle : Outcome

abbrev pub color_blue : ℕ
color_blue = 1

abbrev pub color_red : ℕ
color_red = 4

abbrev pub stack_frame : ℕ
stack_frame = 767

abbrev pub keyboard_irq : ℕ
keyboard_irq = 0x21

-- -1, as an unsigned number.
abbrev pub failure : ℕ
failure = 0xffffffff

abbrev pub com1_config : PortConfig
com1_config = record { divisor = 3; available_interrupts = 0x01; line_config = 0x03 }

abbrev pub heap_of : {S : Type 0} → Machine S → Heap
heap_of m = record { entry = m.entries; bitmap = m.fb.mem }

abbrev pub with_heap : {S : Type 0} → Heap → Machine S → Machine S
with_heap h m = let fb = m.fb in record m { entries = h.entry; fb = record fb { mem = h.bitmap } }

module _ (bus : Bus) where
  -- `fb_set_fg_color(fg); fb_set_bg_color(bg); fb_clear();`
  pub paint : ℕ → ℕ → Machine bus.State → Machine bus.State
  paint fg bg m =
      let (fb, s) = clear bus (set_bg_color bg (set_fg_color fg m.fb)) m.hardware in
      record m { fb = fb; hardware = s }

  pub kernel_panic : String → Cmd (Machine bus.State) Outcome
  unfolding paint
  kernel_panic msg m =
      let painted = paint color_white color_red m in
      done halted (record painted { fb = write (codes msg) painted.fb })

  -- `kalloc` on the kernel's heap.
  pub get_space : Given → ℕ → Cmd (Machine bus.State) ℕ
  get_space g bytes m = elim (kalloc g.fuel m.total g.head_addr bytes (heap_of m)) [
    | none ↦ waiting
    | some (addr, h) ↦ done addr (with_heap h m)
  ]

  -- The end of `itr_set_up`, where `q` is the address of the descriptor table.
  pub fill_tables : Given → ℕ → Cmd (Machine bus.State) Bool
  fill_tables g q m =
      elim (set_up g.offsets (some g.handlers) (if q == 0 then none else some g.idt)) [
        | none ↦ done false m
        | some (tables, limit) ↦ done true (record m { tables = tables })
      ]

  -- `itr_set_up`; the result says whether it is not -1.
  pub itr_set_up : Given → Cmd (Machine bus.State) Bool
  unfolding fill_tables
  itr_set_up g = get_space g (4 * idt_entries) >>= λ p.
      if p == 0 then pure false else (get_space g (8 * idt_entries) >>= fill_tables g)

  pub kb_init : Given → Cmd (Machine bus.State) Bool
  kb_init g = get_space g Kb.buf_len >>= λ p. λ m.
      let (ok, kb) = Kb.init (if p == 0 then none else some g.kb_space) m.kb in
      if ok
      then done (not (g.leftover == failure)) (record m {
        kb = kb;
        tables = set_interrupt_handler keyboard_irq (some keyboard) interrupt_gate m.tables;
      })
      else done false (record m { kb = kb })

  pub serial_init : Given → ℕ → PortConfig → Cmd (Machine bus.State) Bool
  serial_init g dev config = elim (dev2offset dev) [
    | none ↦ pure false
    | some _ ↦ get_space g Serial.buffer_len >>= λ p. λ m.
        let (ok, ports, s) =
          Serial.init bus dev config (if p == 0 then none else some g.port_space) m.ports
            m.hardware in
        if ok
        then done true (record m {
          ports = ports;
          hardware = s;
          tables = set_interrupt_handler serial_1_irq (some serial) interrupt_gate m.tables;
        })
        else done false (record m { ports = ports; hardware = s })
  ]

  -- A call that touches the hardware only.
  abbrev pub on_hardware : (bus.State → bus.State) → Cmd (Machine bus.State) (Unit {0})
  on_hardware f m = done tt (record m { hardware = f m.hardware })

  -- `if (init() == -1) kernel_panic(msg);`, and what follows.
  pub or_panic :
      Cmd (Machine bus.State) Bool
      → String
      → Cmd (Machine bus.State) Outcome
      → Cmd (Machine bus.State) Outcome
  or_panic init msg rest = init >>= λ ok. if ok then rest else kernel_panic msg

  -- `ata_dev_t* devs[] = {dp, dp+1, dp+2, dp+3};`
  abbrev pub disks_of : Given → List AtaDev
  disks_of g = g.disk 0 ∷ g.disk 1 ∷ g.disk 2 ∷ g.disk 3 ∷ []

  -- The end of `kmain2` before its idle loop.
  pub start_disks : Given → Cmd (Machine bus.State) Outcome
  start_disks g m = elim (ata_init bus g.fuel g.garbage (disks_of g) m.hardware) [
    | waiting ↦ waiting
    | fault ↦ fault
    | done _ s ↦ done idle (record m { hardware = s })
  ]

  -- `kmain2` up to its idle loop.
  pub kmain2 : Given → Cmd (Machine bus.State) Outcome
  unfolding paint or_panic
  kmain2 g m =
      or_panic (itr_set_up g) "Coult not initialize IDT :("
        (on_hardware (Pic.init bus)
          >> or_panic (kb_init g) "Could not initialize the keyboard :(" (
              on_hardware (unmask_dev bus keyboard_irq)
              >> or_panic (serial_init g com1 com1_config) "Could not intialize COM1 :("
                  (on_hardware (unmask_dev bus serial_1_irq) >> start_disks g)))
        (paint color_blue color_white (record m { fb = reset m.fb }))

  -- `kmain` behind `mem_init`, which leaves `total` frames and the bitmap.
  pub start_stack : Given → ℕ → Memory → Cmd (Machine bus.State) Outcome
  start_stack g total bm m =
      let h = kalloc_init g.head_addr (record { entry = m.entries; bitmap = bm }) in
      let (addr, bm') = allocate_frames total 1 stack_frame user_first_frame h.bitmap in
      let ready = with_heap (record h { bitmap = bm' }) (record m { total = total }) in
      if addr == 0
      then kernel_panic "Could not allocate a frame for the kernel's stack :(" ready
      else kmain2 g ready

  pub kmain : Given → Cmd (Machine bus.State) Outcome
  unfolding start_stack
  kmain g m =
      let started = record m { fb = reset m.fb } in
      elim (mem_init g.map started.fb.mem) [
        | none ↦ kernel_panic "Could not initialize memory :(" started
        | some (total, bm) ↦ start_stack g total bm started
      ]

  -- One round of the idle loop. `none`: no byte is waiting, and `serial_read` halts until an
  -- interrupt.
  pub idle_round : Machine bus.State → Option (Machine bus.State)
  idle_round m = elim (read com1 1 m.ports) [
    | none ↦ none
    | some (bytes, ports) ↦ some (record m { fb = write bytes m.fb; ports = ports })
  ]
