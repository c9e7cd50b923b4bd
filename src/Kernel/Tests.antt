-- ===== src/Kernel/Tests.antt =====
-- Runs of the kernel on a machine with 4M of memory, whose first serial port always offers the byte
-- 65.
use ata_driver.Common.{
  ◌+◌, inl, inr, Bool-cases, codes, ℕ, ◌/◌, ◌≡◌, refl, arith, false, ◌==◌, none, some, List, [],
  ◌∷◌, ◌++◌, length, replicate, if◌then◌else◌,
}
use ata_driver.Io.{Bus}
use ata_driver.Io.Run.{done}
use ata_driver.Interrupts.{no_entry}
use ata_driver.Mem.Init.{Region, highest, holds_bitmap}
use ata_driver.Fb.{Fb}
use ata_driver.Kb.{Kb}
use ata_driver.Serial.{serial_1_irq, no_buffer, interrupt_handler}
use ata_driver.Serial.Receive.{offered}
use ata_driver.Kernel.{
  idle, keyboard, serial, Machine, Given, halted, start_disks, kmain, idle_round,
}
use ata_driver.Kernel.Drivers.{IsSupplied}
use ata_driver.Kernel.Boot.{IsStatic, IsReady, first_free, IsBootable, kmain-IsReady}
use ata_driver.Kernel.Panic.{IsShown, kmain-IsShown}
use ata_driver.Kernel.Interrupt.{on_interrupt-serial}
use ata_driver.Kernel.Idle.{pending, IsServing}
use ata_driver.Kernel.Serving.{kmain-IsServing}
use ata_driver.Ata.{AtaDev}
use ata_driver.Ata.Identify.Outcome.{base_of}
use ata_driver.Ata.Identify.Devices.{Responsive}
use ata_driver.Kernel.Echo.{
  echo, from_port, Steps, stay, char, Echoed, Steps-Echoed, rounds, rounds-echo,
}

abbrev line_bus : Bus
line_bus = record {
  State = ℕ;
  in8 = λ port s. (if port == 0x03fd then 0x61 else 65, s);
  in16 = λ port s. (0, s);
  out8 = λ port v s. s;
  out16 = λ port v s. s;
}

abbrev large_map : List Region
large_map =
    record { base = 0; size = 0x9fc00; kind = 1 }
    ∷ record { base = 0x9fc00; size = 0x60400; kind = 2 }
    ∷ record { base = 0x100000; size = 0x300000; kind = 1 }
    ∷ []

abbrev no_disk : AtaDev
no_disk = record {
  present = 0;
  channel = 0;
  drive = 0;
  kind = 0;
  signature = 0;
  capabilities = 0;
  commandsets = 0;
  size = 0;
  model = [];
}

abbrev given : List Region → Given
given map = record {
  map = map;
  head_addr = 0x8000;
  handlers = replicate 256 none;
  idt = replicate 256 no_entry;
  kb_space = replicate 32 0;
  port_space = replicate 64 0;
  offsets = λ idt. idt;
  leftover = 1;
  fuel = 6;
  garbage = 0;
  disk = λ i. no_disk;
}

abbrev screen : Fb
screen = record { pos = 7; cur = 7; col = 3; mem = λ a. 0 }

abbrev keys : Kb
keys = record { buffer = []; head = 0; count = 0; partial = replicate 6 0; len = 0 }

-- Before the start.
abbrev bare : Machine ℕ
bare = record {
  fb = screen;
  entries = λ a. record { next = 0; prev = 0; size = 0; flags = 0 };
  total = 0;
  tables = record { handlers = []; idt = [] };
  kb = keys;
  ports = replicate 4 no_buffer;
  hardware = 0;
}

-- Idle, with the byte 66 pending.
abbrev idling : Machine ℕ
idling = record bare {
  tables = record {
    handlers =
        replicate 33 none ++ (some keyboard ∷ none ∷ none ∷ some serial ∷ replicate 219 none);
    idt = replicate 256 no_entry;
  };
  ports = record { write_head = 0; read_head = 63; buffer = replicate 64 66 } ∷ [];
}

given-IsSupplied : (map : List Region) → IsSupplied (given map)
given-IsSupplied map = record {
  handlers = refl;
  idt = refl;
  keys = refl;
  chars = refl;
  returned = refl;
  fuel = omega arith;
}

given-IsBootable : IsBootable (given large_map)
unfolding highest holds_bitmap
given-IsBootable = record {
  below = (omega arith, (omega arith, (omega arith, tt)));
  roomy = refl;
  large = omega arith;
  unreserved = λ f p q. ground (arith, p, q);
  static = omega arith;
}

bare-IsStatic : IsStatic bare
bare-IsStatic = record { ports = refl; partial = refl; len = refl }

kmain-IsReady_example :
    (m' : Machine ℕ) × (kmain line_bus (given large_map) bare
      ≡ start_disks line_bus (given large_map) m')
    × IsReady (given large_map) (first_free (given large_map)) m'
kmain-IsReady_example =
    kmain-IsReady line_bus (given large_map) bare (given-IsSupplied large_map) given-IsBootable
      bare-IsStatic

-- Every status has its error bit set.
line_bus-Responsive : Responsive line_bus 6
line_bus-Responsive idx s l = inr (
  0,
  omega arith,
  elim (Bool-cases (base_of idx + 0x07 == 0x03fd)) [
    | inl com1 ↦ rw com1 refl
    | inr other ↦ rw other refl
  ],
)

kmain-IsServing_example :
    (m' : Machine ℕ) × (kmain line_bus (given large_map) bare ≡ done idle m')
    × IsServing m'
    × (pending m' ≡ [])
kmain-IsServing_example =
    kmain-IsServing line_bus (given large_map) bare (given-IsSupplied large_map) given-IsBootable
      bare-IsStatic line_bus-Responsive

no_map-holds_bitmap : holds_bitmap (highest [] 0 / 4096) [] ≡ false
unfolding highest holds_bitmap
no_map-holds_bitmap = refl

kmain-IsShown_example :
    (m' : Machine ℕ) × (kmain line_bus (given []) bare ≡ done halted m')
    × IsShown (codes "Could not initialize memory :(") m'.fb
kmain-IsShown_example = kmain-IsShown line_bus (given []) bare tt no_map-holds_bitmap

idling-IsServing : IsServing idling
idling-IsServing = record {
  key_handler = refl;
  char_handler = refl;
  ports = omega arith;
  port = record { storage = refl; write_in = omega arith; read_in = omega arith };
}

rounds-echo_example :
    (m' : Machine ℕ) × (rounds line_bus (length (pending idling)) idling ≡ some m')
    × (m'.fb ≡ echo (pending idling) idling.fb)
    × (pending m' ≡ [])
    × (idle_round line_bus m' ≡ none)
rounds-echo_example = rounds-echo line_bus idling idling-IsServing

-- The machine behind an interrupt of COM1.
abbrev interrupted : Machine ℕ
interrupted =
    let (ports, s) = interrupt_handler line_bus serial_1_irq idling.ports 0 in
    record idling { ports = ports; hardware = s }

one_step : Steps line_bus idling (from_port (offered line_bus serial_1_irq 0) ++ []) interrupted
one_step = char (omega arith) (on_interrupt-serial line_bus serial_1_irq idling refl) stay

Steps-Echoed_example :
    Echoed line_bus idling (from_port (offered line_bus serial_1_irq 0) ++ []) interrupted
Steps-Echoed_example = Steps-Echoed line_bus idling-IsServing one_step
