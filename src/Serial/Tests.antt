-- ===== src/Serial/Tests.antt =====
-- Runs of the serial driver on a port that offers a byte.
use ata_driver.Common.{
  length, ℕ, ◌≡◌, ◌≢◌, refl, arith, List, [], ◌∷◌, some, get_or, replicate, ◌==◌, if◌then◌else◌,
}
use ata_driver.Io.{Bus}
use ata_driver.Serial.{SerialBuffer, no_buffer, dev2offset, interrupt_handler, read}
use ata_driver.Serial.Receive.{IsValid, queue, read-queue}
use ata_driver.Serial.Lines.{first_line, queued, offered_at, interrupt_handler-IsLine}

-- The first serial port always has the byte 65.
abbrev line_bus : Bus
line_bus = record {
  State = ℕ;
  in8 = λ port s. (if port == 0x03fd then 0x61 else 65, s);
  in16 = λ port s. (0, s);
  out8 = λ port v s. s;
  out16 = λ port v s. s;
}

-- The byte 66 waits in the last slot.
abbrev port_buffer : SerialBuffer
port_buffer = record { write_head = 0; read_head = 63; buffer = replicate 64 66 }

abbrev ports : List SerialBuffer
ports = port_buffer ∷ no_buffer ∷ no_buffer ∷ no_buffer ∷ []

port_buffer-IsValid : IsValid port_buffer
port_buffer-IsValid = record { storage = refl; write_in = omega arith; read_in = omega arith }

com1_found : dev2offset 0x03f8 ≡ some 0
unfolding dev2offset
com1_found = refl

read-queue_example :
    (buffers' : List SerialBuffer) × (read 0x03f8 1 ports ≡ some (66 ∷ [], buffers'))
    × (queue (get_or buffers' 0 no_buffer) ≡ [])
    × IsValid (get_or buffers' 0 no_buffer)
    × (length buffers' ≡ length ports)
read-queue_example =
    read-queue 0x03f8 1 0 66 [] ports (omega arith) com1_found (omega arith) port_buffer-IsValid
      refl

interrupt_handler-IsLine_example :
    (let out = (interrupt_handler line_bus 0x24 ports 0).0 in
      (queue (get_or out 0 no_buffer)
        ≡ queued line_bus (offered_at line_bus 0x3F8 0) (queue (get_or ports 0 no_buffer)))
      × IsValid (get_or out 0 no_buffer)
      × ((other : ℕ) → 0 ≢ other → get_or out other no_buffer ≡ get_or ports other no_buffer))
interrupt_handler-IsLine_example =
    interrupt_handler-IsLine line_bus 0x24 0x3F8 0 ports 0 first_line (omega arith)
      port_buffer-IsValid
