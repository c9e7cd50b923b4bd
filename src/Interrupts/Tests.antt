-- ===== src/Interrupts/Tests.antt =====
-- Runs of the dispatch of interrupts.
use ata_driver.Common.{ℕ, ◌+◌, none, replicate}
use ata_driver.Io.{Bus}
use ata_driver.Interrupts.{no_entry, Tables}

abbrev counting_bus : Bus
counting_bus = record {
  State = ℕ;
  in8 = λ port s. (0, s);
  in16 = λ port s. (0, s);
  out8 = λ port v s. s + 1;
  out16 = λ port v s. s;
}

abbrev empty_tables : Tables ℕ
empty_tables = record { handlers = replicate 256 none; idt = replicate 256 no_entry }
