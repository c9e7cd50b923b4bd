-- ===== src/Pic/Tests.antt =====
-- A bus with two 8259A controllers, and runs of the driver of pic.c on it.
use ata_driver.Common.{refl, false, ◌==◌, if◌then◌else◌}
use ata_driver.Io.{Bus}
use ata_driver.Pic.{init}
use ata_driver.Pic.Chip.{Chip, command, put_data, HasPics}
use ata_driver.Pic.Mask.{IsReady}
use ata_driver.Pic.Init.{IsInitialised, init-IsInitialised}

abbrev chip_bus : Bus
chip_bus = record {
  State = Chip × Chip;
  in8 = λ port s. ((if port == 0x21 then s.0.imr else (if port == 0xa1 then s.1.imr else 0)), s);
  in16 = λ port s. (0, s);
  out8 = λ port v s.
      if port == 0x20
      then (command v s.0, s.1)
      else (if port == 0x21
          then (put_data v s.0, s.1)
          else (if port == 0xa0
              then (s.0, command v s.1)
              else (if port == 0xa1 then (s.0, put_data v s.1) else s)));
  out16 = λ port v s. s;
}

chips : HasPics chip_bus
chips = record {
  master = λ s. s.0;
  slave = λ s. s.1;
  master-in = λ p s. refl;
  slave-in = λ p s. refl;
  in-master = λ s. refl;
  in-slave = λ s. refl;
  master-command = λ v s. refl;
  master-data = λ v s. refl;
  slave-command = λ v s. refl;
  slave-data = λ v s. refl;
  master-slave_command = λ v s. refl;
  master-slave_data = λ v s. refl;
  slave-master_command = λ v s. refl;
  slave-master_data = λ v s. refl;
}

abbrev started : Chip
started = record { imr = 0xff; base = 0; awaited = 0; fresh = false }

abbrev both : Chip × Chip
both = (started, started)

both-IsReady : IsReady chips both
unfolding chips
both-IsReady = record { master_ready = refl; slave_ready = refl }

init-IsInitialised_example : IsInitialised chips both (init chip_bus both)
init-IsInitialised_example = init-IsInitialised chips both
