-- ===== src/Ata/Tests.antt =====
-- A concrete ATA channel at port 0x1f0, and runs of the driver of ata.c on it.
use ata_driver.Common.{
  ℕ, ◌+◌, ◌/◌, ◌%◌, ◌^◌, ◌<◌, refl, ◌==◌, if◌then◌else◌, arith, u8, List, replicate,
}
use ata_driver.Io.{Bus}
use ata_driver.Ata.{AtaDev, ok, ata_read, ata_write, poll}
use ata_driver.Ata.Channel.{
  idle, reading, Channel, is_transfer, store_word, tick, start_command, next_word, IsStatus,
  HasChannel,
}
use ata_driver.Ata.Poll.{Returns, settled, poll-Returns}
use ata_driver.Ata.Read.{ReadsSectors, ata_read-ReadsSectors}
use ata_driver.Ata.Write.{WritesSectors, ata_write-WritesSectors}
use ata_driver.Ata.RoundTrip.{IsReadBack, ata_read-ata_write}

-- Busy for two reads of the status, before and after each sector.
abbrev latency : ℕ → ℕ
latency lba = 2

abbrev status_of : Channel → ℕ
status_of c = if c.busy == 0 then (if is_transfer c.mode then 0x58 else 0x50) else 0x80

abbrev write_port : ℕ → ℕ → Channel → Channel
write_port port v c =
    if port == 0x1f2
    then record c { count = v }
    else (if port == 0x1f3
        then record c { lba0 = v }
        else (if port == 0x1f4
            then record c { lba1 = v }
            else (if port == 0x1f5
                then record c { lba2 = v }
                else (if port == 0x1f6
                    then record c { select = v }
                    else (if port == 0x1f7 then start_command latency v c else c)))))

abbrev channel_bus : Bus
channel_bus = record {
  State = Channel;
  in8 = λ port c. if port == 0x1f7 then (status_of c, tick c) else (0, c);
  in16 = λ port c. (c.disk (c.select / 16 % 2) c.lba c.word, next_word latency c);
  out8 = write_port;
  out16 = λ port w c. next_word latency (record c { disk = store_word c w });
}

status-IsStatus : (c : Channel) → IsStatus c (u8 (status_of c))
status-IsStatus c = record {
  busy_bit = ground arith;
  no_error = λ e. ground arith;
  no_fault = λ e. ground arith;
  request = λ e. ground arith;
}

channel_device : HasChannel latency channel_bus 0x1f0
unfolding start_command next_word tick
channel_device = record {
  view = λ c. c;
  status = status-IsStatus;
  view-status = λ c. refl;
  view-features = λ v c. refl;
  view-count = λ v c. refl;
  view-lba0 = λ v c. refl;
  view-lba1 = λ v c. refl;
  view-lba2 = λ v c. refl;
  view-select = λ v c. refl;
  view-command = λ v c. refl;
  data-in = λ c b m. refl;
  view-data_in = λ c b m. refl;
  view-data_out = λ w c b m. refl;
}

abbrev start_state : Channel
start_state = record {
  select = 0;
  count = 0;
  lba0 = 0;
  lba1 = 0;
  lba2 = 0;
  mode = idle;
  left = 0;
  lba = 0;
  word = 0;
  busy = 1;
  disk = λ drive lba word. lba + word;
}

abbrev slave_device : AtaDev
slave_device = record {
  present = 1;
  channel = 0;
  drive = 1;
  kind = 0;
  signature = 0;
  capabilities = 0;
  commandsets = 0;
  size = 100;
  model = replicate 41 0;
}

quick : (lba : ℕ) → latency lba < 8
quick lba = omega arith

abbrev blank : List ℕ
blank = replicate 600 0

abbrev words : List ℕ
words = replicate 600 0xabcd

ata_read-ReadsSectors_example :
    ReadsSectors channel_device 8 quick start_state blank 0 2 1
      (5 % 2 ^ 24)
      (ata_read channel_bus 8 slave_device 5 2 blank start_state)
unfolding channel_device
ata_read-ReadsSectors_example =
    ata_read-ReadsSectors channel_device 8 quick slave_device 5 2 blank start_state refl
      (omega arith) (omega arith) (omega arith) (omega arith) (omega arith)

ata_write-WritesSectors_example :
    WritesSectors channel_device 8 quick start_state words 0 2 1
      (5 % 2 ^ 24)
      (ata_write channel_bus 8 slave_device 5 2 words start_state)
unfolding channel_device
ata_write-WritesSectors_example =
    ata_write-WritesSectors channel_device 8 quick slave_device 5 2 words start_state refl
      (omega arith) (omega arith) (omega arith) (omega arith) (omega arith)

ata_read-ata_write_example : IsReadBack channel_bus 8 slave_device 5 2 words blank start_state
unfolding channel_device
ata_read-ata_write_example =
    ata_read-ata_write channel_device 8 quick slave_device 5 2 words blank start_state refl
      (omega arith) (omega arith) (omega arith) (omega arith) (omega arith) (omega arith)

-- A device that is ready with data from the first read of its status on.
abbrev ready_bus : Bus
ready_bus = record {
  State = ℕ;
  in8 = λ port s. (0x58, s + 1);
  in16 = λ port s. (s, s + 1);
  out8 = λ port v s. s;
  out16 = λ port v s. s;
}

abbrev sector_wanted : Channel
sector_wanted = record start_state { mode = reading; left = 1; busy = 3 }

poll-Returns_example :
    Returns channel_device (poll channel_bus 8 0x1f0 sector_wanted) ok (settled sector_wanted)
unfolding channel_device
poll-Returns_example = poll-Returns channel_device 8 sector_wanted refl (omega arith)
