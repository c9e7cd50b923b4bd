-- ===== src/Ata/Channel.antt =====
-- What the driver of ata.c relies on: the documented register protocol of an ATA channel in PIO
-- mode. A bus that has such a channel at a base port shows it by a view of its state.
use ata_driver.Common.{
  ℕ, ◌+◌, ◌-◌, ◌*◌, ◌/◌, ◌%◌, ◌≡◌, Bool, true, false, ◌==◌, ◌&&◌, if◌then◌else◌, u8, u16,
}
use ata_driver.Io.{Bus}
use ata_driver.Ata.{has_bit, sr_bsy, sr_df, sr_drq, sr_err}

pub data Mode : Type 0 where
  idle : Mode
  reading : Mode
  writing : Mode

abbrev pub is_transfer : Mode → Bool
is_transfer idle = false
is_transfer reading = true
is_transfer writing = true

-- The registers; the transfer under way with its sectors left, its sector and the index of its
-- next word; for how many reads of the status the device stays busy; and the words of the disks,
-- by drive and sector.
pub record Channel : Type 0 where
  pub select : ℕ
  pub count : ℕ
  pub lba0 : ℕ
  pub lba1 : ℕ
  pub lba2 : ℕ
  pub mode : Mode
  pub left : ℕ
  pub lba : ℕ
  pub word : ℕ
  pub busy : ℕ
  pub disk : ℕ → ℕ → ℕ → ℕ

-- Bit 4 of the device register selects the drive; its low four bits are bits 24 to 27 of the LBA.
abbrev pub drive_of : ℕ → ℕ
drive_of select = select / 16 % 2

abbrev pub lba_of : Channel → ℕ
lba_of c = c.lba0 + c.lba1 * 256 + c.lba2 * 65536 + c.select % 16 * 16777216

-- A count register of 0 means 256 sectors.
abbrev pub sectors_of : ℕ → ℕ
sectors_of count = if count == 0 then 256 else count

abbrev pub store_word : Channel → ℕ → ℕ → ℕ → ℕ → ℕ
store_word c w drive lba word =
    if drive == drive_of c.select && (lba == c.lba && word == c.word)
    then w
    else c.disk drive lba word

-- A status while busy, in a transfer, and at rest.
pub record IsStatus (c : Channel) (v : ℕ) : Type 0 where
  pub busy_bit : has_bit v sr_bsy ≡ (if c.busy == 0 then false else true)
  pub no_error : c.busy ≡ 0 → has_bit v sr_err ≡ false
  pub no_fault : c.busy ≡ 0 → has_bit v sr_df ≡ false
  pub request : c.busy ≡ 0 → has_bit v sr_drq ≡ is_transfer c.mode

unfoldable pub tick : Channel → Channel
tick c = record c { busy = c.busy - 1 }

-- `latency` says how long the device is busy before and after each sector.
module _ (latency : ℕ → ℕ) where
  unfoldable pub start_command : ℕ → Channel → Channel
  start_command v c = record c {
    mode = if v == 0x20 then reading else (if v == 0x30 then writing else idle);
    left = sectors_of c.count;
    lba = lba_of c;
    word = 0;
    busy = latency (lba_of c);
  }

  -- Behind the last word of a sector comes the next sector, or the end of the transfer.
  unfoldable pub next_word : Channel → Channel
  next_word c =
      if c.word == 255
      then record c {
        mode = if c.left == 1 then idle else c.mode;
        left = c.left - 1;
        lba = c.lba + 1;
        word = 0;
        busy = latency (c.lba + 1);
      }
      else record c { word = c.word + 1 }

  -- The device at the base port `ch` of a bus.
  pub record HasChannel (bus : Bus) (ch : ℕ) : Type 1 where
    pub view : bus.State → Channel
    pub status : (s : bus.State) → IsStatus (view s) (u8 (bus.in8 (ch + 0x07) s).0)
    pub view-status : (s : bus.State) → view (bus.in8 (ch + 0x07) s).1 ≡ tick (view s)
    pub view-features : (v : ℕ) (s : bus.State) → view (bus.out8 (ch + 0x01) v s) ≡ view s
    pub view-count :
        (v : ℕ) (s : bus.State)
        → view (bus.out8 (ch + 0x02) v s) ≡ (let c = view s in record c { count = v })
    pub view-lba0 :
        (v : ℕ) (s : bus.State)
        → view (bus.out8 (ch + 0x03) v s) ≡ (let c = view s in record c { lba0 = v })
    pub view-lba1 :
        (v : ℕ) (s : bus.State)
        → view (bus.out8 (ch + 0x04) v s) ≡ (let c = view s in record c { lba1 = v })
    pub view-lba2 :
        (v : ℕ) (s : bus.State)
        → view (bus.out8 (ch + 0x05) v s) ≡ (let c = view s in record c { lba2 = v })
    pub view-select :
        (v : ℕ) (s : bus.State)
        → view (bus.out8 (ch + 0x06) v s) ≡ (let c = view s in record c { select = v })
    pub view-command :
        (v : ℕ) (s : bus.State) → view (bus.out8 (ch + 0x07) v s) ≡ start_command v (view s)
    pub data-in :
        (s : bus.State)
        → (view s).busy ≡ 0
        → (view s).mode ≡ reading
        → u16 (bus.in16 ch s).0
          ≡ u16 ((view s).disk (drive_of (view s).select) (view s).lba (view s).word)
    pub view-data_in :
        (s : bus.State)
        → (view s).busy ≡ 0
        → (view s).mode ≡ reading
        → view (bus.in16 ch s).1 ≡ next_word (view s)
    pub view-data_out :
        (w : ℕ) (s : bus.State)
        → (view s).busy ≡ 0
        → (view s).mode ≡ writing
        → view (bus.out16 ch w s) ≡ next_word (let c = view s in record c { disk = store_word c w })
