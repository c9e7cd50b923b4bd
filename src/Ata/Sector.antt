-- ===== src/Ata/Sector.antt =====
-- The set-up of a transfer, and the transfer of one sector.
use ata_driver.Common.{
  ℕ, zero, suc, ◌+◌, ◌-◌, ◌*◌, ◌/◌, ◌%◌, ◌^◌, ◌<◌, ◌≡◌, ◌≢◌, ap, refl, ◌==◌, if◌then◌else◌, arith,
  u8, ◌<<<◌, bit_or,
}
use ata_driver.Common.Bits.{byte_0, byte_1, byte_2}
use ata_driver.Io.{Bus}
use ata_driver.Ata.{set_up}
use ata_driver.Ata.Channel.{
  Mode, idle, reading, writing, Channel, sectors_of, drive_of, lba_of, start_command, next_word,
  HasChannel,
}

-- The device register that the driver writes selects the drive and clears the top bits of the LBA.
select_byte : (drive : ℕ) → drive < 2 → u8 (bit_or 0xE0 (drive <<< 4)) ≡ 224 + drive * 16
select_byte zero h = refl
select_byte (suc zero) h = refl
select_byte (suc (suc drive)) h = absurd (omega arith)

mod_twice : (a : ℕ) → a % 256 % 256 ≡ a % 256
mod_twice a = omega arith

-- What follows the last word of a sector.
abbrev pub next_sector : (ℕ → ℕ) → Channel → Channel
next_sector latency c = record c {
  mode = if c.left == 1 then idle else c.mode;
  left = c.left - 1;
  lba = c.lba + 1;
  word = 0;
  busy = latency (c.lba + 1);
}

abbrev pub with_disk : Channel → (ℕ → ℕ → ℕ → ℕ) → Channel
with_disk c d = record c { disk = d }

-- A transfer of `left` sectors from `lba` on stands before its first word.
pub record IsBefore (c : Channel) (mode : Mode) (drive lba left : ℕ) : Type 0 where
  pub mode_at : c.mode ≡ mode
  pub drive_at : drive_of c.select ≡ drive
  pub lba_at : c.lba ≡ lba
  pub left_at : c.left ≡ left
  pub word_at : c.word ≡ 0

pub next_sector-IsBefore :
    (latency : ℕ → ℕ) (n drive lba : ℕ) (mode : Mode) (c : Channel)
    → 0 < n
    → IsBefore c mode drive lba (suc n)
    → IsBefore (next_sector latency c) mode drive (lba + 1) n
next_sector-IsBefore latency n drive lba mode c pos at = record {
  mode_at = ground (arith, at.mode_at, at.left_at);
  drive_at = at.drive_at;
  lba_at = omega (arith, at.lba_at);
  left_at = omega (arith, at.left_at);
  word_at = refl;
}

module _ {latency : ℕ → ℕ} {bus : Bus} {ch : ℕ} (dev : HasChannel latency bus ch) where
  open dev use {view}

  abbrev registers : Channel → ℕ → ℕ → ℕ → Channel
  registers c drive start count = record c {
    select = 224 + drive * 16;
    count = count % 256;
    lba0 = start % 256;
    lba1 = start / 256 % 256;
    lba2 = start / 65536 % 256;
  }

  view-set_up :
      (drive start count command : ℕ) (s : bus.State)
      → drive < 2
      → view (set_up bus ch drive start count command s)
        ≡ start_command latency (u8 command) (registers (view s) drive start count)
  unfolding set_up
  view-set_up drive start count command s h = simp (
    dev.view-command,
    dev.view-lba2,
    dev.view-lba1,
    dev.view-lba0,
    dev.view-count,
    dev.view-features,
    dev.view-select,
    select_byte drive h,
    byte_0,
    byte_1,
    byte_2,
    mod_twice,
  )

  -- After the set-up the device stands before the first word of the transfer. The sector number
  -- that it got has 24 bits.
  pub record IsSetUp (c c' : Channel) (mode : Mode) (drive start count : ℕ) : Type 0 where
    pub before : IsBefore c' mode drive (start % 2 ^ 24) (sectors_of (count % 256))
    pub busy : c'.busy ≡ latency (start % 2 ^ 24)
    pub disk : c'.disk ≡ c.disk

  lba_of-registers :
      (c : Channel) (drive start count : ℕ)
      → lba_of (registers c drive start count) ≡ start % 2 ^ 24
  lba_of-registers c drive start count = omega arith

  pub set_up-IsSetUp :
      (drive start count command : ℕ) (mode : Mode) (s : bus.State)
      → drive < 2
      → (if u8 command == 0x20 then reading else (if u8 command == 0x30 then writing else idle))
        ≡ mode
      → IsSetUp (view s) (view (set_up bus ch drive start count command s)) mode drive start count
  unfolding start_command
  set_up-IsSetUp drive start count command mode s h m =
      rw (view-set_up drive start count command s h) (record {
        before = record {
          mode_at = m;
          drive_at = omega arith;
          lba_at = lba_of-registers (view s) drive start count;
          left_at = refl;
          word_at = refl;
        };
        busy = ap latency (lba_of-registers (view s) drive start count);
        disk = refl;
      })

  pub next_word-last : (c : Channel) → c.word ≡ 255 → next_word latency c ≡ next_sector latency c
  unfolding next_word
  next_word-last c e = ground arith

  pub next_word-more :
      (c : Channel) → c.word ≢ 255 → next_word latency c ≡ record c { word = c.word + 1 }
  unfolding next_word
  next_word-more c e = ground arith
