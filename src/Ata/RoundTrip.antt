-- ===== src/Ata/RoundTrip.antt =====
-- Reading back what was written.
use ata_driver.Common.{
  ℕ, ◌+◌, ◌-◌, ◌*◌, ◌/◌, ◌%◌, ◌^◌, ◌≤◌, ◌<◌, ◌≡◌, arith, u16, List, get_or, get_elem?, some, length,
}
use ata_driver.Io.{Bus}
use ata_driver.Io.Run.{done}
use ata_driver.Ata.{AtaDev, ok, bus_port, ata_read, ata_write}
use ata_driver.Ata.Channel.{HasChannel}
use ata_driver.Ata.Read.{ata_read-ReadsSectors}
use ata_driver.Ata.Write.{ata_write-WritesSectors}

-- `ata_write` of `buf` and then `ata_read` into `into`, from the state `s`.
pub record IsReadBack (bus : Bus) (fuel : ℕ) (d : AtaDev) (start count : ℕ) (buf into : List ℕ)
    (s : bus.State) : Type 0 where
  pub written : bus.State
  pub end : bus.State
  pub out : List ℕ
  pub writes : ata_write bus fuel d start count buf s ≡ done ok written
  pub reads : ata_read bus fuel d start count into written ≡ done (ok, out) end
  pub same_words : (j : ℕ) → j < count * 256 → get_or out j 0 ≡ u16 (get_or buf j 0)

module _ {latency : ℕ → ℕ} {bus : Bus} {ch : ℕ} (dev : HasChannel latency bus ch) (fuel : ℕ)
    (quick : (lba : ℕ) → latency lba < fuel) where
  open dev use {view}

  -- On a device that answers as an ATA channel does at the port of the given device, with enough
  -- fuel, and for 1 to 256 sectors: a write followed by a read of the same sectors both return 0,
  -- and the words read are the words written.
  pub ata_read-ata_write :
      (d : AtaDev) (start count : ℕ) (buf into : List ℕ) (s : bus.State)
      → get_elem? bus_port d.channel ≡ some ch
      → d.drive < 2
      → 0 < count
      → count ≤ 256
      → count * 256 ≤ length buf
      → count * 256 ≤ length into
      → (view s).busy < fuel
      → IsReadBack bus fuel d start count buf into s
  ata_read-ata_write d start count buf into s port drive pos small fits fits' b =
      let w =
        ata_write-WritesSectors dev fuel quick d start count buf s port drive pos small fits b in
      let r =
        ata_read-ReadsSectors dev fuel quick d start count into w.end port drive pos small fits'
          w.busy in
      record {
        written = w.end;
        end = r.end;
        out = r.out;
        writes = w.returns;
        reads = r.returns;
        same_words = λ j h.
            ground (arith, r.words j, w.disk d.drive (start % 2 ^ 24 + (j / 256 - 0)) (j % 256));
      }
