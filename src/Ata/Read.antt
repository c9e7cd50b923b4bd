-- ===== src/Ata/Read.antt =====
-- `ata_read`: the sectors asked for end up in the buffer.
use mathlib.Core.Path.{subst}
use ata_driver.Common.{
  ℕ, zero, suc, ◌+◌, ◌-◌, ◌*◌, ◌/◌, ◌%◌, ◌^◌, ◌≤◌, ◌<◌, ◌≡◌, ◌∙◌, ap, refl, ◌&&◌, if◌then◌else◌,
  arith, u16, leb, ltb, List, get_or, get_elem?, some, length,
}
use ata_driver.Io.{Bus}
use ata_driver.Io.Run.{Run, done}
use ata_driver.Ata.{Status, ok, set_up, read_words}
use ata_driver.Ata.Channel.{reading, Channel, is_transfer, sectors_of, HasChannel}
use ata_driver.Ata.{AtaDev, bus_port, rounds, ata_read, read_sectors, poll, wait_idle}
use ata_driver.Ata.Poll.{Returns, settled, wait_idle-Returns, poll-Returns}
use ata_driver.Ata.Sector.{next_sector, next_sector-IsBefore, IsBefore, set_up-IsSetUp}
use ata_driver.Ata.ReadWords.{ReadsWords, read_words-ReadsWords}

module _ {latency : ℕ → ℕ} {bus : Bus} {ch : ℕ} (dev : HasChannel latency bus ch) (fuel : ℕ)
    (quick : (lba : ℕ) → latency lba < fuel) where
  open dev use {view}

  -- `n` sectors from `lba` on into the buffer from its sector `i` on.
  pub record ReadsSectors (c : Channel) (buf : List ℕ) (i n drive lba : ℕ)
      (r : Run bus.State (Status × List ℕ)) : Type 0 where
    pub out : List ℕ
    pub end : bus.State
    pub returns : r ≡ done (ok, out) end
    pub disk : (view end).disk ≡ c.disk
    pub busy : (view end).busy < fuel
    pub same_length : length out ≡ length buf
    pub words :
        (j : ℕ)
        → get_or out j 0 ≡ (
            if leb i (j / 256) && ltb (j / 256) (i + n)
            then u16 (c.disk drive (lba + (j / 256 - i)) (j % 256))
            else get_or buf j 0)

  read_sectors-step :
      (n i : ℕ) (buf out : List ℕ) (s s' s'' : bus.State)
      → poll bus fuel ch s ≡ done ok s'
      → read_words bus 256 ch (i * 256) buf s' ≡ done out s''
      → read_sectors bus fuel (suc n) ch i buf s ≡ read_sectors bus fuel n ch (i + 1) out s''
  unfolding read_sectors
  read_sectors-step n i buf out s s' s'' p q = ground (arith, p, q)

  -- One round of the loop in front of the others.
  ReadsSectors-suc :
      (n i drive lba : ℕ) (buf : List ℕ) (s : bus.State)
      → IsBefore (view s) reading drive lba (suc n)
      → (polled : Returns dev (poll bus fuel ch s) ok (settled (view s)))
        (sector : ReadsWords dev
          (settled (view s))
          buf
          (i * 256)
          256
          0
          (read_words bus 256 ch (i * 256) buf polled.end))
      → ReadsSectors
          (next_sector latency (view s))
          sector.out
          (i + 1)
          n
          drive
          (lba + 1)
          (read_sectors bus fuel n ch (i + 1) sector.out sector.end)
      → ReadsSectors (view s) buf i (suc n) drive lba (read_sectors bus fuel (suc n) ch i buf s)
  ReadsSectors-suc n i drive lba buf s at polled sector rest = record {
    out = rest.out;
    end = rest.end;
    returns =
        read_sectors-step n i buf sector.out s polled.end sector.end polled.returns sector.returns
        ∙ rest.returns;
    disk = rest.disk;
    busy = rest.busy;
    same_length = rest.same_length ∙ sector.same_length;
    words = λ j. ground (arith, rest.words j, sector.words j);
  }

  read_sectors-ReadsSectors :
      (n i drive lba : ℕ) (buf : List ℕ) (s : bus.State)
      → (0 < n → IsBefore (view s) reading drive lba n)
      → (view s).busy < fuel
      → (i + n) * 256 ≤ length buf
      → ReadsSectors (view s) buf i n drive lba (read_sectors bus fuel n ch i buf s)
  read_sectors-ReadsSectors zero i drive lba buf s at b fits = record {
    out = buf;
    end = s;
    returns = unfold read_sectors in refl;
    disk = refl;
    busy = b;
    same_length = refl;
    words = λ j. ground arith;
  }
  read_sectors-ReadsSectors (suc n) i drive lba buf s at b fits =
      let before = at (omega arith) in
      let polled = poll-Returns dev fuel s (ap is_transfer before.mode_at) b in
      let v = polled.view_end in
      let sector : ReadsWords dev (settled (view s)) buf (i * 256) 256 0
          (read_words bus 256 ch (i * 256) buf polled.end) =
        subst
          (λ c.
            ReadsWords dev c buf (i * 256) 256 0 (read_words bus 256 ch (i * 256) buf polled.end))
          v
          (read_words-ReadsWords dev 255 (i * 256) 0 buf polled.end (omega arith) (omega arith)
            (ap (λ c. c.busy) v) (ap (λ c. c.mode) v ∙ before.mode_at)
            (ap (λ c. c.word) v ∙ before.word_at)) in
      ReadsSectors-suc n i drive lba buf s before polled sector (
        subst
          (λ c.
            ReadsSectors c sector.out (i + 1) n drive (lba + 1)
              (read_sectors bus fuel n ch (i + 1) sector.out sector.end))
          sector.view_end
          (read_sectors-ReadsSectors n (i + 1) drive (lba + 1) sector.out sector.end
            (λ pos.
              rw sector.view_end
                (next_sector-IsBefore latency n drive lba reading (view s) pos before))
            (rw sector.view_end (quick ((view s).lba + 1))) (omega (arith, sector.same_length))))

  -- The same outcome from a channel with the same disk, and of an equal run.
  ReadsSectors-from :
      {c c' : Channel} {r r' : Run bus.State (Status × List ℕ)} (buf : List ℕ) (i n drive lba : ℕ)
      → c.disk ≡ c'.disk
      → r' ≡ r
      → ReadsSectors c buf i n drive lba r
      → ReadsSectors c' buf i n drive lba r'
  ReadsSectors-from buf i n drive lba same e run = record {
    out = run.out;
    end = run.end;
    returns = e ∙ run.returns;
    disk = run.disk ∙ same;
    busy = run.busy;
    same_length = run.same_length;
    words = λ j. rw (← same) (run.words j);
  }

  ata_read-step :
      (d : AtaDev) (start count : ℕ) (buf : List ℕ) (s s' : bus.State)
      → get_elem? bus_port d.channel ≡ some ch
      → wait_idle bus fuel ch s ≡ done tt s'
      → ata_read bus fuel d start count buf s
        ≡ read_sectors bus fuel (rounds count) ch 0 buf (set_up bus ch d.drive start count 0x20 s')
  unfolding ata_read
  ata_read-step d start count buf s s' p q = ground (arith, p, q)

  -- On a device that answers as an ATA channel does at the port of the given device, and with more
  -- fuel than it ever stays busy: `ata_read` of 1 to 256 sectors into a buffer that holds them
  -- returns 0. Word `j` of the first `count * 256` words of the buffer is then word `j % 256` of
  -- sector `start % 2^24 + j / 256` of the drive; the rest of the buffer and the disk are as they
  -- were, and the device is again busy for less than the fuel.
  pub ata_read-ReadsSectors :
      (d : AtaDev) (start count : ℕ) (buf : List ℕ) (s : bus.State)
      → get_elem? bus_port d.channel ≡ some ch
      → d.drive < 2
      → 0 < count
      → count ≤ 256
      → count * 256 ≤ length buf
      → (view s).busy < fuel
      → ReadsSectors
          (view s)
          buf
          0
          count
          d.drive
          (start % 2 ^ 24)
          (ata_read bus fuel d start count buf s)
  ata_read-ReadsSectors d start count buf s port drive pos small fits b =
      let idle_at = wait_idle-Returns dev fuel s b in
      let s' = set_up bus ch d.drive start count 0x20 idle_at.end in
      let ready = set_up-IsSetUp dev d.drive start count 0x20 reading idle_at.end drive refl in
      let lba = start % 2 ^ 24 in
      let e : rounds count ≡ count = ground arith in
      let left : sectors_of (count % 256) ≡ count = ground arith in
      let run =
        read_sectors-ReadsSectors count 0 d.drive lba buf s'
          (λ _. subst (IsBefore (view s') reading d.drive lba) left ready.before)
          (rw ready.busy (quick lba)) (omega arith) in
      let same : (view s').disk ≡ (view s).disk = ready.disk ∙ ap (λ c. c.disk) idle_at.view_end in
      ReadsSectors-from buf 0 count d.drive lba same
        (ata_read-step d start count buf s idle_at.end port idle_at.returns
          ∙ ap (λ n. read_sectors bus fuel n ch 0 buf s') e)
        run
