-- ===== src/Ata/Write.antt =====
-- `ata_write`: the buffer ends up in the sectors asked for, and no other sector changes.
use mathlib.Core.Path.{subst}
use ata_driver.Common.{
  ℕ, zero, suc, ◌+◌, ◌-◌, ◌*◌, ◌%◌, ◌^◌, ◌≤◌, ◌<◌, ◌≡◌, ◌∙◌, ap, refl, ◌==◌, ◌&&◌, if◌then◌else◌,
  arith, u16, leb, ltb, List, get_or, get_elem?, some, length,
}
use ata_driver.Io.{Bus}
use ata_driver.Io.Run.{Run, done}
use ata_driver.Ata.{Status, ok, set_up, write_words}
use ata_driver.Ata.Channel.{writing, Channel, is_transfer, sectors_of, HasChannel}
use ata_driver.Ata.{AtaDev, bus_port, rounds, ata_write, write_sectors, poll, wait_idle}
use ata_driver.Ata.Poll.{Returns, settled, wait_idle-Returns, poll-Returns}
use ata_driver.Ata.Sector.{next_sector, with_disk, next_sector-IsBefore, IsBefore, set_up-IsSetUp}
use ata_driver.Ata.WriteWords.{WritesWords, write_words-WritesWords}

module _ {latency : ℕ → ℕ} {bus : Bus} {ch : ℕ} (dev : HasChannel latency bus ch) (fuel : ℕ)
    (quick : (lba : ℕ) → latency lba < fuel) where
  open dev use {view}

  -- `n` sectors of the buffer, from its sector `i` on, to the disk from sector `lba` on.
  pub record WritesSectors (c : Channel) (buf : List ℕ) (i n drive lba : ℕ)
      (r : Run bus.State Status) : Type 0 where
    pub end : bus.State
    pub returns : r ≡ done ok end
    pub busy : (view end).busy < fuel
    pub disk :
        (d l x : ℕ)
        → (view end).disk d l x ≡ (
            if d == drive && ((leb lba l && ltb l (lba + n)) && ltb x 256)
            then u16 (get_or buf ((i + (l - lba)) * 256 + x) 0)
            else c.disk d l x)

  write_sectors-step :
      (n i : ℕ) (buf : List ℕ) (s s' s'' : bus.State)
      → poll bus fuel ch s ≡ done ok s'
      → write_words bus 256 ch (i * 256) buf s' ≡ done tt s''
      → write_sectors bus fuel (suc n) ch i buf s ≡ write_sectors bus fuel n ch (i + 1) buf s''
  unfolding write_sectors
  write_sectors-step n i buf s s' s'' p q = ground (arith, p, q)

  WritesSectors-suc :
      (n i drive lba : ℕ) (buf : List ℕ) (s : bus.State)
      → IsBefore (view s) writing drive lba (suc n)
      → (polled : Returns dev (poll bus fuel ch s) ok (settled (view s)))
        (sector : WritesWords dev
          (settled (view s))
          buf
          (i * 256)
          256
          0
          (write_words bus 256 ch (i * 256) buf polled.end))
      → WritesSectors
          (next_sector latency (with_disk (settled (view s)) sector.stored))
          buf
          (i + 1)
          n
          drive
          (lba + 1)
          (write_sectors bus fuel n ch (i + 1) buf sector.end)
      → WritesSectors (view s) buf i (suc n) drive lba (write_sectors bus fuel (suc n) ch i buf s)
  WritesSectors-suc n i drive lba buf s at polled sector rest = record {
    end = rest.end;
    returns =
        write_sectors-step n i buf s polled.end sector.end polled.returns sector.returns
        ∙ rest.returns;
    busy = rest.busy;
    disk = λ d l x. ground (arith, rest.disk d l x, sector.words d l x);
  }

  write_sectors-WritesSectors :
      (n i drive lba : ℕ) (buf : List ℕ) (s : bus.State)
      → (0 < n → IsBefore (view s) writing drive lba n)
      → (view s).busy < fuel
      → (i + n) * 256 ≤ length buf
      → WritesSectors (view s) buf i n drive lba (write_sectors bus fuel n ch i buf s)
  write_sectors-WritesSectors zero i drive lba buf s at b fits = record {
    end = s;
    returns = unfold write_sectors in refl;
    busy = b;
    disk = λ d l x. ground arith;
  }
  write_sectors-WritesSectors (suc n) i drive lba buf s at b fits =
      let before = at (omega arith) in
      let polled = poll-Returns dev fuel s (ap is_transfer before.mode_at) b in
      let v = polled.view_end in
      let sector : WritesWords dev (settled (view s)) buf (i * 256) 256 0
          (write_words bus 256 ch (i * 256) buf polled.end) =
        subst
          (λ c.
            WritesWords dev c buf (i * 256) 256 0 (write_words bus 256 ch (i * 256) buf polled.end))
          v
          (write_words-WritesWords dev 255 (i * 256) 0 buf polled.end (omega arith) (omega arith)
            (ap (λ c. c.busy) v) (ap (λ c. c.mode) v ∙ before.mode_at)
            (ap (λ c. c.word) v ∙ before.word_at)) in
      WritesSectors-suc n i drive lba buf s before polled sector (
        subst
          (λ c.
            WritesSectors c buf (i + 1) n drive (lba + 1)
              (write_sectors bus fuel n ch (i + 1) buf sector.end))
          sector.view_end
          (write_sectors-WritesSectors n (i + 1) drive (lba + 1) buf sector.end
            (λ pos. rw sector.view_end (
              next_sector-IsBefore latency n drive lba writing
                (with_disk (settled (view s)) sector.stored) pos (ready before sector.stored)))
            (rw sector.view_end (quick ((view s).lba + 1))) (omega arith)))
    where
      ready :
          IsBefore (view s) writing drive lba (suc n)
          → (d : ℕ → ℕ → ℕ → ℕ)
          → IsBefore (with_disk (settled (view s)) d) writing drive lba (suc n)
      ready at d = record {
        mode_at = at.mode_at;
        drive_at = at.drive_at;
        lba_at = at.lba_at;
        left_at = at.left_at;
        word_at = at.word_at;
      }

  WritesSectors-from :
      {c c' : Channel} {r r' : Run bus.State Status} (buf : List ℕ) (i n drive lba : ℕ)
      → c.disk ≡ c'.disk
      → r' ≡ r
      → WritesSectors c buf i n drive lba r
      → WritesSectors c' buf i n drive lba r'
  WritesSectors-from buf i n drive lba same e run = record {
    end = run.end;
    returns = e ∙ run.returns;
    busy = run.busy;
    disk = λ d l x. rw (← same) (run.disk d l x);
  }

  ata_write-step :
      (d : AtaDev) (start count : ℕ) (buf : List ℕ) (s s' : bus.State)
      → get_elem? bus_port d.channel ≡ some ch
      → wait_idle bus fuel ch s ≡ done tt s'
      → ata_write bus fuel d start count buf s
        ≡ write_sectors bus fuel (rounds count) ch 0 buf (set_up bus ch d.drive start count 0x30 s')
  unfolding ata_write
  ata_write-step d start count buf s s' p q = ground (arith, p, q)

  -- On a device that answers as an ATA channel does at the port of the given device, and with more
  -- fuel than it ever stays busy: `ata_write` of 1 to 256 sectors from a buffer that holds them
  -- returns 0. Word `x` of sector `l` of the drive, for `count` sectors from `start % 2^24` on, is
  -- then word `(l - start % 2^24) * 256 + x` of the buffer, and every other word of both drives is
  -- as it was. The device is again busy for less than the fuel.
  pub ata_write-WritesSectors :
      (d : AtaDev) (start count : ℕ) (buf : List ℕ) (s : bus.State)
      → get_elem? bus_port d.channel ≡ some ch
      → d.drive < 2
      → 0 < count
      → count ≤ 256
      → count * 256 ≤ length buf
      → (view s).busy < fuel
      → WritesSectors
          (view s)
          buf
          0
          count
          d.drive
          (start % 2 ^ 24)
          (ata_write bus fuel d start count buf s)
  ata_write-WritesSectors d start count buf s port drive pos small fits b =
      let idle_at = wait_idle-Returns dev fuel s b in
      let s' = set_up bus ch d.drive start count 0x30 idle_at.end in
      let ready = set_up-IsSetUp dev d.drive start count 0x30 writing idle_at.end drive refl in
      let lba = start % 2 ^ 24 in
      let e : rounds count ≡ count = ground arith in
      let left : sectors_of (count % 256) ≡ count = ground arith in
      let run =
        write_sectors-WritesSectors count 0 d.drive lba buf s'
          (λ _. subst (IsBefore (view s') writing d.drive lba) left ready.before)
          (rw ready.busy (quick lba)) (omega arith) in
      let same : (view s').disk ≡ (view s).disk = ready.disk ∙ ap (λ c. c.disk) idle_at.view_end in
      WritesSectors-from buf 0 count d.drive lba same
        (ata_write-step d start count buf s idle_at.end port idle_at.returns
          ∙ ap (λ n. write_sectors bus fuel n ch 0 buf s') e)
        run
