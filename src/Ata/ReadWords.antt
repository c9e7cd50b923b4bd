-- ===== src/Ata/ReadWords.antt =====
-- One sector from the data port into the caller's buffer.
use mathlib.Core.Path.{subst}
use ata_driver.Common.{
  ℕ, zero, suc, ◌+◌, ◌-◌, ◌≤◌, ◌<◌, ◌≡◌, ◌≢◌, ◌∙◌, ap, refl, ◌&&◌, if◌then◌else◌, arith, u16, leb,
  ltb, List, get_or, set, length, length-set, get_or-set_self, get_or-set_ne,
}
use ata_driver.Io.{Bus}
use ata_driver.Io.Run.{Run, done}
use ata_driver.Ata.{read_words}
use ata_driver.Ata.Channel.{reading, Channel, drive_of, HasChannel}
use ata_driver.Ata.Sector.{next_sector, next_word-last, next_word-more}

module _ {latency : ℕ → ℕ} {bus : Bus} {ch : ℕ} (dev : HasChannel latency bus ch) where
  open dev use {view}

  -- `n` words from word `w` of the sector, into the buffer from index `k` on, to the sector's end.
  pub record ReadsWords (c : Channel) (buf : List ℕ) (k n w : ℕ) (r : Run bus.State (List ℕ))
      : Type 0 where
    pub out : List ℕ
    pub end : bus.State
    pub returns : r ≡ done out end
    pub view_end : view end ≡ next_sector latency c
    pub same_length : length out ≡ length buf
    pub words :
        (j : ℕ)
        → get_or out j 0 ≡ (
            if leb k j && ltb j (k + n)
            then u16 (c.disk (drive_of c.select) c.lba (w + (j - k)))
            else get_or buf j 0)

  read_words-step :
      (n k : ℕ) (buf : List ℕ) (s : bus.State)
      → (view s).busy ≡ 0
      → (view s).mode ≡ reading
      → k < length buf
      → read_words bus (suc n) ch k buf s
        ≡ read_words bus n ch
            (k + 1)
            (set buf k (let c = view s in u16 (c.disk (drive_of c.select) c.lba c.word)))
            (bus.in16 ch s).1
  unfolding read_words
  read_words-step n k buf s b m h = rw (dev.data-in s b m) (ground arith)

  module _ (buf : List ℕ) (s : bus.State) (b : (view s).busy ≡ 0)
      (m : (view s).mode ≡ reading) where
    abbrev here : ℕ
    here = let c = view s in u16 (c.disk (drive_of c.select) c.lba c.word)

    moved :
        (view s).word ≢ 255
        → view (bus.in16 ch s).1 ≡ (let c = view s in record c { word = c.word + 1 })
    moved h = dev.view-data_in s b m ∙ next_word-more dev (view s) h

    ReadsWords-last :
        (k w : ℕ)
        → w ≡ 255
        → k < length buf
        → (view s).word ≡ w
        → ReadsWords (view s) buf k 1 w (read_words bus 1 ch k buf s)
    ReadsWords-last k w e fits at = record {
      out = set buf k here;
      end = (bus.in16 ch s).1;
      returns = read_words-step 0 k buf s b m fits ∙ unfold read_words in refl;
      view_end = dev.view-data_in s b m ∙ next_word-last dev (view s) (omega arith);
      same_length = length-set buf k here;
      words = λ j. ground (arith, get_or-set_self buf k here 0, get_or-set_ne buf k j here 0);
    }

    ReadsWords-more :
        (n k w : ℕ)
        → w ≢ 255
        → k < length buf
        → (view s).word ≡ w
        → ReadsWords
            (let c = view s in record c { word = c.word + 1 })
            (set buf k here)
            (k + 1)
            n
            (w + 1)
            (read_words bus n ch (k + 1) (set buf k here) (bus.in16 ch s).1)
        → ReadsWords (view s) buf k (suc n) w (read_words bus (suc n) ch k buf s)
    ReadsWords-more n k w ne fits at rest = record {
      out = rest.out;
      end = rest.end;
      returns = read_words-step n k buf s b m fits ∙ rest.returns;
      view_end = rest.view_end;
      same_length = rest.same_length ∙ length-set buf k here;
      words = λ j.
          ground (arith, rest.words j, get_or-set_self buf k here 0, get_or-set_ne buf k j here 0);
    }

  pub read_words-ReadsWords :
      (n k w : ℕ) (buf : List ℕ) (s : bus.State)
      → w + suc n ≡ 256
      → k + suc n ≤ length buf
      → (view s).busy ≡ 0
      → (view s).mode ≡ reading
      → (view s).word ≡ w
      → ReadsWords (view s) buf k (suc n) w (read_words bus (suc n) ch k buf s)
  read_words-ReadsWords zero k w buf s e fits b m at =
      ReadsWords-last buf s b m k w (omega arith) (omega arith) at
  read_words-ReadsWords (suc n) k w buf s e fits b m at =
      let on = moved buf s b m (λ last. omega arith) in
      ReadsWords-more buf s b m (suc n) k w (λ last. omega arith) (omega arith) at
        (subst
          (λ c.
            ReadsWords c (set buf k (here buf s b m)) (k + 1) (suc n) (w + 1)
              (read_words bus (suc n) ch (k + 1) (set buf k (here buf s b m)) (bus.in16 ch s).1))
          on
          (read_words-ReadsWords n (k + 1) (w + 1) (set buf k (here buf s b m)) (bus.in16 ch s).1
            (omega arith) (omega (arith, length-set buf k (here buf s b m)))
            (ap (λ x. x.busy) on ∙ b) (ap (λ x. x.mode) on ∙ m)
            (ap (λ x. x.word) on ∙ omega arith)))
