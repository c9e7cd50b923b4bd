-- ===== src/Ata/WriteWords.antt =====
-- One sector from the caller's buffer to the data port.
use mathlib.Core.Path.{subst}
use ata_driver.Common.{
  ℕ, zero, suc, ◌+◌, ◌-◌, ◌≤◌, ◌<◌, ◌≡◌, ◌≢◌, ◌∙◌, ap, refl, ◌==◌, ◌&&◌, if◌then◌else◌, arith, u16,
  leb, ltb, List, get_or, get_elem?-eq-get_or, length,
}
use ata_driver.Io.{Bus}
use ata_driver.Io.Run.{Run, done}
use ata_driver.Ata.{write_words}
use ata_driver.Ata.Channel.{writing, Channel, drive_of, store_word, HasChannel}
use ata_driver.Ata.Sector.{next_sector, with_disk, next_word-last, next_word-more}

module _ {latency : ℕ → ℕ} {bus : Bus} {ch : ℕ} (dev : HasChannel latency bus ch) where
  open dev use {view}

  -- `n` words of the buffer from index `k` on, to the sector from its word `w` on, to its end.
  pub record WritesWords (c : Channel) (buf : List ℕ) (k n w : ℕ) (r : Run bus.State (Unit {0}))
      : Type 0 where
    pub end : bus.State
    pub returns : r ≡ done tt end
    pub stored : ℕ → ℕ → ℕ → ℕ
    pub view_end : view end ≡ next_sector latency (with_disk c stored)
    pub words :
        (d l x : ℕ)
        → stored d l x ≡ (
            if d == drive_of c.select && (l == c.lba && (leb w x && ltb x (w + n)))
            then u16 (get_or buf (k + (x - w)) 0)
            else c.disk d l x)

  write_words-step :
      (n k : ℕ) (buf : List ℕ) (s : bus.State)
      → k < length buf
      → write_words bus (suc n) ch k buf s
        ≡ write_words bus n ch (k + 1) buf (bus.out16 ch (u16 (get_or buf k 0)) s)
  unfolding write_words
  write_words-step n k buf s h = ground (arith, get_elem?-eq-get_or buf k 0 h)

  module _ (buf : List ℕ) (s : bus.State) (b : (view s).busy ≡ 0) (m : (view s).mode ≡ writing)
      (k : ℕ) (fits : k < length buf) where
    abbrev value : ℕ
    value = u16 (get_or buf k 0)

    abbrev after : bus.State
    after = bus.out16 ch value s

    WritesWords-last :
        (w : ℕ)
        → w ≡ 255
        → (view s).word ≡ w
        → WritesWords (view s) buf k 1 w (write_words bus 1 ch k buf s)
    WritesWords-last w e at = record {
      end = after;
      returns = write_words-step 0 k buf s fits ∙ unfold write_words in refl;
      stored = store_word (view s) value;
      view_end =
          dev.view-data_out value s b m
          ∙ next_word-last dev (with_disk (view s) (store_word (view s) value)) (omega arith);
      words = λ d l x. ground arith;
    }

    moved :
        (view s).word ≢ 255
        → view after ≡ (
            let c = with_disk (view s) (store_word (view s) value) in
            record c { word = c.word + 1 })
    moved h =
        dev.view-data_out value s b m
        ∙ next_word-more dev (with_disk (view s) (store_word (view s) value)) h

    WritesWords-more :
        (n w : ℕ)
        → w ≢ 255
        → (view s).word ≡ w
        → WritesWords
            (let c = with_disk (view s) (store_word (view s) value) in
              record c { word = c.word + 1 })
            buf
            (k + 1)
            n
            (w + 1)
            (write_words bus n ch (k + 1) buf after)
        → WritesWords (view s) buf k (suc n) w (write_words bus (suc n) ch k buf s)
    WritesWords-more n w ne at rest = record {
      end = rest.end;
      returns = write_words-step n k buf s fits ∙ rest.returns;
      stored = rest.stored;
      view_end = rest.view_end;
      words = λ d l x. ground (arith, rest.words d l x);
    }

  pub write_words-WritesWords :
      (n k w : ℕ) (buf : List ℕ) (s : bus.State)
      → w + suc n ≡ 256
      → k + suc n ≤ length buf
      → (view s).busy ≡ 0
      → (view s).mode ≡ writing
      → (view s).word ≡ w
      → WritesWords (view s) buf k (suc n) w (write_words bus (suc n) ch k buf s)
  write_words-WritesWords zero k w buf s e fits b m at =
      WritesWords-last buf s b m k (omega arith) w (omega arith) at
  write_words-WritesWords (suc n) k w buf s e fits b m at =
      let in_range : k < length buf = omega arith in
      let on = moved buf s b m k in_range (λ last. omega arith) in
      let s' = after buf s b m k in_range in
      WritesWords-more buf s b m k in_range (suc n) w (λ last. omega arith) at
        (subst
          (λ c.
            WritesWords c buf (k + 1) (suc n) (w + 1) (write_words bus (suc n) ch (k + 1) buf s'))
          on
          (write_words-WritesWords n (k + 1) (w + 1) buf s' (omega arith) (omega arith)
            (ap (λ x. x.busy) on ∙ b) (ap (λ x. x.mode) on ∙ m)
            (ap (λ x. x.word) on ∙ omega arith)))
