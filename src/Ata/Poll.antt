-- ===== src/Ata/Poll.antt =====
-- Waiting for the device: with more fuel than the device stays busy, the polling loops end.
use mathlib.Core.Path.{subst}
use ata_driver.Common.{
  ℕ, zero, suc, ◌+◌, ◌-◌, ◌<◌, ◌≡◌, ◌∙◌, ap, refl, inl, inr, true, ◌==◌, Bool-cases, arith, u8,
}
use ata_driver.Io.{Bus, inb}
use ata_driver.Io.Run.{Run, done}
use ata_driver.Ata.{ok, delay_loop, delay, wait_idle, poll_busy, poll_drq, poll}
use ata_driver.Ata.Channel.{Channel, is_transfer, IsStatus, tick, HasChannel}

abbrev pub with_busy : Channel → ℕ → Channel
with_busy c b = record c { busy = b }

abbrev pub settled : Channel → Channel
settled c = with_busy c 0

module _ {latency : ℕ → ℕ} {bus : Bus} {ch : ℕ} (dev : HasChannel latency bus ch) where
  open dev use {view, status, view-status}

  -- A run that returns `a` and leaves the device as `c`.
  pub record Returns {A : Type 0} (r : Run bus.State A) (a : A) (c : Channel) : Type 0 where
    pub end : bus.State
    pub returns : r ≡ done a end
    pub view_end : view end ≡ c

  view-delay_loop :
      (n : ℕ) (s : bus.State)
      → view (delay_loop bus n ch s) ≡ with_busy (view s) ((view s).busy - n)
  unfolding delay_loop tick
  view-delay_loop zero s = ap (with_busy (view s)) (omega arith)
  view-delay_loop (suc n) s =
      view-delay_loop n (inb bus (ch + 0x07) s).1
      ∙ ap (λ c. with_busy c (c.busy - n)) (view-status s)
      ∙ ap (with_busy (view s)) (omega arith)

  -- `while (inb(STATUS) & BSY);` ends as soon as the device is no longer busy.
  pub wait_idle-Returns :
      (fuel : ℕ) (s : bus.State)
      → (view s).busy < fuel
      → Returns (wait_idle bus fuel ch s) tt (settled (view s))
  unfolding wait_idle tick
  wait_idle-Returns zero s h = absurd (omega arith)
  wait_idle-Returns (suc fuel) s h = elim (Bool-cases ((view s).busy == 0)) [
    | inl now ↦ record {
      end = (bus.in8 (ch + 0x07) s).1;
      returns = rw ((status s).busy_bit, now);
      view_end = view-status s ∙ ap (with_busy (view s)) (ground arith);
    }
    | inr later ↦
        let s' = (bus.in8 (ch + 0x07) s).1 in
        let b : (view s').busy ≡ (view s).busy - 1 = ap (λ c. c.busy) (view-status s) in
        let ih = wait_idle-Returns fuel s' (ground arith) in
        record {
          end = ih.end;
          returns = rw ((status s).busy_bit, later) ih.returns;
          view_end = ih.view_end ∙ ap settled (view-status s);
        }
  ]

  -- `poll_busy` ends with a status that was read when the device was no longer busy.
  record Polls (c : Channel) (r : Run bus.State ℕ) : Type 0 where
    value : ℕ
    end : bus.State
    returns : r ≡ done value end
    read : IsStatus (settled c) value
    view_end : view end ≡ settled c

  poll_busy-Polls :
      (fuel v : ℕ) (c : Channel) (s : bus.State)
      → IsStatus c v
      → view s ≡ tick c
      → c.busy < fuel
      → Polls c (poll_busy bus fuel ch v s)
  unfolding poll_busy tick
  poll_busy-Polls zero v c s i e h = absurd (omega arith)
  poll_busy-Polls (suc fuel) v c s i e h = elim (Bool-cases (c.busy == 0)) [
    | inl now ↦ record {
      value = v;
      end = s;
      returns = rw (i.busy_bit, now);
      read =
          let z : c.busy ≡ 0 = ground arith in
          record {
            busy_bit = i.busy_bit ∙ rw now;
            no_error = λ _. i.no_error z;
            no_fault = λ _. i.no_fault z;
            request = λ _. i.request z;
          };
      view_end = e ∙ ap (with_busy c) (ground arith);
    }
    | inr later ↦
        let s' = (bus.in8 (ch + 0x07) s).1 in
        let ih =
          poll_busy-Polls fuel (u8 (bus.in8 (ch + 0x07) s).0) (view s) s' (status s) (view-status s)
            (let b : (view s).busy ≡ c.busy - 1 = ap (λ c. c.busy) e in ground arith) in
        record {
          value = ih.value;
          end = ih.end;
          returns = rw (i.busy_bit, later) ih.returns;
          read = subst (λ k. IsStatus (settled k) ih.value) e ih.read;
          view_end = ih.view_end ∙ ap settled e;
        }
  ]

  poll_drq-ok :
      (fuel v : ℕ) (c : Channel) (s : bus.State)
      → IsStatus c v
      → c.busy ≡ 0
      → is_transfer c.mode ≡ true
      → 0 < fuel
      → poll_drq bus fuel ch v s ≡ done ok s
  unfolding poll_drq
  poll_drq-ok zero v c s i z m h = absurd (omega arith)
  poll_drq-ok (suc fuel) v c s i z m h = rw (i.no_error z, i.no_fault z, i.request z, m)

  -- In the middle of a transfer, with more fuel than the device stays busy: `poll` returns 0, the
  -- device is then no longer busy, and nothing else of it has changed.
  pub poll-Returns :
      (fuel : ℕ) (s : bus.State)
      → is_transfer (view s).mode ≡ true
      → (view s).busy < fuel
      → Returns (poll bus fuel ch s) ok (settled (view s))
  unfolding poll delay
  poll-Returns fuel s m h = record {
    end = polls.end;
    returns = rw (polls.returns) (
        poll_drq-ok fuel polls.value (settled c) polls.end polls.read refl
          (ap (λ k. is_transfer k.mode) e ∙ m) (omega arith));
    view_end = polls.view_end ∙ ap settled e;
  }
    where
      s₄ : bus.State
      s₄ = delay_loop bus 4 ch s

      c : Channel
      c = view s₄

      e : c ≡ with_busy (view s) ((view s).busy - 4)
      e = view-delay_loop 4 s

      polls :
          Polls c (poll_busy bus fuel ch (u8 (bus.in8 (ch + 0x07) s₄).0) (bus.in8 (ch + 0x07) s₄).1)
      polls =
          poll_busy-Polls fuel (u8 (bus.in8 (ch + 0x07) s₄).0) c (bus.in8 (ch + 0x07) s₄).1
            (status s₄) (view-status s₄)
            (let b : c.busy ≡ (view s).busy - 4 = ap (λ k. k.busy) e in omega arith)
