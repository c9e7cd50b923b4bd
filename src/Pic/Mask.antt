-- ===== src/Pic/Mask.antt =====
-- Masking and unmasking a device changes its own line and no other.
use ata_driver.Common.{
  ℕ, ◌-◌, ◌<◌, ◌≤◌, ◌≡◌, true, false, ◌==◌, inl, inr, Bool-cases, ltb, leb, if◌then◌else◌, u8, ◌&&◌,
  [], ◌∷◌, arith,
}
use ata_driver.Io.{Bus, wr8, play}
use ata_driver.Pic.{mask_dev, unmask_dev, send_eoi, on_chip}
use ata_driver.Pic.Chip.{HasPics, put_data-ready}
use ata_driver.Pic.Lines.{bit, bit-set_line, bit-clear_line}

module _ {bus : Bus} (pics : HasPics bus) where
  open pics use {master, slave}

  -- 1 where the line of device `dev` (0x20 to 0x2f) is masked.
  abbrev pub line : bus.State → ℕ → ℕ
  line s dev =
      if ltb dev 0x28
      then bit (u8 (master s).imr) (dev - 0x20)
      else bit (u8 (slave s).imr) (dev - 0x28)

  -- Neither controller waits for an initialisation word.
  pub record IsReady (s : bus.State) : Type 0 where
    pub master_ready : (master s).awaited ≡ 0
    pub slave_ready : (slave s).awaited ≡ 0

  -- `s'` is `s` with the line of `dev` set to `v`.
  pub record IsLineSet (s s' : bus.State) (dev v : ℕ) : Type 0 where
    pub ready : IsReady s'
    pub master_base : (master s').base ≡ (master s).base
    pub slave_base : (slave s').base ≡ (slave s).base
    pub lines :
        (other : ℕ)
        → 0x20 ≤ other
        → other ≤ 0x2f
        → line s' other ≡ (if dev == other then v else line s other)

  module _ (s : bus.State) (r : IsReady s) (dev v k : ℕ) where
    master_written :
        0x20 ≤ dev
        → dev < 0x28
        → ((j : ℕ)
            → j < 8
            → bit (u8 v) j ≡ (if dev - 0x20 == j then k else bit (u8 (master s).imr) j))
        → IsLineSet s (bus.out8 0x21 (u8 v) (bus.in8 0x21 s).1) dev k
    master_written lo hi h = record {
      ready = record { master_ready = rw m r.master_ready; slave_ready = rw n r.slave_ready };
      master_base = rw m;
      slave_base = rw n;
      lines = λ other p q. rw (m, n) (ground (arith, h (other - 0x20)));
    }
      where
        m : master (bus.out8 0x21 (u8 v) (bus.in8 0x21 s).1) ≡ record (master s) { imr = u8 v }
        m = rw (pics.master-data, pics.master-in) (put_data-ready (u8 v) (master s) r.master_ready)

        n : slave (bus.out8 0x21 (u8 v) (bus.in8 0x21 s).1) ≡ slave s
        n = rw (pics.slave-master_data, pics.slave-in)

    slave_written :
        0x28 ≤ dev
        → dev < 0x30
        → ((j : ℕ)
            → j < 8
            → bit (u8 v) j ≡ (if dev - 0x28 == j then k else bit (u8 (slave s).imr) j))
        → IsLineSet s (bus.out8 0xa1 (u8 v) (bus.in8 0xa1 s).1) dev k
    slave_written lo hi h = record {
      ready = record { master_ready = rw m r.master_ready; slave_ready = rw n r.slave_ready };
      master_base = rw m;
      slave_base = rw n;
      lines = λ other p q. rw (m, n) (ground (arith, h (other - 0x28)));
    }
      where
        m : master (bus.out8 0xa1 (u8 v) (bus.in8 0xa1 s).1) ≡ master s
        m = rw (pics.master-slave_data, pics.master-in)

        n : slave (bus.out8 0xa1 (u8 v) (bus.in8 0xa1 s).1) ≡ record (slave s) { imr = u8 v }
        n = rw (pics.slave-data, pics.slave-in) (put_data-ready (u8 v) (slave s) r.slave_ready)

  -- With no initialisation pending: masking a device sets its line, leaves the lines of the
  -- fifteen others and both vector bases as they are, and leaves nothing pending.
  pub mask_dev-IsLineSet :
      (dev : ℕ) (s : bus.State)
      → 0x20 ≤ dev
      → dev ≤ 0x2f
      → IsReady s
      → IsLineSet s (mask_dev bus dev s) dev 1
  unfolding mask_dev
  mask_dev-IsLineSet dev s lo hi r = elim (Bool-cases (ltb dev 0x28)) [
    | inl m ↦
        let e : on_chip 0x20 dev ≡ true = ground arith in
        rw (e, pics.in-master)
          (master_written s r dev _ 1 lo (ground arith)
            (λ j h. bit-set_line (u8 (master s).imr) (dev - 0x20) j (omega arith) (ground arith) h))
    | inr n ↦
        let e : on_chip 0x20 dev ≡ false = ground arith in
        let e' : on_chip 0x28 dev ≡ true = ground arith in
        rw (e, e', pics.in-slave)
          (slave_written s r dev _ 1 (ground arith) (omega arith)
            (λ j h. bit-set_line (u8 (slave s).imr) (dev - 0x28) j (omega arith) (ground arith) h))
  ]

  -- The same for unmasking, which clears the line.
  pub unmask_dev-IsLineSet :
      (dev : ℕ) (s : bus.State)
      → 0x20 ≤ dev
      → dev ≤ 0x2f
      → IsReady s
      → IsLineSet s (unmask_dev bus dev s) dev 0
  unfolding unmask_dev
  unmask_dev-IsLineSet dev s lo hi r = elim (Bool-cases (ltb dev 0x28)) [
    | inl m ↦
        let e : on_chip 0x20 dev ≡ true = ground arith in
        rw (e, pics.in-master)
          (master_written s r dev _ 0 lo (ground arith) (λ j h.
            bit-clear_line (u8 (master s).imr) (dev - 0x20) j (omega arith) (ground arith) h))
    | inr n ↦
        let e : on_chip 0x20 dev ≡ false = ground arith in
        let e' : on_chip 0x28 dev ≡ true = ground arith in
        rw (e, e', pics.in-slave)
          (slave_written s r dev _ 0 (ground arith) (omega arith) (λ j h.
            bit-clear_line (u8 (slave s).imr) (dev - 0x28) j (omega arith) (ground arith) h))
  ]

-- On every bus: `pic_send_eoi` writes the end-of-interrupt command to the master for the lines
-- 0x20 to 0x27, to the slave and then to the master for 0x28 to 0x2f, and touches no port for any
-- other number.
pub send_eoi-accesses :
    (bus : Bus) (irq : ℕ) (s : bus.State)
    → send_eoi bus irq s ≡ (
        if leb 0x20 irq && ltb irq 0x28
        then play bus (wr8 0x20 0x20 ∷ []) s
        else (if leb 0x28 irq && ltb irq 0x30
            then play bus (wr8 0xa0 0x20 ∷ wr8 0x20 0x20 ∷ []) s
            else s))
unfolding send_eoi
send_eoi-accesses bus irq s = ground arith
