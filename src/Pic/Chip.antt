-- ===== src/Pic/Chip.antt =====
-- What the driver of pic.c relies on: the documented command protocol of a pair of 8259A
-- controllers at their ports. A bus that has such a pair shows it by a view of its state.
use ata_driver.Common.{
  ℕ, zero, suc, ◌+◌, ◌*◌, ◌/◌, ◌%◌, ◌≡◌, refl, Bool, true, false, ◌==◌, if◌then◌else◌, arith,
}
use ata_driver.Io.{Bus}

-- `imr` is the mask register, `base` the vector of line 0, `awaited` the number of initialisation
-- words still to come, and `fresh` says that the next of them is the second.
pub record Chip : Type 0 where
  pub imr : ℕ
  pub base : ℕ
  pub awaited : ℕ
  pub fresh : Bool

-- A command word with bit 4 set starts the initialisation: it clears the mask and announces a
-- third word unless bit 1 (single mode) is set, and a fourth if bit 0 is.
unfoldable pub command : ℕ → Chip → Chip
command v c =
    if v / 16 % 2 == 1
    then record {
      imr = 0;
      base = c.base;
      awaited = (if v / 2 % 2 == 1 then 1 else 2) + v % 2;
      fresh = true;
    }
    else c

data_step : ℕ → ℕ → Chip → Chip
data_step zero v c = record c { imr = v }
data_step (suc n) v c = record {
  imr = c.imr;
  base = if c.fresh then v / 8 * 8 else c.base;
  awaited = n;
  fresh = false;
}

unfoldable pub put_data : ℕ → Chip → Chip
unfolding data_step
put_data v c = data_step c.awaited v c

pub record HasPics (bus : Bus) : Type 1 where
  pub master : bus.State → Chip
  pub slave : bus.State → Chip
  pub master-in : (p : ℕ) (s : bus.State) → master (bus.in8 p s).1 ≡ master s
  pub slave-in : (p : ℕ) (s : bus.State) → slave (bus.in8 p s).1 ≡ slave s
  pub in-master : (s : bus.State) → (bus.in8 0x21 s).0 ≡ (master s).imr
  pub in-slave : (s : bus.State) → (bus.in8 0xa1 s).0 ≡ (slave s).imr
  pub master-command : (v : ℕ) (s : bus.State) → master (bus.out8 0x20 v s) ≡ command v (master s)
  pub master-data : (v : ℕ) (s : bus.State) → master (bus.out8 0x21 v s) ≡ put_data v (master s)
  pub slave-command : (v : ℕ) (s : bus.State) → slave (bus.out8 0xa0 v s) ≡ command v (slave s)
  pub slave-data : (v : ℕ) (s : bus.State) → slave (bus.out8 0xa1 v s) ≡ put_data v (slave s)
  pub master-slave_command : (v : ℕ) (s : bus.State) → master (bus.out8 0xa0 v s) ≡ master s
  pub master-slave_data : (v : ℕ) (s : bus.State) → master (bus.out8 0xa1 v s) ≡ master s
  pub slave-master_command : (v : ℕ) (s : bus.State) → slave (bus.out8 0x20 v s) ≡ slave s
  pub slave-master_data : (v : ℕ) (s : bus.State) → slave (bus.out8 0x21 v s) ≡ slave s

data_step-zero : (n v : ℕ) (c : Chip) → n ≡ 0 → data_step n v c ≡ record c { imr = v }
unfolding data_step
data_step-zero zero v c e = refl
data_step-zero (suc n) v c e = absurd (omega arith)

-- With no initialisation word awaited, a data write is a write of the mask register.
pub put_data-ready : (v : ℕ) (c : Chip) → c.awaited ≡ 0 → put_data v c ≡ record c { imr = v }
unfolding put_data
put_data-ready v c e = data_step-zero c.awaited v c e

-- The whole initialisation sequence of four words: the mask is cleared and the base is set.
pub put_data-icw :
    (c : Chip) (icw2 icw3 icw4 mask : ℕ)
    → put_data mask (put_data icw4 (put_data icw3 (put_data icw2 (command 0x11 c))))
      ≡ record { imr = mask; base = icw2 / 8 * 8; awaited = 0; fresh = false }
unfolding put_data command
put_data-icw c icw2 icw3 icw4 mask = refl
