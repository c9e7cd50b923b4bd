-- ===== src/Pic.antt =====
-- src/kernel/drivers/pic.c and include/pic.h: the two interrupt controllers.
pub mod Chip
pub mod Lines
pub mod Mask
pub mod Init
mod Tests
use ata_driver.Common.{
  ℕ, ◌+◌, ◌-◌, Bool, ◌&&◌, leb, if◌then◌else◌, bit_and, bit_or, not32, ◌<<<◌, u8,
}
use ata_driver.Io.{Bus, inb, outb}

abbrev pub master_cmd_port : ℕ
master_cmd_port = 0x20

abbrev pub master_data_port : ℕ
master_data_port = 0x21

abbrev pub slave_cmd_port : ℕ
slave_cmd_port = 0xa0

abbrev pub slave_data_port : ℕ
slave_data_port = 0xa1

abbrev pub pic_eoi : ℕ
pic_eoi = 0x20

abbrev pub icw1_init : ℕ
icw1_init = 0x10

abbrev pub icw1_icw4 : ℕ
icw1_icw4 = 0x01

abbrev pub icw4_8086 : ℕ
icw4_8086 = 0x01

abbrev pub master_base_irq : ℕ
master_base_irq = 0x20

abbrev pub slave_base_irq : ℕ
slave_base_irq = 0x28

-- `dev >= BASE && dev <= BASE + 7`
abbrev pub on_chip : ℕ → ℕ → Bool
on_chip base dev = leb base dev && leb dev (base + 7)

module _ (bus : Bus) where
  -- Reads the mask behind a data port, sets one bit and writes it back; and the same for clearing.
  pub set_line : ℕ → ℕ → bus.State → bus.State
  set_line port n s = let (mask, s') = inb bus port s in outb bus port (bit_or mask (1 <<< n)) s'

  pub clear_line : ℕ → ℕ → bus.State → bus.State
  clear_line port n s =
      let (mask, s') = inb bus port s in outb bus port (bit_and mask (not32 (1 <<< n))) s'

  pub mask_dev : ℕ → bus.State → bus.State
  unfolding set_line
  mask_dev dev s =
      if on_chip master_base_irq dev
      then set_line master_data_port (dev - master_base_irq) s
      else (if on_chip slave_base_irq dev
          then set_line slave_data_port (dev - slave_base_irq) s
          else s)

  pub unmask_dev : ℕ → bus.State → bus.State
  unfolding clear_line
  unmask_dev dev s =
      if on_chip master_base_irq dev
      then clear_line master_data_port (dev - master_base_irq) s
      else (if on_chip slave_base_irq dev
          then clear_line slave_data_port (dev - slave_base_irq) s
          else s)

  pub send_eoi : ℕ → bus.State → bus.State
  send_eoi irq s =
      if on_chip master_base_irq irq
      then outb bus master_cmd_port pic_eoi s
      else (if on_chip slave_base_irq irq
          then outb bus master_cmd_port pic_eoi (outb bus slave_cmd_port pic_eoi s)
          else s)

  pub remap : bus.State → bus.State
  remap s =
      let (master_mask, s) = inb bus master_data_port s in
      let (slave_mask, s) = inb bus slave_data_port s in
      let s = outb bus master_cmd_port (bit_or icw1_init icw1_icw4) s in
      let s = outb bus slave_cmd_port (bit_or icw1_init icw1_icw4) s in
      let s = outb bus master_data_port master_base_irq s in
      let s = outb bus slave_data_port slave_base_irq s in
      let s = outb bus master_data_port 0x04 s in
      let s = outb bus slave_data_port 0x02 s in
      let s = outb bus master_data_port icw4_8086 s in
      let s = outb bus slave_data_port icw4_8086 s in
      let s = outb bus master_data_port master_mask s in outb bus slave_data_port slave_mask s

  -- The devices in the order of `pic_init`, by `enum pic_dev`; the cascade line 0x22 is not one.
  pub init : bus.State → bus.State
  unfolding remap mask_dev
  init s =
      let s = remap s in
      let s = mask_dev 0x20 s in
      let s = mask_dev 0x21 s in
      let s = mask_dev 0x23 s in
      let s = mask_dev 0x24 s in
      let s = mask_dev 0x25 s in
      let s = mask_dev 0x26 s in
      let s = mask_dev 0x27 s in
      let s = mask_dev 0x28 s in
      let s = mask_dev 0x29 s in
      let s = mask_dev 0x2a s in
      let s = mask_dev 0x2b s in
      let s = mask_dev 0x2c s in
      let s = mask_dev 0x2d s in let s = mask_dev 0x2e s in mask_dev 0x2f s
