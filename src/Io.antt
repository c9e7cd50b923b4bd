-- ===== src/Io.antt =====
-- Port input and output: src/kernel/include/io.h. What answers behind a port is hardware, so a
-- bus is a parameter of every driver; its state is of a type of its own.
pub mod Run
use ata_driver.Common.{ℕ, u8, u16, List, [], ◌∷◌}

pub record Bus : Type 1 where
  pub State : Type 0
  pub in8 : ℕ → State → ℕ × State
  pub in16 : ℕ → State → ℕ × State
  pub out8 : ℕ → ℕ → State → State
  pub out16 : ℕ → ℕ → State → State

-- One access, and the effect of a sequence of them.
pub data Access : Type 0 where
  rd8 : ℕ → Access
  rd16 : ℕ → Access
  wr8 : ℕ → ℕ → Access
  wr16 : ℕ → ℕ → Access

module _ (bus : Bus) where
  abbrev pub inb : ℕ → bus.State → ℕ × bus.State
  inb port s = (u8 (bus.in8 port s).0, (bus.in8 port s).1)

  abbrev pub inw : ℕ → bus.State → ℕ × bus.State
  inw port s = (u16 (bus.in16 port s).0, (bus.in16 port s).1)

  abbrev pub outb : ℕ → ℕ → bus.State → bus.State
  outb port value = bus.out8 port (u8 value)

  abbrev pub outw : ℕ → ℕ → bus.State → bus.State
  outw port value = bus.out16 port (u16 value)

  abbrev pub access : Access → bus.State → bus.State
  access (rd8 p) s = (bus.in8 p s).1
  access (rd16 p) s = (bus.in16 p s).1
  access (wr8 p v) s = bus.out8 p v s
  access (wr16 p v) s = bus.out16 p v s

  abbrev pub play : List Access → bus.State → bus.State
  play [] s = s
  play (a ∷ as') s = play as' (access a s)
