-- ===== src/Pic/Init.antt =====
-- `pic_init`: both controllers are moved to their vectors and every device is masked.
use ata_driver.Common.{
  ℕ, ◌≤◌, ◌≡◌, ◌≢◌, refl, Bool, true, false, ◌||◌, ◌==◌, if◌then◌else◌, List, [], ◌∷◌, u8, arith,
  ap, ◌∙◌,
}
use ata_driver.Io.{Bus}
use ata_driver.Pic.{mask_dev, remap, init}
use ata_driver.Pic.Chip.{HasPics, put_data-icw}
use ata_driver.Pic.Lines.{bit}
use ata_driver.Pic.Mask.{line, IsReady, mask_dev-IsLineSet}

abbrev has : ℕ → List ℕ → Bool
has d [] = false
has d (x ∷ xs) = d == x || has d xs

-- The devices that `pic_init` masks, in its order.
abbrev devices : List ℕ
devices =
    0x20 ∷ 0x21 ∷ 0x23 ∷ 0x24 ∷ 0x25 ∷ 0x26 ∷ 0x27 ∷ 0x28 ∷ 0x29 ∷ 0x2a ∷ 0x2b ∷ 0x2c ∷ 0x2d ∷ 0x2e
    ∷ 0x2f ∷ []

mask_all : (bus : Bus) → List ℕ → bus.State → bus.State
mask_all bus [] s = s
mask_all bus (d ∷ ds) s = mask_all bus ds (mask_dev bus d s)

init-mask_all : (bus : Bus) (s : bus.State) → init bus s ≡ mask_all bus devices (remap bus s)
unfolding init mask_all
init-mask_all bus s = refl

abbrev AllDevices : List ℕ → Type 0
AllDevices [] = Unit {0}
AllDevices (d ∷ ds) = (0x20 ≤ d) × (d ≤ 0x2f) × AllDevices ds

has_device : (d : ℕ) → 0x20 ≤ d → d ≤ 0x2f → d ≢ 0x22 → has d devices ≡ true
has_device d p q ne = ground arith

module _ {bus : Bus} (pics : HasPics bus) where
  open pics use {master, slave}

  -- The state after `pic_init`, started at `s`.
  pub record IsInitialised (s s' : bus.State) : Type 0 where
    pub ready : IsReady pics s'
    pub master_base : (master s').base ≡ 0x20
    pub slave_base : (slave s').base ≡ 0x28
    pub cascade : line pics s' 0x22 ≡ line pics s 0x22
    pub masked : (dev : ℕ) → 0x20 ≤ dev → dev ≤ 0x2f → dev ≢ 0x22 → line pics s' dev ≡ 1

  record IsMasked (s s' : bus.State) (ds : List ℕ) : Type 0 where
    ready : IsReady pics s'
    master_base : (master s').base ≡ (master s).base
    slave_base : (slave s').base ≡ (slave s).base
    lines : (d : ℕ) → 0x20 ≤ d → d ≤ 0x2f → line pics s' d ≡ (if has d ds then 1 else line pics s d)

  mask_all-IsMasked :
      (ds : List ℕ) (s : bus.State)
      → AllDevices ds
      → IsReady pics s
      → IsMasked s (mask_all bus ds s) ds
  unfolding mask_all
  mask_all-IsMasked [] s all r = record {
    ready = r;
    master_base = refl;
    slave_base = refl;
    lines = λ d p q. refl;
  }
  mask_all-IsMasked (d ∷ ds) s all r =
      let one = mask_dev-IsLineSet pics d s all.0 all.1 r in
      let more = mask_all-IsMasked ds (mask_dev bus d s) all.2 one.ready in
      record {
        ready = more.ready;
        master_base = rw (more.master_base, one.master_base);
        slave_base = rw (more.slave_base, one.slave_base);
        lines = λ x p q. rw (more.lines x p q, one.lines x p q) (ground arith);
      }

  master-remap :
      (s : bus.State)
      → master (remap bus s)
        ≡ record { imr = u8 (u8 (master s).imr); base = 0x20; awaited = 0; fresh = false }
  unfolding remap
  master-remap s =
      simp
        (
          pics.master-in, pics.in-master, pics.master-command, pics.master-data,
          pics.master-slave_command, pics.master-slave_data,
        )
        (put_data-icw (master s) 0x20 4 1 (u8 (u8 (master s).imr)))

  slave-remap :
      (s : bus.State)
      → slave (remap bus s)
        ≡ record { imr = u8 (u8 (slave s).imr); base = 0x28; awaited = 0; fresh = false }
  unfolding remap
  slave-remap s =
      simp
        (
          pics.in-slave, pics.slave-command, pics.slave-data, pics.slave-master_command,
          pics.slave-master_data, pics.slave-in,
        )
        (put_data-icw (slave s) 0x28 2 1 (u8 (u8 (slave s).imr)))

  -- On a bus with a pair of 8259A controllers, in whatever state they are: `pic_init` moves their
  -- interrupts to the vectors 0x20 and 0x28, masks the line of every device, leaves the cascade
  -- line 0x22 as it was, and leaves no initialisation pending.
  pub init-IsInitialised : (s : bus.State) → IsInitialised s (init bus s)
  init-IsInitialised s = rw (init-mask_all bus s) (record {
    ready = all.ready;
    master_base = all.master_base ∙ ap (λ c. c.base) (master-remap s);
    slave_base = all.slave_base ∙ ap (λ c. c.base) (slave-remap s);
    cascade =
        all.lines 0x22 (omega arith) (omega arith)
        ∙ ap (λ c. bit (u8 c.imr) 2) (master-remap s)
        ∙ omega arith;
    masked = λ dev p q ne. all.lines dev p q ∙ rw (has_device dev p q ne);
  })
    where
      all : IsMasked (remap bus s) (mask_all bus devices (remap bus s)) devices
      all = mask_all-IsMasked devices (remap bus s) (omega arith) (record {
        master_ready = ap (λ c. c.awaited) (master-remap s);
        slave_ready = ap (λ c. c.awaited) (slave-remap s);
      })
