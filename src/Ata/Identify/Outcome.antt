-- ===== src/Ata/Identify/Outcome.antt =====
-- What `identify_command` and `ata_init` report.
use ata_driver.Common.{
  ℕ, zero, suc, ◌+◌, ◌/◌, ◌%◌, ◌<◌, ◌≡◌, ◌⊎◌, inl, inr, refl, List, ◌==◌, some, get_or, get_elem?,
  get_elem?-eq-get_or, if-both, arith,
}
use ata_driver.Io.{Bus, inb}
use ata_driver.Io.Run.{Ends, ended, polling, Ends-and_then}
use ata_driver.Ata.{AtaDev, bus_port, bus_control, index}
use ata_driver.Ata.Identify.{
  device_empty, device_present, type_ata, type_atapi, fill, poll_identify, finish, after_poll,
  identify_at, answered, identify_command,
}

-- The result `r` and the device `dev'` that `identify_command` leaves of `dev`.
pub data IsReport (dev : AtaDev) (idx : ℕ) : ℕ → AtaDev → Type 0 where
  absent : IsReport dev idx 0 (record dev { present = device_empty })
  identified :
      (kind : ℕ) (words : List ℕ)
      → (kind ≡ type_ata) ⊎ (kind ≡ type_atapi)
      → IsReport dev idx 0
          (fill (record dev { present = device_present; kind = kind }) (idx / 2) (idx % 2) words)
  rejected : IsReport dev idx 255 (record dev { present = device_present; kind = type_ata })

abbrev pub base_of : ℕ → ℕ
base_of idx = get_or bus_port (idx / 2) 0

abbrev pub control_of : ℕ → ℕ
control_of idx = get_or bus_control (idx / 2) 0

abbrev pub Reported : AtaDev → ℕ → ℕ × AtaDev → Type 0
Reported dev idx (r, dev') = IsReport dev idx r dev'

pub base_of-index : (idx : ℕ) → idx < 8 → get_elem? bus_port (idx / 2) ≡ some (base_of idx)
base_of-index idx h = get_elem?-eq-get_or bus_port (idx / 2) 0 (omega arith)

pub control_of-index : (idx : ℕ) → idx < 8 → get_elem? bus_control (idx / 2) ≡ some (control_of idx)
control_of-index idx h = get_elem?-eq-get_or bus_control (idx / 2) 0 (omega arith)

module _ (bus : Bus) where
  after_poll-Reported :
      (dev : AtaDev) (idx port control error : ℕ) (s : bus.State)
      → Ends
          (Reported dev idx)
          (after_poll bus (record dev { present = device_present }) idx port control error s)
  unfolding after_poll finish
  after_poll-Reported dev idx port control error s =
      if-both (Ends (Reported dev idx)) (error == 0) _ _
        (ended _ (identified type_ata _ (inl refl)))
        (if-both (Ends (Reported dev idx)) _ _ _ (ended _ (identified type_atapi _ (inr refl)))
          (ended _ rejected))

  poll_identify-Ends :
      (fuel port error : ℕ) (s : bus.State)
      → Ends (λ e. (e ≡ 1) ⊎ (e ≡ error)) (poll_identify bus fuel port error s)
  unfolding poll_identify
  poll_identify-Ends zero port error s = polling
  poll_identify-Ends (suc fuel) port error s =
      if-both (Ends (λ e. (e ≡ 1) ⊎ (e ≡ error))) _ _ _ (ended _ (inl refl)) (
        if-both (Ends (λ e. (e ≡ 1) ⊎ (e ≡ error))) _ _ _ (ended _ (inr refl))
          (poll_identify-Ends fuel port error (inb bus (port + 0x07) s).1))

  answered-Reported :
      (fuel garbage idx port control status : ℕ) (dev : AtaDev) (s : bus.State)
      → Ends (Reported dev idx) (answered bus fuel garbage dev idx port control status s)
  unfolding answered
  answered-Reported fuel garbage idx port control status dev s =
      if-both (Ends (Reported dev idx)) (status == 0) _ _ (ended s absent) (
        Ends-and_then (λ e. (e ≡ 1) ⊎ (e ≡ garbage)) (Reported dev idx)
          (poll_identify bus fuel port garbage s) _ (poll_identify-Ends fuel port garbage s)
          (λ error s' _. after_poll-Reported dev idx port control error s'))

  index-Ends :
      (xs : List ℕ) (i x : ℕ) (s : bus.State)
      → get_elem? xs i ≡ some x
      → Ends (λ _. Unit {0}) (index xs i s)
  index-Ends xs i x s e = rw (index, e) (ended s tt)

  -- For one of the eight device indices, and every answer of the hardware, `identify_command`
  -- makes no access outside of its port tables, and where it returns, it has returned 0 and set the
  -- device to absent, or 0 and filled it in from the words read as an ATA or ATAPI device with its
  -- channel and drive, or 255 with the device marked present.
  pub identify_command-Reported :
      (fuel garbage idx : ℕ) (dev : AtaDev) (s : bus.State)
      → idx < 8
      → Ends (Reported dev idx) (identify_command bus fuel garbage dev idx s)
  unfolding identify_command identify_at
  identify_command-Reported fuel garbage idx dev s h =
      Ends-and_then (λ _. Unit {0}) (Reported dev idx) (index bus_port (idx / 2) s) _
        (index-Ends bus_port (idx / 2) (base_of idx) s (base_of-index idx h))
        (λ port s₁ _.
          Ends-and_then (λ _. Unit {0}) (Reported dev idx) (index bus_control (idx / 2) s₁) _
            (index-Ends bus_control (idx / 2) (control_of idx) s₁ (control_of-index idx h))
            (λ control s₂ _. answered-Reported fuel garbage idx port control _ dev _))
