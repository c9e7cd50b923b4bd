-- ===== src/Ata/Identify/Total.antt =====
-- `identify_command` returns where the device answers.
use ata_driver.Common.{
  ℕ, zero, suc, ◌+◌, ◌<◌, ◌≡◌, ◌∙◌, ◌⊎◌, inl, inr, refl, arith, Bool, true, false, ◌||◌, ◌&&◌, not,
  ◌==◌, Bool-cases,
}
use mathlib.Core.Path.{subst}
use ata_driver.Io.{Bus, inb}
use ata_driver.Io.Run.{Run, done, Ends, ended}
use ata_driver.Ata.{AtaDev, has_bit, sr_bsy, sr_df, sr_drq, sr_err}
use ata_driver.Ata.Identify.{
  poll_identify, send_identify, after_poll, finish, answered, identify_at, identify_command,
  is_atapi, device_present,
}
use ata_driver.Ata.Identify.Outcome.{
  IsReport, Reported, base_of, control_of, base_of-index, control_of-index,
  identify_command-Reported,
}

-- The run returns some result in some state.
abbrev pub Terminates : {S A : Type 0} → Run S A → Type 0
Terminates {S} {A} r = (a : A) × (s : S) × (r ≡ done a s)

-- A status at which the polling loop ends.
abbrev pub settles : ℕ → Bool
settles status =
    (has_bit status sr_err || has_bit status sr_df)
    || (not (has_bit status sr_bsy) && has_bit status sr_drq)

ended_value : {S A : Type 0} {P : A → Type 0} {a : A} {s : S} → Ends P (done a s) → P a
ended_value (ended s p) = p

module _ (bus : Bus) where
  -- The state behind `n` reads of the status.
  abbrev pub after_reads : ℕ → ℕ → bus.State → bus.State
  after_reads zero port s = s
  after_reads (suc n) port s = after_reads n port (inb bus (port + 0x07) s).1

  poll_identify-Terminates :
      (n fuel port error : ℕ) (s : bus.State)
      → n < fuel
      → settles (inb bus (port + 0x07) (after_reads n port s)).0 ≡ true
      → Terminates (poll_identify bus fuel port error s)
  unfolding poll_identify
  poll_identify-Terminates n zero port error s h e = absurd (omega arith)
  poll_identify-Terminates zero (suc fuel) port error s h e =
      let (status, s') = inb bus (port + 0x07) s in
      elim (Bool-cases (has_bit status sr_err || has_bit status sr_df)) [
        | inl bad ↦ (1, s', rw bad refl)
        | inr good ↦
            let ready : not (has_bit status sr_bsy) && has_bit status sr_drq ≡ true =
              ground (arith, e, good) in
            (error, s', rw (good, ready) refl)
      ]
  poll_identify-Terminates (suc n) (suc fuel) port error s h e =
      let (status, s') = inb bus (port + 0x07) s in
      elim (Bool-cases (has_bit status sr_err || has_bit status sr_df)) [
        | inl bad ↦ (1, s', rw bad refl)
        | inr good ↦ elim (Bool-cases (not (has_bit status sr_bsy) && has_bit status sr_drq)) [
          | inl ready ↦ (error, s', rw (good, ready) refl)
          | inr busy ↦
              rw (good, busy) (poll_identify-Terminates n fuel port error s' (omega arith) e)
        ]
      ]

  after_poll-Terminates :
      (dev : AtaDev) (idx port control error : ℕ) (s : bus.State)
      → Terminates (after_poll bus dev idx port control error s)
  unfolding after_poll finish
  after_poll-Terminates dev idx port control error s = elim (Bool-cases (error == 0)) [
    | inl fine ↦ rw fine (_, _, refl)
    | inr wrong ↦
        let lba1 = inb bus (port + 0x04) s in
        let lba2 = inb bus (port + 0x05) lba1.1 in
        elim (Bool-cases (is_atapi bus lba1.0 lba2.0)) [
          | inl packet ↦ rw (wrong, packet) (_, _, refl)
          | inr other ↦ rw (wrong, other) (_, _, refl)
        ]
  ]

  -- The first status is 0, or one of the statuses behind it ends the polling within the fuel.
  abbrev pub Answers : ℕ → ℕ → ℕ → bus.State → Type 0
  Answers fuel port status s =
      (status ≡ 0)
      ⊎ ((n : ℕ) × (n < fuel) × (settles (inb bus (port + 0x07) (after_reads n port s)).0 ≡ true))

  answered-polled :
      (n fuel garbage idx port control status : ℕ) (dev : AtaDev) (s : bus.State)
      → (status == 0) ≡ false
      → n < fuel
      → settles (inb bus (port + 0x07) (after_reads n port s)).0 ≡ true
      → Terminates (answered bus fuel garbage dev idx port control status s)
  unfolding answered
  answered-polled n fuel garbage idx port control status dev s there h e =
      let (error, s', r) = poll_identify-Terminates n fuel port garbage s h e in
      rw (there, r)
        (after_poll-Terminates (record dev { present = device_present }) idx port control error s')

  answered-Terminates :
      (fuel garbage idx port control status : ℕ) (dev : AtaDev) (s : bus.State)
      → Answers fuel port status s
      → Terminates (answered bus fuel garbage dev idx port control status s)
  unfolding answered
  answered-Terminates fuel garbage idx port control status dev s a =
      elim (Bool-cases (status == 0)) [
        | inl absent ↦ rw absent (_, _, refl)
        | inr there ↦ elim a [
          | inl z ↦ absurd (ground (arith, z, there))
          | inr (n, h, e) ↦ answered-polled n fuel garbage idx port control status dev s there h e
        ]
      ]

  -- The state behind the IDENTIFY command.
  abbrev pub commanded : ℕ → bus.State → bus.State
  commanded idx s = send_identify bus (base_of idx) (control_of idx) idx s

  abbrev pub status_at : ℕ → bus.State → ℕ × bus.State
  status_at idx s = inb bus (base_of idx + 0x07) (commanded idx s)

  pub identify_command-answered :
      (fuel garbage idx : ℕ) (dev : AtaDev) (s : bus.State)
      → idx < 8
      → identify_command bus fuel garbage dev idx s
        ≡ answered bus fuel garbage dev idx
            (base_of idx)
            (control_of idx)
            (status_at idx s).0
            (status_at idx s).1
  unfolding identify_command identify_at
  identify_command-answered fuel garbage idx dev s h =
      ground (arith, base_of-index idx h, control_of-index idx h)

  -- For one of the eight device indices, where the first status behind the IDENTIFY command is 0 or
  -- a status read within the fuel ends the polling: `identify_command` returns, and it has returned
  -- 0 and set the device to absent, or 0 and filled it in from the words read as an ATA or ATAPI
  -- device with its channel and drive, or 255 with the device marked present.
  pub identify_command-IsReport :
      (fuel garbage idx : ℕ) (dev : AtaDev) (s : bus.State)
      → idx < 8
      → Answers fuel (base_of idx) (status_at idx s).0 (status_at idx s).1
      → (r : ℕ) × (dev' : AtaDev) × (s' : bus.State) × (identify_command bus fuel garbage dev idx s
          ≡ done (r, dev') s')
        × IsReport dev idx r dev'
  identify_command-IsReport fuel garbage idx dev s h a =
      let ((r, dev'), s', e) =
        answered-Terminates fuel garbage idx (base_of idx) (control_of idx) (status_at idx s).0 dev
          (status_at idx s).1 a in
      let e' = identify_command-answered fuel garbage idx dev s h ∙ e in
      (
        r,
        dev',
        s',
        e',
        ended_value (
            subst (Ends (Reported dev idx)) e'
              (identify_command-Reported bus fuel garbage idx dev s h)),
      )
