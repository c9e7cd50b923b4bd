-- ===== src/Ata/Identify/Found.antt =====
-- What `identify_command` makes of the answers of the device.
use ata_driver.Common.{
  ℕ, zero, suc, ◌+◌, ◌/◌, ◌%◌, ◌<◌, ◌≡◌, ◌≢◌, ◌∙◌, ◌⊎◌, inl, inr, refl, arith, true, false, ◌||◌,
  ◌&&◌, not, ◌==◌, if◌then◌else◌, Bool-cases,
}
use ata_driver.Io.{Bus, inb, outb}
use ata_driver.Io.Run.{done}
use ata_driver.Ata.{AtaDev, has_bit, sr_bsy, sr_df, sr_drq, sr_err, delay}
use ata_driver.Ata.Identify.{
  poll_identify, read_identity, fill, after_poll, finish, answered, identify_command, is_atapi,
}
use ata_driver.Ata.Identify.Outcome.{base_of, control_of}
use ata_driver.Ata.Identify.Total.{
  settles, after_reads, Answers, status_at, identify_command-answered,
}

-- The two signatures of a packet device in the registers LBA1 and LBA2.
abbrev pub IsPacket : ℕ → ℕ → Type 0
IsPacket lba1 lba2 = ((lba1 ≡ 0x14) × (lba2 ≡ 0xEB)) ⊎ ((lba1 ≡ 0x69) × (lba2 ≡ 0x96))

module _ (bus : Bus) where
  -- From the state `s` on, `status` is the first one read that ends the polling, and `s'` is the
  -- state behind it.
  pub data FirstSettled (port : ℕ) : bus.State → ℕ → bus.State → Type 0 where
    now :
        {s : bus.State}
        → settles (inb bus (port + 0x07) s).0 ≡ true
        → FirstSettled port s (inb bus (port + 0x07) s).0 (inb bus (port + 0x07) s).1
    later :
        {s s' : bus.State} {status : ℕ}
        → settles (inb bus (port + 0x07) s).0 ≡ false
        → FirstSettled port (inb bus (port + 0x07) s).1 status s'
        → FirstSettled port s status s'

  -- What the polling makes of `status`: 1 for an error, else what the variable held.
  abbrev pub error_of : ℕ → ℕ → ℕ
  error_of garbage status = if has_bit status sr_err || has_bit status sr_df then 1 else garbage

  -- The signature registers in the state `s`.
  abbrev pub lba1_at : ℕ → bus.State → ℕ
  lba1_at port s = (inb bus (port + 0x04) s).0

  abbrev pub lba2_at : ℕ → bus.State → ℕ
  lba2_at port s = (inb bus (port + 0x05) (inb bus (port + 0x04) s).1).0

  -- The state behind the second IDENTIFY command, which is for packet devices.
  abbrev pub packet_state : ℕ → ℕ → bus.State → bus.State
  packet_state port control s =
      delay bus control 400
        (outb bus (port + 0x07) 0xA1 (inb bus (port + 0x05) (inb bus (port + 0x04) s).1).1)

  -- What the device answers to the IDENTIFY command that is sent in the state `s`, with the result
  -- and the description that go with it: no device for a first status of 0; an ATA device where the
  -- polling leaves 0; else a packet device where the registers hold one of the two signatures; and
  -- a rejected one where not. The words are those read behind that.
  pub data IsFound (garbage : ℕ) (dev : AtaDev) (idx : ℕ) (s : bus.State)
      : ℕ → AtaDev → Type 0 where
    absent : (status_at bus idx s).0 ≡ 0 → IsFound garbage dev idx s 0 (record dev { present = 0 })
    ata :
        {status : ℕ} {s₁ : bus.State}
        → (status_at bus idx s).0 ≢ 0
        → FirstSettled (base_of idx) (status_at bus idx s).1 status s₁
        → error_of garbage status ≡ 0
        → IsFound garbage dev idx s 0 (
            fill
              (record dev { present = 1; kind = 0 })
              (idx / 2)
              (idx % 2)
              (read_identity bus 256 (base_of idx) s₁).0)
    packet :
        {status : ℕ} {s₁ : bus.State}
        → (status_at bus idx s).0 ≢ 0
        → FirstSettled (base_of idx) (status_at bus idx s).1 status s₁
        → error_of garbage status ≢ 0
        → IsPacket (lba1_at (base_of idx) s₁) (lba2_at (base_of idx) s₁)
        → IsFound garbage dev idx s 0 (
            fill
              (record dev { present = 1; kind = 1 })
              (idx / 2)
              (idx % 2)
              (read_identity bus 256
                (base_of idx)
                (packet_state (base_of idx) (control_of idx) s₁)).0)
    rejected :
        {status : ℕ} {s₁ : bus.State}
        → (status_at bus idx s).0 ≢ 0
        → FirstSettled (base_of idx) (status_at bus idx s).1 status s₁
        → error_of garbage status ≢ 0
        → ¬ (IsPacket (lba1_at (base_of idx) s₁) (lba2_at (base_of idx) s₁))
        → IsFound garbage dev idx s 255 (record dev { present = 1; kind = 0 })

  poll_identify-FirstSettled :
      (n fuel port error : ℕ) (s : bus.State)
      → n < fuel
      → settles (inb bus (port + 0x07) (after_reads bus n port s)).0 ≡ true
      → (status : ℕ) × (s' : bus.State) × FirstSettled port s status s'
        × (poll_identify bus fuel port error s ≡ done (error_of error status) s')
  unfolding poll_identify
  poll_identify-FirstSettled n zero port error s h e = absurd (omega arith)
  poll_identify-FirstSettled zero (suc fuel) port error s h e =
      let (status, s') = inb bus (port + 0x07) s in
      elim (Bool-cases (has_bit status sr_err || has_bit status sr_df)) [
        | inl bad ↦ (status, s', now e, rw bad refl)
        | inr good ↦
            let ready : not (has_bit status sr_bsy) && has_bit status sr_drq ≡ true =
              ground (arith, e, good) in
            (status, s', now e, rw (good, ready) refl)
      ]
  poll_identify-FirstSettled (suc n) (suc fuel) port error s h e =
      let (status, s') = inb bus (port + 0x07) s in
      elim (Bool-cases (has_bit status sr_err || has_bit status sr_df)) [
        | inl bad ↦
            let e' : settles status ≡ true = ground (arith, bad) in
            (status, s', now e', rw bad refl)
        | inr good ↦ elim (Bool-cases (not (has_bit status sr_bsy) && has_bit status sr_drq)) [
          | inl ready ↦
              let e' : settles status ≡ true = ground (arith, ready) in
              (status, s', now e', rw (good, ready) refl)
          | inr busy ↦
              let e' : settles status ≡ false = ground (arith, good, busy) in
              let (status', s₁, first, r) =
                poll_identify-FirstSettled n fuel port error s' (omega arith) e in
              (status', s₁, later e' first, rw (good, busy) r)
        ]
      ]

  -- The device behind a first status that is not 0.
  module _ (fuel garbage idx : ℕ) (dev : AtaDev) (s : bus.State)
      (there : (status_at bus idx s).0 ≢ 0) where
    abbrev Found : Type 0
    Found =
        (r : ℕ) × (dev' : AtaDev) × (s' : bus.State) × (answered bus fuel garbage dev idx
            (base_of idx) (control_of idx) (status_at bus idx s).0 (status_at bus idx s).1
          ≡ done (r, dev') s')
        × IsFound garbage dev idx s r dev'

    settled-Found :
        (status : ℕ) (s₁ : bus.State)
        → FirstSettled (base_of idx) (status_at bus idx s).1 status s₁
        → poll_identify bus fuel (base_of idx) garbage (status_at bus idx s).1
          ≡ done (error_of garbage status) s₁
        → Found
    unfolding answered after_poll finish
    settled-Found status s₁ first polled =
        let some_status : ((status_at bus idx s).0 == 0) ≡ false = ground (arith, there) in
        let lba1 = lba1_at (base_of idx) s₁ in
        let lba2 = lba2_at (base_of idx) s₁ in
        elim (Bool-cases (error_of garbage status == 0)) [
          | inl fine ↦
              rw (some_status, polled, fine) (0, _, _, refl, ata there first (ground (arith, fine)))
          | inr wrong ↦ elim (Bool-cases (is_atapi bus lba1 lba2)) [
            | inl signed ↦
                rw (some_status, polled, wrong, signed)
                  (
                    0,
                    _,
                    _,
                    refl,
                    packet there first (ground (arith, wrong)) (ground (arith, signed)),
                  )
            | inr other ↦
                rw (some_status, polled, wrong, other)
                  (
                    255,
                    _,
                    _,
                    refl,
                    rejected there first (ground (arith, wrong)) (λ p. elim p [
                      | inl (a, b) ↦ ground (arith, other, a, b)
                      | inr (a, b) ↦ ground (arith, other, a, b)
                    ]),
                  )
          ]
        ]

  -- Where the device answers within the fuel, the result is the one that goes with its answer.
  pub identify_command-IsFound :
      (fuel garbage idx : ℕ) (dev : AtaDev) (s : bus.State)
      → idx < 8
      → Answers bus fuel (base_of idx) (status_at bus idx s).0 (status_at bus idx s).1
      → (r : ℕ) × (dev' : AtaDev) × (s' : bus.State) × (identify_command bus fuel garbage dev idx s
          ≡ done (r, dev') s')
        × IsFound garbage dev idx s r dev'
  unfolding answered
  identify_command-IsFound fuel garbage idx dev s h a =
      let same = identify_command-answered bus fuel garbage idx dev s h in
      elim (Bool-cases ((status_at bus idx s).0 == 0)) [
        | inl none_there ↦ (
          0,
          _,
          (status_at bus idx s).1,
          same ∙ rw none_there refl,
          absent (ground (arith, none_there)),
        )
        | inr some_there ↦
            let there : (status_at bus idx s).0 ≢ 0 = ground (arith, some_there) in
            elim a [
              | inl z ↦ absurd (there z)
              | inr (n, l, e) ↦
                  let (status, s₁, first, polled) =
                    poll_identify-FirstSettled n fuel (base_of idx) garbage (status_at bus idx s).1
                      l e in
                  let (r, dev', s', e', found) =
                    settled-Found fuel garbage idx dev s there status s₁ first polled in
                  (r, dev', s', same ∙ e', found)
            ]
      ]
