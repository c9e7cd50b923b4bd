-- ===== src/Ata/Identify/Devices.antt =====
-- `ata_init` on channels that answer.
use ata_driver.Common.{
  zero, suc, ℕ, ◌+◌, ◌-◌, ◌^◌, ◌<◌, ◌≡◌, refl, arith, List, [], ◌∷◌, ◌==◌, u8, if◌then◌else◌,
  length,
}
use ata_driver.Io.{Bus}
use ata_driver.Io.Run.{done}
use ata_driver.Ata.{AtaDev}
use ata_driver.Ata.Identify.{init_loop, ata_init, identify_command}
use ata_driver.Ata.Identify.Found.{IsFound, identify_command-IsFound}
use ata_driver.Ata.Identify.Outcome.{base_of}
use ata_driver.Ata.Identify.Total.{Answers, status_at}

module _ (bus : Bus) where
  -- The reports on the devices from index `i` on, the first of which is asked in the state `s`, and
  -- before which the error is `before`: it becomes 255 at a device that is rejected.
  pub data AreReports (fuel garbage : ℕ)
      : ℕ → ℕ → List AtaDev → bus.State → ℕ → List AtaDev → bus.State → Type 0 where
    no_more : {i before : ℕ} {s : bus.State} → AreReports fuel garbage i before [] s before [] s
    report :
        {i before r error : ℕ} {dev dev' : AtaDev} {devs devs' : List AtaDev} {s s₁ s' : bus.State}
        → identify_command bus fuel garbage dev i s ≡ done (r, dev') s₁
        → IsFound bus garbage dev i s r dev'
        → AreReports fuel garbage (i + 1) (if r == 0 then before else 255) devs s₁ error devs' s'
        → AreReports fuel garbage i before (dev ∷ devs) s error (dev' ∷ devs') s'

  -- Whatever happened before, the four devices answer the IDENTIFY command within the fuel.
  abbrev pub Responsive : ℕ → Type 0
  Responsive fuel =
      (idx : ℕ) (s : bus.State)
      → idx < 4
      → Answers bus fuel (base_of idx) (status_at bus idx s).0 (status_at bus idx s).1

  abbrev Reports : ℕ → ℕ → ℕ → ℕ → ℕ → List AtaDev → bus.State → Type 0
  Reports rounds fuel garbage i before devs s =
      (error : ℕ) × (devs' : List AtaDev) × (s' : bus.State) × (init_loop bus rounds fuel garbage
          devs i before s
        ≡ done (error, devs') s')
      × AreReports fuel garbage i before devs s error devs' s'

  init_loop_lem :
      (rounds fuel garbage i before : ℕ) (devs : List AtaDev) (s : bus.State)
      → Responsive fuel
      → i + rounds ≡ 4
      → length devs ≡ rounds
      → Reports rounds fuel garbage i before devs s
  unfolding init_loop
  init_loop_lem zero fuel garbage i before [] s ready at all = (before, [], s, refl, no_more)
  init_loop_lem zero fuel garbage i before (dev ∷ devs) s ready at all = absurd (omega (arith, all))
  init_loop_lem (suc rounds) fuel garbage i before [] s ready at all = absurd (omega (arith, all))
  init_loop_lem (suc rounds) fuel garbage i before (dev ∷ devs) s ready at all =
      let (r, dev', s₁, e, good) =
        identify_command-IsFound bus fuel garbage i dev s (omega (arith, at))
          (ready i s (omega (arith, at))) in
      let (error, devs', s', e', rest) =
        init_loop_lem rounds fuel garbage (i + 1) (if r == 0 then before else u8 (2 ^ 32 - 1)) devs
          s₁ ready (omega (arith, at)) (omega (arith, all)) in
      (error, dev' ∷ devs', s', rw (init_loop, e, e') refl, report e good rest)

  pub ata_init-AreReports :
      (fuel garbage : ℕ) (devs : List AtaDev) (s : bus.State)
      → Responsive fuel
      → length devs ≡ 4
      → (error : ℕ) × (devs' : List AtaDev) × (s' : bus.State) × (ata_init bus fuel garbage devs s
          ≡ done (error, devs') s')
        × AreReports fuel garbage 0 0 devs s error devs' s'
  unfolding ata_init
  ata_init-AreReports fuel garbage devs s ready all =
      init_loop_lem 4 fuel garbage 0 0 devs s ready refl all
