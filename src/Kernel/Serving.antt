-- ===== src/Kernel/Serving.antt =====
-- From the memory map to the first round of the idle loop.
use ata_driver.Common.{ℕ, ◌≡◌, ◌∙◌, refl, arith, []}
use ata_driver.Io.{Bus}
use ata_driver.Io.Run.{done}
use ata_driver.Ata.Identify.Devices.{Responsive, ata_init-AreReports}
use ata_driver.Serial.{serial_1_irq}
use ata_driver.Kernel.{Machine, Given, idle, keyboard_irq, disks_of, start_disks, kmain}
use ata_driver.Kernel.Drivers.{IsSupplied}
use ata_driver.Kernel.Boot.{IsStatic, IsReady, IsBootable, first_free, kmain-IsReady}
use ata_driver.Kernel.Idle.{pending, IsServing, moved}

IsReady-IsServing :
    {S : Type 0} (g : Given) (first : ℕ) (m : Machine S) → IsReady g first m → IsServing m
IsReady-IsServing g first m v = record {
  key_handler = v.registry.handlers keyboard_irq (omega arith);
  char_handler = v.registry.handlers serial_1_irq (omega arith);
  ports = omega (arith, v.ports);
  port = v.port;
}

start_disks-idle :
    (bus : Bus) (g : Given) (m : Machine bus.State)
    → Responsive bus g.fuel
    → (s : bus.State) × (start_disks bus g m ≡ done idle (record m { hardware = s }))
unfolding start_disks
start_disks-idle bus g m answers =
    let (_, _, s, e, _) =
      ata_init-AreReports bus g.fuel g.garbage (disks_of bus g) m.hardware answers refl in
    (s, rw (start_disks, e) refl)

-- For a memory map with no region above 4G, with an available region that holds the bitmap, and with
-- all of the frames between the bitmap and the user's first frame there and not reserved; with the
-- statics as they are before the start and below the heap, blocks of the sizes asked for, fuel for
-- six entries of the heap, where what `kb_init` leaves as its value without a `return` is not -1, and
-- where the four disks answer every IDENTIFY command within the fuel: `kmain` neither panics nor
-- polls forever. It reaches its idle loop, with both handlers registered, the buffer of COM1 in
-- order, and no byte pending.
pub kmain-IsServing :
    (bus : Bus) (g : Given) (m : Machine bus.State)
    → IsSupplied g
    → IsBootable g
    → IsStatic m
    → Responsive bus g.fuel
    → (m' : Machine bus.State) × (kmain bus g m ≡ done idle m') × IsServing m' × (pending m' ≡ [])
kmain-IsServing bus g m supplied bootable static answers =
    let (m₁, booted, v) = kmain-IsReady bus g m supplied bootable static in
    let (s, e) = start_disks-idle bus g m₁ answers in
    (
      record m₁ { hardware = s },
      booted ∙ e,
      moved (IsReady-IsServing g (first_free g) m₁ v) s,
      v.no_char,
    )
