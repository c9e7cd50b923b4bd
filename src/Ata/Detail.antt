-- ===== src/Ata/Detail.antt =====
-- `detail_dev` of src/kernel/drivers/ata.c.
use ata_driver.Common.{[], ◌∷◌}
use ata_driver.Io.{Bus}
use ata_driver.Io.Run.{Cmd, done, ◌>>◌}
use ata_driver.Ata.{AtaDev}
use ata_driver.Str.Format.{number}
use ata_driver.Fb.{Fb, write}
use ata_driver.Fb.Printf.Print.{print}

-- The model ends at its first zero byte.
pub detail_dev : (bus : Bus) → AtaDev → Cmd (Fb × bus.State) (Unit {0})
detail_dev bus dev =
    print bus "present = %dd\n" (number dev.present ∷ [])
    >> print bus "channel = %dd\n" (number dev.channel ∷ [])
    >> print bus "drive = %dd\n" (number dev.drive ∷ [])
    >> print bus "type = %dd\n" (number dev.kind ∷ [])
    >> print bus "signature = %dd\n" (number dev.signature ∷ [])
    >> print bus "capabilities = %dd\n" (number dev.capabilities ∷ [])
    >> print bus "commandsets = %dd\n" (number dev.commandsets ∷ [])
    >> print bus "size = %dd\n" (number dev.size ∷ [])
    >> (λ out. done tt (write dev.model out.0, out.1))
    >> print bus "\n" []
