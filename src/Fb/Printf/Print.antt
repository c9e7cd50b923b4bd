-- ===== src/Fb/Printf/Print.antt =====
-- Calls of `fb_printf` whose value is not used.
use Prim.Native.String.{String}
use ata_driver.Common.{List, [], codes}
use ata_driver.Io.{Bus}
use ata_driver.Io.Run.{Run, Cmd, done, fault}
use ata_driver.Fb.{Fb}
use ata_driver.Str.Format.{Arg}
use ata_driver.Fb.Printf.{Printed, returned, rejected, undefined, printf}

abbrev pub ignore : {S : Type 0} → Printed S → Run (Fb × S) (Unit {0})
ignore (returned _ out) = done tt out
ignore (rejected out) = done tt out
ignore undefined = fault

-- None of these formats has a placeholder that prints an unset buffer.
pub print : (bus : Bus) → String → List Arg → Cmd (Fb × bus.State) (Unit {0})
print bus fmt args (fb, s) = ignore (printf bus (codes fmt) args [] fb s)
