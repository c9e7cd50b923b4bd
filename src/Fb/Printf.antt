-- ===== src/Fb/Printf.antt =====
-- `fb_printf` of src/kernel/drivers/fb.c: the placeholders are those of `sprintf`, the output goes
-- to the screen.
pub mod Same
pub mod Digits
pub mod Print
use ata_driver.Common.{
  ℕ, ◌+◌, ◌%◌, Option, none, some, List, [], ◌∷◌, ◌==◌, if◌then◌else◌, u32, length,
}
use ata_driver.Io.{Bus}
use ata_driver.Fb.{Fb, rows, row, set_pos, write, sync_cur}
use ata_driver.Str.Format.{
  Arg, State, literal, placeholder, based, quad, percent, string, waits, unknown, mismatch, Pick,
  pick, print_based, print_quad,
}

-- The loop between two characters of the format: the state, the arguments left, the string in
-- `buf`, the count and the screen; or stopped by a bad format, or by a fault as in `sprintf`.
pub data Progress : Type 0 where
  going : State → List Arg → List ℕ → ℕ → Fb → Progress
  stopped : Fb → Progress
  broken : Progress

-- `fb_write(buf, strlen(buf)); count += strlen(buf);`, where `buf` holds the string `s`.
unfoldable pub show : List ℕ → List Arg → ℕ → Fb → Progress
show s args count fb = going literal args s (u32 (count + length s)) (write s fb)

-- The same with a number's digits.
abbrev pub show_digits : Option (Option (List ℕ)) → List Arg → ℕ → Fb → Progress
show_digits none args count fb = stopped fb
show_digits (some none) args count fb = broken
show_digits (some (some s)) args count fb = show s args count fb

-- A character outside of a placeholder.
unfoldable pub show_literal : ℕ → List Arg → List ℕ → ℕ → Fb → Progress
show_literal c args buf count fb =
    if c == 37
    then going placeholder args buf count fb
    else (if c == 10
        then going literal args buf (u32 (count + 1)) (set_pos ((row fb + 1) % rows) 0 fb)
        else (if c == 13
            then going literal args buf (u32 (count + 1)) (set_pos (row fb) 0 fb)
            else going literal args buf (u32 (count + 1)) (write (c ∷ []) fb)))

-- The first character of a placeholder. One for a string takes its argument and prints `buf`.
unfoldable pub show_pick : Pick → List ℕ → ℕ → Fb → Progress
show_pick (percent left) buf count fb = show (37 ∷ []) left count fb
show_pick (string s left) buf count fb = show buf left count fb
show_pick (waits state left) buf count fb = going state left buf count fb
show_pick unknown buf count fb = stopped fb
show_pick mismatch buf count fb = broken

-- One character of the format.
unfoldable pub step : ℕ → Progress → Progress
step c (stopped fb) = stopped fb
step c broken = broken
step c (going literal args buf count fb) = show_literal c args buf count fb
step c (going placeholder args buf count fb) = show_pick (pick c args) buf count fb
step c (going (based d) args buf count fb) = show_digits (print_based d c) args count fb
step c (going (quad q) args buf count fb) = show_digits (print_quad q c) args count fb

unfoldable pub run : List ℕ → Progress → Progress
run [] p = p
run (c ∷ fmt) p = run fmt (step c p)

-- The value returned, the screen and the bus; -1 is `rejected`.
pub data Printed (S : Type 0) : Type 0 where
  returned : ℕ → Fb × S → Printed S
  rejected : Fb × S → Printed S
  undefined : Printed S

-- The end of the format. A placeholder without its second character is a bad format.
unfoldable pub finish : (bus : Bus) → Progress → bus.State → Printed bus.State
finish bus (going literal args buf count fb) s = returned count (sync_cur bus fb s)
finish bus (going placeholder args buf count fb) s = returned count (sync_cur bus fb s)
finish bus (going (based d) args buf count fb) s = rejected (sync_cur bus fb s)
finish bus (going (quad q) args buf count fb) s = rejected (sync_cur bus fb s)
finish bus (stopped fb) s = rejected (sync_cur bus fb s)
finish bus broken s = undefined

-- `junk` is the string that `buf` happens to hold at first.
unfoldable pub printf :
    (bus : Bus) → List ℕ → List Arg → List ℕ → Fb → bus.State → Printed bus.State
printf bus fmt args junk fb s = finish bus (run fmt (going literal args junk 0 fb)) s
