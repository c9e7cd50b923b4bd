-- ===== src/Fb/Tests.antt =====
-- Runs of the framebuffer driver.
use ata_driver.Common.{ℕ, ◌+◌, ◌≡◌, refl, arith, List, [], ◌∷◌}
use ata_driver.Io.{Bus}
use ata_driver.Fb.{Fb, write, sync_cur}
use ata_driver.Fb.Printf.{printf, run, step, show_pick, show, show_literal, finish, returned}
use ata_driver.Fb.Printf.Same.{through, printf-sprintf}
use ata_driver.Str.Format.{number, text, pick, sprintf}
use ata_driver.Fb.Write.{IsWritten, write-IsWritten}

abbrev screen : Fb
screen = record { pos = 1999; cur = 3; col = 0x1f; mem = λ a. 0 }

abbrev quiet_bus : Bus
quiet_bus = record {
  State = ℕ;
  in8 = λ port s. (0, s);
  in16 = λ port s. (0, s);
  out8 = λ port v s. s + v;
  out16 = λ port v s. s;
}

write-IsWritten_example : IsWritten (72 ∷ 105 ∷ []) screen (write (72 ∷ 105 ∷ []) screen)
write-IsWritten_example =
    write-IsWritten (72 ∷ 105 ∷ []) screen ((λ e. omega arith), ((λ e. omega arith), tt))
      (omega arith) (omega arith)

-- "N=%dd."
abbrev numbered : List ℕ
numbered = 78 ∷ 61 ∷ 37 ∷ 100 ∷ 100 ∷ 46 ∷ []

printf-sprintf_example :
    printf quiet_bus numbered (number 4096 ∷ []) (63 ∷ []) screen 0
    ≡ through quiet_bus 0 (sprintf numbered (number 4096 ∷ [])) screen 0
printf-sprintf_example =
    printf-sprintf quiet_bus numbered (number 4096 ∷ []) (63 ∷ []) screen 0
      (
        (λ e. omega arith),
        (λ e. omega arith),
        (λ e. omega arith),
        (
          (λ e. omega arith),
          (λ e. omega arith),
          (λ e. omega arith),
          (
            (λ e. omega arith),
            (λ e. omega arith),
            (λ e. omega arith),
            (
              (λ e. omega arith),
              (λ e. omega arith),
              (λ e. omega arith),
              (
                (λ e. omega arith),
                (λ e. omega arith),
                (λ e. omega arith),
                ((λ e. omega arith), (λ e. omega arith), (λ e. omega arith), tt),
              ),
            ),
          ),
        ),
      )
      tt

-- "%s" takes its argument and prints what `buf` held.
printf_run :
    printf quiet_bus (37 ∷ 115 ∷ []) (text (65 ∷ []) ∷ []) (63 ∷ []) screen 0
    ≡ returned 1 (sync_cur quiet_bus (write (63 ∷ []) screen) 0)
unfolding printf run step show_pick show pick finish show_literal
printf_run = refl
