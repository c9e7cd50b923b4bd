-- ===== src/Fb/Printf/Same.antt =====
-- `fb_printf` shows what `sprintf` writes.
use ata_driver.Fb.Printf.Digits.{
  AreNumbers, AreDigits, print_based-AreDigits, print_quad-AreDigits, IsNumeric, pick-IsNumeric,
}
use ata_driver.Common.{
  ℕ, ◌+◌, ◌^◌, ◌≡◌, ◌≢◌, refl, sym, ◌∙◌, arith, Option, none, some, List, [], ◌∷◌, ◌++◌, ◌==◌, u32,
  length, inl, inr, ◌<◌, Bool-cases, ==_ne,
}
use ata_driver.Io.{Bus}
use ata_driver.Fb.{Fb, write, sync_cur}
use ata_driver.Str.Number.RoundTrip.{NonZero}
use ata_driver.Str.Format.{
  Arg, State, literal, placeholder, based, quad, Output, Pick, emit, percent, string, waits,
  unknown, mismatch, pick, print_based, print_quad, printed, bad_format, fault, format, sprintf,
  finish as finish_format,
}
use ata_driver.Fb.Printf.{
  going, stopped, broken, show_pick, show, show_digits, show_literal, step, run, Printed, returned,
  rejected, undefined, finish, printf,
}

-- Text without a line feed, a carriage return and a zero byte.
abbrev pub IsSimple : List ℕ → Type 0
IsSimple [] = Unit {0}
IsSimple (c ∷ fmt) = (c ≢ 0) × (c ≢ 10) × (c ≢ 13) × IsSimple fmt

-- The outcome of `fb_printf` if what `sprintf` writes is shown on the screen, `count` characters
-- after the start.
abbrev pub through : (bus : Bus) → ℕ → Output → Fb → bus.State → Printed bus.State
through bus count (printed out) fb s =
    returned (u32 (count + length out)) (sync_cur bus (write out fb) s)
through bus count (bad_format out) fb s = rejected (sync_cur bus (write out fb) s)
through bus count fault fb s = undefined

length-append : {A : Type 0} (xs ys : List A) → length (xs ++ ys) ≡ length xs + length ys
length-append [] ys = omega arith
length-append (x ∷ xs) ys = omega (arith, length-append xs ys)

write-append :
    (xs ys : List ℕ) (fb : Fb) → NonZero xs → write (xs ++ ys) fb ≡ write ys (write xs fb)
unfolding write
write-append [] ys fb nz = refl
write-append (x ∷ xs) ys fb nz = rw (==_ne x 0 nz.0) (write-append xs ys _ nz.1)

through-emit :
    (bus : Bus) (count : ℕ) (xs : List ℕ) (o : Output) (fb : Fb) (s : bus.State)
    → NonZero xs
    → through bus count (emit xs o) fb s ≡ through bus (u32 (count + length xs)) o (write xs fb) s
unfolding emit
through-emit bus count xs (printed out) fb s nz =
    let n : u32 (count + length (xs ++ out)) ≡ u32 (u32 (count + length xs) + length out) =
      omega (arith, length-append xs out) in
    rw (n, write-append xs out fb nz) refl
through-emit bus count xs (bad_format out) fb s nz = rw (write-append xs out fb nz) refl
through-emit bus count xs fault fb s nz = refl

run-stopped : (fmt : List ℕ) (fb : Fb) → run fmt (stopped fb) ≡ stopped fb
unfolding run step
run-stopped [] fb = refl
run-stopped (c ∷ fmt) fb = run-stopped fmt fb

run-broken : (fmt : List ℕ) → run fmt broken ≡ broken
unfolding run step
run-broken [] = refl
run-broken (c ∷ fmt) = run-broken fmt

finish-stopped :
    (bus : Bus) (fmt : List ℕ) (fb : Fb) (s : bus.State)
    → finish bus (run fmt (stopped fb)) s ≡ rejected (sync_cur bus (write [] fb) s)
unfolding write finish
finish-stopped bus fmt fb s = rw (run-stopped fmt fb) refl

finish-broken :
    (bus : Bus) (fmt : List ℕ) (s : bus.State) → finish bus (run fmt broken) s ≡ undefined
unfolding finish
finish-broken bus fmt s = rw (run-broken fmt) refl

-- The digits of a placeholder, and the rest of the format.
digits_lem :
    (bus : Bus) (o : Option (Option (List ℕ))) (fmt : List ℕ) (args : List Arg) (count : ℕ)
    (fb : Fb) (s : bus.State) (rest : Output)
    → AreDigits o
    → ((xs : List ℕ)
        → finish bus (run fmt (show xs args count fb)) s
          ≡ through bus (u32 (count + length xs)) rest (write xs fb) s)
    → finish bus (run fmt (show_digits o args count fb)) s
      ≡ through bus count (finish_format o rest) fb s
digits_lem bus none fmt args count fb s rest d next = finish-stopped bus fmt fb s
digits_lem bus (some none) fmt args count fb s rest d next = finish-broken bus fmt s
digits_lem bus (some (some xs)) fmt args count fb s rest d next =
    next xs ∙ sym (through-emit bus count xs rest fb s d)

-- The loop agrees from every state on.
abbrev Agrees : Bus → List ℕ → Type 0
Agrees bus fmt =
    (state : State) (args : List Arg) (buf : List ℕ) (count : ℕ) (fb : Fb) (s : bus.State)
    → AreNumbers args
    → count < 2 ^ 32
    → finish bus (run fmt (going state args buf count fb)) s
      ≡ through bus count (format state fmt args) fb s

module _ (bus : Bus) (fmt : List ℕ) (rest : Agrees bus fmt) where
  show-Agrees :
      (xs : List ℕ) (args : List Arg) (count : ℕ) (fb : Fb) (s : bus.State)
      → AreNumbers args
      → finish bus (run fmt (show xs args count fb)) s
        ≡ through bus (u32 (count + length xs)) (format literal fmt args) (write xs fb) s
  unfolding show
  show-Agrees xs args count fb s n =
      rest literal args xs (u32 (count + length xs)) (write xs fb) s n (omega arith)

  pick-Agrees :
      (p : Pick) (buf : List ℕ) (count : ℕ) (fb : Fb) (s : bus.State)
      → IsNumeric p
      → count < 2 ^ 32
      → finish bus (run fmt (show_pick p buf count fb)) s
        ≡ through bus count
            (elim p [
              | percent left ↦ emit (37 ∷ []) (format literal fmt left)
              | string s left ↦ emit s (format literal fmt left)
              | waits state left ↦ format state fmt left
              | unknown ↦ bad_format []
              | mismatch ↦ fault
            ])
            fb
            s
  unfolding show_pick
  pick-Agrees (percent left) buf count fb s n small =
      show-Agrees (37 ∷ []) left count fb s n
      ∙ sym
          (through-emit bus count (37 ∷ []) (format literal fmt left) fb s ((λ e. omega arith), tt))
  pick-Agrees (string xs left) buf count fb s n small = absurd n
  pick-Agrees (waits state left) buf count fb s n small = rest state left buf count fb s n small
  pick-Agrees unknown buf count fb s n small = finish-stopped bus fmt fb s
  pick-Agrees mismatch buf count fb s n small = finish-broken bus fmt s

  literal-Agrees :
      (c : ℕ) (args : List Arg) (buf : List ℕ) (count : ℕ) (fb : Fb) (s : bus.State)
      → c ≢ 0
      → c ≢ 10
      → c ≢ 13
      → AreNumbers args
      → count < 2 ^ 32
      → finish bus (run fmt (show_literal c args buf count fb)) s
        ≡ through bus count (format literal (c ∷ fmt) args) fb s
  unfolding show_literal format
  literal-Agrees c args buf count fb s nz nl nr n small = elim (Bool-cases (c == 37)) [
    | inl mark ↦ rw mark (rest placeholder args buf count fb s n small)
    | inr plain ↦
        rw (plain, ==_ne c 10 nl, ==_ne c 13 nr)
          (rest literal args buf (u32 (count + 1)) (write (c ∷ []) fb) s n (omega arith)
            ∙ sym (through-emit bus count (c ∷ []) (format literal fmt args) fb s (nz, tt)))
  ]

ends :
    (bus : Bus) (count : ℕ) (fb : Fb) (s : bus.State)
    → count < 2 ^ 32
    → (let end = sync_cur bus fb s in
        ◌≡◌ {A = Printed bus.State} (returned count end) (returned (u32 (count + 0)) end))
ends bus count fb s small = let e : u32 (count + 0) ≡ count = omega arith in rw e refl

all-Agrees : (bus : Bus) (fmt : List ℕ) → IsSimple fmt → Agrees bus fmt
unfolding run step format finish write
all-Agrees bus [] simple literal args buf count fb s n small = ends bus count fb s small
all-Agrees bus [] simple placeholder args buf count fb s n small = ends bus count fb s small
all-Agrees bus [] simple (based d) args buf count fb s n small = refl
all-Agrees bus [] simple (quad q) args buf count fb s n small = refl
all-Agrees bus (c ∷ fmt) simple literal args buf count fb s n small =
    literal-Agrees bus fmt (all-Agrees bus fmt simple.3) c args buf count fb s simple.0 simple.1
      simple.2 n small
all-Agrees bus (c ∷ fmt) simple placeholder args buf count fb s n small =
    pick-Agrees bus fmt (all-Agrees bus fmt simple.3) (pick c args) buf count fb s
      (pick-IsNumeric c args n) small
all-Agrees bus (c ∷ fmt) simple (based d) args buf count fb s n small =
    digits_lem bus (print_based d c) fmt args count fb s (format literal fmt args)
      (print_based-AreDigits d c)
      (λ xs. show-Agrees bus fmt (all-Agrees bus fmt simple.3) xs args count fb s n)
all-Agrees bus (c ∷ fmt) simple (quad q) args buf count fb s n small =
    digits_lem bus (print_quad q c) fmt args count fb s (format literal fmt args)
      (print_quad-AreDigits q c)
      (λ xs. show-Agrees bus fmt (all-Agrees bus fmt simple.3) xs args count fb s n)

-- For a format without line feeds and carriage returns, and numbers as the only arguments:
-- `fb_printf` writes to the screen exactly what `sprintf` writes to its buffer, then moves the
-- cursor, whatever `buf` holds at first. It returns the same count; where `sprintf` returns -1 it
-- returns -1 after the same output, and it faults where `sprintf` does.
pub printf-sprintf :
    (bus : Bus) (fmt : List ℕ) (args : List Arg) (junk : List ℕ) (fb : Fb) (s : bus.State)
    → IsSimple fmt
    → AreNumbers args
    → printf bus fmt args junk fb s ≡ through bus 0 (sprintf fmt args) fb s
unfolding printf sprintf
printf-sprintf bus fmt args junk fb s simple n =
    all-Agrees bus fmt simple literal args junk 0 fb s n (omega arith)
