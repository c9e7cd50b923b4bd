-- ===== src/Kernel/Echo.antt =====
-- The idle loop between interrupts: what COM1 receives goes to the screen.
use mathlib.Core.List.{append-nil, append_assoc}
use ata_driver.Common.{
  ℕ, zero, suc, ◌<◌, ◌≡◌, ◌∙◌, refl, sym, ap, arith, true, Option, none, some, List, [], ◌∷◌, ◌++◌,
  ltb, length,
}
use ata_driver.Io.{Bus}
use ata_driver.Io.Run.{done}
use ata_driver.Serial.{serial_1_irq}
use ata_driver.Serial.Receive.{accept, offered}
use ata_driver.Fb.{Fb, write}
use ata_driver.Kernel.{Machine, keyboard_irq, idle_round}
use ata_driver.Kernel.Idle.{
  pending, IsServing, moved, idle_round-prints, idle_round-waits, idle_round-some, key_lem,
  char_lem,
}
use ata_driver.Kernel.Interrupt.{on_interrupt}

-- Each byte by a `fb_write` of its own. A zero byte is the end of its string, and prints nothing.
abbrev pub echo : List ℕ → Fb → Fb
echo [] fb = fb
echo (c ∷ cs) fb = echo cs (write (c ∷ []) fb)

abbrev pub from_port : Option ℕ → List ℕ
from_port none = []
from_port (some c) = c ∷ []

accept-room :
    (bus : Bus) (o : Option ℕ) (q : List ℕ) → length q < 63 → accept bus o q ≡ q ++ from_port o
accept-room bus none q room = sym (append-nil q)
accept-room bus (some c) q room =
    let fits : ltb (length q) 63 ≡ true = ground (arith, room) in rw fits refl

module _ (bus : Bus) where
  -- What may happen while the kernel idles, with the bytes that the handler takes from COM1: the
  -- hardware moves on, the keyboard or COM1 interrupts, or the loop makes a round. COM1 interrupts
  -- with fewer than 63 bytes pending. All other lines are masked.
  pub data Steps : Machine bus.State → List ℕ → Machine bus.State → Type 0 where
    stay : {m : Machine bus.State} → Steps m [] m
    move :
        {m m' : Machine bus.State} {cs : List ℕ} (s : bus.State)
        → Steps (record m { hardware = s }) cs m'
        → Steps m cs m'
    key :
        {m m₁ m' : Machine bus.State} {cs : List ℕ}
        → on_interrupt bus keyboard_irq m ≡ done tt m₁
        → Steps m₁ cs m'
        → Steps m cs m'
    char :
        {m m₁ m' : Machine bus.State} {cs : List ℕ}
        → length (pending m) < 63
        → on_interrupt bus serial_1_irq m ≡ done tt m₁
        → Steps m₁ cs m'
        → Steps m (from_port (offered bus serial_1_irq m.hardware) ++ cs) m'
    print :
        {m m₁ m' : Machine bus.State} {cs : List ℕ}
        → idle_round bus m ≡ some m₁
        → Steps m₁ cs m'
        → Steps m cs m'

  -- What the loop has printed between two machines, out of what was pending and what came in.
  abbrev pub Echoed : Machine bus.State → List ℕ → Machine bus.State → Type 0
  Echoed m cs m' =
      IsServing m'
      × (printed : List ℕ) × (pending m ++ cs ≡ printed ++ pending m')
      × (m'.fb ≡ echo printed m.fb)

  -- A step that leaves the screen alone, before the others.
  Echoed-quiet :
      (m m₁ m' : Machine bus.State) (new cs : List ℕ)
      → pending m₁ ≡ pending m ++ new
      → m₁.fb ≡ m.fb
      → Echoed m₁ cs m'
      → Echoed m (new ++ cs) m'
  Echoed-quiet m m₁ m' new cs p f (v, printed, e, shown) = (
    v,
    printed,
    sym (append_assoc (pending m) new cs) ∙ ap (λ q. q ++ cs) (sym p) ∙ e,
    shown ∙ ap (echo printed) f,
  )

  Echoed-print :
      (m m₁ m' : Machine bus.State) (c : ℕ) (rest cs : List ℕ)
      → pending m ≡ c ∷ rest
      → pending m₁ ≡ rest
      → m₁.fb ≡ write (c ∷ []) m.fb
      → Echoed m₁ cs m'
      → Echoed m cs m'
  Echoed-print m m₁ m' c rest cs p p₁ f (v, printed, e, shown) = (
    v,
    c ∷ printed,
    ap (λ q. q ++ cs) p ∙ ap (λ q. c ∷ (q ++ cs)) (sym p₁) ∙ ap (λ q. c ∷ q) e,
    shown ∙ ap (echo printed) f,
  )

  -- The kernel idles with its handlers registered and the buffer of COM1 in order. Over any
  -- sequence of interrupts of the keyboard and of COM1, steps of the hardware and rounds of the
  -- loop, in which COM1 never interrupts with 63 bytes pending: what was pending at first and what
  -- the handler has taken from COM1 since are, in order, what the loop has printed and what is
  -- pending at the end; the screen is as those prints leave it; and the kernel still serves.
  pub Steps-Echoed :
      {m m' : Machine bus.State} {cs : List ℕ} → IsServing m → Steps m cs m' → Echoed m cs m'
  Steps-Echoed {m} v stay = (v, [], append-nil (pending m), refl)
  Steps-Echoed v (move s rest) = Steps-Echoed (moved v s) rest
  Steps-Echoed {m} {m'} {cs} v (key {m₁} e rest) =
      let (v₁, p, f) = key_lem bus m m₁ v e in
      Echoed-quiet m m₁ m' [] cs (p ∙ sym (append-nil (pending m))) f (Steps-Echoed v₁ rest)
  Steps-Echoed {m} {m'} v (char {m₁} {cs} room e rest) =
      let o = offered bus serial_1_irq m.hardware in
      let (v₁, p, f) = char_lem bus m m₁ v e in
      Echoed-quiet m m₁ m' (from_port o) cs (p ∙ accept-room bus o (pending m) room) f
        (Steps-Echoed v₁ rest)
  Steps-Echoed {m} {m'} {cs} v (print {m₁} e rest) =
      let (c, left, here, v₁, p, f) = idle_round-some bus m m₁ v e in
      Echoed-print m m₁ m' c left cs here p f (Steps-Echoed v₁ rest)

  -- `n` rounds, where none of them halts.
  abbrev pub rounds : ℕ → Machine bus.State → Option (Machine bus.State)
  rounds zero m = some m
  rounds (suc n) m = elim (idle_round bus m) [ none ↦ none | some m' ↦ rounds n m' ]

  -- Left alone with its handlers registered and the buffer of COM1 in order, the loop makes as many
  -- rounds as bytes are pending, which print these bytes in order; then none is pending, and the
  -- next round halts until an interrupt.
  pub rounds-echo :
      (m : Machine bus.State)
      → IsServing m
      → (m' : Machine bus.State) × (rounds (length (pending m)) m ≡ some m')
        × (m'.fb ≡ echo (pending m) m.fb)
        × (pending m' ≡ [])
        × (idle_round bus m' ≡ none)
  rounds-echo m v = go (pending m) m v refl
    where
      go :
          (cs : List ℕ) (m : Machine bus.State)
          → IsServing m
          → pending m ≡ cs
          → (m' : Machine bus.State) × (rounds (length cs) m ≡ some m')
            × (m'.fb ≡ echo cs m.fb)
            × (pending m' ≡ [])
            × (idle_round bus m' ≡ none)
      go [] m v p = (m, refl, refl, p, idle_round-waits bus m v p)
      go (c ∷ cs) m v p =
          let (m₁, e, v₁, p₁, f) = idle_round-prints bus m c cs v p in
          let (m', r, shown, empty, halts) = go cs m₁ v₁ p₁ in
          (m', rw (rounds, e) r, shown ∙ ap (echo cs) f, empty, halts)
