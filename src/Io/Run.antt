-- ===== src/Io/Run.antt =====
-- Commands that poll the hardware, on fuel, and touch a caller's buffer.
use ata_driver.Common.{ℕ}

-- `waiting`: the fuel ran out in a polling loop. `fault`: an access outside of an array.
pub data Run (S A : Type 0) : Type 0 where
  done : A → S → Run S A
  waiting : Run S A
  fault : Run S A

abbrev pub Cmd : Type 0 → Type 0 → Type 0
Cmd S A = S → Run S A

abbrev pub pure : {S A : Type 0} → A → Cmd S A
pure = done

module _ {S A B : Type 0} where
  abbrev pub and_then : Run S A → (A → Cmd S B) → Run S B
  and_then (done a s) k = k a s
  and_then waiting k = waiting
  and_then fault k = fault

  infixl 5 ◌>>=◌
  abbrev pub ◌>>=◌ : Cmd S A → (A → Cmd S B) → Cmd S B
  m >>= k = λ s. and_then (m s) k

infixl 5 ◌>>◌
abbrev pub ◌>>◌ : {S B : Type 0} → Cmd S (Unit {0}) → Cmd S B → Cmd S B
m >> k = m >>= λ _. k

-- A step that always succeeds.
abbrev pub effect : {S : Type 0} → (S → S) → Cmd S (Unit {0})
effect f s = done tt (f s)

abbrev pub read_from : {S : Type 0} → (S → ℕ × S) → Cmd S ℕ
read_from f s = let (v, s') = f s in done v s'

-- A run makes no fault, and where it ends, its result is as `P` says.
pub data Ends {S A : Type 0} (P : A → Type 0) : Run S A → Type 0 where
  ended : {a : A} (s : S) → P a → Ends P (done a s)
  polling : Ends P waiting

pub Ends-and_then :
    {S A B : Type 0} (P : A → Type 0) (Q : B → Type 0) (r : Run S A) (k : A → Cmd S B)
    → Ends P r
    → ((a : A) (s : S) → P a → Ends Q (k a s))
    → Ends Q (and_then r k)
Ends-and_then P Q r k (ended {a} s p) next = next a s p
Ends-and_then P Q r k polling next = polling
