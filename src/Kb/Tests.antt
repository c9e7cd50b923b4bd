-- ===== src/Kb/Tests.antt =====
-- Runs of the keyboard driver from its initial state.
use ata_driver.Common.{ℕ, ◌≡◌, refl, arith, List, [], ◌∷◌, ◌++◌, some, none, replicate, inl, inr}
use ata_driver.Kb.{Kb, on_byte, scan_code}
use ata_driver.Kb.Inv.{IsValid, on_byte-IsValid}
use ata_driver.Kb.Refine.{contents, pending, receive, on_byte-receive}
use ata_driver.Kb.Codes.{feed, drain, concat, one, two, drain-feed, long_code_underflow}

abbrev fresh : Kb
fresh = record { buffer = replicate 32 0; head = 30; count = 0; partial = replicate 6 0; len = 0 }

fresh-IsValid : IsValid fresh
fresh-IsValid = record {
  storage = refl;
  head_in = omega arith;
  count_in = omega arith;
  partial_storage = refl;
  len_in = omega arith;
  prefix = λ h. absurd (omega arith);
}

on_byte-IsValid_example : IsValid (on_byte 0xe0 fresh)
on_byte-IsValid_example = on_byte-IsValid 0xe0 fresh-IsValid

on_byte-receive_example :
    (let kb' = on_byte 0x1c fresh in (pending kb', contents kb'))
    ≡ receive 0x1c (pending fresh, contents fresh)
on_byte-receive_example = on_byte-receive 0x1c fresh-IsValid

abbrev two_codes : Kb
two_codes = record fresh { buffer = 0x1c ∷ 0x1d ∷ replicate 28 0 ++ (0xe0 ∷ 0x48 ∷ []); count = 3 }

abbrev keys : List (List ℕ)
keys = (0x1c ∷ []) ∷ (0xe0 ∷ 0x48 ∷ []) ∷ (0x9c ∷ []) ∷ []

drain-feed_example : drain keys (feed (concat keys) fresh) ≡ some keys
drain-feed_example =
    drain-feed keys
      (
        one 0x1c (omega arith) (omega arith),
        (two 0x48 (omega arith) (omega arith), (one 0x9c (omega arith) (omega arith), tt)),
      )
      fresh-IsValid refl refl (omega arith)

long_code_underflow_example :
    (contents (feed (0xe0 ∷ 0x2a ∷ 0xe0 ∷ []) fresh) ≡ 0xe0 ∷ 0x2a ∷ 0xe0 ∷ [])
    × (scan_code (feed (0xe0 ∷ 0x2a ∷ 0xe0 ∷ []) fresh) ≡ none)
long_code_underflow_example =
    long_code_underflow 0xe0 0x2a 0xe0 (inr (refl, inl refl)) fresh-IsValid refl refl
