-- ===== src/Kb/Refine.antt =====
-- The keyboard buffer as a queue of bytes behind an assembler of scan codes.
use mathlib.Core.Path.{ap₂}
use mathlib.Core.List.{append_assoc, append-nil}
use native.Mathlib.Numerals.{add-one}
use ata_driver.Common.{
  ℕ, zero, suc, ◌+◌, ◌%◌, ◌≤◌, ◌<◌, ◌≡◌, ◌∙◌, sym, ap, refl, Bool, false, ◌||◌, inl, inr, List, [],
  ◌∷◌, ◌++◌, ◌==◌, leb, if◌then◌else◌, get_or, set, length, length-set, get_or-set_self,
  get_or-set_ne, arith, Bool-cases,
}
use ata_driver.Common.Ring.{window, length-window, window-push}
use ata_driver.Kb.{Kb, buf_len, keeps, copy_loop, flush, on_byte}
use ata_driver.Kb.Inv.{IsValid}

-- The bytes waiting for a reader, and the bytes of the scan code under way.
abbrev pub contents : Kb → List ℕ
contents kb = window buf_len kb.buffer kb.head kb.count

abbrev pub slice : List ℕ → ℕ → ℕ → List ℕ
slice xs i zero = []
slice xs i (suc n) = get_or xs i 0 ∷ slice xs (i + 1) n

abbrev pub pending : Kb → List ℕ
pending kb = slice kb.partial 0 kb.len

-- A scan code is incomplete after a prefix byte, and after two bytes of which the first is 0xe1 or
-- the second is 0x2a or 0xb7. Nothing else is.
unfoldable pub is_incomplete : List ℕ → Bool
is_incomplete [] = false
is_incomplete (a ∷ []) = a == 0xe0 || a == 0xe1
is_incomplete (a ∷ b ∷ []) = a == 0xe1 || b == 0x2a || b == 0xb7
is_incomplete (a ∷ b ∷ c ∷ more) = false

-- What a byte does to the pending bytes and the queue. A code that does not fit is lost whole.
unfoldable pub receive : ℕ → List ℕ × List ℕ → List ℕ × List ℕ
receive byte (code, queue) =
    let code' = code ++ (byte ∷ []) in
    if is_incomplete code'
    then (code', queue)
    else ([], if leb (length queue + length code') buf_len then queue ++ code' else queue)

slice-set_beyond : (xs : List ℕ) (v i n k : ℕ) → i + n ≤ k → slice (set xs k v) i n ≡ slice xs i n
slice-set_beyond xs v i zero k h = refl
slice-set_beyond xs v i (suc n) k h =
    ap₂ ◌∷◌ (get_or-set_ne xs k i v 0 (λ e. omega arith))
      (slice-set_beyond xs v (i + 1) n k (omega arith))

slice-snoc :
    (xs : List ℕ) (i n k : ℕ)
    → k ≡ i + n
    → slice xs i (suc n) ≡ slice xs i n ++ (get_or xs k 0 ∷ [])
slice-snoc xs i zero k e = let e' : k ≡ i = omega arith in rw e'
slice-snoc xs i (suc n) k e = ap (λ w. get_or xs i 0 ∷ w) (slice-snoc xs (i + 1) n k (omega arith))

length-slice : (xs : List ℕ) (i n : ℕ) → length (slice xs i n) ≡ n
length-slice xs i zero = refl
length-slice xs i (suc n) = ap suc (length-slice xs (i + 1) n)

slice-set :
    (xs : List ℕ) (v n : ℕ)
    → n < length xs
    → slice (set xs n v) 0 (suc n) ≡ slice xs 0 n ++ (v ∷ [])
slice-set xs v n h =
    slice-snoc (set xs n v) 0 n n (omega arith)
    ∙ ap₂ (λ w y. w ++ (y ∷ [])) (slice-set_beyond xs v 0 n n (omega arith))
        (get_or-set_self xs n v 0 h)

keeps-is_incomplete : (xs : List ℕ) (n : ℕ) → n ≤ 3 → keeps xs n ≡ is_incomplete (slice xs 0 n)
unfolding keeps is_incomplete
keeps-is_incomplete xs zero h = refl
keeps-is_incomplete xs (suc zero) h = refl
keeps-is_incomplete xs (suc (suc zero)) h = refl
keeps-is_incomplete xs (suc (suc (suc zero))) h = refl
keeps-is_incomplete xs (suc (suc (suc (suc n)))) h = absurd (omega arith)

contents-copy_loop :
    (rounds i : ℕ) (kb : Kb)
    → length kb.buffer ≡ buf_len
    → kb.count + rounds ≤ buf_len
    → contents (copy_loop rounds i kb) ≡ contents kb ++ slice kb.partial i rounds
unfolding copy_loop
contents-copy_loop zero i kb e h = sym (append-nil (contents kb))
contents-copy_loop (suc rounds) i kb e h =
    contents-copy_loop rounds (i + 1)
      (record kb {
        buffer = set kb.buffer ((kb.head + kb.count) % buf_len) (get_or kb.partial i 0);
        count = kb.count + 1;
      })
      (length-set kb.buffer ((kb.head + kb.count) % buf_len) (get_or kb.partial i 0) ∙ e)
      (omega arith)
    ∙ ap (λ w. w ++ slice kb.partial (i + 1) rounds) one
    ∙ append_assoc (contents kb) (get_or kb.partial i 0 ∷ []) (slice kb.partial (i + 1) rounds)
  where
    one :
        window buf_len
          (set kb.buffer ((kb.head + kb.count) % buf_len) (get_or kb.partial i 0))
          kb.head
          (kb.count + 1)
        ≡ contents kb ++ (get_or kb.partial i 0 ∷ [])
    one = rw add-one (
        window-push buf_len kb.buffer (get_or kb.partial i 0) kb.head kb.count (omega arith)
          (omega arith))

flush_lem :
    (kb : Kb)
    → length kb.buffer ≡ buf_len
    → (contents (flush kb)
        ≡ (if leb (kb.count + kb.len) buf_len then contents kb ++ pending kb else contents kb))
      × ((flush kb).len ≡ 0)
unfolding flush
flush_lem kb e = elim (Bool-cases (leb (kb.count + kb.len) buf_len)) [
  | inl fits ↦ rw fits (contents-copy_loop kb.len 0 kb e (ground arith), refl)
  | inr full ↦ rw full (refl, refl)
]

module _ (byte : ℕ) {kb : Kb} (v : IsValid kb) where
  abbrev extended : Kb
  extended = record kb { partial = set kb.partial kb.len byte; len = kb.len + 1 }

  pending-extended : pending extended ≡ pending kb ++ (byte ∷ [])
  pending-extended =
      rw add-one (slice-set kb.partial byte kb.len (omega (arith, v.len_in, v.partial_storage)))

  keeps-extended : keeps extended.partial extended.len ≡ is_incomplete (pending kb ++ (byte ∷ []))
  keeps-extended =
      keeps-is_incomplete extended.partial extended.len (omega (arith, v.len_in))
      ∙ ap is_incomplete pending-extended

  length-code : length (pending kb ++ (byte ∷ [])) ≡ kb.len + 1
  length-code = ap length (sym pending-extended) ∙ length-slice extended.partial 0 extended.len

  flush-extended : contents (flush extended) ≡ (
      if leb (length (contents kb) + length (pending kb ++ (byte ∷ []))) buf_len
      then contents kb ++ (pending kb ++ (byte ∷ []))
      else contents kb)
  flush-extended =
      rw (length-code, length-window buf_len kb.buffer kb.head kb.count, ← pending-extended)
        (flush_lem extended v.storage).0

  -- On a valid keyboard state, a byte from the encoder does exactly what `receive` says: it is
  -- held back, or the completed code joins the queue in order, or a code for which there is no
  -- room is dropped and the queue is as it was.
  pub on_byte-receive :
      (let kb' = on_byte byte kb in (pending kb', contents kb'))
      ≡ receive byte (pending kb, contents kb)
  unfolding on_byte receive
  on_byte-receive = elim (Bool-cases (is_incomplete (pending kb ++ (byte ∷ [])))) [
    | inl more ↦ rw (keeps-extended, more) (ap (λ p. (p, contents kb)) pending-extended)
    | inr done ↦
        rw (keeps-extended, done)
          (ap₂ (λ p q. (p, q))
            (ap (slice (flush extended).partial 0) (flush_lem extended v.storage).1) flush-extended)
  ]
