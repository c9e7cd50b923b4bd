-- ===== src/Kb/Codes.antt =====
-- Whole scan codes from the encoder to the reader: the short ones arrive, the long ones do not.
use mathlib.Core.Path.{ap₂}
use mathlib.Core.List.{append-nil, append_assoc}
use ata_driver.Common.{
  ℕ, ◌+◌, ◌≤◌, ◌<◌, ◌≡◌, ◌≢◌, ◌⊎◌, ◌∙◌, sym, ap, refl, Option, none, some, List, [], ◌∷◌, ◌++◌,
  length, length-append, arith,
}
use ata_driver.Kb.{Kb, buf_len, scan_code, on_byte}
use ata_driver.Kb.Inv.{IsValid, on_byte-IsValid}
use ata_driver.Kb.Refine.{contents, pending, receive, is_incomplete, on_byte-receive}
use ata_driver.Kb.Read.{head_size, scan_code-code, scan_code-underflow}

-- The handler on several bytes, one interrupt each.
pub feed : List ℕ → Kb → Kb
feed [] kb = kb
feed (b ∷ bytes) kb = feed bytes (on_byte b kb)

pub feed-IsValid : (bytes : List ℕ) {kb : Kb} → IsValid kb → IsValid (feed bytes kb)
unfolding feed
feed-IsValid [] v = v
feed-IsValid (b ∷ bytes) v = feed-IsValid bytes (on_byte-IsValid b v)

-- The queue's side of `feed`.
abbrev receive_all : List ℕ → List ℕ × List ℕ → List ℕ × List ℕ
receive_all [] q = q
receive_all (b ∷ bytes) q = receive_all bytes (receive b q)

feed-receive_all :
    (bytes : List ℕ) {kb : Kb}
    → IsValid kb
    → (let kb' = feed bytes kb in (pending kb', contents kb'))
      ≡ receive_all bytes (pending kb, contents kb)
unfolding feed
feed-receive_all [] v = refl
feed-receive_all (b ∷ bytes) {kb} v =
    feed-receive_all bytes (on_byte-IsValid b v) ∙ ap (receive_all bytes) (on_byte-receive b v)

-- The codes of one byte, and those of two behind 0xe0 that begin no longer code.
pub data IsShort : List ℕ → Type 0 where
  one : (a : ℕ) → a ≢ 0xe0 → a ≢ 0xe1 → IsShort (a ∷ [])
  two : (b : ℕ) → b ≢ 0x2a → b ≢ 0xb7 → IsShort (0xe0 ∷ b ∷ [])

-- The first two bytes of Print Screen (0xe0 0x2a, or 0xe0 0xb7) and of Pause (0xe1).
abbrev pub IsLongStart : ℕ → ℕ → Type 0
IsLongStart a b = (a ≡ 0xe1) ⊎ ((a ≡ 0xe0) × ((b ≡ 0x2a) ⊎ (b ≡ 0xb7)))

receive_all-short :
    {code : List ℕ} (queue : List ℕ)
    → IsShort code
    → length queue + length code ≤ buf_len
    → receive_all code ([], queue) ≡ ([], queue ++ code)
unfolding receive is_incomplete
receive_all-short queue (one a h k) room = ground arith
receive_all-short queue (two b h k) room = ground arith

receive_all-long :
    (a b c : ℕ) (queue : List ℕ)
    → IsLongStart a b
    → length queue + 3 ≤ buf_len
    → receive_all (a ∷ b ∷ c ∷ []) ([], queue) ≡ ([], queue ++ (a ∷ b ∷ c ∷ []))
unfolding receive is_incomplete
receive_all-long a b c queue h room = ground arith

long-head_size : (a b : ℕ) (rest : List ℕ) → IsLongStart a b → 3 < head_size (a ∷ b ∷ rest)
unfolding head_size
long-head_size a b rest h = ground arith

abbrev pub AllShort : List (List ℕ) → Type 0
AllShort [] = Unit {0}
AllShort (code ∷ codes) = IsShort code × AllShort codes

-- The bytes of several codes in a row, and one read after another.
abbrev pub concat : List (List ℕ) → List ℕ
concat [] = []
concat (code ∷ codes) = code ++ concat codes

pub drain : List (List ℕ) → Kb → Option (List (List ℕ))
drain [] kb = some []
drain (_ ∷ more) kb = elim (scan_code kb) [
  | none ↦ none
  | some (code, kb') ↦ elim (drain more kb') [ none ↦ none | some codes ↦ some (code ∷ codes) ]
]

feed-append : (xs ys : List ℕ) (kb : Kb) → feed (xs ++ ys) kb ≡ feed ys (feed xs kb)
unfolding feed
feed-append [] ys kb = refl
feed-append (x ∷ xs) ys kb = feed-append xs ys (on_byte x kb)

short-head_size : {code : List ℕ} → IsShort code → length code ≡ head_size code
unfolding head_size
short-head_size (one a h k) = ground arith
short-head_size (two b h k) = ground arith

feed-short :
    {code : List ℕ} {kb : Kb}
    → IsShort code
    → IsValid kb
    → pending kb ≡ []
    → length (contents kb) + length code ≤ buf_len
    → ◌≡◌ {A = List ℕ × List ℕ}
        (pending (feed code kb), contents (feed code kb))
        ([], contents kb ++ code)
feed-short {code} {kb} short v idle room =
    feed-receive_all code v
    ∙ ap (λ p. receive_all code (p, contents kb)) idle
    ∙ receive_all-short (contents kb) short room

contents-feed :
    (codes : List (List ℕ)) {kb : Kb}
    → AllShort codes
    → IsValid kb
    → pending kb ≡ []
    → length (contents kb) + length (concat codes) ≤ buf_len
    → contents (feed (concat codes) kb) ≡ contents kb ++ concat codes
unfolding feed
contents-feed [] {kb} all v idle room = sym (append-nil (contents kb))
contents-feed (code ∷ codes) {kb} all v idle room =
    let one = feed-short all.0 v idle (omega (arith, length-append code (concat codes))) in
    let l = ap length (ap (λ p. p.1) one) in
    rw (feed-append code (concat codes) kb) (
      contents-feed codes all.1 (feed-IsValid code v) (ap (λ p. p.0) one)
        (omega (arith, l, length-append (contents kb) code, length-append code (concat codes)))
      ∙ ap (λ p. p.1 ++ concat codes) one
      ∙ append_assoc (contents kb) code (concat codes))

drain_lem :
    (codes : List (List ℕ)) {kb : Kb}
    → AllShort codes
    → IsValid kb
    → contents kb ≡ concat codes
    → drain codes kb ≡ some codes
unfolding drain
drain_lem [] all v e = refl
drain_lem (code ∷ codes) {kb} all v e =
    let read = scan_code-code code (concat codes) v e (short-head_size all.0) in
    ground (arith, read.1, drain_lem codes all.1 read.3 read.2)

-- From a valid state with nothing pending and nothing queued: short scan codes of at most 32 bytes
-- in all that arrive before any read are read back whole, one to a call, in order.
pub drain-feed :
    (codes : List (List ℕ)) {kb : Kb}
    → AllShort codes
    → IsValid kb
    → pending kb ≡ []
    → contents kb ≡ []
    → length (concat codes) ≤ buf_len
    → drain codes (feed (concat codes) kb) ≡ some codes
drain-feed codes {kb} all v idle empty room = drain_lem codes all (feed-IsValid (concat codes) v) (
    contents-feed codes all v idle (omega (arith, ap length empty))
    ∙ ap (λ q. q ++ concat codes) empty)

-- From such a state, the third byte of a Print Screen or Pause code is queued with the first two,
-- as if the code were complete, and a read at that moment takes more bytes than are there: the
-- count would become negative.
pub long_code_underflow :
    (a b c : ℕ) {kb : Kb}
    → IsLongStart a b
    → IsValid kb
    → pending kb ≡ []
    → contents kb ≡ []
    → (contents (feed (a ∷ b ∷ c ∷ []) kb) ≡ a ∷ b ∷ c ∷ [])
      × (scan_code (feed (a ∷ b ∷ c ∷ []) kb) ≡ none)
long_code_underflow a b c {kb} long v idle empty = (
  queued,
  scan_code-underflow a b (c ∷ []) (feed-IsValid (a ∷ b ∷ c ∷ []) v) queued
      (rw queued (long-head_size a b (c ∷ []) long)),
)
  where
    queued : contents (feed (a ∷ b ∷ c ∷ []) kb) ≡ a ∷ b ∷ c ∷ []
    queued =
        ap (λ p. p.1) (feed-receive_all (a ∷ b ∷ c ∷ []) v)
        ∙ ap₂ (λ p q. (receive_all (a ∷ b ∷ c ∷ []) (p, q)).1) idle empty
        ∙ ap (λ p. p.1) (receive_all-long a b c [] long (omega arith))
