-- ===== src/Kb/Read.antt =====
-- `kb_scan_code` takes a whole scan code off the queue.
use mathlib.Core.Path.{ap₂}
use ata_driver.Common.{
  ℕ, zero, suc, ◌+◌, ◌-◌, ◌%◌, ◌<◌, ◌≡◌, ◌∙◌, sym, ap, refl, none, some, List, [], ◌∷◌, ◌++◌,
  get_or, length, length-append, append-injective, arith,
}
use ata_driver.Common.Ring.{window, length-window, window-append, window-mod, window-eq-cons}
use ata_driver.Kb.{Kb, buf_len, take_loop, code_size, scan_code}
use ata_driver.Kb.Inv.{IsValid}
use ata_driver.Kb.Refine.{contents}

-- The size that a scan code's first two bytes announce.
unfoldable pub head_size : List ℕ → ℕ
unfolding code_size
head_size code = code_size (get_or code 0 0) (get_or code 1 0)

take_loop_lem :
    (n : ℕ) (buffer : List ℕ) (head : ℕ)
    → head < buf_len
    → ((take_loop n buffer head).1 ≡ (head + n) % buf_len)
      × ((take_loop n buffer head).0 ≡ window buf_len buffer head n)
unfolding take_loop
take_loop_lem zero buffer head h = (omega arith, refl)
take_loop_lem (suc n) buffer head h =
    let ih = take_loop_lem n buffer ((head + 1) % buf_len) (omega arith) in
    (
      omega (arith, ih.0),
      ap₂ (λ k w. get_or buffer k 0 ∷ w) (omega arith)
          (ih.1 ∙ window-mod buf_len buffer ((head + 1) % buf_len) (head + 1) n (omega arith)),
    )

-- The size is found from the buffer's slots, also where the second lies beyond the last byte.
slots-head_size :
    (buffer : List ℕ) (head count : ℕ) (code rest : List ℕ)
    → head < buf_len
    → window buf_len buffer head count ≡ code ++ rest
    → length code ≡ head_size code
    → code_size (get_or buffer head 0) (get_or buffer ((head + 1) % buf_len) 0) ≡ length code
unfolding head_size code_size
slots-head_size buffer head count [] rest h e fits = absurd (omega arith)
slots-head_size buffer head count (a ∷ []) rest h e fits =
    let first = window-eq-cons buf_len buffer head count a rest e in
    let i : head % buf_len ≡ head = omega arith in
    let at : get_or buffer head 0 ≡ a = rw i at first.0 in ground arith
slots-head_size buffer head count (a ∷ b ∷ code) rest h e fits =
    let first = window-eq-cons buf_len buffer head count a (b ∷ code ++ rest) e in
    let second = window-eq-cons buf_len buffer (head + 1) (count - 1) b (code ++ rest) first.1 in
    let i : head % buf_len ≡ head = omega arith in
    let at : get_or buffer head 0 ≡ a = rw i at first.0 in rw (at, second.0) (sym fits)

head_size_pos : (code : List ℕ) → 0 < head_size code
unfolding head_size code_size
head_size_pos code = ground arith

pub scan_code-code :
    {kb : Kb} (code rest : List ℕ)
    → IsValid kb
    → contents kb ≡ code ++ rest
    → length code ≡ head_size code
    → (kb' : Kb) × (scan_code kb ≡ some (code, kb')) × (contents kb' ≡ rest) × IsValid kb'
unfolding scan_code
scan_code-code {kb} code rest v e fits = (
  record kb { head = (head + n) % buf_len; count = count - n },
  rw (size, taken.0, taken.1, split.0) (ground (arith, total, pos)),
  window-mod buf_len buffer ((head + n) % buf_len) (head + n) (count - n) (omega arith) ∙ split.1,
  record {
    storage = v.storage;
    head_in = omega arith;
    count_in = omega (arith, v.count_in);
    partial_storage = v.partial_storage;
    len_in = v.len_in;
    prefix = v.prefix;
  },
)
  where
    open kb use {buffer, head, count}

    n : ℕ
    n = length code

    size : code_size (get_or buffer head 0) (get_or buffer ((head + 1) % buf_len) 0) ≡ n
    size = slots-head_size buffer head count code rest v.head_in e fits

    pos : 0 < n
    pos = rw fits (head_size_pos code)

    total : count ≡ n + length rest
    total =
        omega (arith, ap length e, length-window buf_len buffer head count, length-append code rest)

    taken :
        ((take_loop n buffer head).1 ≡ (head + n) % buf_len)
        × ((take_loop n buffer head).0 ≡ window buf_len buffer head n)
    taken = take_loop_lem n buffer head v.head_in

    split :
        (window buf_len buffer head n ≡ code)
        × (window buf_len buffer (head + n) (count - n) ≡ rest)
    split =
        append-injective (window buf_len buffer head n) code
          (window buf_len buffer (head + n) (count - n)) rest (length-window buf_len buffer head n)
          (sym (window-append buf_len buffer head n (count - n))
            ∙ ap (window buf_len buffer head) (omega (arith, total))
            ∙ e)

-- Where the first two queued bytes announce more bytes than are queued, a read makes the count
-- negative.
pub scan_code-underflow :
    {kb : Kb} (a b : ℕ) (rest : List ℕ)
    → IsValid kb
    → contents kb ≡ a ∷ b ∷ rest
    → length (contents kb) < head_size (a ∷ b ∷ rest)
    → scan_code kb ≡ none
unfolding scan_code head_size
scan_code-underflow {kb} a b rest v e short =
    let first = window-eq-cons buf_len kb.buffer kb.head kb.count a (b ∷ rest) e in
    let second = window-eq-cons buf_len kb.buffer (kb.head + 1) (kb.count - 1) b rest first.1 in
    let i : kb.head % buf_len ≡ kb.head = omega (arith, v.head_in) in
    let at : get_or kb.buffer kb.head 0 ≡ a = rw i at first.0 in
    let l : kb.count < code_size a b =
      rw (length-window buf_len kb.buffer kb.head kb.count) at short in
    let m : kb.count ≡ suc (suc (length rest)) =
      omega (arith, ap length e, length-window buf_len kb.buffer kb.head kb.count) in
    rw (at, second.0) (ground (arith, l, m))
