-- ===== src/Fb/Write.antt =====
-- What `fb_write` and `fb_clear` do to the screen.
use ata_driver.Common.{
  ℕ, zero, suc, ◌+◌, ◌*◌, ◌%◌, ◌≤◌, ◌<◌, ◌≡◌, ◌≢◌, ◌∙◌, refl, ap, inl, inr, Bool-cases, arith,
  false, ◌&&◌, ◌==◌, leb, ltb, if◌then◌else◌, u8, List, [], ◌∷◌, length, get_or,
}
use ata_driver.Io.{Bus}
use ata_driver.Mem.Bitmap.{Memory}
use ata_driver.Fb.{
  Fb, cols, rows, base_addr, put_cell, write, clear_loop, clear, set_bg_color, set_fg_color,
  color_white,
}

-- The bytes of the cell that is `k` cells behind `pos`, around the end of the screen.
abbrev pub cell : ℕ → ℕ → ℕ
cell pos k = base_addr + (pos + k) % (cols * rows) * 2

-- The screen after `str` is written at `fb`.
pub record IsWritten (str : List ℕ) (fb fb' : Fb) : Type 0 where
  pub chars : (k : ℕ) → k < length str → fb'.mem (cell fb.pos k) ≡ u8 (get_or str k 0)
  pub colours : (k : ℕ) → k < length str → fb'.mem (cell fb.pos k + 1) ≡ u8 fb.col
  pub others :
      (b : ℕ)
      → ((k : ℕ) → k < length str → (b ≢ cell fb.pos k) × (b ≢ cell fb.pos k + 1))
      → fb'.mem b ≡ fb.mem b
  pub pos : fb'.pos ≡ (fb.pos + length str) % (cols * rows)
  pub col : fb'.col ≡ fb.col
  pub cur : fb'.cur ≡ fb.cur

-- The first cell and the move to the second.
abbrev advance : ℕ → Fb → Fb
advance c fb = record fb {
  mem = put_cell fb.pos c fb.col fb.mem;
  pos = (fb.pos + 1) % (cols * rows);
}

cell-suc : (pos k : ℕ) → cell ((pos + 1) % (cols * rows)) k ≡ cell pos (suc k)
cell-suc pos k = omega arith

module _ (c : ℕ) (str : List ℕ) (fb fb' : Fb) (p : fb.pos < cols * rows)
    (h : length str < cols * rows) (rest : IsWritten str (advance c fb) fb') where
  first_kept : (fb'.mem (cell fb.pos 0) ≡ u8 c) × (fb'.mem (cell fb.pos 0 + 1) ≡ u8 fb.col)
  unfolding put_cell
  first_kept = (
    rest.others (cell fb.pos 0) (λ k l. ((λ e. omega arith), (λ e. omega arith))) ∙ ground arith,
    rest.others (cell fb.pos 0 + 1) (λ k l. ((λ e. omega arith), (λ e. omega arith)))
        ∙ ground arith,
  )

  chars_cons : (k : ℕ) → k < suc (length str) → fb'.mem (cell fb.pos k) ≡ u8 (get_or (c ∷ str) k 0)
  chars_cons zero l = first_kept.0
  chars_cons (suc k) l = rw (← cell-suc fb.pos k) (rest.chars k (omega arith))

  colours_cons : (k : ℕ) → k < suc (length str) → fb'.mem (cell fb.pos k + 1) ≡ u8 fb.col
  colours_cons zero l = first_kept.1
  colours_cons (suc k) l = rw (← cell-suc fb.pos k) (rest.colours k (omega arith))

  others_cons :
      (b : ℕ)
      → ((k : ℕ) → k < suc (length str) → (b ≢ cell fb.pos k) × (b ≢ cell fb.pos k + 1))
      → fb'.mem b ≡ fb.mem b
  unfolding put_cell
  others_cons b far =
      rest.others b (λ k l. rw (cell-suc fb.pos k) (far (suc k) (omega arith)))
      ∙ (let here = far 0 (omega arith) in ground (arith, here))

  IsWritten-cons : IsWritten (c ∷ str) fb fb'
  IsWritten-cons = record {
    chars = chars_cons;
    colours = colours_cons;
    others = others_cons;
    pos = rest.pos ∙ omega arith;
    col = rest.col;
    cur = rest.cur;
  }

-- No character is zero.
abbrev pub NonZero : List ℕ → Type 0
NonZero [] = Unit {0}
NonZero (c ∷ str) = (c ≢ 0) × NonZero str

-- A string without a zero byte of at most 2000 characters, written from a position on the screen:
-- each character goes to the next cell with the current colour, from the last cell on to the
-- first; the position moves behind the string, and no other byte of memory, nor the cursor,
-- changes.
pub write-IsWritten :
    (str : List ℕ) (fb : Fb)
    → NonZero str
    → length str ≤ cols * rows
    → fb.pos < cols * rows
    → IsWritten str fb (write str fb)
unfolding write put_cell
write-IsWritten [] fb nz h p = record {
  chars = λ k l. absurd (omega arith);
  colours = λ k l. absurd (omega arith);
  others = λ b far. refl;
  pos = omega arith;
  col = refl;
  cur = refl;
}
write-IsWritten (c ∷ str) fb nz h p =
    let keep : (c == 0) ≡ false = ground (arith, nz.0) in
    rw keep (
      IsWritten-cons c str fb (write str (advance c fb)) p (omega arith)
        (write-IsWritten str (advance c fb) nz.1 (omega arith) (omega arith)))

clear_loop_lem :
    (n pos col : ℕ) (m : Memory) (b : ℕ)
    → clear_loop n pos col m b ≡ (
        if leb (base_addr + pos * 2) b && ltb b (base_addr + (pos + n) * 2)
        then (if b % 2 == 0 then 32 else u8 col)
        else m b)
unfolding clear_loop put_cell
clear_loop_lem zero pos col m b = ground arith
clear_loop_lem (suc n) pos col m b =
    ground (arith, clear_loop_lem n (pos + 1) col (put_cell pos 32 col m) b)

-- `fb_clear` fills exactly the 4000 bytes of the screen with blanks in the current colour, and
-- sets the position and the cursor to the top left corner.
pub clear_lem :
    (bus : Bus) (fb : Fb) (s : bus.State)
    → (let fb' = (clear bus fb s).0 in
        ((b : ℕ)
          → fb'.mem b ≡ (
              if leb base_addr b && ltb b (base_addr + 4000)
              then (if b % 2 == 0 then 32 else u8 fb.col)
              else fb.mem b))
        × (fb'.pos ≡ 0)
        × (fb'.cur ≡ 0)
        × (fb'.col ≡ fb.col))
unfolding clear
clear_lem bus fb s = (λ b. clear_loop_lem (cols * rows) 0 fb.col fb.mem b, refl, refl, refl)

set_fg_color-mem : (fg : ℕ) (fb : Fb) → (set_fg_color fg fb).mem ≡ fb.mem
unfolding set_fg_color
set_fg_color-mem fg fb = elim (Bool-cases (ltb color_white fg)) [
  | inl over ↦ rw over refl
  | inr fits ↦ rw fits refl
]

set_bg_color-mem : (bg : ℕ) (fb : Fb) → (set_bg_color bg fb).mem ≡ fb.mem
unfolding set_bg_color
set_bg_color-mem bg fb = elim (Bool-cases (ltb color_white bg)) [
  | inl over ↦ rw over refl
  | inr fits ↦ rw fits refl
]

-- The colours are set before the screen is cleared; nothing from the bitmap on changes.
pub clear-above :
    (bus : Bus) (fg bg : ℕ) (fb : Fb) (s : bus.State) (b : ℕ)
    → base_addr + 4000 ≤ b
    → (clear bus (set_bg_color bg (set_fg_color fg fb)) s).0.mem b ≡ fb.mem b
clear-above bus fg bg fb s b above =
    let painted = set_bg_color bg (set_fg_color fg fb) in
    (clear_lem bus painted s).0 b
    ∙ ground (arith, above)
    ∙ ap (λ (m : Memory). m b) (set_bg_color-mem bg (set_fg_color fg fb) ∙ set_fg_color-mem fg fb)
