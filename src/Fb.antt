-- ===== src/Fb.antt =====
-- src/kernel/drivers/fb.c: the text framebuffer. Video memory is in the byte memory of
-- Mem/Bitmap, from `base_addr` on.
pub mod Position
pub mod Write
pub mod Printf
mod Tests
use ata_driver.Common.{
  ℕ, zero, suc, ◌+◌, ◌-◌, ◌*◌, ◌/◌, ◌%◌, Bool, true, false, ◌||◌, ◌&&◌, not, Option, none, some,
  List, [], ◌∷◌, ◌==◌, leb, ltb, if◌then◌else◌, bit_and, bit_or, ◌<<<◌, ◌>>>◌, u8, u16,
}
use ata_driver.Io.{Bus, outb}
use ata_driver.Mem.Bitmap.{Memory, load8, store8}

-- The static `pos`, `cur` and `col`, and memory.
pub record Fb : Type 0 where
  pub pos : ℕ
  pub cur : ℕ
  pub col : ℕ
  pub mem : Memory

abbrev pub cols : ℕ
cols = 80

abbrev pub rows : ℕ
rows = 25

abbrev pub color_black : ℕ
color_black = 0

abbrev pub color_white : ℕ
color_white = 15

abbrev pub base_addr : ℕ
base_addr = 0xb8000

abbrev pub crt_addr_port : ℕ
crt_addr_port = 0x03d4

abbrev pub crt_data_port : ℕ
crt_data_port = 0x03d5

unfoldable pub pack_colors : ℕ → ℕ → ℕ
pack_colors fg bg = u8 (bit_or (bit_and (u8 fg) 0x0f) (u8 bg <<< 4))

unfoldable pub unpack_bg : ℕ → ℕ
unpack_bg pc = u8 pc >>> 4

unfoldable pub unpack_fg : ℕ → ℕ
unpack_fg pc = bit_and (u8 pc) 0x0f

abbrev pub coords : ℕ → ℕ → ℕ
coords r c = u16 (u8 r * cols + u8 c)

abbrev pub row_of : ℕ → ℕ
row_of coord = u8 (u16 coord / cols)

abbrev pub col_of : ℕ → ℕ
col_of coord = u8 (u16 coord % cols)

unfoldable pub reset : Fb → Fb
reset fb = record fb {
  pos = coords 0 0;
  cur = coords 0 0;
  col = pack_colors color_white color_black;
}

pub fg_color : Fb → ℕ
fg_color fb = unpack_fg fb.col

pub bg_color : Fb → ℕ
bg_color fb = unpack_bg fb.col

pub set_fg_color : ℕ → Fb → Fb
set_fg_color fg fb =
    if ltb color_white fg then fb else record fb { col = pack_colors fg (unpack_bg fb.col) }

pub set_bg_color : ℕ → Fb → Fb
set_bg_color bg fb =
    if ltb color_white bg then fb else record fb { col = pack_colors (unpack_fg fb.col) bg }

pub row : Fb → ℕ
row fb = row_of fb.pos

pub column : Fb → ℕ
column fb = col_of fb.pos

pub set_pos : ℕ → ℕ → Fb → Fb
set_pos r c fb = if ltb r rows && ltb c cols then record fb { pos = coords r c } else fb

pub cur_row : Fb → ℕ
cur_row fb = row_of fb.cur

pub cur_col : Fb → ℕ
cur_col fb = col_of fb.cur

module _ (bus : Bus) where
  pub set_cur : ℕ → ℕ → Fb → bus.State → Fb × bus.State
  set_cur r c fb s =
      let cur = coords r c in
      let s₁ = outb bus crt_addr_port 0x0e s in
      let s₂ = outb bus crt_data_port (cur >>> 8) s₁ in
      let s₃ = outb bus crt_addr_port 0x0f s₂ in
      let s₄ = outb bus crt_data_port cur s₃ in
      if ltb r rows && ltb c cols then (record fb { cur = cur }, s₄) else (fb, s)

  pub sync_cur : Fb → bus.State → Fb × bus.State
  unfolding set_cur row column
  sync_cur fb = set_cur (row fb) (column fb) fb

-- The character and the attribute of one cell.
pub put_cell : ℕ → ℕ → ℕ → Memory → Memory
put_cell pos c col m = store8 (store8 m (base_addr + pos * 2) c) (base_addr + pos * 2 + 1) col

-- `fb_write`, for a string `str` that is not in video memory; its bytes end at a zero byte or
-- where the list does.
pub write : List ℕ → Fb → Fb
unfolding put_cell
write [] fb = fb
write (c ∷ str) fb =
    let rest =
      write str
        (record fb { mem = put_cell fb.pos c fb.col fb.mem; pos = (fb.pos + 1) % (cols * rows) }) in
    if c == 0 then fb else rest

-- The `for` loop of `fb_clear` with `rounds` cells left from `pos` on.
pub clear_loop : ℕ → ℕ → ℕ → Memory → Memory
unfolding put_cell
clear_loop zero pos col m = m
clear_loop (suc rounds) pos col m = clear_loop rounds (pos + 1) col (put_cell pos 32 col m)

pub clear : (bus : Bus) → Fb → bus.State → Fb × bus.State
unfolding set_pos set_cur
clear bus fb s =
    let fb' = record fb { pos = cols * rows; mem = clear_loop (cols * rows) 0 fb.col fb.mem } in
    set_cur bus 0 0 (set_pos 0 0 fb') s
