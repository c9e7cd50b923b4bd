-- ===== src/Fb/Position.antt =====
-- Colours and positions of the framebuffer: what is set is what is read.
use ata_driver.Common.{
  ℕ, ◌<◌, ◌≡◌, refl, arith, Bool, true, false, ◌&&◌, ◌==◌, leb, ltb, if◌then◌else◌,
}
use ata_driver.Common.Table.{all_below, all_below_sound}
use ata_driver.Fb.{
  Fb, cols, rows, color_white, pack_colors, unpack_bg, unpack_fg, fg_color, bg_color, set_fg_color,
  set_bg_color, row, column, set_pos,
}

abbrev pack_law : ℕ → ℕ → Bool
unfolding pack_colors unpack_bg unpack_fg
pack_law fg bg = unpack_fg (pack_colors fg bg) == fg && unpack_bg (pack_colors fg bg) == bg

abbrev pack_laws : ℕ → Bool
unfolding pack_colors unpack_bg unpack_fg all_below
pack_laws fg = all_below 16 (pack_law fg)

pack_table : all_below 16 pack_laws ≡ true
unfolding all_below pack_colors unpack_bg unpack_fg
pack_table = refl

unpack-pack_colors :
    (fg bg : ℕ)
    → fg < 16
    → bg < 16
    → (unpack_fg (pack_colors fg bg) ≡ fg) × (unpack_bg (pack_colors fg bg) ≡ bg)
unfolding pack_laws
unpack-pack_colors fg bg h k =
    let law : pack_law fg bg ≡ true =
      all_below_sound 16 (pack_law fg) bg (all_below_sound 16 pack_laws fg pack_table h) k in
    ground (arith, law)

unpack_bg_lt : (pc : ℕ) → unpack_bg pc < 16
unfolding unpack_bg
unpack_bg_lt pc = omega arith

abbrev fg_law : ℕ → Bool
unfolding unpack_fg
fg_law pc = ltb (unpack_fg pc) 16

fg_table : all_below 256 fg_law ≡ true
unfolding all_below unpack_fg
fg_table = refl

unpack_fg_lt : (pc : ℕ) → pc < 256 → unpack_fg pc < 16
unfolding fg_law
unpack_fg_lt pc h =
    let law : fg_law pc ≡ true = all_below_sound 256 fg_law pc fg_table h in ground (arith, law)

-- A foreground colour up to 15 is the one read back, a larger one changes nothing, and neither
-- changes the background.
pub set_fg_color_lem :
    (fg : ℕ) (fb : Fb)
    → (fg_color (set_fg_color fg fb) ≡ (if leb fg color_white then fg else fg_color fb))
      × (bg_color (set_fg_color fg fb) ≡ bg_color fb)
unfolding fg_color bg_color set_fg_color
set_fg_color_lem fg fb =
    ground (arith, unpack-pack_colors fg (unpack_bg fb.col), unpack_bg_lt fb.col)

-- With a colour byte, a background colour up to 15 is the one read back, a larger one changes
-- nothing, and neither changes the foreground.
pub set_bg_color_lem :
    (bg : ℕ) (fb : Fb)
    → fb.col < 256
    → (bg_color (set_bg_color bg fb) ≡ (if leb bg color_white then bg else bg_color fb))
      × (fg_color (set_bg_color bg fb) ≡ fg_color fb)
unfolding fg_color bg_color set_bg_color
set_bg_color_lem bg fb h =
    ground (arith, unpack-pack_colors (unpack_fg fb.col) bg, unpack_fg_lt fb.col h)

-- Both colours set, one after the other.
pub set_colors-col :
    (fg bg : ℕ) (fb : Fb)
    → fg < 16
    → bg < 16
    → (set_bg_color bg (set_fg_color fg fb)).col ≡ pack_colors fg bg
unfolding set_bg_color set_fg_color
set_colors-col fg bg fb h k =
    let fits : ltb color_white fg ≡ false = ground (arith, h) in
    let fits' : ltb color_white bg ≡ false = ground (arith, k) in
    let same = (unpack-pack_colors fg (unpack_bg fb.col) h (unpack_bg_lt fb.col)).0 in
    rw (fits, fits', same) refl

abbrev in_screen : ℕ → ℕ → Bool
in_screen r c = ltb r rows && ltb c cols

-- A position on the screen is the one read back; any other changes nothing.
pub set_pos_lem :
    (r c : ℕ) (fb : Fb)
    → (row (set_pos r c fb) ≡ (if ltb r rows && ltb c cols then r else row fb))
      × (column (set_pos r c fb) ≡ (if ltb r rows && ltb c cols then c else column fb))
unfolding row column set_pos
set_pos_lem r c fb = ground arith
