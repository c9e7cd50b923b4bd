-- ===== src/Kernel/Panic.antt =====
-- What the screen shows when the kernel gives up.
use Prim.Native.String.{String}
use ata_driver.Common.{
  codes, ℕ, ◌+◌, ◌*◌, ◌≤◌, ◌<◌, ◌≡◌, ◌∙◌, refl, ap, arith, Bool, true, false, not, ◌&&◌, ◌==◌, ltb,
  u8, List, [], ◌∷◌, length, get_or, inl, inr, Bool-cases,
}
use ata_driver.Io.{Bus}
use ata_driver.Io.Run.{done}
use ata_driver.Mem.Init.{holds_bitmap}
use ata_driver.Mem.Init.Outcome.{Below4G, mem_init_lem}
use ata_driver.Fb.{
  Fb, base_addr, color_white, pack_colors, set_fg_color, set_bg_color, clear, write, reset,
}
use ata_driver.Fb.Position.{set_colors-col}
use ata_driver.Fb.Write.{cell, NonZero, write-IsWritten, clear_lem}
use ata_driver.Kernel.{Machine, Given, halted, color_red, paint, kernel_panic, kmain}
use ata_driver.Kernel.Boot.{frames_of_map}

-- White on red.
abbrev pub alarm : ℕ
alarm = 0x4f

-- The screen shows the text from its top left corner on, blanks behind it, and all of it in the
-- colours `alarm`.
pub record IsShown (text : List ℕ) (fb : Fb) : Type 0 where
  pub chars : (k : ℕ) → k < length text → fb.mem (base_addr + k * 2) ≡ u8 (get_or text k 0)
  pub blanks : (k : ℕ) → length text ≤ k → k < 2000 → fb.mem (base_addr + k * 2) ≡ 32
  pub colours : (k : ℕ) → k < 2000 → fb.mem (base_addr + k * 2 + 1) ≡ alarm

-- A way to compute that no character is zero.
abbrev no_zero : List ℕ → Bool
no_zero [] = true
no_zero (c ∷ cs) = not (c == 0) && no_zero cs

NonZero-of : (cs : List ℕ) → no_zero cs ≡ true → NonZero cs
NonZero-of [] e = tt
NonZero-of (c ∷ cs) e = ((λ z. ground (arith, e, z)), NonZero-of cs (ground (arith, e)))

write-IsShown :
    (text : List ℕ) (painted : Fb)
    → NonZero text
    → length text ≤ 2000
    → painted.pos ≡ 0
    → painted.col ≡ alarm
    → ((k : ℕ) → k < 2000 → painted.mem (base_addr + k * 2) ≡ 32)
    → ((k : ℕ) → k < 2000 → painted.mem (base_addr + k * 2 + 1) ≡ alarm)
    → IsShown text (write text painted)
write-IsShown text painted nz fits at col blank colour =
    let w = write-IsWritten text painted nz fits (omega (arith, at)) in
    let cell_at : (k : ℕ) → k < 2000 → cell painted.pos k ≡ base_addr + k * 2 =
      λ k l. omega (arith, at, l) in
    record {
      chars = λ k l. rw (← cell_at k (omega (arith, l, fits))) (w.chars k l);
      blanks = λ k p q.
          w.others (base_addr + k * 2) (λ j l. (
            (λ e. omega (arith, e, cell_at j (omega arith))),
            (λ e. omega (arith, e, cell_at j (omega arith))),
          ))
          ∙ blank k q;
      colours = λ k q. elim (Bool-cases (ltb k (length text))) [
        | inl inside ↦ rw (← cell_at k q) (w.colours k (ground (arith, inside)) ∙ ap u8 col)
        | inr behind ↦
            let past : length text ≤ k = ground (arith, behind) in
            w.others (base_addr + k * 2 + 1) (λ j l. (
              (λ e. omega (arith, e, cell_at j (omega arith))),
              (λ e. omega (arith, e, cell_at j (omega arith))),
            ))
            ∙ colour k q
      ];
    }

module _ (bus : Bus) where
  -- `kernel_panic` with a message of at most 2000 characters, none of them zero, halts. The screen
  -- then shows the message from its top left corner on and blanks behind it, white on red.
  pub kernel_panic-IsShown :
      (msg : String) (m : Machine bus.State)
      → NonZero (codes msg)
      → length (codes msg) ≤ 2000
      → (m' : Machine bus.State) × (kernel_panic bus msg m ≡ done halted m')
        × IsShown (codes msg) m'.fb
  unfolding kernel_panic paint pack_colors
  kernel_panic-IsShown msg m nz fits =
      let chosen = set_bg_color color_red (set_fg_color color_white m.fb) in
      let (all, at, cur, col) = clear_lem bus chosen m.hardware in
      let dye : chosen.col ≡ alarm =
        set_colors-col color_white color_red m.fb (omega arith) (omega arith) in
      (
        _,
        refl,
        write-IsShown (codes msg) (clear bus chosen m.hardware).0 nz fits at (col ∙ dye)
            (λ k l. ground (arith, all (base_addr + k * 2), l))
            (λ k l. ground (arith, all (base_addr + k * 2 + 1), l, dye)),
      )

  -- A memory map with no region above 4G and no available region that holds the bitmap: `kmain`
  -- halts, and the screen says that memory could not be initialised.
  pub kmain-IsShown :
      (g : Given) (m : Machine bus.State)
      → Below4G g.map
      → holds_bitmap (frames_of_map g) g.map ≡ false
      → (m' : Machine bus.State) × (kmain bus g m ≡ done halted m')
        × IsShown (codes "Could not initialize memory :(") m'.fb
  unfolding kmain
  kmain-IsShown g m below missing =
      let e = (mem_init_lem g.map (reset m.fb).mem below).0 missing in
      let (m', r, shown) =
        kernel_panic-IsShown "Could not initialize memory :(" (record m { fb = reset m.fb })
          (NonZero-of (codes "Could not initialize memory :(") refl) (omega arith) in
      (m', rw (kmain, e) r, shown)
