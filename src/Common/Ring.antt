-- ===== src/Common/Ring.antt =====
-- The bytes of a circular buffer, as the keyboard and the serial drivers keep one: `n` bytes from
-- index `h` on, where indices are taken modulo the capacity.
use Prim.Native.Nat.{ℕ, zero, suc, ◌+◌, ◌-◌, ◌%◌, ◌≤◌, ◌<◌}
use mathlib.Core.Path.{◌≡◌, refl, sym, ap, ap₂, ◌∙◌}
use mathlib.Core.Logic.{◌≢◌}
use mathlib.Core.List.{List, [], ◌∷◌, ◌++◌}
use native.Mathlib.Nat.{mod-add-mod, zero-add, add-zero, suc-add}
use native.Mathlib.Omega.{arith}
use ata_driver.Common.Lists.{length, get_or, set, get_or-set_self, get_or-set_ne}

pub mod-ne : (cap a b : ℕ) → a < b → b < a + cap → a % cap ≢ b % cap
mod-ne cap a b lo hi e = grind arith

module _ (cap : ℕ) where
  abbrev pub window : List ℕ → ℕ → ℕ → List ℕ
  window buf h zero = []
  window buf h (suc n) = get_or buf (h % cap) 0 ∷ window buf (h + 1) n

  pub length-window : (buf : List ℕ) (h n : ℕ) → length (window buf h n) ≡ n
  length-window buf h zero = refl
  length-window buf h (suc n) = ap suc (length-window buf (h + 1) n)

  -- A write to a slot beyond the window does not show in it.
  window-set_beyond :
      (buf : List ℕ) (x h n i : ℕ)
      → h + n ≤ i
      → i < h + cap
      → window (set buf (i % cap) x) h n ≡ window buf h n
  window-set_beyond buf x h zero i lo hi = refl
  window-set_beyond buf x h (suc n) i lo hi =
      ap₂ ◌∷◌
        (get_or-set_ne buf (i % cap) (h % cap) x 0 (λ e. mod-ne cap h i (omega arith) hi (sym e)))
        (window-set_beyond buf x (h + 1) n i (omega arith) (omega arith))

  window-snoc :
      (buf : List ℕ) (h n i : ℕ)
      → i ≡ h + n
      → window buf h (suc n) ≡ window buf h n ++ (get_or buf (i % cap) 0 ∷ [])
  window-snoc buf h zero i e = let e' : i ≡ h = omega arith in rw e'
  window-snoc buf h (suc n) i e =
      ap (λ w. get_or buf (h % cap) 0 ∷ w) (window-snoc buf (h + 1) n i (omega arith))

  -- Writing just past a window that is not full appends to it.
  pub window-push :
      (buf : List ℕ) (x h n : ℕ)
      → cap ≤ length buf
      → n < cap
      → window (set buf ((h + n) % cap) x) h (suc n) ≡ window buf h n ++ (x ∷ [])
  window-push buf x h n fits room =
      window-snoc (set buf ((h + n) % cap) x) h n (h + n) refl
      ∙ ap₂ (λ w y. w ++ (y ∷ [])) (window-set_beyond buf x h n (h + n) (omega arith) (omega arith))
          (get_or-set_self buf ((h + n) % cap) x 0 (omega arith))

  -- The start of a window counts modulo the capacity.
  pub window-mod :
      (buf : List ℕ) (h h' n : ℕ) → h % cap ≡ h' % cap → window buf h n ≡ window buf h' n
  window-mod buf h h' zero e = refl
  window-mod buf h h' (suc n) e =
      ap₂ (λ k w. get_or buf k 0 ∷ w) e
        (window-mod buf (h + 1) (h' + 1) n
          (add_mod h ∙ ap (λ k. (k + 1) % cap) e ∙ sym (add_mod h')))
    where
      add_mod : (a : ℕ) → (a + 1) % cap ≡ (a % cap + 1) % cap
      add_mod a = sym (mod-add-mod a cap 1)

  pub window-append :
      (buf : List ℕ) (h m n : ℕ) → window buf h (m + n) ≡ window buf h m ++ window buf (h + m) n
  window-append buf h zero n = rw (zero-add, add-zero)
  window-append buf h (suc m) n = rw suc-add (
      ap (λ w. get_or buf (h % cap) 0 ∷ w)
        (window-append buf (h + 1) m n
          ∙ ap (λ k. window buf (h + 1) m ++ window buf k n) (omega arith)))

  pub window-eq-cons :
      (buf : List ℕ) (h n : ℕ) (x : ℕ) (xs : List ℕ)
      → window buf h n ≡ x ∷ xs
      → (get_or buf (h % cap) 0 ≡ x) × (window buf (h + 1) (n - 1) ≡ xs)
  window-eq-cons buf h zero x xs e = cc
  window-eq-cons buf h (suc n) x xs e = let k : suc n - 1 ≡ n = omega arith in rw k (ground arith)
