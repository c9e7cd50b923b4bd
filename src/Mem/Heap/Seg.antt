-- ===== src/Mem/Heap/Seg.antt =====
-- A contiguous heap: the entries of the list cover an area of memory without gaps, so their sizes
-- and states, in order, say all of it.
use ata_driver.Common.{
  ℕ, ◌+◌, ◌-◌, ◌*◌, ◌^◌, ◌≤◌, ◌<◌, ◌≡◌, ◌≢◌, ◌⊎◌, inl, inr, refl, ◌∙◌, arith, Bool, true, false,
  not, ◌&&◌, Option, none, some, List, [], ◌∷◌, ◌==◌, leb, if◌then◌else◌,
}
use ata_driver.Mem.Heap.{Entry, Heap, entry_size, flag_free, flag_used, split}

pub record Cell : Type 0 where
  pub size : ℕ
  pub in_use : Bool

abbrev pub flag_of : Bool → ℕ
flag_of true = flag_used
flag_of false = flag_free

-- The address behind a cell at `a`.
abbrev pub behind : ℕ → Cell → ℕ
behind a c = a + (c.size + 1) * entry_size

-- The pointer to the first of the cells at `a`, NULL if there is none.
abbrev pub link : ℕ → List Cell → ℕ
link a [] = 0
link a (c ∷ cs) = a

abbrev pub entry_of : ℕ → Cell → ℕ → Entry
entry_of prev c next = record { next = next; prev = prev; size = c.size; flags = flag_of c.in_use }

-- From `a` up to `hi`, memory is divided into the cells, linked in both directions; `prev` is the
-- entry before them.
abbrev pub Seg : Heap → ℕ → ℕ → ℕ → List Cell → Type 0
Seg h prev a hi [] = a ≡ hi
Seg h prev a hi (c ∷ cs) =
    (h.entry a ≡ entry_of prev c (link (behind a c) cs)) × Seg h a (behind a c) hi cs

-- No entry outside of the area changes.
abbrev pub SameOutside : ℕ → ℕ → Heap → Heap → Type 0
SameOutside lo hi h h' = (x : ℕ) → (x < lo) ⊎ (hi ≤ x) → h'.entry x ≡ h.entry x

pub Seg-le : (h : Heap) (prev a hi : ℕ) (cs : List Cell) → Seg h prev a hi cs → a ≤ hi
Seg-le h prev a hi [] s = omega arith
Seg-le h prev a hi (c ∷ cs) s = omega (arith, Seg-le h a (behind a c) hi cs s.1)

pub Seg-same :
    (h h' : Heap) (prev a hi : ℕ) (cs : List Cell)
    → Seg h prev a hi cs
    → ((x : ℕ) → a ≤ x → x < hi → h'.entry x ≡ h.entry x)
    → Seg h' prev a hi cs
Seg-same h h' prev a hi [] s same = s
Seg-same h h' prev a hi (c ∷ cs) s same =
    let top = Seg-le h a (behind a c) hi cs s.1 in
    (
      same a (omega arith) (omega arith) ∙ s.0,
      Seg-same h h' a (behind a c) hi cs s.1 (λ x p q. same x (omega arith) q),
    )

-- The cells that a request for `units` units makes of a free cell.
abbrev pub cut : ℕ → Cell → List Cell → List Cell
cut units c cs =
    if leb c.size (units + 1)
    then record c { in_use = true } ∷ cs
    else record { size = units; in_use = true }
      ∷ record { size = c.size - units - 1; in_use = false }
      ∷ cs

abbrev pub fits : ℕ → Cell → Bool
fits units c = not c.in_use && leb units c.size

-- First fit: how many units of memory lie before the cell that is taken, and the new cells.
unfoldable pub alloc : ℕ → List Cell → Option (ℕ × List Cell)
alloc units [] = none
alloc units (c ∷ cs) = if fits units c then some (0, cut units c cs) else elim (alloc units cs) [
  | none ↦ none
  | some (before, cs') ↦ some (c.size + 1 + before, c ∷ cs')
]

pub link-cases : (a : ℕ) (cs : List Cell) → (link a cs ≡ 0) ⊎ (link a cs ≡ a)
link-cases a [] = inl refl
link-cases a (c ∷ cs) = inr refl

-- What `split` leaves at each address, where the entry `o` stands at `e`.
pub split-entry :
    (e units : ℕ) (h : Heap) (o : Entry) (x : ℕ)
    → h.entry e ≡ o
    → e + (units + 1) * entry_size < 2 ^ 32
    → o.size < 2 ^ 32
    → units < o.size
    → o.next ≢ e
    → o.next ≢ e + (units + 1) * entry_size
    → (let n = e + (units + 1) * entry_size in
        (split e units h).entry x ≡ (
          if x == e
          then record { next = n; prev = o.prev; size = units; flags = flag_used }
          else (if x == n
              then record { next = o.next; prev = e; size = o.size - units - 1; flags = flag_free }
              else (if not (o.next == 0) && x == o.next
                  then (let y = h.entry x in record y { prev = n })
                  else h.entry x))))
unfolding split
split-entry e units h o x at b s u ne nn = ground (arith, at)
