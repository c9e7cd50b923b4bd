-- ===== src/Mem/Heap/Grow.antt =====
-- The growth of a contiguous heap: `kalloc` where no cell is large enough.
use mathlib.Core.Path.{subst}
use ata_driver.Common.{
  ℕ, zero, suc, ◌+◌, ◌-◌, ◌*◌, ◌/◌, ◌^◌, ◌≤◌, ◌<◌, ◌≡◌, ◌≢◌, ◌⊎◌, inl, inr, refl, sym, ap, ◌∙◌,
  arith, false, some, List, [], ◌∷◌, ◌++◌, ◌==◌, if◌then◌else◌, ==_ne, ==_refl, length,
}
use ata_driver.Mem.Frames.{frame_size}
use ata_driver.Mem.Heap.{Entry, Heap, entry_size, flag_free, frames_of, append_frames, kalloc_loop}
use ata_driver.Mem.Heap.Grant.{
  fresh_frames, fits?, grown, kalloc_loop-onward, kalloc_loop-null, kalloc_loop-grown,
  frames_of-enough,
}
use ata_driver.Mem.Heap.Seg.{Cell, behind, link, entry_of, Seg, SameOutside, Seg-le, cut}
use ata_driver.Mem.Heap.Carve.{carve, kalloc_loop-carve, carve-Seg}
use ata_driver.Mem.Heap.Walk.{Full, cut-link, fits?-cell}

-- The bytes that a request adds to the heap, and the free cell that they are at first.
abbrev pub growth : ℕ → ℕ
growth units = frames_of units * frame_size

abbrev pub fresh_cell : ℕ → Cell
fresh_cell units = record { size = growth units / entry_size - 1; in_use = false }

abbrev pub fresh_cells : ℕ → List Cell
fresh_cells units = cut units (fresh_cell units) []

pub growth-bounds :
    (units : ℕ) → units ≤ 2 ^ 27 → (frame_size ≤ growth units) × (growth units < 2 ^ 32)
unfolding frames_of
growth-bounds units small = ground arith

behind-fresh_cell : (units a : ℕ) → units ≤ 2 ^ 27 → behind a (fresh_cell units) ≡ a + growth units
behind-fresh_cell units a small = omega (arith, growth-bounds units small)

append_frames-entry :
    (e n frames : ℕ) (h : Heap) (x : ℕ)
    → n ≢ e
    → 1 ≤ frames
    → frames * frame_size < 2 ^ 32
    → (append_frames e n frames h).entry x ≡ (
        if x == n
        then record {
          next = 0;
          prev = e;
          size = frames * frame_size / entry_size - 1;
          flags = flag_free;
        }
        else (if x == e then (let o = h.entry e in record o { next = n }) else h.entry x))
unfolding append_frames
append_frames-entry e n frames h x ne one small = ground (arith)

-- At the last entry `e`, the request gets fresh frames directly behind the heap, from `hi` on.
module _ (h : Heap) (total units e hi : ℕ) (small : units ≤ 2 ^ 27)
    (short : fits? units (h.entry e) ≡ false) (end : (h.entry e).next ≡ 0)
    (there : (fresh_frames total units h).0 ≡ hi) (low : 0 < hi) (high : hi + growth units < 2 ^ 32)
    (apart : e ≢ hi) where
  wider : Heap
  wider = grown total units e h

  wider-entry :
      (x : ℕ)
      → wider.entry x ≡ (
          if x == hi
          then entry_of e (fresh_cell units) 0
          else (if x == e then (let o = h.entry e in record o { next = hi }) else h.entry x))
  unfolding wider
  wider-entry x = rw (sym there) (
      append_frames-entry e (fresh_frames total units h).0 (frames_of units)
        (record h { bitmap = (fresh_frames total units h).1 }) x (λ z. apart (sym z ∙ there))
        (omega (arith, growth-bounds units small)) (growth-bounds units small).1)

  wider-Seg : Seg wider e hi (hi + growth units) (fresh_cell units ∷ [])
  wider-Seg = (wider-entry hi ∙ rw (==_refl hi) refl, behind-fresh_cell units hi small)

  wider-carved :
      Seg (carve units hi wider) e hi (hi + growth units) (fresh_cells units)
      × SameOutside hi (hi + growth units) wider (carve units hi wider)
      × ((carve units hi wider).bitmap ≡ wider.bitmap)
  wider-carved =
      carve-Seg wider e hi (hi + growth units) units (fresh_cell units) [] wider-Seg low high

  wider-returns :
      (fuel : ℕ)
      → kalloc_loop (suc (suc fuel)) total units e h ≡ some (hi + entry_size, carve units hi wider)
  unfolding wider
  wider-returns fuel =
      let n : (fresh_frames total units h).0 ≢ 0 = λ z. omega (arith, there, z) in
      let o : wider.entry hi ≡ entry_of e (fresh_cell units) 0 =
        wider-entry hi ∙ rw (==_refl hi) refl in
      let large : units ≤ (fresh_cell units).size = omega (arith, enough) in
      kalloc_loop-grown (suc fuel) total units e h (omega arith) short end n
      ∙ ap (λ p. kalloc_loop (suc fuel) total units p wider) there
      ∙ kalloc_loop-carve fuel total units hi wider (omega arith) (ap (λ (o : Entry). o.flags) o)
          (omega (arith, large, ap (λ (o : Entry). o.size) o))
    where
      enough : units ≤ growth units / entry_size - 1
      enough = omega (arith, frames_of-enough units small, growth-bounds units small)

  wider-last :
      (e < hi) ⊎ (hi + growth units ≤ e)
      → (carve units hi wider).entry e ≡ (let o = h.entry e in record o { next = hi })
  wider-last out = wider-carved.1 e out ∙ wider-entry e ∙ rw (==_ne e hi apart, ==_refl e) refl

  wider-other :
      (x : ℕ)
      → x ≢ e
      → (x < hi) ⊎ (hi + growth units ≤ x)
      → (carve units hi wider).entry x ≡ h.entry x
  wider-other x ne out =
      wider-carved.1 x out
      ∙ wider-entry x
      ∙ rw
          (
            ==_ne x hi (λ z. elim out [
              | inl p ↦ omega arith
              | inr q ↦ omega (arith, (growth-bounds units small).0)
            ]),
            ==_ne x e ne,
          )
          refl

pub link-fresh : (units a : ℕ) (cs : List Cell) → link a (cs ++ fresh_cells units) ≡ a
link-fresh units a [] = cut-link units a (fresh_cell units) []
link-fresh units a (c ∷ cs) = refl

-- The loop at the entry `e`, which stands before the cells from `a` on: the heap has the fresh
-- cells behind it.
abbrev pub Grown : ℕ → ℕ → ℕ → ℕ → ℕ → ℕ → List Cell → Heap → Type 0
Grown fuel total units e a hi cs h =
    (h' : Heap) × (kalloc_loop fuel total units e h ≡ some (hi + entry_size, h'))
    × Seg h' e a (hi + growth units) (cs ++ fresh_cells units)
    × (h'.entry e ≡ (let o = h.entry e in record o { next = a }))
    × ((x : ℕ) → x ≢ e → (x < a) ⊎ (hi + growth units ≤ x) → h'.entry x ≡ h.entry x)
    × (h'.bitmap ≡ (fresh_frames total units h).1)

wider-Grown :
    (h : Heap) (fuel total units e hi : ℕ)
    → units ≤ 2 ^ 27
    → fits? units (h.entry e) ≡ false
    → (h.entry e).next ≡ 0
    → (fresh_frames total units h).0 ≡ hi
    → 0 < hi
    → hi + growth units < 2 ^ 32
    → (e < hi) ⊎ (hi + growth units ≤ e)
    → Grown (suc (suc fuel)) total units e hi hi [] h
unfolding append_frames wider
wider-Grown h fuel total units e hi small short end there low high out =
    let apart : e ≢ hi = λ z. elim out [
      | inl p ↦ omega arith
      | inr q ↦ omega (arith, (growth-bounds units small).0)
    ] in
    let done = wider-carved h total units e hi small short end there low high apart in
    (
      carve units hi (wider h total units e hi small short end there low high apart),
      wider-returns h total units e hi small short end there low high apart fuel,
      done.0,
      wider-last h total units e hi small short end there low high apart out,
      wider-other h total units e hi small short end there low high apart,
      done.2,
    )

Grown-more :
    (h : Heap) (fuel total units e a hi : ℕ) (c : Cell) (cs : List Cell)
    → h.entry a ≡ entry_of e c (link (behind a c) cs)
    → fits? units (h.entry e) ≡ false
    → (h.entry e).next ≡ a
    → (e < a) ⊎ (hi + growth units ≤ e)
    → units ≤ 2 ^ 27
    → 0 < a
    → a < hi
    → Grown fuel total units a (behind a c) hi cs h
    → Grown (suc fuel) total units e a hi (c ∷ cs) h
Grown-more h fuel total units e a hi c cs at short next out small low up
      (h', r, seg, upd, same, bm) =
    let onward =
      kalloc_loop-onward fuel total units e h (omega arith) short (λ z. omega (arith, next)) in
    let keep =
      same e (elim out [ inl p ↦ λ z. omega arith | inr q ↦ λ z. omega arith ])
        (elim out [ inl p ↦ inl (omega arith) | inr q ↦ inr q ]) in
    (
      h',
      onward ∙ ap (λ p. kalloc_loop fuel total units p h) next ∙ r,
      (
        upd
            ∙ ap (λ (o : Entry). record o { next = behind a c }) at
            ∙ ap (entry_of e c) (sym (link-fresh units (behind a c) cs)),
        seg,
      ),
      keep ∙ ap (λ v. let o = h.entry e in record o { next = v }) next,
      λ x ne side.
          same x (λ z. elim side [ inl p ↦ omega arith | inr q ↦ omega arith ])
            (elim side [ inl p ↦ inl (omega arith) | inr q ↦ inr q ]),
      bm,
    )

pub kalloc_loop-Grown :
    (h : Heap) (fuel total units e a hi : ℕ) (cs : List Cell)
    → Seg h e a hi cs
    → Full units cs
    → fits? units (h.entry e) ≡ false
    → (h.entry e).next ≡ link a cs
    → (e < a) ⊎ (hi + growth units ≤ e)
    → (fresh_frames total units h).0 ≡ hi
    → length cs + 2 ≤ fuel
    → units ≤ 2 ^ 27
    → 0 < a
    → hi + growth units < 2 ^ 32
    → Grown fuel total units e a hi cs h
kalloc_loop-Grown h zero total units e a hi cs s full short next out there enough small low high =
    absurd (omega arith)
kalloc_loop-Grown h (suc zero) total units e a hi cs s full short next out there enough small low
      high =
    absurd (omega arith)
kalloc_loop-Grown h (suc (suc fuel)) total units e a hi [] s full short next out there enough small
      low high =
    subst (λ x. Grown (suc (suc fuel)) total units e x hi [] h) (sym s)
      (wider-Grown h fuel total units e hi small short next there (omega arith) high
        (elim out [ inl p ↦ inl (omega arith) | inr q ↦ inr q ]))
kalloc_loop-Grown h (suc (suc fuel)) total units e a hi (c ∷ cs) s full short next out there enough
      small low high =
    let top = Seg-le h a (behind a c) hi cs s.1 in
    Grown-more h (suc fuel) total units e a hi c cs s.0 short next out small low (omega arith) (
      kalloc_loop-Grown h (suc fuel) total units a (behind a c) hi cs s.1 full.1
        (fits?-cell h units e a (link (behind a c) cs) c s.0 ∙ full.0)
        (ap (λ (o : Entry). o.next) s.0) (inl (omega arith)) there (omega arith) small (omega arith)
        high)

-- No cell fits and there are no frames: NULL.
pub kalloc_loop-Refused :
    (h : Heap) (fuel total units e a hi : ℕ) (cs : List Cell)
    → Seg h e a hi cs
    → Full units cs
    → fits? units (h.entry e) ≡ false
    → (h.entry e).next ≡ link a cs
    → (fresh_frames total units h).0 ≡ 0
    → length cs + 2 ≤ fuel
    → units ≤ 2 ^ 27
    → 0 < a
    → kalloc_loop fuel total units e h
      ≡ some (0, record h { bitmap = (fresh_frames total units h).1 })
kalloc_loop-Refused h zero total units e a hi cs s full short next null enough small low =
    absurd (omega arith)
kalloc_loop-Refused h (suc fuel) total units e a hi [] s full short next null enough small low =
    kalloc_loop-null fuel total units e h (omega arith) short next null
kalloc_loop-Refused h (suc fuel) total units e a hi (c ∷ cs) s full short next null enough small
      low =
    kalloc_loop-onward fuel total units e h (omega arith) short (λ z. omega (arith, next))
    ∙ ap (λ p. kalloc_loop fuel total units p h) next
    ∙ kalloc_loop-Refused h fuel total units a (behind a c) hi cs s.1 full.1
        (fits?-cell h units e a (link (behind a c) cs) c s.0 ∙ full.0)
        (ap (λ (o : Entry). o.next) s.0) null (omega arith) small (omega arith)
