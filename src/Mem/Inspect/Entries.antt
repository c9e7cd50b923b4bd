-- ===== src/Mem/Inspect/Entries.antt =====
-- The lines of `mem_inspect_alloc` are the entries of the heap.
use ata_driver.Common.{
  ℕ, zero, suc, ◌+◌, ◌*◌, ◌≤◌, ◌<◌, ◌≡◌, ◌∙◌, ap, refl, arith, false, some, List, [], ◌∷◌, ◌==◌,
  length,
}
use ata_driver.Mem.Frames.{frame_size}
use ata_driver.Mem.Heap.{Entry, Heap}
use ata_driver.Mem.Heap.Seg.{Cell, behind, link, entry_of, Seg}
use ata_driver.Mem.Heap.Spec.{Area, Holds}
use ata_driver.Mem.Inspect.{find_entries}

-- The entries of the cells from `a` on, behind the entry at `prev`.
abbrev pub entries_of : ℕ → ℕ → List Cell → List Entry
entries_of prev a [] = []
entries_of prev a (c ∷ cs) = entry_of prev c (link (behind a c) cs) ∷ entries_of a (behind a c) cs

find_entries_lem :
    (fuel prev a hi : ℕ) (cells : List Cell) (h : Heap)
    → 0 < a
    → Seg h prev a hi cells
    → length cells < fuel
    → find_entries fuel (link a cells) h ≡ some (entries_of prev a cells)
unfolding find_entries
find_entries_lem zero prev a hi cells h low seg enough = absurd (omega (arith, enough))
find_entries_lem (suc fuel) prev a hi [] h low seg enough = refl
find_entries_lem (suc fuel) prev a hi (c ∷ cs) h low seg enough =
    let some_a : (a == 0) ≡ false = ground (arith, low) in
    let rest =
      find_entries_lem fuel a (behind a c) hi cs h (omega (arith, low)) seg.1
        (omega (arith, enough)) in
    rw (some_a, ap (λ (e : Entry). e.next) seg.0, rest)
      (ap (λ e. some (e ∷ entries_of a (behind a c) cs)) seg.0)

-- On a heap that holds an area, with two rounds more than there are cells: `mem_inspect_alloc` comes
-- to the end of the list, and its lines are the head of the list and the entries of the cells, in
-- the order of their addresses.
pub find_entries-Holds :
    (fuel total limit head_addr : ℕ) (area : Area) (h : Heap)
    → Holds total limit head_addr area h
    → 0 < head_addr
    → length area.cells + 2 ≤ fuel
    → find_entries fuel head_addr h
      ≡ some (h.entry head_addr ∷ entries_of head_addr area.lo area.cells)
unfolding find_entries
find_entries-Holds zero total limit head_addr area h v pos enough = absurd (omega (arith, enough))
find_entries-Holds (suc fuel) total limit head_addr area h v pos enough =
    let some_head : (head_addr == 0) ≡ false = ground (arith, pos) in
    let rest =
      ap (λ p. find_entries fuel p h) v.head_next
      ∙ find_entries_lem fuel head_addr area.lo (area.top * frame_size) area.cells h v.low v.seg
          (omega (arith, enough)) in
    rw (some_head, rest) refl
