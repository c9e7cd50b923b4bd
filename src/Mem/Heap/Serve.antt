-- ===== src/Mem/Heap/Serve.antt =====
-- `kalloc` implements `request` on a heap that holds an area.
use ata_driver.Mem.Heap.Place.{
  some_frames, first_fit-inside, first_fit-top, refused-full, marked-IsBelow,
}
use mathlib.Core.Path.{subst}
use ata_driver.Common.{
  ℕ, zero, suc, ◌+◌, ◌*◌, ◌^◌, ◌≤◌, ◌<◌, ◌≡◌, ◌⊎◌, inl, inr, refl, sym, ap, ◌∙◌, arith, true, false,
  none, some, List, ◌++◌, leb, length,
}
use ata_driver.Mem.Bitmap.{Memory}
use ata_driver.Mem.Frames.{frame_size, clamp_last}
use ata_driver.Mem.Frames.Allocate.{IsFirstFit, IsRefused, allocate_frames-IsFirstFit}
use ata_driver.Mem.Heap.{
  Entry, Heap, kernel_first_frame, user_first_frame, units_of, frames_of, kalloc_loop, kalloc,
}
use ata_driver.Mem.Heap.Grant.{fresh_frames, fits?, kalloc_loop-onward}
use ata_driver.Mem.Heap.Seg.{Cell, Seg, alloc}
use ata_driver.Mem.Heap.Walk.{
  Full, Found, Found-link, Found-link-after, alloc-cases, kalloc_loop-Found,
}
use ata_driver.Mem.Heap.Grow.{
  growth, fresh_cells, link-fresh, kalloc_loop-Grown, kalloc_loop-Refused,
}
use ata_driver.Mem.Heap.Spec.{
  Area, request-taken, request-grown, request-refused, request, IsBelow, Holds, clamp_last-bound,
}

-- The loop at `mem_head` returns the address of `r` and leaves a heap that holds its area.
abbrev Served : ℕ → ℕ → ℕ → ℕ → ℕ → Heap → ℕ × Area → Type 0
Served fuel total limit head_addr units h r =
    (h' : Heap) × (kalloc_loop fuel total units head_addr h ≡ some (r.0, h'))
    × Holds total limit head_addr r.1 h'

module _ (fuel total limit head_addr units : ℕ) (area : Area) (h : Heap)
    (v : Holds total limit head_addr area h) (small : units ≤ 2 ^ 27) (machine : total ≤ 2 ^ 20)
    (enough : length area.cells + 2 ≤ suc fuel) where
  head_skipped : fits? units (h.entry head_addr) ≡ false
  head_skipped = rw (v.head_flags) refl

  top_bound : limit ≤ user_first_frame
  top_bound = omega (arith, v.frames.inside, clamp_last-bound total)

  head_beyond : (hi : ℕ) → hi ≤ limit * frame_size → (head_addr < area.lo) ⊎ (hi ≤ head_addr)
  head_beyond hi p = elim (v.head_out) [
    | inl low ↦ inl low
    | inr up ↦ inr (omega (arith, top_bound))
  ]

  top_inside : area.top * frame_size ≤ limit * frame_size
  top_inside = omega (arith, v.frames.below)

  head_fit :
      (before : ℕ) (cells : List Cell)
      → alloc units area.cells ≡ some (before, cells)
      → Found units area.cells before cells
      → Served (suc fuel) total limit head_addr units h (request limit units area)
  head_fit before cells e found =
      let (h', r, seg, same, bm) =
        kalloc_loop-Found h fuel total units head_addr area.lo (area.top * frame_size) before
          area.cells cells found v.seg (omega arith) (omega arith) v.low
          (omega (arith, top_inside, top_bound)) in
      let next : (h.entry head_addr).next ≡ area.lo = v.head_next ∙ Found-link found in
      let kept = same head_addr (head_beyond (area.top * frame_size) top_inside) in
      let onward =
        kalloc_loop-onward fuel total units head_addr h (omega arith) head_skipped
          (λ z. omega (arith, next, v.low)) in
      subst (Served (suc fuel) total limit head_addr units h)
        (sym (request-taken limit units area before cells e))
        (
          h',
          onward ∙ ap (λ p. kalloc_loop fuel total units p h) next ∙ r,
          record {
            low = v.low;
            head_out = v.head_out;
            head_flags = ap (λ (o : Entry). o.flags) kept ∙ v.head_flags;
            head_next = ap (λ (o : Entry). o.next) kept ∙ next ∙ sym (Found-link-after found);
            seg = seg;
            frames = subst (λ b. IsBelow total limit area.top b) (sym bm) v.frames;
          },
        )

  abbrev Here : ℕ × Memory → Type 0
  Here r =
      IsFirstFit h.bitmap (frames_of units) kernel_first_frame (clamp_last total user_first_frame) r

  abbrev Nowhere : ℕ × Memory → Type 0
  Nowhere r =
      IsRefused h.bitmap (frames_of units) kernel_first_frame (clamp_last total user_first_frame) r

  head_grown :
      alloc units area.cells ≡ none
      → Full units area.cells
      → Here (fresh_frames total units h)
      → Served (suc fuel) total limit head_addr units h (request limit units area)
  head_grown e full fit =
      let start = first_fit-top total limit area.top units h v.frames small machine fit in
      let inside : area.top + frames_of units ≤ limit =
        omega (
          arith,
          start,
          first_fit-inside total limit area.top units h v.frames small machine fit,
        ) in
      let room : leb (area.top + frames_of units) limit ≡ true = ground (arith, inside) in
      let wide : area.top * frame_size + growth units ≡ (area.top + frames_of units) * frame_size =
        omega arith in
      let beyond : area.top * frame_size + growth units ≤ limit * frame_size =
        omega (arith, inside) in
      let (h', r, seg, upd, same, bm) =
        kalloc_loop-Grown h (suc fuel) total units head_addr area.lo (area.top * frame_size)
          area.cells v.seg full head_skipped v.head_next
          (head_beyond (area.top * frame_size + growth units) beyond)
          (fit.address ∙ ap (λ x. x * frame_size) start) enough small v.low
          (omega (arith, beyond, top_bound)) in
      subst (Served (suc fuel) total limit head_addr units h)
        (sym (request-grown limit units area e room))
        (
          h',
          r,
          record {
            low = v.low;
            head_out = v.head_out;
            head_flags = ap (λ (o : Entry). o.flags) upd ∙ v.head_flags;
            head_next = ap (λ (o : Entry). o.next) upd ∙ sym (link-fresh units area.lo area.cells);
            seg =
                subst (λ x. Seg h' head_addr area.lo x (area.cells ++ fresh_cells units)) wide seg;
            frames =
                subst (λ b. IsBelow total limit (area.top + frames_of units) b) (sym bm)
                  (marked-IsBelow total limit area.top units h v.frames small machine fit);
          },
        )

  head_refused :
      alloc units area.cells ≡ none
      → Full units area.cells
      → Nowhere (fresh_frames total units h)
      → Served (suc fuel) total limit head_addr units h (request limit units area)
  head_refused e full nowhere =
      let over = refused-full total limit area.top units h v.frames small machine nowhere in
      let room : leb (area.top + frames_of units) limit ≡ false = ground (arith, over) in
      let r =
        kalloc_loop-Refused h (suc fuel) total units head_addr area.lo (area.top * frame_size)
          area.cells v.seg full head_skipped v.head_next nowhere.null enough small v.low in
      subst (Served (suc fuel) total limit head_addr units h)
        (sym (request-refused limit units area e room))
        (h, r ∙ ap (λ b. some (0, record h { bitmap = b })) nowhere.unchanged, v)

  head_beside :
      alloc units area.cells ≡ none
      → Full units area.cells
      → Served (suc fuel) total limit head_addr units h (request limit units area)
  head_beside e full =
      elim (allocate_frames-IsFirstFit h.bitmap total (frames_of units) kernel_first_frame
        user_first_frame (some_frames total limit area.top units h v.frames small machine)
        machine) [ inl fit ↦ head_grown e full fit | inr nowhere ↦ head_refused e full nowhere ]

  head_loop : Served (suc fuel) total limit head_addr units h (request limit units area)
  head_loop = elim (alloc-cases units area.cells) [
    | inl (before, cells, e, found) ↦ head_fit before cells e found
    | inr (e, full) ↦ head_beside e full
  ]

units_of-le : (bytes : ℕ) → bytes < 2 ^ 31 → units_of bytes ≤ 2 ^ 27
unfolding units_of
units_of-le bytes small = ground arith

-- On a heap that holds an area of cells, a call of `kalloc` for less than 2^31 bytes returns what
-- `request` says, within two rounds more than there are cells: the space of the first free cell
-- that is large enough, cut if more than one unit is left over; else the space of fresh frames at
-- the end of the area; or NULL, where these would pass `limit`. The heap then holds the new area.
pub kalloc-request :
    (fuel total limit head_addr bytes : ℕ) (area : Area) (h : Heap)
    → Holds total limit head_addr area h
    → bytes < 2 ^ 31
    → total ≤ 2 ^ 20
    → length area.cells + 2 ≤ fuel
    → (h' : Heap) × (kalloc fuel total head_addr bytes h
        ≡ some ((request limit (units_of bytes) area).0, h'))
      × Holds total limit head_addr (request limit (units_of bytes) area).1 h'
unfolding kalloc
kalloc-request zero total limit head_addr bytes area h v small machine enough = absurd (omega arith)
kalloc-request (suc fuel) total limit head_addr bytes area h v small machine enough =
    head_loop fuel total limit head_addr (units_of bytes) area h v (units_of-le bytes small) machine
      enough
