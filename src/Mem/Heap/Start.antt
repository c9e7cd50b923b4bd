-- ===== src/Mem/Heap/Start.antt =====
-- The heap at its start, and with another bitmap that says the same.
use ata_driver.Common.{
  ℕ, ◌+◌, ◌*◌, ◌≤◌, ◌<◌, ◌≡◌, ◌≢◌, refl, inl, arith, true, false, List, [], ◌∷◌, ltb, ==_refl,
}
use ata_driver.Mem.Bitmap.{
  Memory, entry_free, entry_used, get_entry, get_entry-set_entry, set_entry,
}
use ata_driver.Mem.Frames.{frame_size, clamp_last}
use ata_driver.Mem.Heap.{
  Entry, Heap, kernel_first_frame, user_first_frame, kalloc_init, units_of, frames_of,
}
use ata_driver.Mem.Heap.Seg.{Cell, Seg-same, alloc}
use ata_driver.Mem.Heap.Spec.{Area, request, request-grown, request-taken, Holds}

-- The heap only depends on the entries and on what the bitmap says.
pub Holds-same :
    (total limit head_addr : ℕ) (area : Area) (h : Heap) (bm : Memory)
    → ((f : ℕ) → get_entry bm f ≡ get_entry h.bitmap f)
    → Holds total limit head_addr area h
    → Holds total limit head_addr area (record h { bitmap = bm })
Holds-same total limit head_addr area h bm same v = record {
  low = v.low;
  head_out = v.head_out;
  head_flags = v.head_flags;
  head_next = v.head_next;
  seg =
      Seg-same h (record h { bitmap = bm }) head_addr area.lo (area.top * frame_size) area.cells
        v.seg (λ x p q. refl);
  frames = record {
    first = v.frames.first;
    below = v.frames.below;
    inside = v.frames.inside;
    taken = λ f p q. rw (same f) (v.frames.taken f p q);
    free = λ f p q. rw (same f) (v.frames.free f p q);
    kept = λ f p q. rw (same f) (v.frames.kept f p q);
  };
}

-- The empty heap from the frame `first` on.
abbrev pub empty_area : ℕ → Area
empty_area first = record { lo = first * frame_size; top = first; cells = [] }

pub empty-Holds :
    (total last first head_addr : ℕ) (bm : Memory) (entries : ℕ → Entry)
    → kernel_first_frame ≤ first
    → first ≤ last
    → last + 1 ≡ user_first_frame
    → user_first_frame ≤ total
    → head_addr < first * frame_size
    → ((f : ℕ) → kernel_first_frame ≤ f → f < first → get_entry bm f ≢ entry_free)
    → ((f : ℕ) → first ≤ f → f < user_first_frame → get_entry bm f ≡ entry_free)
    → Holds total last head_addr
        (empty_area first)
        (record (kalloc_init head_addr (record { entry = entries; bitmap = bm })) {
          bitmap = set_entry bm last entry_used;
        })
unfolding kalloc_init clamp_last
empty-Holds total last first head_addr bm entries from upto end large static taken free =
    let after = get_entry-set_entry bm last entry_used in
    let short : ltb total user_first_frame ≡ false = ground (arith, large) in
    record {
      low = omega arith;
      head_out = inl static;
      head_flags = rw (==_refl head_addr) refl;
      head_next = rw (==_refl head_addr) refl;
      seg = refl;
      frames = record {
        first = from;
        below = upto;
        inside = rw short (omega arith);
        taken = λ f p q e. taken f p q (ground (arith, after f (omega arith), e));
        free = λ f p q. ground (arith, after f (omega arith), free f p (omega arith));
        kept = λ f p q e.
            let inside : f < user_first_frame = ground (arith, short, q, large) in
            ground (arith, after f (omega arith), e, end, p, inside);
      };
    }

-- The blocks of 1024, 2048, 32 and 64 bytes that the drivers ask for, in the one frame that they
-- fit in. A cell is named by its size.
abbrev pub used_cell : ℕ → Cell
used_cell size = record { size = size; in_use = true }

abbrev pub free_cell : ℕ → Cell
free_cell size = record { size = size; in_use = false }

abbrev pub one_frame : ℕ → List Cell → Area
one_frame first cells = record { lo = first * frame_size; top = first + 1; cells = cells }

module _ (first limit : ℕ) where
  pub request-handlers :
      first < limit
      → request limit (units_of 1024) (empty_area first)
        ≡ (first * frame_size + 16, one_frame first (used_cell 64 ∷ free_cell 190 ∷ []))
  unfolding units_of frames_of alloc
  request-handlers room = request-grown limit 64 (empty_area first) refl (ground (arith, room))

  pub request-idt :
      request limit (units_of 2048) (one_frame first (used_cell 64 ∷ free_cell 190 ∷ [])) ≡ (
        first * frame_size + 65 * 16 + 16,
        one_frame first (used_cell 64 ∷ used_cell 128 ∷ free_cell 61 ∷ []),
      )
  unfolding units_of alloc
  request-idt =
      request-taken limit 128 (one_frame first (used_cell 64 ∷ free_cell 190 ∷ [])) 65
        (used_cell 64 ∷ used_cell 128 ∷ free_cell 61 ∷ []) refl

  pub request-keyboard :
      request limit
        (units_of 32)
        (one_frame first (used_cell 64 ∷ used_cell 128 ∷ free_cell 61 ∷ []))
      ≡ (
        first * frame_size + 194 * 16 + 16,
        one_frame first (used_cell 64 ∷ used_cell 128 ∷ used_cell 2 ∷ free_cell 58 ∷ []),
      )
  unfolding units_of alloc
  request-keyboard =
      request-taken limit 2 (one_frame first (used_cell 64 ∷ used_cell 128 ∷ free_cell 61 ∷ [])) 194
        (used_cell 64 ∷ used_cell 128 ∷ used_cell 2 ∷ free_cell 58 ∷ []) refl

  pub request-serial :
      request limit
        (units_of 64)
        (one_frame first (used_cell 64 ∷ used_cell 128 ∷ used_cell 2 ∷ free_cell 58 ∷ []))
      ≡ (
        first * frame_size + 197 * 16 + 16,
        one_frame first
            (used_cell 64 ∷ used_cell 128 ∷ used_cell 2 ∷ used_cell 4 ∷ free_cell 53 ∷ []),
      )
  unfolding units_of alloc
  request-serial =
      request-taken limit 4
        (one_frame first (used_cell 64 ∷ used_cell 128 ∷ used_cell 2 ∷ free_cell 58 ∷ [])) 197
        (used_cell 64 ∷ used_cell 128 ∷ used_cell 2 ∷ used_cell 4 ∷ free_cell 53 ∷ []) refl
