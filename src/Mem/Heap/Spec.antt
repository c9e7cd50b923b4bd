-- ===== src/Mem/Heap/Spec.antt =====
-- What the heap promises: an area of memory that is divided into cells, where a request takes the
-- first free cell that is large enough, and the area grows at its end where there is none.
use ata_driver.Common.{
  ℕ, ◌+◌, ◌*◌, ◌≤◌, ◌<◌, ◌≡◌, ◌≢◌, ◌⊎◌, refl, ap, ◌∙◌, arith, true, false, Option, none, some, List,
  ◌++◌, leb, if◌then◌else◌,
}
use ata_driver.Mem.Bitmap.{Memory, entry_free, get_entry}
use ata_driver.Mem.Frames.{frame_size, clamp_last}
use ata_driver.Mem.Heap.{
  Heap, entry_size, flag_null, kernel_first_frame, user_first_frame, frames_of,
}
use ata_driver.Mem.Heap.Seg.{Cell, link, Seg, alloc}
use ata_driver.Mem.Heap.Grow.{fresh_cells}

-- The cells from the address `lo` up to the frame `top`.
pub record Area : Type 0 where
  pub lo : ℕ
  pub top : ℕ
  pub cells : List Cell

-- What a request comes to, given the cell that `alloc` takes.
abbrev placed : ℕ → ℕ → Area → Option (ℕ × List Cell) → ℕ × Area
placed limit units area (some (before, cells)) =
    (area.lo + before * entry_size + entry_size, record area { cells = cells })
placed limit units area none =
    if leb (area.top + frames_of units) limit
    then (
      area.top * frame_size + entry_size,
      record {
        lo = area.lo;
        top = area.top + frames_of units;
        cells = area.cells ++ fresh_cells units;
      },
    )
    else (0, area)

-- A request for `units` units, where the frames below `limit` may be used: the address for the
-- client, NULL if there is no room, and the new area.
pub request : ℕ → ℕ → Area → ℕ × Area
request limit units area = placed limit units area (alloc units area.cells)

pub request-taken :
    (limit units : ℕ) (area : Area) (before : ℕ) (cells : List Cell)
    → alloc units area.cells ≡ some (before, cells)
    → request limit units area
      ≡ (area.lo + before * entry_size + entry_size, record area { cells = cells })
unfolding request
request-taken limit units area before cells e = ap (placed limit units area) e

pub request-grown :
    (limit units : ℕ) (area : Area)
    → alloc units area.cells ≡ none
    → leb (area.top + frames_of units) limit ≡ true
    → request limit units area ≡ (
      area.top * frame_size + entry_size,
      record {
        lo = area.lo;
        top = area.top + frames_of units;
        cells = area.cells ++ fresh_cells units;
      },
    )
unfolding request
request-grown limit units area e room = ap (placed limit units area) e ∙ rw room refl

pub request-refused :
    (limit units : ℕ) (area : Area)
    → alloc units area.cells ≡ none
    → leb (area.top + frames_of units) limit ≡ false
    → request limit units area ≡ (0, area)
unfolding request
request-refused limit units area e room = ap (placed limit units area) e ∙ rw room refl

-- The frames of the kernel below `top` are taken and those from there to `limit` are free.
pub record IsBelow (total limit top : ℕ) (bm : Memory) : Type 0 where
  pub first : kernel_first_frame ≤ top
  pub below : top ≤ limit
  pub inside : limit ≤ clamp_last total user_first_frame
  pub taken : (g : ℕ) → kernel_first_frame ≤ g → g < top → get_entry bm g ≢ entry_free
  pub free : (g : ℕ) → top ≤ g → g < limit → get_entry bm g ≡ entry_free
  pub kept :
      (g : ℕ) → limit ≤ g → g < clamp_last total user_first_frame → get_entry bm g ≢ entry_free

-- The heap holds the area: `mem_head`, outside of it, points to the first cell.
pub record Holds (total limit head_addr : ℕ) (area : Area) (h : Heap) : Type 0 where
  pub low : 0 < area.lo
  pub head_out : (head_addr < area.lo) ⊎ (user_first_frame * frame_size ≤ head_addr)
  pub head_flags : (h.entry head_addr).flags ≡ flag_null
  pub head_next : (h.entry head_addr).next ≡ link area.lo area.cells
  pub seg : Seg h head_addr area.lo (area.top * frame_size) area.cells
  pub frames : IsBelow total limit area.top h.bitmap

pub clamp_last-bound : (total : ℕ) → clamp_last total user_first_frame ≤ user_first_frame
unfolding clamp_last
clamp_last-bound total = ground arith
