-- ===== src/Mem/Heap/Tests.antt =====
-- Runs of `kalloc` and `kfree` on an empty heap and on a heap of one free cell.
use ata_driver.Common.{
  ℕ, zero, suc, ◌%◌, ◌<◌, ◌≡◌, inl, refl, arith, some, List, [], ◌∷◌, true, false, inr, ◌==◌,
  if◌then◌else◌,
}
use ata_driver.Mem.Bitmap.{get_pack-zero, get_pack, get_entry}
use ata_driver.Mem.Frames.{clamp_last}
use ata_driver.Mem.Heap.{Heap, units_of, kalloc, kfree}
use ata_driver.Mem.Heap.Seg.{Cell, alloc}
use ata_driver.Mem.Heap.Spec.{Area, request, Holds}
use ata_driver.Mem.Heap.Serve.{kalloc-request}
use ata_driver.Mem.Heap.Free.{give, kfree-give}
use ata_driver.Mem.Heap.RoundTrip.{kfree-kalloc}

abbrev empty_heap : Heap
empty_heap = record {
  entry = λ a. record { next = 0; prev = 0; size = 0; flags = 0 };
  bitmap = λ a. 0;
}

units_of-17 : units_of 17 ≡ 2
unfolding units_of
units_of-17 = refl

abbrev empty_area : Area
empty_area = record { lo = 0x00100000; top = 256; cells = [] }

empty-free : (g : ℕ) → get_entry empty_heap.bitmap g ≡ 0
unfolding get_entry
empty-free g = get_pack-zero (g % 4) (omega arith)

empty-Holds : Holds 1024 768 0x8000 empty_area empty_heap
unfolding clamp_last
empty-Holds = record {
  low = omega arith;
  head_out = inl (omega arith);
  head_flags = refl;
  head_next = refl;
  seg = refl;
  frames = record {
    first = omega arith;
    below = omega arith;
    inside = omega arith;
    taken = λ g p q. absurd (omega arith);
    free = λ g p q. empty-free g;
    kept = λ g p q. absurd (omega arith);
  };
}

kalloc-request_example :
    (h' : Heap) × (kalloc 2 1024 0x8000 100 empty_heap
      ≡ some ((request 768 (units_of 100) empty_area).0, h'))
    × Holds 1024 768 0x8000 (request 768 (units_of 100) empty_area).1 h'
kalloc-request_example =
    kalloc-request 2 1024 768 0x8000 100 empty_area empty_heap empty-Holds (omega arith)
      (omega arith) (omega arith)

-- One frame, whose 255 units are free, and no frame left.
abbrev one_cell : Heap
one_cell = record {
  entry = λ a.
      if a == 0x00100000
      then record { next = 0; prev = 0x8000; size = 255; flags = 1 }
      else record { next = 0x00100000; prev = 0; size = 0; flags = 0 };
  bitmap = λ a. 0x55;
}

abbrev one_area : Area
one_area = record { lo = 0x00100000; top = 257; cells = record { size = 255; in_use = false } ∷ [] }

pack-used : (k : ℕ) → k < 4 → get_pack 0x55 k ≡ 1
unfolding get_pack
pack-used zero h = refl
pack-used (suc zero) h = refl
pack-used (suc (suc zero)) h = refl
pack-used (suc (suc (suc zero))) h = refl
pack-used (suc (suc (suc (suc k)))) h = absurd (omega arith)

one-used : (g : ℕ) → get_entry one_cell.bitmap g ≡ 1
unfolding get_entry
one-used g = pack-used (g % 4) (omega arith)

one-Holds : Holds 1024 257 0x8000 one_area one_cell
unfolding clamp_last
one-Holds = record {
  low = omega arith;
  head_out = inl (omega arith);
  head_flags = refl;
  head_next = refl;
  seg = (refl, refl);
  frames = record {
    first = omega arith;
    below = omega arith;
    inside = omega arith;
    taken = λ g p q e. omega (arith, one-used g);
    free = λ g p q. absurd (omega arith);
    kept = λ g p q e. omega (arith, one-used g);
  };
}

kfree-give_example :
    (h' : Heap) × (kfree 2 0x8000 0x00100010 one_cell ≡ some h')
    × Holds 1024 257 0x8000
        (record one_area { cells = give one_area.lo 0x00100010 one_area.cells })
        h'
kfree-give_example =
    kfree-give 2 1024 257 0x8000 0x00100010 one_area one_cell one-Holds (omega arith)

abbrev cut_cells : List Cell
cut_cells = record { size = 7; in_use = true } ∷ record { size = 247; in_use = false } ∷ []

one-taken : alloc (units_of 100) one_area.cells ≡ some (0, cut_cells)
unfolding alloc units_of
one-taken = refl

kfree-kalloc_example :
    (ptr : ℕ) × (h₁ : Heap) × (h₂ : Heap) × (kalloc 3 1024 0x8000 100 one_cell ≡ some (ptr, h₁))
    × (kfree 3 0x8000 ptr h₁ ≡ some h₂)
    × Holds 1024 257 0x8000 one_area h₂
kfree-kalloc_example =
    kfree-kalloc 3 1024 257 0x8000 100 0 one_area cut_cells one_cell one-Holds (inr tt, tt)
      one-taken (omega arith) (omega arith) (omega arith)
