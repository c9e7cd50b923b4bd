-- ===== src/Kernel/Space.antt =====
-- What the steps of the kernel's start do to its heap.
use mathlib.Core.Path.{subst}
use ata_driver.Common.{ℕ, ◌+◌, ◌/◌, ◌^◌, ◌≤◌, ◌<◌, ◌≡◌, refl, arith, length}
use ata_driver.Io.{Bus}
use ata_driver.Io.Run.{done}
use ata_driver.Mem.Bitmap.{bitmap_addr, get_entry}
use ata_driver.Mem.Heap.{Heap, units_of}
use ata_driver.Mem.Heap.Spec.{Area, request, Holds}
use ata_driver.Mem.Heap.Serve.{kalloc-request}
use ata_driver.Mem.Heap.Start.{Holds-same}
use ata_driver.Fb.Write.{clear-above}
use ata_driver.Kernel.{Machine, Given, heap_of, with_heap, paint, get_space}

module _ (bus : Bus) (g : Given) (m : Machine bus.State) (limit : ℕ) (area : Area)
    (v : Holds m.total limit g.head_addr area (heap_of m)) where
  -- A block that the kernel asks for is what `request` says, and nothing but the heap changes.
  pub get_space-request :
      (bytes addr : ℕ) (area' : Area)
      → request limit (units_of bytes) area ≡ (addr, area')
      → bytes < 2 ^ 31
      → m.total ≤ 2 ^ 20
      → length area.cells + 2 ≤ g.fuel
      → (h' : Heap) × (get_space bus g bytes m ≡ done addr (with_heap h' m))
        × Holds m.total limit g.head_addr area' h'
  unfolding get_space
  get_space-request bytes addr area' e small machine enough =
      let (h', r, v') =
        kalloc-request g.fuel m.total limit g.head_addr bytes area (heap_of m) v small machine
          enough in
      (h', rw (get_space, r, e) refl, subst (λ out. Holds m.total limit g.head_addr out.1 h') e v')

  -- Video memory lies below the bitmap.
  pub paint-Holds : (fg bg : ℕ) → Holds m.total limit g.head_addr area (heap_of (paint bus fg bg m))
  unfolding paint get_entry
  paint-Holds fg bg =
      Holds-same m.total limit g.head_addr area (heap_of m) (heap_of (paint bus fg bg m)).bitmap
        (λ f. rw (clear-above bus fg bg m.fb m.hardware (bitmap_addr + f / 4) (omega arith)) refl) v
