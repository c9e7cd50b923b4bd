-- ===== src/Mem/Init/Tests.antt =====
-- `mem_init` on the memory map of a machine with 4M of memory.
use ata_driver.Common.{
  ◌+◌, ◌*◌, ℕ, ◌/◌, ◌<◌, ◌≡◌, refl, arith, true, ◌||◌, none, some, List, [], ◌∷◌, leb,
  if◌then◌else◌,
}
use ata_driver.Mem.Bitmap.{Memory, bitmap_addr, entry_free, entry_reserved, get_entry}
use ata_driver.Mem.Frames.{frame_size}
use ata_driver.Mem.Init.{Region, highest, holds_bitmap, mem_init}
use ata_driver.Mem.Init.Map.{IsTop, HasHolder, is_touched, mem_init-IsSetUp}

abbrev machine : List Region
machine =
    record { base = 0; size = 0x9fc00; kind = 1 }
    ∷ record { base = 0x9fc00; size = 0x60400; kind = 2 }
    ∷ record { base = 0x100000; size = 0x300000; kind = 1 }
    ∷ []

abbrev junk : Memory
junk = λ a. a

mem_init-IsSetUp_example :
    (top : ℕ) × IsTop top machine
    × (let total = top / 4096 in
        (¬ (HasHolder total machine) → mem_init machine junk ≡ none)
        × (HasHolder total machine
            → (bm : Memory) × (mem_init machine junk ≡ some (total, bm))
              × ((g : ℕ)
                  → g < total
                  → get_entry bm g ≡ (
                      if is_touched machine g || leb (g * 4096) (bitmap_addr + total / 4)
                      then entry_reserved
                      else entry_free))))
mem_init-IsSetUp_example =
    mem_init-IsSetUp machine junk (omega arith, (omega arith, (omega arith, tt)))

machine-holds_bitmap : holds_bitmap (highest machine 0 / frame_size) machine ≡ true
unfolding highest holds_bitmap
machine-holds_bitmap = refl
