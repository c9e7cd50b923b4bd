-- ===== src/Mem/Inspect.antt =====
-- `mem_inspect` and `mem_inspect_alloc` of src/kernel/drivers/mem.c: what they find and print. The
-- bitmap and the heap stay as they are meanwhile, since video memory lies below them.
pub mod Runs
pub mod Entries
mod Tests
use ata_driver.Common.{
  ℕ, zero, suc, ◌+◌, ◌-◌, Bool, ◌&&◌, not, Option, none, some, List, [], ◌∷◌, ◌==◌, ltb,
  if◌then◌else◌,
}
use ata_driver.Io.{Bus}
use ata_driver.Io.Run.{Cmd, done, waiting, pure, ◌>>◌}
use ata_driver.Mem.Bitmap.{Memory, get_entry}
use ata_driver.Mem.Heap.{Entry, Heap}
use ata_driver.Str.Format.{Arg, number}
use ata_driver.Fb.{Fb}
use ata_driver.Fb.Printf.Print.{print}

-- The arguments of a line that `mem_inspect` prints.
pub record Run : Type 0 where
  pub first : ℕ
  pub last : ℕ
  pub status : ℕ

-- The `for` loop with `rounds` frames left from `f` on; `w` is the status of the run that starts at
-- `r_start`, 4 before the first.
pub find_runs : ℕ → ℕ → ℕ → ℕ → Memory → List Run
find_runs zero f w r_start bm = []
find_runs (suc rounds) f w r_start bm =
    let v = get_entry bm f in
    let rest = find_runs rounds (f + 1) v (if v == w then r_start else f) bm in
    if not (v == w) && ltb w 4
    then record { first = r_start; last = f - 1; status = w } ∷ rest
    else rest

-- The lines of `mem_inspect_alloc` from the entry `e` on. `none`: the fuel ran out.
pub find_entries : ℕ → ℕ → Heap → Option (List Entry)
find_entries zero e h = none
find_entries (suc fuel) e h =
    if e == 0 then some [] else elim (find_entries fuel (h.entry e).next h) [
      | none ↦ none
      | some entries ↦ some (h.entry e ∷ entries)
    ]

module _ (bus : Bus) where
  pub print_runs : List Run → Cmd (Fb × bus.State) (Unit {0})
  print_runs [] = pure tt
  print_runs (r ∷ rs) =
      print bus "[%dd,%dd] = %bd\n" (number r.first ∷ number r.last ∷ number r.status ∷ [])
      >> print_runs rs

  pub mem_inspect : ℕ → Memory → Cmd (Fb × bus.State) (Unit {0})
  unfolding find_runs print_runs
  mem_inspect total bm = print bus "mem_inspect:\n" [] >> print_runs (find_runs total 0 4 0 bm)

  pub print_entries : List Entry → Cmd (Fb × bus.State) (Unit {0})
  print_entries [] = pure tt
  print_entries (e ∷ es) =
      print bus "entry { flags: %dx, size: %dd, prev: %dx, next: %dx }\n"
        (number e.flags ∷ number e.size ∷ number e.prev ∷ number e.next ∷ [])
      >> print_entries es

  pub mem_inspect_alloc : ℕ → ℕ → Heap → Cmd (Fb × bus.State) (Unit {0})
  unfolding find_entries print_entries
  mem_inspect_alloc fuel head_addr h s = elim (find_entries fuel head_addr h) [
    | none ↦ waiting
    | some entries ↦ (print bus "mem_inspect_alloc:\n" [] >> print_entries entries) s
  ]
