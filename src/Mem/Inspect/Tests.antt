-- ===== src/Mem/Inspect/Tests.antt =====
-- A run of `mem_inspect`.
use ata_driver.Common.{ℕ, ◌<◌, ◌≡◌, refl, arith, [], ◌∷◌}
use ata_driver.Mem.Bitmap.{Memory, get_pack, get_entry}
use ata_driver.Mem.Inspect.{find_runs}
use ata_driver.Mem.Inspect.Runs.{All, AreRuns, find_runs-AreRuns}

-- Of the first four frames, two are reserved and two are free.
abbrev bitmap : Memory
bitmap = λ a. 0x0a

find_runs-AreRuns_example :
    (z : ℕ) × AreRuns bitmap 0 (find_runs 4 0 4 0 bitmap) z
    × (z < 4)
    × All bitmap z 4 (get_entry bitmap z)
find_runs-AreRuns_example = find_runs-AreRuns 4 bitmap (omega arith)

-- The second run is not printed.
find_runs_run : find_runs 4 0 4 0 bitmap ≡ record { first = 0; last = 1; status = 2 } ∷ []
unfolding find_runs get_entry get_pack
find_runs_run = refl
