-- ===== src/MmapRegistry/Tests.antt =====
-- Runs of the registry of mapped files, and its theorems at one region.
use homura.Buffers.{overwrite}
use homura.Bytes.{codes}
use homura.MmapRegistry.Bounds.{IsMapped, read_from_mmap-panic, read_from_mmap-write_to_mmap}
use homura.MmapRegistry.{
  MmapRegion, MmapRegistry, not_found, out_of_bounds, new_mmap_registry, region_at, register,
  unregister, range_end, write_to_mmap, read_from_mmap, list_regions,
}
use homura.Outcome.{ok, err, panic}
use homura.Prelude.Dict.{get, put, delete}
use homura.Prelude.{◌+◌, ◌-◌, ◌^◌, ◌≡◌, ◌≤◌, ◌↔◌, refl, true, [], some, arith, ℕ_discrete}

program : Unit {0}
unfolding region_at register unregister overwrite range_end write_to_mmap read_from_mmap
    list_regions get put delete ℕ_discrete
program = tt

-- A file of five bytes under the id 1.
abbrev hello : MmapRegion
hello = record { id = 1; file_path = codes "/f"; mmap_data = codes "hello"; size = 5; last_mod = 7 }

abbrev mapped : MmapRegistry
mapped = (register new_mmap_registry (codes "/f") 5 (some 7) (some (codes "hello")) true).0

reads :
    (read_from_mmap mapped 1 1 3 ≡ ok (codes "ell"))
    × (read_from_mmap mapped 1 4 2 ≡ err out_of_bounds)
    × (read_from_mmap mapped 2 0 1 ≡ err not_found)
    × (read_from_mmap mapped 1 (2 ^ 64 - 1) 3 ≡ panic)
    × (list_regions (unregister mapped 1 true).0 ≡ [])
unfolding program
reads = (refl, refl, refl, refl, refl)

hello-IsMapped : IsMapped mapped 1 hello
unfolding program
hello-IsMapped = record { registered = refl; all_there = refl; small = omega arith }

read_from_mmap-panic_example :
    (read_from_mmap mapped 1 (2 ^ 64 - 1) 3 ≡ panic)
    ↔ (2 ^ 64 ≤ 2 ^ 64 - 1 + 3) × (2 ^ 64 - 1 + 3 ≤ 2 ^ 64 + 5)
read_from_mmap-panic_example =
    read_from_mmap-panic mapped 1 hello hello-IsMapped (2 ^ 64 - 1) 3 (omega arith) (omega arith)

read_from_mmap-write_to_mmap_example :
    ((write_to_mmap mapped 1 1 (codes "ipp") 9 true).1 ≡ ok tt)
    × (read_from_mmap (write_to_mmap mapped 1 1 (codes "ipp") 9 true).0 1 1 3 ≡ ok (codes "ipp"))
read_from_mmap-write_to_mmap_example =
    read_from_mmap-write_to_mmap mapped 1 hello hello-IsMapped 1 9 (codes "ipp") (omega arith)
