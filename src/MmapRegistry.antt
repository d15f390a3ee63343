-- ===== src/MmapRegistry.antt =====
-- 9passthrough/mmapregistry.go: the regions of mapped files, with the reads and writes of the guest.
-- What the host answers is an argument of an operation. The goroutine that watches a file and the
-- client's connection are left out.
pub mod Bounds
mod Tests
use homura.Bytes.{Bytes}
use homura.Buffers.{overwrite}
use homura.Outcome.{Outcome, ok, err, panic}
use homura.Prelude.Dict.{get, put, delete}
use homura.Prelude.{
  ℕ, zero, suc, ◌+◌, ◌%◌, ◌^◌, Bool, true, false, ◌||◌, List, [], ◌∷◌, Option, none, some, map, ltb,
  length, take, drop, ℕ_discrete, if◌then◌else◌,
}

-- `mmap_data` is MmapData, empty for nil.
pub record MmapRegion : Type 0 where
  pub id : ℕ
  pub file_path : Bytes
  pub mmap_data : Bytes
  pub size : ℕ
  pub last_mod : ℕ

pub record MmapRegistry : Type 0 where
  pub regions : List (ℕ × MmapRegion)
  pub next_id : ℕ

pub data MmapError : Type 0 where
  not_found out_of_bounds host_failure : MmapError

abbrev pub new_mmap_registry : MmapRegistry
new_mmap_registry = record { regions = []; next_id = 1 }

-- Get
unfoldable pub region_at : MmapRegistry → ℕ → Option MmapRegion
region_at mr id = get ℕ_discrete mr.regions id

-- Register, by the file's time, the mapped bytes and whether a watch could be set up.
unfoldable pub register :
    MmapRegistry
    → Bytes
    → ℕ
    → Option ℕ
    → Option Bytes
    → Bool
    → MmapRegistry × Outcome MmapError MmapRegion
register mr path size none mapped watched = (mr, err host_failure)
register mr path size (some time) none watched = (mr, err host_failure)
register mr path size (some time) (some content) false = (mr, err host_failure)
register mr path size (some time) (some content) true =
    let region : MmapRegion = record {
      id = mr.next_id;
      file_path = path;
      mmap_data = content;
      size = size;
      last_mod = time;
    } in
    (
      record {
        regions = put ℕ_discrete mr.regions mr.next_id region;
        next_id = (mr.next_id + 1) % 2 ^ 64;
      },
      ok region,
    )

-- Unregister; the region is gone also where the host fails to unmap it.
unfoldable pub unregister : MmapRegistry → ℕ → Bool → MmapRegistry × Outcome MmapError (Unit {0})
unfolding region_at
unregister mr id unmapped = elim (region_at mr id) [
  | none ↦ (mr, err not_found)
  | some r ↦ (
    record mr { regions = delete ℕ_discrete mr.regions id },
    if unmapped then ok tt else err host_failure,
  )
]

-- The end of a range, as the code adds it at 64 bits.
unfoldable pub range_end : ℕ → ℕ → ℕ
range_end offset count = (offset + count) % 2 ^ 64

-- WriteToMmap, by the time and whether the host could sync the bytes.
unfoldable pub write_to_mmap :
    MmapRegistry → ℕ → ℕ → Bytes → ℕ → Bool → MmapRegistry × Outcome MmapError (Unit {0})
unfolding region_at overwrite range_end
write_to_mmap mr id offset content now synced = elim (region_at mr id) [
  | none ↦ (mr, err not_found)
  | some r ↦
      if ltb r.size (range_end offset (length content))
      then (mr, err out_of_bounds)
      else if ltb (length r.mmap_data) offset
      then (mr, panic)
      else (let written = record r { mmap_data = overwrite offset r.mmap_data content } in
          if synced
          then (
            record mr {
              regions = put ℕ_discrete mr.regions id (record written { last_mod = now });
            },
            ok tt,
          )
          else (record mr { regions = put ℕ_discrete mr.regions id written }, err host_failure))
]

-- ReadFromMmap; a slice that is not in the data panics.
unfoldable pub read_from_mmap : MmapRegistry → ℕ → ℕ → ℕ → Outcome MmapError Bytes
unfolding region_at range_end
read_from_mmap mr id offset count = elim (region_at mr id) [
  | none ↦ err not_found
  | some r ↦
      if ltb r.size (range_end offset count)
      then err out_of_bounds
      else if ltb (range_end offset count) offset
          || ltb (length r.mmap_data) (range_end offset count)
      then panic
      else ok (take count (drop offset r.mmap_data))
]

-- List
unfoldable pub list_regions : MmapRegistry → List MmapRegion
list_regions mr = map (λ e. e.1) mr.regions
