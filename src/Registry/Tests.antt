-- ===== src/Registry/Tests.antt =====
-- Runs of the registry, and its theorems at concrete registries.
use homura.Bytes.{Bytes, codes, bytes_dec}
use homura.Paths.{clean}
use homura.Prelude.Dict.{get, put, delete}
use homura.Prelude.{
  ◌≡◌, ◌↔◌, refl, Bool, true, false, List, [], ◌∷◌, ◌++◌, arith, ℕ_discrete, Has, ℕ, zero, suc, ◌≤◌,
}
use homura.Registry.Effects
use homura.Registry.Invariant.{
  IsConsistent, new_path_registry-IsConsistent, add_path-IsConsistent, remove_path-IsConsistent,
}
use homura.Registry.Listing
use homura.Registry.ReadOnly
use homura.Registry.Visibility.{Sees, check_path-Sees}
use homura.Registry.{
  PathRegistry, new_path_registry, exposed, virtual_ancestor, not_visible, flag, split_path,
  add_path, remove_path, check_path, list_paths, is_read_only, get_exposed_children, ancestor_path,
}

program : Unit {0}
unfolding add_path remove_path check_path is_read_only get_exposed_children list_paths flag
    ancestor_path bytes_dec ℕ_discrete get put delete clean
program = tt

-- A host on which every path exists.
abbrev all_exist : Bytes → Bool
all_exist p = true

-- "/a/b" read-only, and "/a/b/c" writable below it.
abbrev one : PathRegistry
one = (add_path all_exist new_path_registry (codes "/a/b") true).0

abbrev two : PathRegistry
two = (add_path all_exist one (codes "/a/./b//c") false).0

visible_at :
    (check_path two (codes "/a") ≡ virtual_ancestor)
    × (check_path two (codes "/a/b/x") ≡ exposed)
    × (check_path two (codes "/a/c/../b") ≡ exposed)
    × (check_path two (codes "/etc") ≡ not_visible)
    × (check_path (remove_path two (codes "/a/b")) (codes "/a/b") ≡ virtual_ancestor)
unfolding program
visible_at = (refl, refl, refl, refl, refl)

read_only_at :
    (is_read_only two (codes "/a/b/x") ≡ true)
    × (is_read_only two (codes "/a/b/c/x") ≡ false)
    × (get_exposed_children two (codes "/a") ≡ codes "b" ∷ [])
unfolding program
read_only_at = (refl, refl, refl)

one-IsConsistent : IsConsistent one
one-IsConsistent =
    add_path-IsConsistent all_exist new_path_registry (codes "/a/b") true
      new_path_registry-IsConsistent

two-IsConsistent : IsConsistent two
two-IsConsistent = add_path-IsConsistent all_exist one (codes "/a/./b//c") false one-IsConsistent

check_path-Sees_example : Sees two (clean (codes "/a/b/x")) (check_path two (codes "/a/b/x"))
check_path-Sees_example = check_path-Sees two (codes "/a/b/x") two-IsConsistent

add_path-IsConsistent_example : IsConsistent (add_path all_exist two (codes "/a") true).0
add_path-IsConsistent_example =
    add_path-IsConsistent all_exist two (codes "/a") true two-IsConsistent

remove_path-IsConsistent_example : IsConsistent (remove_path two (codes "/a/b"))
remove_path-IsConsistent_example = remove_path-IsConsistent two (codes "/a/b") two-IsConsistent

check_path-remove-add_example :
    check_path
      (remove_path (add_path all_exist two (codes "/etc") true).0 (codes "/etc"))
      (codes "/etc/x")
    ≡ check_path two (codes "/etc/x")
unfolding program
check_path-remove-add_example =
    Effects.check_path-remove-add all_exist two (codes "/etc") true two-IsConsistent refl
      (codes "/etc/x")

is_read_only-unlisted_example : is_read_only one (codes "/c") ≡ false
unfolding program
is_read_only-unlisted_example = ReadOnly.is_read_only-unlisted one (codes "/c") refl below
  where
    below : (j : ℕ) → j ≤ 1 → flag one.exposed (ancestor_path (split_path (codes "/c")) j) ≡ false
    below zero h = refl
    below (suc zero) h = refl
    below (suc (suc j)) h = absurd (omega arith)

get_exposed_children-listed_example : Has (get_exposed_children two (codes "/a")) (codes "b") ↔ (
    (e : Bytes) × (flag two.exposed e ≡ true)
    × (rest : List Bytes) × (split_path e ≡ split_path (clean (codes "/a")) ++ (codes "b" ∷ rest)))
get_exposed_children-listed_example =
    Listing.get_exposed_children-listed two (codes "/a") (codes "b") two-IsConsistent
