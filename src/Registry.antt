-- ===== src/Registry.antt =====
-- 9passthrough/pathregistry.go: the registry of exposed paths. The lock is left out: every method
-- runs under it, so that calls happen one after another. `stat` stands for os.Stat on the host.
pub mod Trie
pub mod Invariant
pub mod Visibility
pub mod Effects
pub mod ReadOnly
pub mod Listing
pub mod Root
mod Tests
use homura.Bytes.{Bytes, bytes_dec}
use homura.Paths.{clean, is_abs, split, join, slash}
use homura.Prelude.Dict.{get, put, delete}
use homura.Prelude.{
  ℕ, zero, suc, Bool, true, false, ◌||◌, List, [], ◌∷◌, Option, none, some, if◌then◌else◌, map,
  take, length, not, ◌==◌,
}
use homura.Registry.Trie.{
  PathNode, fresh, Children, no_children, child, children, is_exposed, has_exposed_descendants,
  find, insert_path, navigate, unexpose_at, prune,
}

pub data PathVisibility : Type 0 where
  not_visible virtual_ancestor exposed : PathVisibility

pub record PathInfo : Type 0 where
  pub path : Bytes
  pub read_only : Bool

pub record PathRegistry : Type 0 where
  pub root : PathNode
  pub exposed : List (Bytes × Bool)
  pub read_only : List (Bytes × Bool)

pub data RegistryError : Type 0 where
  not_absolute does_not_exist : RegistryError

-- An index of a Go `map[string]bool`: false where the key is missing.
unfoldable pub flag : List (Bytes × Bool) → Bytes → Bool
flag m p = elim (get bytes_dec m p) [ none ↦ false | some b ↦ b ]

abbrev pub new_path_registry : PathRegistry
new_path_registry = record { root = fresh; exposed = []; read_only = [] }

-- splitPath
unfoldable pub split_path : Bytes → List Bytes
split_path [] = []
split_path (c ∷ []) = if c == slash then [] else split (c ∷ [])
split_path (c ∷ d ∷ s) = if c == slash then split (d ∷ s) else split (c ∷ d ∷ s)

-- AddPath
unfoldable pub add_path :
    (Bytes → Bool) → PathRegistry → Bytes → Bool → PathRegistry × Option RegistryError
unfolding insert_path split_path
add_path stat pr p read_only =
    let q = clean p in
    if not (is_abs q)
    then (pr, some not_absolute)
    else if not (stat q)
    then (pr, some does_not_exist)
    else if flag pr.exposed q
    then (record pr { read_only = put bytes_dec pr.read_only q read_only }, none)
    else (
      record {
        root = insert_path pr.root (split_path q);
        exposed = put bytes_dec pr.exposed q true;
        read_only = put bytes_dec pr.read_only q read_only;
      },
      none,
    )

-- The part of RemovePath that changes the trie; a path that is not in it leaves it as it is.
unfoldable pub remove_from_trie : PathNode → List Bytes → PathNode
unfolding navigate unexpose_at prune
remove_from_trie root cs = elim (navigate root cs) [
  | none ↦ root
  | some _ ↦ (prune (unexpose_at root cs) cs).0
]

-- RemovePath
unfoldable pub remove_path : PathRegistry → Bytes → PathRegistry
unfolding remove_from_trie split_path
remove_path pr p =
    let q = clean p in
    if not (flag pr.exposed q) then pr else record {
      root = remove_from_trie pr.root (split_path q);
      exposed = delete bytes_dec pr.exposed q;
      read_only = delete bytes_dec pr.read_only q;
    }

-- The loop of CheckPath: a missing component, the last component, and a round that goes on.
abbrev missing_child : Bool → PathVisibility
missing_child parent_exposed = if parent_exposed then exposed else not_visible

abbrev last_child : PathNode → Bool → PathVisibility
last_child current parent_exposed =
    if is_exposed current
    then exposed
    else if parent_exposed
    then exposed
    else if has_exposed_descendants current
    then virtual_ancestor
    else not_visible

unfoldable pub check_walk : PathNode → Bool → List Bytes → PathVisibility
unfolding find
check_walk current parent_exposed [] = not_visible
check_walk current parent_exposed (c ∷ []) = elim (find (children current) c) [
  | none ↦ missing_child parent_exposed
  | some next ↦ last_child next (parent_exposed || is_exposed next)
]
check_walk current parent_exposed (c ∷ d ∷ cs) = elim (find (children current) c) [
  | none ↦ missing_child parent_exposed
  | some next ↦ check_walk next (parent_exposed || is_exposed next) (d ∷ cs)
]

-- The case of the root: visible also where nothing is exposed.
unfoldable pub check_components : PathNode → List Bytes → PathVisibility
unfolding check_walk
check_components root [] = if is_exposed root then exposed else virtual_ancestor
check_components root (c ∷ cs) = check_walk root false (c ∷ cs)

-- CheckPath
unfoldable pub check_path : PathRegistry → Bytes → PathVisibility
unfolding check_components split_path
check_path pr p =
    let q = clean p in
    if flag pr.exposed q then exposed else check_components pr.root (split_path q)

-- ListPaths
unfoldable pub list_paths : PathRegistry → List PathInfo
list_paths pr = map (λ e. record { path = e.0; read_only = flag pr.read_only e.0 }) pr.exposed

-- The path of the first `i` components.
unfoldable pub ancestor_path : List Bytes → ℕ → Bytes
ancestor_path cs i = slash ∷ join (take i cs)

-- The loop of IsReadOnly from `i` down to 1, and the root after it.
unfoldable pub read_only_from : PathRegistry → List Bytes → ℕ → Bool
read_only_from pr cs zero =
    if flag pr.exposed (slash ∷ []) then flag pr.read_only (slash ∷ []) else false
read_only_from pr cs (suc i) =
    let rest = read_only_from pr cs i in
    if flag pr.exposed (ancestor_path cs (suc i))
    then flag pr.read_only (ancestor_path cs (suc i))
    else rest

-- IsReadOnly
unfoldable pub is_read_only : PathRegistry → Bytes → Bool
unfolding read_only_from split_path
is_read_only pr p =
    let q = clean p in
    if flag pr.exposed q
    then flag pr.read_only q
    else read_only_from pr (split_path q) (length (split_path q))

unfoldable pub names : Children → List Bytes
names no_children = []
names (child c n rest) = c ∷ names rest

-- GetExposedChildren
unfoldable pub get_exposed_children : PathRegistry → Bytes → List Bytes
unfolding navigate names split_path
get_exposed_children pr p = elim (navigate pr.root (split_path (clean p))) [
  | none ↦ []
  | some n ↦ names (children n)
]
