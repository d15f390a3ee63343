-- ===== src/Registry/Trie.antt =====
-- The path trie of 9passthrough/pathregistry.go: `PathNode`, the loops of AddPath, RemovePath and
-- CheckPath over it, and nodeHasExposedDescendants. A pointer to a child that the Go code mutates is
-- the child put back into its parent.
pub mod Lookup
pub mod Exposure
pub mod WellFormed
pub mod Removal
pub mod Walk
use homura.Bytes.{Bytes, bytes_dec}
use homura.Prelude.{Bool, true, false, ◌||◌, List, [], ◌∷◌, Option, none, some, ite, if◌then◌else◌}

-- The children are a Go map from names to nodes.
mutual
  pub data PathNode : Type 0 where
    node : Children → Bool → Bool → PathNode

  pub data Children : Type 0 where
    no_children : Children
    child : Bytes → PathNode → Children → Children

abbrev pub children : PathNode → Children
children (node ch e h) = ch

abbrev pub is_exposed : PathNode → Bool
is_exposed (node ch e h) = e

abbrev pub has_exposed_descendants : PathNode → Bool
has_exposed_descendants (node ch e h) = h

abbrev pub fresh : PathNode
fresh = node no_children false false

-- `children[name]`
unfoldable pub find : Children → Bytes → Option PathNode
find no_children name = none
find (child c n rest) name = ite (bytes_dec c name) (some n) (find rest name)

-- `children[name] = n`
unfoldable pub set_child : Children → Bytes → PathNode → Children
set_child no_children name n = child name n no_children
set_child (child c m rest) name n =
    ite (bytes_dec c name) (child name n rest) (child c m (set_child rest name n))

-- `delete(children, name)`
unfoldable pub remove_child : Children → Bytes → Children
remove_child no_children name = no_children
remove_child (child c m rest) name =
    ite (bytes_dec c name) (remove_child rest name) (child c m (remove_child rest name))

abbrev pub with_children : PathNode → Children → PathNode
with_children (node ch e h) ch' = node ch' e h

abbrev pub with_exposed : PathNode → Bool → PathNode
with_exposed (node ch e h) e' = node ch e' h

abbrev pub with_flag : PathNode → Bool → PathNode
with_flag (node ch e h) h' = node ch e h'

-- The child that AddPath steps into, made if it is missing.
unfoldable pub child_or_fresh : PathNode → Bytes → PathNode
unfolding find
child_or_fresh n c = elim (find (children n) c) [ none ↦ fresh | some m ↦ m ]

-- The mark on a node reached, by the components that are left.
unfoldable pub mark : List Bytes → PathNode → PathNode
mark [] n = with_exposed n true
mark (c ∷ cs) n = with_flag n true

-- The loop of AddPath.
unfoldable pub insert_path : PathNode → List Bytes → PathNode
unfolding set_child child_or_fresh mark
insert_path n [] = n
insert_path n (c ∷ cs) =
    with_children n (set_child (children n) c (insert_path (mark cs (child_or_fresh n c)) cs))

-- The descent of RemovePath and of GetExposedChildren; `none` where a component is missing.
unfoldable pub navigate : PathNode → List Bytes → Option PathNode
unfolding find
navigate n [] = some n
navigate n (c ∷ cs) = elim (find (children n) c) [ none ↦ none | some m ↦ navigate m cs ]

-- `current.isExposed = false` at the end of the descent.
unfoldable pub unexpose_at : PathNode → List Bytes → PathNode
unfolding find set_child
unexpose_at n [] = with_exposed n false
unexpose_at n (c ∷ cs) = elim (find (children n) c) [
  | none ↦ n
  | some m ↦ with_children n (set_child (children n) c (unexpose_at m cs))
]

-- nodeHasExposedDescendants; the second function is its loop over the children.
unfoldable mutual
  pub node_has_exposed : PathNode → Bool
  node_has_exposed (node ch e h) = if e then true else children_have_exposed ch

  pub children_have_exposed : Children → Bool
  children_have_exposed no_children = false
  children_have_exposed (child c n rest) =
      is_exposed n || node_has_exposed n || children_have_exposed rest

-- One round of RemovePath's walk back, at the parent `n` of the node `m`. A node with nothing
-- exposed is deleted; else its flag is set, and `true` says that the loop breaks.
unfoldable pub settle : PathNode → Bytes → PathNode → PathNode × Bool
unfolding node_has_exposed set_child remove_child
settle n c m =
    if is_exposed m || node_has_exposed m
    then (with_children n (set_child (children n) c (with_flag m (node_has_exposed m))), true)
    else (with_children n (remove_child (children n) c), false)

-- The next round, unless the loop has broken.
unfoldable pub climb : PathNode → Bytes → PathNode × Bool → PathNode × Bool
unfolding settle
climb n c (m, true) = (with_children n (set_child (children n) c m), true)
climb n c (m, false) = settle n c m

-- The walk back, `for i := len(components)-1; i >= 0; i--`: the recursion descends as the inner
-- loop does from the root, and its rounds run from the last component up. RemovePath starts it
-- only where the whole path has been found.
unfoldable pub prune : PathNode → List Bytes → PathNode × Bool
unfolding find climb
prune n [] = (n, false)
prune n (c ∷ cs) = elim (find (children n) c) [ none ↦ (n, true) | some m ↦ climb n c (prune m cs) ]
