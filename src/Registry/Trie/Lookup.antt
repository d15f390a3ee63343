-- ===== src/Registry/Trie/Lookup.antt =====
-- Lookup after an update of a node's children, and the exposed paths of a trie as a function.
use homura.Bytes.{Bytes, bytes_dec}
use homura.Prelude.{Bool, false, ◌≡◌, refl, List, [], ◌∷◌, none, some, ite, arith}
use homura.Registry.Trie.{
  PathNode, Children, no_children, child, children, is_exposed, find, set_child, remove_child,
}

pub find-set_child :
    (ch : Children) (c : Bytes) (m : PathNode) (d : Bytes)
    → find (set_child ch c m) d ≡ ite (bytes_dec c d) (some m) (find ch d)
unfolding find set_child
find-set_child no_children c m d = refl
find-set_child (child a n rest) c m d = ground (arith, find-set_child rest c m d)

pub find-remove_child :
    (ch : Children) (c d : Bytes)
    → find (remove_child ch c) d ≡ ite (bytes_dec c d) none (find ch d)
unfolding find remove_child
find-remove_child no_children c d = ground arith
find-remove_child (child a n rest) c d = ground (arith, find-remove_child rest c d)

-- Whether the trie marks exactly this path as exposed.
unfoldable pub exposed_at : PathNode → List Bytes → Bool
unfolding find
exposed_at n [] = is_exposed n
exposed_at n (c ∷ cs) = elim (find (children n) c) [ none ↦ false | some m ↦ exposed_at m cs ]
