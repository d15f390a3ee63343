-- ===== src/Registry/Trie/Exposure.antt =====
-- What each update does to the set of exposed paths of the trie.
use homura.Bytes.{Bytes, names_dec}
use homura.Prelude.{
  Bool, true, false, ◌≡◌, refl, List, [], ◌∷◌, some, ite, arith, Option-cases, inl, inr,
}
use homura.Registry.Trie.Lookup.{find-set_child, find-remove_child, exposed_at}
use homura.Registry.Trie.{
  PathNode, node, Children, no_children, child, children, is_exposed, fresh, find, child_or_fresh,
  mark, insert_path, unexpose_at, node_has_exposed, children_have_exposed, settle, climb, prune,
  with_flag,
}

exposed_at-fresh : (q : List Bytes) → exposed_at fresh q ≡ false
unfolding exposed_at find
exposed_at-fresh [] = refl
exposed_at-fresh (d ∷ q) = refl

exposed_at-with_flag :
    (n : PathNode) (b : Bool) (q : List Bytes) → exposed_at (with_flag n b) q ≡ exposed_at n q
unfolding exposed_at
exposed_at-with_flag (node ch e h) b [] = refl
exposed_at-with_flag (node ch e h) b (d ∷ q) = refl

-- A node reached by AddPath, marked, with the rest of the path inserted below it.
pub exposed_at-insert_marked :
    (cs : List Bytes) (n : PathNode) (q : List Bytes)
    → exposed_at (insert_path (mark cs n) cs) q ≡ ite (names_dec cs q) true (exposed_at n q)
unfolding exposed_at insert_path
exposed_at-insert_marked [] (node ch e h) [] = ground arith
exposed_at-insert_marked [] (node ch e h) (d ∷ q) = ground arith
exposed_at-insert_marked (c ∷ cs) (node ch e h) [] = ground arith
exposed_at-insert_marked (c ∷ cs) (node ch e h) (d ∷ q) =
    let m = child_or_fresh (node ch e h) c in
    ground (
      arith,
      find-set_child ch c (insert_path (mark cs m) cs) d,
      exposed_at-insert_marked cs m q,
      exposed_at-fresh q,
    )

pub exposed_at-insert_path :
    (n : PathNode) (c : Bytes) (cs q : List Bytes)
    → exposed_at (insert_path n (c ∷ cs)) q ≡ ite (names_dec (c ∷ cs) q) true (exposed_at n q)
unfolding exposed_at insert_path
exposed_at-insert_path (node ch e h) c cs [] = ground arith
exposed_at-insert_path (node ch e h) c cs (d ∷ q) =
    exposed_at-insert_marked (c ∷ cs) (node ch e h) (d ∷ q)

pub exposed_at-unexpose_at :
    (n : PathNode) (cs q : List Bytes)
    → exposed_at (unexpose_at n cs) q ≡ ite (names_dec cs q) false (exposed_at n q)
unfolding exposed_at unexpose_at
exposed_at-unexpose_at (node ch e h) [] [] = ground arith
exposed_at-unexpose_at (node ch e h) [] (d ∷ q) = ground arith
exposed_at-unexpose_at (node ch e h) (c ∷ cs) [] = ground arith
exposed_at-unexpose_at (node ch e h) (c ∷ cs) (d ∷ q) = elim (Option-cases (find ch c)) [
  | inl missing ↦ ground arith
  | inr (m, found) ↦
      ground (arith, find-set_child ch c (unexpose_at m cs) d, exposed_at-unexpose_at m cs q)
]

pub children_have_exposed_of_find :
    (ch : Children) (d : Bytes) (m : PathNode)
    → find ch d ≡ some m
    → node_has_exposed m ≡ true
    → children_have_exposed ch ≡ true
unfolding find node_has_exposed
children_have_exposed_of_find no_children d m h k = cc
children_have_exposed_of_find (child c n rest) d m h k =
    ground (arith, children_have_exposed_of_find rest d m)

-- A node with an exposed path below it has an exposed descendant, in the sense of the scan.
pub node_has_exposed_of_exposed_at :
    (n : PathNode) (q : List Bytes) → exposed_at n q ≡ true → node_has_exposed n ≡ true
unfolding exposed_at node_has_exposed
node_has_exposed_of_exposed_at (node ch e f) [] h = ground arith
node_has_exposed_of_exposed_at (node ch e f) (d ∷ q) h = elim (Option-cases (find ch d)) [
  | inl missing ↦ ground arith
  | inr (m, found) ↦
      let below = node_has_exposed_of_exposed_at m q (ground arith) in
      ground (arith, children_have_exposed_of_find ch d m found below)
]

exposed_at-settle :
    (n : PathNode) (c : Bytes) {m : PathNode} (m' : PathNode) (d : Bytes) (q : List Bytes)
    → find (children n) c ≡ some m
    → exposed_at m' q ≡ exposed_at m q
    → exposed_at (settle n c m').0 (d ∷ q) ≡ exposed_at n (d ∷ q)
unfolding exposed_at settle
exposed_at-settle (node ch e h) c {m} (node ch' e' h') d q found same =
    let m' = node ch' e' h' in
    let kept = with_flag m' (node_has_exposed m') in
    ground (
      arith,
      find-set_child ch c kept d,
      find-remove_child ch c d,
      node_has_exposed_of_exposed_at m' q,
      exposed_at-with_flag m' (node_has_exposed m') q,
    )

exposed_at-climb :
    (n : PathNode) (c : Bytes) {m : PathNode} (r : PathNode × Bool) (d : Bytes) (q : List Bytes)
    → find (children n) c ≡ some m
    → exposed_at r.0 q ≡ exposed_at m q
    → exposed_at (climb n c r).0 (d ∷ q) ≡ exposed_at n (d ∷ q)
unfolding climb exposed_at
exposed_at-climb (node ch e h) c (m', true) d q found same =
    ground (arith, find-set_child ch c m' d)
exposed_at-climb (node ch e h) c (m', false) d q found same =
    unfold exposed_at in exposed_at-settle (node ch e h) c m' d q found same

is_exposed-climb :
    (n : PathNode) (c : Bytes) (r : PathNode × Bool) → is_exposed (climb n c r).0 ≡ is_exposed n
unfolding climb
is_exposed-climb (node ch e h) c (m', true) = refl
is_exposed-climb (node ch e h) c (m', false) = ground arith

-- The walk back deletes no exposed path.
pub exposed_at-prune :
    (n : PathNode) (cs q : List Bytes) → exposed_at (prune n cs).0 q ≡ exposed_at n q
unfolding prune exposed_at
exposed_at-prune n [] q = refl
exposed_at-prune n (c ∷ cs) [] = elim (Option-cases (find (children n) c)) [
  | inl missing ↦ ground arith
  | inr (m, found) ↦ ground (arith, is_exposed-climb n c (prune m cs))
]
exposed_at-prune n (c ∷ cs) (d ∷ q) = elim (Option-cases (find (children n) c)) [
  | inl missing ↦ ground arith
  | inr (m, found) ↦
      ground (arith, exposed_at-climb n c (prune m cs) d q found (exposed_at-prune m cs q))
]
