-- ===== src/Registry/Trie/Removal.antt =====
-- RemovePath keeps the trie's invariant.
use homura.Bytes.{Bytes}
use homura.Prelude.{
  Bool, true, false, ◌≡◌, ◌||◌, refl, List, [], ◌∷◌, none, some, arith, Option-cases, Bool-cases,
  inl, inr,
}
use homura.Registry.Trie.Exposure.{children_have_exposed_of_find}
use homura.Registry.Trie.Lookup.{find-set_child}
use homura.Registry.Trie.WellFormed.{
  IsLive, IsPruned, ArePruned, ArePruned-find, ArePruned-set_child, ArePruned-remove_child,
}
use homura.Registry.Trie.{
  PathNode, node, Children, no_children, child, is_exposed, find, set_child, remove_child,
  unexpose_at, node_has_exposed, settle, climb, prune, with_flag,
}

set_child-set_child :
    (ch : Children) (c : Bytes) (m m' : PathNode)
    → set_child (set_child ch c m) c m' ≡ set_child ch c m'
unfolding set_child
set_child-set_child no_children c m m' = ground arith
set_child-set_child (child a n rest) c m m' = ground (arith, set_child-set_child rest c m m')

remove_child-set_child :
    (ch : Children) (c : Bytes) (m : PathNode)
    → remove_child (set_child ch c m) c ≡ remove_child ch c
unfolding set_child remove_child
remove_child-set_child no_children c m = ground arith
remove_child-set_child (child a n rest) c m = ground (arith, remove_child-set_child rest c m)

node_has_exposed-set_child :
    (ch : Children) (e h : Bool) (c : Bytes) (m : PathNode)
    → node_has_exposed m ≡ true
    → node_has_exposed (node (set_child ch c m) e h) ≡ true
unfolding node_has_exposed
node_has_exposed-set_child ch e h c m l =
    ground (arith, children_have_exposed_of_find (set_child ch c m) c m, find-set_child ch c m c)

-- The new parent after a child has been put back.
module _ (ch : Children) (e h : Bool) (c : Bytes) (m : PathNode) where
  Kept-set_child :
      ArePruned ch
      → IsLive m
      → IsPruned m
      → IsPruned (node (set_child ch c m) e h)
        × (IsLive (node ch e h) → IsLive (node (set_child ch c m) e h))
  Kept-set_child a l p = (
    ArePruned-set_child ch c m a l p,
    λ up. record { leads = node_has_exposed-set_child ch e h c m l.leads; marked = up.marked },
  )

settled_IsLive :
    (m : PathNode)
    → (is_exposed m || node_has_exposed m) ≡ true
    → IsLive (with_flag m (node_has_exposed m))
unfolding node_has_exposed
settled_IsLive (node ch e h) t = record { leads = ground arith; marked = ground arith }

with_flag-IsPruned : (m : PathNode) (b : Bool) → IsPruned m → IsPruned (with_flag m b)
with_flag-IsPruned (node ch e h) b p = p

-- One round: `m₁` stands for the child before the rounds below.
climb-IsPruned :
    (ch : Children) (e h : Bool) (c : Bytes) (m : PathNode) (r : PathNode × Bool)
    → ArePruned ch
    → IsPruned r.0
    → (r.1 ≡ true → IsLive r.0)
    → IsPruned (climb (node (set_child ch c m) e h) c r).0
      × (IsLive (node ch e h)
          → (climb (node (set_child ch c m) e h) c r).1 ≡ true
          → IsLive (climb (node (set_child ch c m) e h) c r).0)
unfolding climb settle
climb-IsPruned ch e h c m (m', true) a p l =
    let (q, k) = Kept-set_child ch e h c m' a (l refl) p in
    rw (set_child-set_child ch c m m') (q, λ up _. k up)
climb-IsPruned ch e h c m (m', false) a p l =
    elim (Bool-cases (is_exposed m' || node_has_exposed m')) [
      | inl t ↦
          let f = with_flag m' (node_has_exposed m') in
          let (q, k) =
            Kept-set_child ch e h c f a (settled_IsLive m' t)
              (with_flag-IsPruned m' (node_has_exposed m') p) in
          rw (t, set_child-set_child ch c m f) (q, λ up _. k up)
      | inr t ↦
          rw (t, remove_child-set_child ch c m)
            (ArePruned-remove_child ch c a, λ up stop. absurd (cc))
    ]

module _ (ch : Children) (e h : Bool) (c : Bytes) (cs : List Bytes) where
  prune_missing :
      find ch c ≡ none → prune (unexpose_at (node ch e h) (c ∷ cs)) (c ∷ cs) ≡ (node ch e h, true)
  unfolding prune unexpose_at
  prune_missing missing = ground arith

  prune_found :
      (m : PathNode)
      → find ch c ≡ some m
      → prune (unexpose_at (node ch e h) (c ∷ cs)) (c ∷ cs)
        ≡ climb (node (set_child ch c (unexpose_at m cs)) e h) c (prune (unexpose_at m cs) cs)
  unfolding prune unexpose_at
  prune_found m found = ground (arith, find-set_child ch c (unexpose_at m cs) c)

remove_keeps :
    (cs : List Bytes) (n : PathNode)
    → IsPruned n
    → IsPruned (prune (unexpose_at n cs) cs).0
      × (IsLive n → (prune (unexpose_at n cs) cs).1 ≡ true → IsLive (prune (unexpose_at n cs) cs).0)
remove_keeps [] (node ch e h) p = unfold prune unexpose_at in (p, λ up stop. absurd (cc))
remove_keeps (c ∷ cs) (node ch e h) p = elim (Option-cases (find ch c)) [
  | inl missing ↦ rw (prune_missing ch e h c cs missing) (p, λ up stop. up)
  | inr (m, found) ↦
      let (l, pm) = ArePruned-find ch c m p found in
      let (q, k) = remove_keeps cs m pm in
      rw (prune_found ch e h c cs m found)
        (climb-IsPruned ch e h c (unexpose_at m cs) (prune (unexpose_at m cs) cs) p q (k l))
]

-- RemovePath keeps the invariant.
pub IsPruned-remove :
    (n : PathNode) (cs : List Bytes) → IsPruned n → IsPruned (prune (unexpose_at n cs) cs).0
IsPruned-remove n cs p = (remove_keeps cs n p).0
