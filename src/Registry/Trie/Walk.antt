-- ===== src/Registry/Trie/Walk.antt =====
-- What the loop of CheckPath answers on a trie that keeps the invariant.
use homura.Bytes.{Bytes}
use homura.Prelude.{
  Bool, true, false, ◌≡◌, ◌≢◌, ◌||◌, refl, List, [], ◌∷◌, ◌++◌, none, some, arith, Option-cases,
  Bool-cases, inl, inr, ap,
}
use homura.Registry.Trie.Lookup.{exposed_at}
use homura.Registry.Trie.WellFormed.{IsPruned, ArePruned-find, exposed_at_of_live}
use homura.Registry.Trie.{PathNode, node, children, is_exposed, find, navigate}

-- Whether a nonempty prefix of the path is exposed.
unfoldable pub covered_at : PathNode → List Bytes → Bool
unfolding find
covered_at n [] = false
covered_at n (c ∷ cs) = elim (find (children n) c) [
  | none ↦ false
  | some m ↦ is_exposed m || covered_at m cs
]

-- The prefix that covers a path.
pub covered_prefix :
    (n : PathNode) (cs : List Bytes)
    → covered_at n cs ≡ true
    → (c : Bytes) × (pre : List Bytes) × (rest : List Bytes) × (cs ≡ c ∷ (pre ++ rest))
      × (exposed_at n (c ∷ pre) ≡ true)
unfolding covered_at exposed_at
covered_prefix n [] h = absurd (cc)
covered_prefix (node ch e f) (c ∷ cs) h = elim (Option-cases (find ch c)) [
  | inl missing ↦ absurd (ground arith)
  | inr (m, found) ↦ elim (Bool-cases (is_exposed m)) [
    | inl here ↦ (c, [], cs, refl, ground arith)
    | inr below ↦
        let (d, pre, rest, eq, ex) = covered_prefix m cs (ground arith) in
        (c, d ∷ pre, rest, ap (◌∷◌ c) eq, ground arith)
  ]
]

pub covered_at-append :
    (n : PathNode) (c : Bytes) (pre rest : List Bytes)
    → exposed_at n (c ∷ pre) ≡ true
    → covered_at n (c ∷ (pre ++ rest)) ≡ true
unfolding covered_at exposed_at
covered_at-append (node ch e f) c [] rest h = ground arith
covered_at-append (node ch e f) c (d ∷ pre) rest h = elim (Option-cases (find ch c)) [
  | inl missing ↦ absurd (ground arith)
  | inr (m, found) ↦ ground (arith, covered_at-append m d pre rest)
]

-- A node of a pruned trie leads to an exposed path.
pub exposed_beyond :
    (n : PathNode) (c : Bytes) (cs : List Bytes) (m : PathNode)
    → IsPruned n
    → navigate n (c ∷ cs) ≡ some m
    → (rest : List Bytes) × (exposed_at n ((c ∷ cs) ++ rest) ≡ true)
unfolding navigate exposed_at
exposed_beyond (node ch e f) c [] m p h =
    let found : find ch c ≡ some m = ground arith in
    let (l, pm) = ArePruned-find ch c m p found in
    let (q, ex) = exposed_at_of_live m pm l.leads in (q, ground arith)
exposed_beyond (node ch e f) c (d ∷ cs) m p h = elim (Option-cases (find ch c)) [
  | inl missing ↦ absurd (ground arith)
  | inr (k, found) ↦
      let (l, pk) = ArePruned-find ch c k p found in
      let (q, ex) = exposed_beyond k d cs m pk (ground arith) in (q, ground arith)
]

pub navigate_of_exposed :
    (n : PathNode) (cs rest : List Bytes) → exposed_at n (cs ++ rest) ≡ true → navigate n cs ≢ none
unfolding navigate exposed_at
navigate_of_exposed n [] rest h = λ e. cc
navigate_of_exposed (node ch e f) (c ∷ cs) rest h = elim (Option-cases (find ch c)) [
  | inl missing ↦ ground arith
  | inr (m, found) ↦ ground (arith, navigate_of_exposed m cs rest)
]

-- A path with no node is not exposed.
pub exposed_at_of_missing :
    (n : PathNode) (cs : List Bytes) → navigate n cs ≡ none → exposed_at n cs ≡ false
unfolding navigate exposed_at
exposed_at_of_missing n [] h = absurd (cc)
exposed_at_of_missing (node ch e f) (c ∷ cs) h = elim (Option-cases (find ch c)) [
  | inl missing ↦ ground arith
  | inr (m, found) ↦ ground (arith, exposed_at_of_missing m cs)
]
