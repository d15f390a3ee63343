-- ===== src/Registry/Listing.antt =====
-- GetExposedChildren names the next components of the listed paths below a path, each once.
use homura.Bytes.{Bytes, bytes_dec}
use homura.Paths.{clean}
use homura.Prelude.{
  ◌≡◌, ◌↔◌, ◌≢◌, true, List, [], ◌∷◌, ◌++◌, none, some, arith, Option-cases, inl, inr, Has, ◌∙◌,
  sym, subst,
}
use homura.Registry.Invariant.{IsConsistent}
use homura.Registry.Visibility.{concat_cons-ne-nil}
use homura.Registry.Trie.Lookup.{exposed_at}
use homura.Registry.Trie.Walk.{navigate_of_exposed}
use homura.Registry.Trie.WellFormed.{IsPruned, ArePruned, ArePruned-find, exposed_at_of_live}
use homura.Registry.Trie.{PathNode, node, Children, no_children, child, children, find, navigate}
use homura.Registry.{PathRegistry, flag, split_path, names, get_exposed_children}

find_of_Has : (ch : Children) (c : Bytes) → Has (names ch) c → (m : PathNode) × (find ch c ≡ some m)
unfolding names find
find_of_Has no_children c h = absurd h
find_of_Has (child a n rest) c (inl e) = (n, ground arith)
find_of_Has (child a n rest) c (inr h) = elim (bytes_dec a c) [
  | yes e ↦ (n, ground arith)
  | no d ↦ let (m, f) = find_of_Has rest c h in (m, ground arith)
]

Has-of_find : (ch : Children) (c : Bytes) (m : PathNode) → find ch c ≡ some m → Has (names ch) c
unfolding names find
Has-of_find no_children c m h = absurd (cc)
Has-of_find (child a n rest) c m h = elim (bytes_dec a c) [
  | yes e ↦ inl e
  | no d ↦ inr (Has-of_find rest c m (ground arith))
]

exposed_at-append :
    (n : PathNode) (cs rest : List Bytes) (k : PathNode)
    → navigate n cs ≡ some k
    → exposed_at n (cs ++ rest) ≡ exposed_at k rest
unfolding navigate exposed_at
exposed_at-append n [] rest k h = ground arith
exposed_at-append (node ch e f) (d ∷ cs) rest k h = elim (Option-cases (find ch d)) [
  | inl missing ↦ absurd (ground arith)
  | inr (o, found) ↦ ground (arith, exposed_at-append o cs rest k)
]

IsPruned-navigate :
    (n : PathNode) (cs : List Bytes) (k : PathNode)
    → IsPruned n
    → navigate n cs ≡ some k
    → IsPruned k
unfolding navigate
IsPruned-navigate n [] k p h = let same : n ≡ k = cc in subst IsPruned same p
IsPruned-navigate (node ch e f) (d ∷ cs) k p h = elim (Option-cases (find ch d)) [
  | inl missing ↦ absurd (ground arith)
  | inr (o, found) ↦ IsPruned-navigate o cs k (ArePruned-find ch d o p found).1 (ground arith)
]

children_pruned : (k : PathNode) → IsPruned k → ArePruned (children k)
children_pruned (node ch e f) p = p

exposed_at-child :
    (k : PathNode) (c : Bytes) (m : PathNode) (q : List Bytes)
    → find (children k) c ≡ some m
    → exposed_at k (c ∷ q) ≡ exposed_at m q
unfolding exposed_at
exposed_at-child k c m q h = ground arith

find_of_exposed :
    (k : PathNode) (c : Bytes) (q : List Bytes)
    → exposed_at k (c ∷ q) ≡ true
    → find (children k) c ≢ none
unfolding exposed_at
find_of_exposed k c q h = ground arith

listing_found :
    (pr : PathRegistry) (p : Bytes) (k : PathNode)
    → navigate pr.root (split_path (clean p)) ≡ some k
    → get_exposed_children pr p ≡ names (children k)
unfolding get_exposed_children
listing_found pr p k h = ground arith

listing_missing :
    (pr : PathRegistry) (p : Bytes)
    → navigate pr.root (split_path (clean p)) ≡ none
    → get_exposed_children pr p ≡ []
unfolding get_exposed_children
listing_missing pr p h = ground arith

-- Every name that GetExposedChildren returns on a consistent registry is the component that
-- follows the cleaned path in some listed path.
get_exposed_children_sound :
    (pr : PathRegistry) (p name : Bytes)
    → IsConsistent pr
    → Has (get_exposed_children pr p) name
    → (e : Bytes) × (flag pr.exposed e ≡ true)
      × (rest : List Bytes) × (split_path e ≡ split_path (clean p) ++ (name ∷ rest))
get_exposed_children_sound pr p name ok h =
    elim (Option-cases (navigate pr.root (split_path (clean p)))) [
      | inl missing ↦ absurd (rw (listing_missing pr p missing) at h)
      | inr (k, found) ↦
          let h' : Has (names (children k)) name = rw (listing_found pr p k found) at h in
          let (m, f) = find_of_Has (children k) name h' in
          let pk = IsPruned-navigate pr.root (split_path (clean p)) k ok.pruned found in
          let (l, pm) = ArePruned-find (children k) name m (children_pruned k pk) f in
          let (q, ex) = exposed_at_of_live m pm l.leads in
          let (e, fe, se) = ok.listed (split_path (clean p) ++ (name ∷ q)) (
            exposed_at-append pr.root (split_path (clean p)) (name ∷ q) k found
            ∙ exposed_at-child k name m q f
            ∙ ex) in
          (e, fe, q, se)
    ]

-- On a consistent registry GetExposedChildren returns the component that follows the cleaned
-- path in each listed path strictly below it.
get_exposed_children_complete :
    (pr : PathRegistry) (p name e : Bytes) (rest : List Bytes)
    → IsConsistent pr
    → flag pr.exposed e ≡ true
    → split_path e ≡ split_path (clean p) ++ (name ∷ rest)
    → Has (get_exposed_children pr p) name
get_exposed_children_complete pr p name e rest ok f s =
    let cs = split_path (clean p) in
    let at = rw s at (ok.marked e f (rw s (concat_cons-ne-nil cs name rest))) in
    elim (Option-cases (navigate pr.root cs)) [
      | inl missing ↦ absurd (navigate_of_exposed pr.root cs (name ∷ rest) at missing)
      | inr (k, found) ↦
          let below = sym (exposed_at-append pr.root cs (name ∷ rest) k found) ∙ at in
          elim (Option-cases (find (children k) name)) [
            | inl absent ↦ absurd (find_of_exposed k name rest below absent)
            | inr (m, there) ↦
                rw (listing_found pr p k found) (Has-of_find (children k) name m there)
          ]
    ]

-- On a consistent registry GetExposedChildren returns just the components that follow the
-- cleaned path in the listed paths.
pub get_exposed_children-listed :
    (pr : PathRegistry) (p name : Bytes)
    → IsConsistent pr
    → Has (get_exposed_children pr p) name ↔ (
        (e : Bytes) × (flag pr.exposed e ≡ true)
        × (rest : List Bytes) × (split_path e ≡ split_path (clean p) ++ (name ∷ rest)))
get_exposed_children-listed pr p name ok = (
  get_exposed_children_sound pr p name ok,
  λ (e, f, rest, s). get_exposed_children_complete pr p name e rest ok f s,
)
