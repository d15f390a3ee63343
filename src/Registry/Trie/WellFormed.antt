-- ===== src/Registry/Trie/WellFormed.antt =====
-- The trie's invariant: below the root every node leads to an exposed path, and a node that is not
-- exposed itself carries the descendants flag. AddPath and RemovePath keep it.
use homura.Bytes.{Bytes, bytes_dec}
use homura.Prelude.{
  Bool, true, false, ◌≡◌, ◌||◌, refl, List, [], ◌∷◌, none, some, arith, Option-cases, inl, inr,
  if_pos, if_neg, subst,
}
use homura.Registry.Trie.Exposure.{exposed_at-insert_marked, node_has_exposed_of_exposed_at}
use homura.Registry.Trie.Lookup.{find-set_child, find-remove_child, exposed_at}
use homura.Registry.Trie.{
  PathNode, node, Children, no_children, child, is_exposed, has_exposed_descendants, find,
  set_child, remove_child, child_or_fresh, mark, insert_path, node_has_exposed,
  children_have_exposed,
}

-- What holds of a node that a parent keeps.
pub record IsLive (n : PathNode) : Type 0 where
  pub leads : node_has_exposed n ≡ true
  pub marked : (is_exposed n || has_exposed_descendants n) ≡ true

-- Each name stands once among the children.
abbrev mutual
  pub IsPruned : PathNode → Type 0
  IsPruned (node ch e h) = ArePruned ch

  pub ArePruned : Children → Type 0
  ArePruned no_children = Unit {0}
  ArePruned (child c n rest) = (find rest c ≡ none) × IsLive n × IsPruned n × ArePruned rest

pub ArePruned-find :
    (ch : Children) (c : Bytes) (m : PathNode)
    → ArePruned ch
    → find ch c ≡ some m
    → IsLive m × IsPruned m
unfolding find
ArePruned-find no_children c m h e = absurd (cc)
ArePruned-find (child a n rest) c m (x, l, p, r) e = elim (bytes_dec a c) [
  | yes q ↦ let same : n ≡ m = ground arith in (subst IsLive same l, subst IsPruned same p)
  | no q ↦ ArePruned-find rest c m r (ground arith)
]

pub ArePruned-set_child :
    (ch : Children) (c : Bytes) (m : PathNode)
    → ArePruned ch
    → IsLive m
    → IsPruned m
    → ArePruned (set_child ch c m)
unfolding set_child find
ArePruned-set_child no_children c m h l p = (refl, l, p, tt)
ArePruned-set_child (child a n rest) c m (x, ln, pn, r) l p = elim (bytes_dec a c) [
  | yes q ↦ rw (if_pos _ q) (ground arith, l, p, r)
  | no q ↦
      rw (if_neg _ q)
        (ground (arith, find-set_child rest c m a), ln, pn, ArePruned-set_child rest c m r l p)
]

pub ArePruned-remove_child :
    (ch : Children) (c : Bytes) → ArePruned ch → ArePruned (remove_child ch c)
unfolding remove_child find
ArePruned-remove_child no_children c h = tt
ArePruned-remove_child (child a n rest) c (x, ln, pn, r) = elim (bytes_dec a c) [
  | yes q ↦ rw (if_pos _ q) (ArePruned-remove_child rest c r)
  | no q ↦
      rw (if_neg _ q)
        (ground (arith, find-remove_child rest c a), ln, pn, ArePruned-remove_child rest c r)
]

-- A live part of the trie holds an exposed path.
mutual
  unfolding exposed_at find node_has_exposed

  exposed_below :
      (n : PathNode)
      → IsPruned n
      → node_has_exposed n ≡ true
      → (q : List Bytes) × (exposed_at n q ≡ true)
  exposed_below (node ch true h) p l = ([], refl)
  exposed_below (node ch false h) p l = exposed_below_children ch h p l

  exposed_below_children :
      (ch : Children) (h : Bool)
      → ArePruned ch
      → children_have_exposed ch ≡ true
      → (q : List Bytes) × (exposed_at (node ch false h) q ≡ true)
  exposed_below_children no_children f p l = absurd (cc)
  exposed_below_children (child c n rest) f (x, l, p, r) h =
      let (q, e) = exposed_below n p l.leads in (c ∷ q, ground arith)

pub exposed_at_of_live :
    (n : PathNode)
    → IsPruned n
    → node_has_exposed n ≡ true
    → (q : List Bytes) × (exposed_at n q ≡ true)
exposed_at_of_live n p l = exposed_below n p l

-- A missing child is made, and then marked.
IsPruned-child_or_fresh : (n : PathNode) (c : Bytes) → IsPruned n → IsPruned (child_or_fresh n c)
unfolding child_or_fresh
IsPruned-child_or_fresh (node ch e h) c p = elim (Option-cases (find ch c)) [
  | inl missing ↦ rw (missing, child_or_fresh) tt
  | inr (m, found) ↦ rw (found, child_or_fresh) ((ArePruned-find ch c m p found).1)
]

IsPruned-mark : (cs : List Bytes) (n : PathNode) → IsPruned n → IsPruned (mark cs n)
unfolding mark
IsPruned-mark [] (node ch e h) p = p
IsPruned-mark (c ∷ cs) (node ch e h) p = p

marked-insert_path :
    (cs : List Bytes) (n : PathNode)
    → (is_exposed (insert_path (mark cs n) cs)
        || has_exposed_descendants (insert_path (mark cs n) cs))
      ≡ true
unfolding insert_path mark
marked-insert_path [] (node ch e h) = ground arith
marked-insert_path (c ∷ cs) (node ch e h) = ground arith

IsLive-insert_path : (cs : List Bytes) (n : PathNode) → IsLive (insert_path (mark cs n) cs)
IsLive-insert_path cs n = record {
  leads = node_has_exposed_of_exposed_at _ cs (ground (arith, exposed_at-insert_marked cs n cs));
  marked = marked-insert_path cs n;
}

-- AddPath keeps the invariant.
pub IsPruned-insert_path :
    (cs : List Bytes) (n : PathNode) → IsPruned n → IsPruned (insert_path n cs)
unfolding insert_path
IsPruned-insert_path [] n p = p
IsPruned-insert_path (c ∷ cs) (node ch e h) p =
    let m = child_or_fresh (node ch e h) c in
    ArePruned-set_child ch c (insert_path (mark cs m) cs) p (IsLive-insert_path cs m) (
      IsPruned-insert_path cs (mark cs m)
        (IsPruned-mark cs m (IsPruned-child_or_fresh (node ch e h) c p)))
