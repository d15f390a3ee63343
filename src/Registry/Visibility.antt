-- ===== src/Registry/Visibility.antt =====
-- What CheckPath answers, as a property of the set of exposed paths alone.
use homura.Bytes.{Bytes}
use homura.Paths.{clean}
use homura.Prelude.{
  Bool, true, false, ◌≡◌, ◌≢◌, ◌||◌, refl, List, [], ◌∷◌, ◌++◌, Option, none, some, arith,
  Option-cases, Bool-cases, inl, inr, ◌⊎◌, ap, ◌∙◌, sym, append-nil,
}
use homura.Registry.Trie.WellFormed.{IsPruned, ArePruned-find}
use homura.Registry.Trie.Lookup.{exposed_at}
use homura.Registry.Trie.Walk.{
  covered_at, covered_prefix, covered_at-append, exposed_beyond, navigate_of_exposed,
}
use homura.Registry.Trie.{PathNode, node, is_exposed, find, navigate}
use homura.Registry.Invariant.{IsConsistent}
use homura.Registry.{
  PathRegistry, PathVisibility, exposed, virtual_ancestor, not_visible, flag, split_path,
  check_walk, check_components, check_path,
}

-- A listed path that covers `q`: `q` itself, or an ancestor of it other than the root.
abbrev pub Covers : PathRegistry → Bytes → Type 0
Covers pr q =
    (e : Bytes) × (flag pr.exposed e ≡ true)
    × (rest : List Bytes) × (split_path q ≡ split_path e ++ rest)
    × ((e ≡ q) ⊎ (split_path e ≢ []))

-- A listed path strictly below `q`.
abbrev pub LiesAbove : PathRegistry → Bytes → Type 0
LiesAbove pr q =
    (e : Bytes) × (flag pr.exposed e ≡ true)
    × (c : Bytes) × (rest : List Bytes) × (split_path e ≡ split_path q ++ (c ∷ rest))

-- What each answer of CheckPath says of the set of listed paths; the three exclude one another.
abbrev pub Sees : PathRegistry → Bytes → PathVisibility → Type 0
Sees pr q exposed = Covers pr q
Sees pr q virtual_ancestor = (¬ Covers pr q) × ((split_path q ≡ []) ⊎ LiesAbove pr q)
Sees pr q not_visible = (¬ Covers pr q) × (split_path q ≢ []) × (¬ LiesAbove pr q)

pub concat_cons-ne-nil : (xs : List Bytes) (y : Bytes) (ys : List Bytes) → xs ++ (y ∷ ys) ≢ []
concat_cons-ne-nil [] y ys = λ e. cc
concat_cons-ne-nil (x ∷ xs) y ys = λ e. cc

-- The visibility of a path by its cover and by the node that it leads to.
reached : Bool → Option PathNode → PathVisibility
reached true n = exposed
reached false none = not_visible
reached false (some n) = virtual_ancestor

check_walk-reached :
    (n : PathNode) (b : Bool) (c : Bytes) (cs : List Bytes)
    → IsPruned n
    → check_walk n b (c ∷ cs) ≡ reached (b || covered_at n (c ∷ cs)) (navigate n (c ∷ cs))
unfolding check_walk reached covered_at navigate
check_walk-reached (node ch e f) b c [] p = elim (Option-cases (find ch c)) [
  | inl missing ↦ ground arith
  | inr (m, found) ↦ ground (arith, (ArePruned-find ch c m p found).0.marked)
]
check_walk-reached (node ch e f) b c (d ∷ cs) p = elim (Option-cases (find ch c)) [
  | inl missing ↦ ground arith
  | inr (m, found) ↦
      ground
        (arith, check_walk-reached m (b || is_exposed m) d cs ((ArePruned-find ch c m p found).1))
]

module _ (pr : PathRegistry) (ok : IsConsistent pr) (q : Bytes) where
  -- A cover of a path below the root is a cover in the trie, and the other way round.
  covered_of_Covers :
      (c : Bytes) (cs : List Bytes)
      → split_path q ≡ c ∷ cs
      → flag pr.exposed q ≡ false
      → Covers pr q
      → covered_at pr.root (c ∷ cs) ≡ true
  covered_of_Covers c cs s new (e, f, rest, eq, inl same) = absurd (cc)
  covered_of_Covers c cs s new (e, f, rest, eq, inr below) = go (split_path e) refl below
    where
      go : (es : List Bytes) → split_path e ≡ es → es ≢ [] → covered_at pr.root (c ∷ cs) ≡ true
      go [] h ne = absurd (ne refl)
      go (d ∷ ds) h ne =
          let at = ok.marked e f below in
          let whole : c ∷ cs ≡ d ∷ (ds ++ rest) = cc in
          rw whole (covered_at-append pr.root d ds rest (rw h at at))

  Covers-of_covered :
      (c : Bytes) (cs : List Bytes)
      → split_path q ≡ c ∷ cs
      → covered_at pr.root (c ∷ cs) ≡ true
      → Covers pr q
  Covers-of_covered c cs s h =
      let (d, pre, rest, eq, ex) = covered_prefix pr.root (c ∷ cs) h in
      let (e, f, se) = ok.listed (d ∷ pre) ex in (e, f, rest, cc, inr (λ none_left. cc))

  module _ (c : Bytes) (cs : List Bytes) (s : split_path q ≡ c ∷ cs)
      (new : flag pr.exposed q ≡ false) where
    -- A node that is reached and not covered lies above a listed path.
    LiesAbove-of_node :
        (m : PathNode)
        → navigate pr.root (c ∷ cs) ≡ some m
        → covered_at pr.root (c ∷ cs) ≡ false
        → LiesAbove pr q
    LiesAbove-of_node m found open_path = go (exposed_beyond pr.root c cs m ok.pruned found)
      where
        go : (rest : List Bytes) × (exposed_at pr.root ((c ∷ cs) ++ rest) ≡ true) → LiesAbove pr q
        go ([], ex) =
            absurd (cc (covered_at-append pr.root c cs [] (rw append-nil at ex), append-nil cs))
        go (d ∷ rest, ex) =
            let (e, f, se) = ok.listed ((c ∷ cs) ++ (d ∷ rest)) ex in (e, f, d, rest, rw s se)

    not-LiesAbove_of_missing : navigate pr.root (c ∷ cs) ≡ none → ¬ LiesAbove pr q
    not-LiesAbove_of_missing missing (e, f, d, rest, eq) =
        let whole : split_path e ≡ (c ∷ cs) ++ (d ∷ rest) = eq ∙ ap (λ t. t ++ (d ∷ rest)) s in
        let at = ok.marked e f (λ none_left. cc) in
        navigate_of_exposed pr.root (c ∷ cs) (d ∷ rest) (rw whole at at) missing

    Sees-below : Sees pr q (check_components pr.root (c ∷ cs))
    unfolding reached
    Sees-below = elim (Bool-cases (covered_at pr.root (c ∷ cs))) [
      | inl covered ↦ rw (step, covered, reached) (Covers-of_covered c cs s covered)
      | inr open_path ↦
          let uncovered : ¬ Covers pr q = λ k. cc (covered_of_Covers c cs s new k) in
          elim (Option-cases (navigate pr.root (c ∷ cs))) [
            | inl missing ↦
                rw (step, open_path, missing)
                  (uncovered, λ top. cc, not-LiesAbove_of_missing missing)
            | inr (m, found) ↦
                rw (step, open_path, found) (uncovered, inr (LiesAbove-of_node m found open_path))
          ]
    ]
      where
        step :
            check_components pr.root (c ∷ cs)
            ≡ reached (covered_at pr.root (c ∷ cs)) (navigate pr.root (c ∷ cs))
        step = unfold check_components in check_walk-reached pr.root false c cs ok.pruned

  Sees-root :
      split_path q ≡ [] → flag pr.exposed q ≡ false → Sees pr q (check_components pr.root [])
  unfolding check_components
  Sees-root s new =
      let hidden : is_exposed pr.root ≡ false = unfold exposed_at in ok.unmarked in
      rw hidden (uncovered, inl s)
    where
      uncovered : ¬ Covers pr q
      uncovered (e, f, [], eq, inl same) = cc
      uncovered (e, f, [], eq, inr below) = below (sym (append-nil (split_path e)) ∙ sym eq ∙ s)
      uncovered (e, f, d ∷ rest, eq, _) = concat_cons-ne-nil (split_path e) d rest (sym eq ∙ s)

  Sees-components : flag pr.exposed q ≡ false → Sees pr q (check_components pr.root (split_path q))
  Sees-components new = go (split_path q) refl
    where
      go :
          (cs : List Bytes)
          → split_path q ≡ cs
          → Sees pr q (check_components pr.root (split_path q))
      go [] s = rw s (Sees-root s new)
      go (c ∷ cs) s = rw s (Sees-below c cs s new)

-- On a consistent registry CheckPath answers by the set of listed paths alone: exposed means
-- that a listed path covers the cleaned path (is it, or is an ancestor of it other than the
-- root), virtual ancestor that none does and the path is the root or lies strictly above a
-- listed one, not visible that none of these holds.
pub check_path-Sees :
    (pr : PathRegistry) (p : Bytes) → IsConsistent pr → Sees pr (clean p) (check_path pr p)
unfolding check_path
check_path-Sees pr p ok = elim (Bool-cases (flag pr.exposed (clean p))) [
  | inl old ↦ rw old (clean p, old, [], sym (append-nil (split_path (clean p))), inl refl)
  | inr new ↦ rw new (Sees-components pr ok (clean p) new)
]
