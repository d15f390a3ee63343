-- ===== src/Registry/Invariant.antt =====
-- The trie and the map of exposed paths tell the same, and AddPath and RemovePath keep it so.
use homura.Bytes.{Bytes, bytes_dec, names_dec}
use homura.Paths.{is_abs, clean, join, slash, join-split}
use homura.Prelude.Dict.{get, put, delete, get-put, get-delete}
use homura.Prelude.{
  Bool, true, false, ◌≡◌, ◌≢◌, refl, List, [], ◌∷◌, arith, ite, Option-cases, Bool-cases, inl, inr,
  ap, ◌∙◌, sym,
}
use homura.Registry.Trie.Exposure.{exposed_at-insert_path, exposed_at-unexpose_at, exposed_at-prune}
use homura.Registry.Trie.Lookup.{exposed_at}
use homura.Registry.Trie.Removal.{IsPruned-remove}
use homura.Registry.Trie.Walk.{exposed_at_of_missing}
use homura.Registry.Trie.WellFormed.{IsPruned, IsPruned-insert_path}
use homura.Registry.Trie.{PathNode, fresh, insert_path, navigate, unexpose_at}
use homura.Registry.{
  PathRegistry, new_path_registry, flag, split_path, add_path, remove_from_trie, remove_path,
}

pub flag-put :
    (m : List (Bytes × Bool)) (k : Bytes) (v : Bool) (j : Bytes)
    → flag (put bytes_dec m k v) j ≡ ite (bytes_dec k j) v (flag m j)
unfolding flag
flag-put m k v j = ground (arith, get-put bytes_dec m k v j)

pub flag-delete :
    (m : List (Bytes × Bool)) (k j : Bytes)
    → flag (delete bytes_dec m k) j ≡ ite (bytes_dec k j) false (flag m j)
unfolding flag
flag-delete m k j = ground (arith, get-delete bytes_dec m k j)

-- An absolute path is given back by its components.
pub join-split_path : (p : Bytes) → is_abs p ≡ true → slash ∷ join (split_path p) ≡ p
unfolding split_path is_abs join
join-split_path [] h = absurd (cc)
join-split_path (c ∷ []) h = ground arith
join-split_path (c ∷ d ∷ s) h = ground (arith, join-split (d ∷ s))

pub split_path-injective :
    (p q : Bytes) → is_abs p ≡ true → is_abs q ≡ true → split_path p ≡ split_path q → p ≡ q
split_path-injective p q hp hq e = cc (join-split_path p hp, join-split_path q hq, e)

-- The trie marks a path exactly where the map lists it; the root is never marked.
pub record IsConsistent (pr : PathRegistry) : Type 0 where
  pub pruned : IsPruned pr.root
  pub unmarked : exposed_at pr.root [] ≡ false
  pub absolute : (p : Bytes) → flag pr.exposed p ≡ true → is_abs p ≡ true
  pub marked :
      (p : Bytes)
      → flag pr.exposed p ≡ true
      → split_path p ≢ []
      → exposed_at pr.root (split_path p) ≡ true
  pub listed :
      (cs : List Bytes)
      → exposed_at pr.root cs ≡ true
      → (p : Bytes) × (flag pr.exposed p ≡ true) × (split_path p ≡ cs)

exposed_at-fresh : (cs : List Bytes) → exposed_at fresh cs ≡ false
unfolding exposed_at
exposed_at-fresh [] = refl
exposed_at-fresh (c ∷ cs) = refl

-- A new registry is consistent.
pub new_path_registry-IsConsistent : IsConsistent new_path_registry
unfolding flag get
new_path_registry-IsConsistent = record {
  pruned = tt;
  unmarked = exposed_at-fresh [];
  absolute = λ p h. absurd (ground arith);
  marked = λ p h. absurd (ground arith);
  listed = λ cs h. absurd (cc (exposed_at-fresh cs));
}

-- The trie after an insertion; an insertion at the root changes nothing.
exposed_at-insert_ne :
    (n : PathNode) (cs q : List Bytes) → cs ≢ q → exposed_at (insert_path n cs) q ≡ exposed_at n q
unfolding insert_path
exposed_at-insert_ne n [] q h = refl
exposed_at-insert_ne n (c ∷ cs) q h = ground (arith, exposed_at-insert_path n c cs q)

exposed_at-insert_self :
    (n : PathNode) (cs : List Bytes) → cs ≢ [] → exposed_at (insert_path n cs) cs ≡ true
exposed_at-insert_self n [] h = absurd (h refl)
exposed_at-insert_self n (c ∷ cs) h = ground (arith, exposed_at-insert_path n c cs (c ∷ cs))

exposed_at-insert_root :
    (n : PathNode) (cs : List Bytes) → exposed_at (insert_path n cs) [] ≡ exposed_at n []
unfolding insert_path
exposed_at-insert_root n [] = refl
exposed_at-insert_root n (c ∷ cs) = exposed_at-insert_ne n (c ∷ cs) [] (λ e. cc)

abbrev pub added : PathRegistry → Bytes → Bool → PathRegistry
added pr q ro = record {
  root = insert_path pr.root (split_path q);
  exposed = put bytes_dec pr.exposed q true;
  read_only = put bytes_dec pr.read_only q ro;
}

module _ (pr : PathRegistry) (q : Bytes) (ro : Bool) (ok : IsConsistent pr)
    (abs : is_abs q ≡ true) where
  added_absolute : (p : Bytes) → flag (put bytes_dec pr.exposed q true) p ≡ true → is_abs p ≡ true
  added_absolute p h = elim (bytes_dec q p) [
    | yes e ↦ rw (← e) abs
    | no n ↦ ok.absolute p (ground (arith, flag-put pr.exposed q true p))
  ]

  added_marked :
      (p : Bytes)
      → flag (put bytes_dec pr.exposed q true) p ≡ true
      → split_path p ≢ []
      → exposed_at (insert_path pr.root (split_path q)) (split_path p) ≡ true
  added_marked p h ne = elim (names_dec (split_path q) (split_path p)) [
    | yes e ↦ rw e (exposed_at-insert_self pr.root (split_path p) ne)
    | no n ↦
        let old =
          ok.marked p (ground (arith, flag-put pr.exposed q true p, ap split_path {x = q} {y = p}))
            ne in
        exposed_at-insert_ne pr.root (split_path q) (split_path p) n ∙ old
  ]

  added_listed :
      (cs : List Bytes)
      → exposed_at (insert_path pr.root (split_path q)) cs ≡ true
      → (p : Bytes) × (flag (put bytes_dec pr.exposed q true) p ≡ true) × (split_path p ≡ cs)
  added_listed cs h = elim (names_dec (split_path q) cs) [
    | yes e ↦ (q, ground (arith, flag-put pr.exposed q true q), e)
    | no n ↦
        let (p, f, e) = ok.listed cs (sym (exposed_at-insert_ne pr.root (split_path q) cs n) ∙ h) in
        (p, ground (arith, flag-put pr.exposed q true p), e)
  ]

  pub added-IsConsistent : IsConsistent (added pr q ro)
  added-IsConsistent = record {
    pruned = IsPruned-insert_path (split_path q) pr.root ok.pruned;
    unmarked = exposed_at-insert_root pr.root (split_path q) ∙ ok.unmarked;
    absolute = added_absolute;
    marked = added_marked;
    listed = added_listed;
  }

-- AddPath keeps the registry consistent on every branch, errors included: the trie marks exactly
-- the listed paths, its root is never marked, listed paths are absolute, and every node below
-- the root leads to a listed path and is marked or flagged.
pub add_path-IsConsistent :
    (stat : Bytes → Bool) (pr : PathRegistry) (p : Bytes) (ro : Bool)
    → IsConsistent pr
    → IsConsistent (add_path stat pr p ro).0
unfolding add_path
add_path-IsConsistent stat pr p ro ok = elim (Bool-cases (is_abs (clean p))) [
  | inr rel ↦ rw rel ok
  | inl abs ↦ elim (Bool-cases (stat (clean p))) [
    | inr missing ↦ rw (abs, missing) ok
    | inl there ↦ elim (Bool-cases (flag pr.exposed (clean p))) [
      | inl old ↦
          rw (abs, there, old)
            (record {
              pruned = ok.pruned;
              unmarked = ok.unmarked;
              absolute = ok.absolute;
              marked = ok.marked;
              listed = ok.listed;
            })
      | inr new ↦ rw (abs, there, new) (added-IsConsistent pr (clean p) ro ok abs)
    ]
  ]
]

-- The trie of a registry after a removal.
exposed_at-remove_from_trie :
    (n : PathNode) (cs q : List Bytes)
    → exposed_at (remove_from_trie n cs) q ≡ ite (names_dec cs q) false (exposed_at n q)
unfolding remove_from_trie
exposed_at-remove_from_trie n cs q = elim (Option-cases (navigate n cs)) [
  | inl missing ↦
      rw (missing, remove_from_trie)
        (elim (names_dec cs q) [
          | yes e ↦ ground (arith, exposed_at_of_missing n cs missing)
          | no d ↦ ground arith
        ])
  | inr (m, found) ↦
      rw (found, remove_from_trie)
        (exposed_at-prune (unexpose_at n cs) cs q ∙ exposed_at-unexpose_at n cs q)
]

IsPruned-remove_from_trie :
    (n : PathNode) (cs : List Bytes) → IsPruned n → IsPruned (remove_from_trie n cs)
unfolding remove_from_trie
IsPruned-remove_from_trie n cs p = elim (Option-cases (navigate n cs)) [
  | inl missing ↦ rw (missing, remove_from_trie) p
  | inr (m, found) ↦ rw (found, remove_from_trie) (IsPruned-remove n cs p)
]

module _ (pr : PathRegistry) (q : Bytes) (ok : IsConsistent pr)
    (listed_q : flag pr.exposed q ≡ true) where
  removed_flag :
      (p : Bytes)
      → flag (delete bytes_dec pr.exposed q) p ≡ true
      → (q ≢ p) × (flag pr.exposed p ≡ true)
  removed_flag p h = elim (bytes_dec q p) [
    | yes e ↦ absurd (ground (arith, flag-delete pr.exposed q p))
    | no n ↦ (n, ground (arith, flag-delete pr.exposed q p))
  ]

  removed_marked :
      (p : Bytes)
      → flag (delete bytes_dec pr.exposed q) p ≡ true
      → split_path p ≢ []
      → exposed_at (remove_from_trie pr.root (split_path q)) (split_path p) ≡ true
  removed_marked p h ne =
      let (other, old) = removed_flag p h in
      ground (
        arith,
        exposed_at-remove_from_trie pr.root (split_path q) (split_path p),
        ok.marked p old ne,
        split_path-injective q p (ok.absolute q listed_q) (ok.absolute p old),
      )

  removed_listed :
      (cs : List Bytes)
      → exposed_at (remove_from_trie pr.root (split_path q)) cs ≡ true
      → (p : Bytes) × (flag (delete bytes_dec pr.exposed q) p ≡ true) × (split_path p ≡ cs)
  removed_listed cs h =
      let step = exposed_at-remove_from_trie pr.root (split_path q) cs in
      let (p, f, e) = ok.listed cs (ground (arith, step)) in
      (p, ground (arith, step, flag-delete pr.exposed q p), e)

  removed-IsConsistent : IsConsistent (record {
    root = remove_from_trie pr.root (split_path q);
    exposed = delete bytes_dec pr.exposed q;
    read_only = delete bytes_dec pr.read_only q;
  })
  removed-IsConsistent = record {
    pruned = IsPruned-remove_from_trie pr.root (split_path q) ok.pruned;
    unmarked = ground (arith, exposed_at-remove_from_trie pr.root (split_path q) [], ok.unmarked);
    absolute = λ p h. ok.absolute p (removed_flag p h).1;
    marked = removed_marked;
    listed = removed_listed;
  }

-- RemovePath keeps the registry consistent on every branch, so that its walk back deletes
-- exactly the nodes that lead to no listed path.
pub remove_path-IsConsistent :
    (pr : PathRegistry) (p : Bytes) → IsConsistent pr → IsConsistent (remove_path pr p)
unfolding remove_path
remove_path-IsConsistent pr p ok = elim (Bool-cases (flag pr.exposed (clean p))) [
  | inl old ↦ rw old (removed-IsConsistent pr (clean p) ok old)
  | inr missing ↦ rw missing ok
]
