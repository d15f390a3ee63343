-- ===== src/Registry/ReadOnly.antt =====
-- IsReadOnly answers by the nearest listed ancestor.
use homura.Bytes.{Bytes}
use homura.Paths.{is_abs, clean, slash, join}
use homura.Prelude.{
  ℕ, zero, suc, ◌≤◌, ◌<◌, true, false, ◌≡◌, refl, List, [], ◌∷◌, ◌++◌, arith, length, length-append,
  take-length-append, Bool-cases, inl, inr, sym, ◌∙◌, append-nil, ap, take-length, ℕ_discrete,
  dec_lt,
}
use native.Mathlib.Nat.{le_refl}
use homura.Registry.Invariant.{IsConsistent, join-split_path, split_path-injective}
use homura.Registry.{PathRegistry, flag, split_path, ancestor_path, read_only_from, is_read_only}

-- The path of the components of a listed path is that path.
ancestor_path-listed :
    (pr : PathRegistry) (e : Bytes) (cs rest : List Bytes)
    → IsConsistent pr
    → flag pr.exposed e ≡ true
    → cs ≡ split_path e ++ rest
    → ancestor_path cs (length (split_path e)) ≡ e
unfolding ancestor_path
ancestor_path-listed pr e cs rest ok f eq =
    rw (eq, take-length-append (split_path e) rest) (join-split_path e (ok.absolute e f))

-- The loop stops at the first listed ancestor, from the longest on.
read_only_from-nearest :
    (pr : PathRegistry) (cs : List Bytes) (n i : ℕ)
    → i ≤ n
    → flag pr.exposed (ancestor_path cs i) ≡ true
    → ((j : ℕ) → i < j → j ≤ n → flag pr.exposed (ancestor_path cs j) ≡ false)
    → read_only_from pr cs n ≡ flag pr.read_only (ancestor_path cs i)
unfolding read_only_from
read_only_from-nearest pr cs zero zero h f above =
    let root : ancestor_path cs 0 ≡ slash ∷ [] = unfold ancestor_path join in refl in
    ground (arith, root)
read_only_from-nearest pr cs zero (suc i) h f above = absurd (omega arith)
read_only_from-nearest pr cs (suc n) i h f above = elim (ℕ_discrete i (suc n)) [
  | yes e ↦ ground (arith, ap (ancestor_path cs) e)
  | no ne ↦ ground (
    arith,
    above (suc n) (omega arith) (omega arith),
    read_only_from-nearest pr cs n i (omega arith) f (λ j lo hi. above j lo (omega arith)),
  )
]

read_only_from-none :
    (pr : PathRegistry) (cs : List Bytes) (n : ℕ)
    → ((j : ℕ) → j ≤ n → flag pr.exposed (ancestor_path cs j) ≡ false)
    → read_only_from pr cs n ≡ false
unfolding read_only_from
read_only_from-none pr cs zero none_listed =
    let root : ancestor_path cs 0 ≡ slash ∷ [] = unfold ancestor_path join in refl in
    ground (arith, root, none_listed 0 (omega arith))
read_only_from-none pr cs (suc n) none_listed = ground (
  arith,
  none_listed (suc n) (omega arith),
  read_only_from-none pr cs n (λ j h. none_listed j (omega arith)),
)

ancestor_path_self :
    (q : Bytes) → is_abs q ≡ true → ancestor_path (split_path q) (length (split_path q)) ≡ q
unfolding ancestor_path
ancestor_path_self q h = rw (take-length (split_path q)) (join-split_path q h)

same_of_length :
    (e q : Bytes) (rest : List Bytes)
    → is_abs e ≡ true
    → is_abs q ≡ true
    → split_path q ≡ split_path e ++ rest
    → length (split_path q) ≤ length (split_path e)
    → e ≡ q
same_of_length e q [] he hq eq le =
    split_path-injective e q he hq (sym (append-nil (split_path e)) ∙ sym eq)
same_of_length e q (r ∷ rest) he hq eq le =
    absurd (omega (arith, ap length eq, length-append (split_path e) (r ∷ rest)))

-- On a consistent registry, where a listed path is the cleaned absolute path or an ancestor of
-- it and no longer ancestor is listed, IsReadOnly answers with the flag of that listed path.
pub is_read_only-nearest :
    (pr : PathRegistry) (p e : Bytes) (rest : List Bytes)
    → IsConsistent pr
    → is_abs (clean p) ≡ true
    → flag pr.exposed e ≡ true
    → split_path (clean p) ≡ split_path e ++ rest
    → ((j : ℕ)
        → length (split_path e) < j
        → j ≤ length (split_path (clean p))
        → flag pr.exposed (ancestor_path (split_path (clean p)) j) ≡ false)
    → is_read_only pr p ≡ flag pr.read_only e
unfolding is_read_only
is_read_only-nearest pr p e rest ok hq f eq above =
    let q = clean p in
    let n = length (split_path q) in
    let i = length (split_path e) in
    let longer : i ≤ n = omega (arith, ap length eq, length-append (split_path e) rest) in
    let at_e = ancestor_path-listed pr e (split_path q) rest ok f eq in
    let at_q = ancestor_path_self q hq in
    elim (Bool-cases (flag pr.exposed q)) [
      | inl listed ↦ elim (dec_lt i n) [
        | yes lt ↦ absurd (cc (above n lt (le_refl n), at_q))
        | no ge ↦ ground (arith, same_of_length e q rest (ok.absolute e f) hq eq (omega arith))
      ]
      | inr unlisted ↦
          ground
            (arith, at_e, read_only_from-nearest pr (split_path q) n i longer (rw at_e f) above)
    ]

-- Where no ancestor is listed, the root among them, the answer is false.
pub is_read_only-unlisted :
    (pr : PathRegistry) (p : Bytes)
    → is_abs (clean p) ≡ true
    → ((j : ℕ)
        → j ≤ length (split_path (clean p))
        → flag pr.exposed (ancestor_path (split_path (clean p)) j) ≡ false)
    → is_read_only pr p ≡ false
unfolding is_read_only
is_read_only-unlisted pr p hq none_listed =
    let cs = split_path (clean p) in
    ground (
      arith,
      none_listed (length cs) (omega arith),
      ancestor_path_self (clean p) hq,
      read_only_from-none pr cs (length cs) none_listed,
    )
