-- ===== src/Registry/Effects.antt =====
-- What AddPath and RemovePath change for the callers of CheckPath.
use homura.Bytes.{Bytes, bytes_dec}
use homura.Paths.{is_abs, clean}
use homura.Prelude.{
  Bool, true, false, ◌≡◌, refl, none, some, arith, ite, ◌⊎◌, inl, inr, Option-cases, sym, ◌∙◌,
}
use homura.Registry.Invariant.{
  IsConsistent, add_path-IsConsistent, remove_path-IsConsistent, flag-put, flag-delete,
}
use homura.Registry.Visibility.{Covers, LiesAbove, Sees, check_path-Sees}
use homura.Registry.{
  PathRegistry, PathVisibility, exposed, virtual_ancestor, not_visible, RegistryError, not_absolute,
  does_not_exist, flag, add_path, remove_path, check_path, is_read_only,
}

-- At most one answer fits.
pub Sees-unique :
    (pr : PathRegistry) (q : Bytes) (v w : PathVisibility) → Sees pr q v → Sees pr q w → v ≡ w
Sees-unique pr q exposed exposed a b = refl
Sees-unique pr q exposed virtual_ancestor a b = absurd (b.0 a)
Sees-unique pr q exposed not_visible a b = absurd (b.0 a)
Sees-unique pr q virtual_ancestor exposed a b = absurd (a.0 b)
Sees-unique pr q virtual_ancestor virtual_ancestor a b = refl
Sees-unique pr q virtual_ancestor not_visible (n, inl top) b = absurd (b.1 top)
Sees-unique pr q virtual_ancestor not_visible (n, inr above) b = absurd (b.2 above)
Sees-unique pr q not_visible exposed a b = absurd (a.0 b)
Sees-unique pr q not_visible virtual_ancestor a (n, inl top) = absurd (a.1 top)
Sees-unique pr q not_visible virtual_ancestor a (n, inr above) = absurd (a.2 above)
Sees-unique pr q not_visible not_visible a b = refl

-- The answers depend on the listed paths alone.
module _ (pr pr' : PathRegistry) (same : (e : Bytes) → flag pr'.exposed e ≡ flag pr.exposed e) where
  Covers-same : (q : Bytes) → Covers pr q → Covers pr' q
  Covers-same q (e, f, rest, eq, k) = (e, same e ∙ f, rest, eq, k)

  Covers-same_back : (q : Bytes) → Covers pr' q → Covers pr q
  Covers-same_back q (e, f, rest, eq, k) = (e, sym (same e) ∙ f, rest, eq, k)

  LiesAbove-same : (q : Bytes) → LiesAbove pr q → LiesAbove pr' q
  LiesAbove-same q (e, f, c, rest, eq) = (e, same e ∙ f, c, rest, eq)

  LiesAbove-same_back : (q : Bytes) → LiesAbove pr' q → LiesAbove pr q
  LiesAbove-same_back q (e, f, c, rest, eq) = (e, sym (same e) ∙ f, c, rest, eq)

  Sees-same : (q : Bytes) (v : PathVisibility) → Sees pr q v → Sees pr' q v
  Sees-same q exposed c = Covers-same q c
  Sees-same q virtual_ancestor (n, inl top) = (λ c. n (Covers-same_back q c), inl top)
  Sees-same q virtual_ancestor (n, inr l) =
      (λ c. n (Covers-same_back q c), inr (LiesAbove-same q l))
  Sees-same q not_visible (n, top, l) =
      (λ c. n (Covers-same_back q c), top, λ k. l (LiesAbove-same_back q k))

  check_path-same :
      IsConsistent pr → IsConsistent pr' → (p : Bytes) → check_path pr' p ≡ check_path pr p
  check_path-same ok ok' p =
      Sees-unique pr' (clean p) (check_path pr' p) (check_path pr p) (check_path-Sees pr' p ok')
        (Sees-same (clean p) (check_path pr p) (check_path-Sees pr p ok))

-- A path that AddPath accepts is listed afterwards, with its flag, and the others are as before.
pub flag-add_path :
    (stat : Bytes → Bool) (pr : PathRegistry) (p : Bytes) (ro : Bool) (e : Bytes)
    → (add_path stat pr p ro).1 ≡ none
    → (flag (add_path stat pr p ro).0.exposed e
        ≡ ite (bytes_dec (clean p) e) true (flag pr.exposed e))
      × (flag (add_path stat pr p ro).0.read_only e
          ≡ ite (bytes_dec (clean p) e) ro (flag pr.read_only e))
unfolding add_path
flag-add_path stat pr p ro e h =
    ground (arith, flag-put pr.exposed (clean p) true e, flag-put pr.read_only (clean p) ro e)

pub flag-remove_path :
    (pr : PathRegistry) (p e : Bytes)
    → flag (remove_path pr p).exposed e ≡ ite (bytes_dec (clean p) e) false (flag pr.exposed e)
unfolding remove_path
flag-remove_path pr p e = ground (arith, flag-delete pr.exposed (clean p) e)

-- An error of AddPath leaves the registry as it was, and is either that the cleaned path is not
-- absolute, or that it is absolute and the host has no such file.
pub add_path-error :
    (stat : Bytes → Bool) (pr : PathRegistry) (p : Bytes) (ro : Bool) (err : RegistryError)
    → (add_path stat pr p ro).1 ≡ some err
    → ((add_path stat pr p ro).0 ≡ pr)
      × ((err ≡ not_absolute) × (is_abs (clean p) ≡ false)
          ⊎ (err ≡ does_not_exist) × (is_abs (clean p) ≡ true) × (stat (clean p) ≡ false))
unfolding add_path
add_path-error stat pr p ro err h = ground arith

exposed_of_Covers :
    (pr : PathRegistry) (p : Bytes)
    → IsConsistent pr
    → Covers pr (clean p)
    → check_path pr p ≡ exposed
exposed_of_Covers pr p ok c =
    Sees-unique pr (clean p) (check_path pr p) exposed (check_path-Sees pr p ok) c

Covers-of_exposed :
    (pr : PathRegistry) (p : Bytes)
    → IsConsistent pr
    → check_path pr p ≡ exposed
    → Covers pr (clean p)
Covers-of_exposed pr p ok e = rw e at (check_path-Sees pr p ok)

-- Where AddPath returns no error on a consistent registry, the path is exposed afterwards,
-- IsReadOnly of it is the flag that was asked for, and every path that was exposed before still
-- is.
pub add_path-exposes :
    (stat : Bytes → Bool) (pr : PathRegistry) (p : Bytes) (ro : Bool)
    → IsConsistent pr
    → (add_path stat pr p ro).1 ≡ none
    → (check_path (add_path stat pr p ro).0 p ≡ exposed)
      × (is_read_only (add_path stat pr p ro).0 p ≡ ro)
      × ((q : Bytes) → check_path pr q ≡ exposed → check_path (add_path stat pr p ro).0 q ≡ exposed)
unfolding is_read_only
add_path-exposes stat pr p ro ok h =
    let here = flag-add_path stat pr p ro (clean p) h in
    let ok' = add_path-IsConsistent stat pr p ro ok in
    let listed_now : flag (add_path stat pr p ro).0.exposed (clean p) ≡ true =
      ground (arith, here) in
    (
      unfold check_path in ground (arith, listed_now),
      ground (arith, here),
      λ q old.
          let (e, f, rest, eq, k) = Covers-of_exposed pr q ok old in
          exposed_of_Covers (add_path stat pr p ro).0 q ok'
            (e, ground (arith, flag-add_path stat pr p ro e h), rest, eq, k),
    )

-- On a consistent registry that does not list the cleaned path, RemovePath after AddPath of the
-- same path gives every path the visibility that it had before.
pub check_path-remove-add :
    (stat : Bytes → Bool) (pr : PathRegistry) (p : Bytes) (ro : Bool)
    → IsConsistent pr
    → flag pr.exposed (clean p) ≡ false
    → (q : Bytes) → check_path (remove_path (add_path stat pr p ro).0 p) q ≡ check_path pr q
check_path-remove-add stat pr p ro ok new q =
    check_path-same pr (remove_path (add_path stat pr p ro).0 p) same ok
      (remove_path-IsConsistent (add_path stat pr p ro).0 p (add_path-IsConsistent stat pr p ro ok))
      q
  where
    same :
        (e : Bytes) → flag (remove_path (add_path stat pr p ro).0 p).exposed e ≡ flag pr.exposed e
    same e = elim (Option-cases ((add_path stat pr p ro).1)) [
      | inl fine ↦
          ground (
            arith,
            flag-remove_path (add_path stat pr p ro).0 p e,
            flag-add_path stat pr p ro e fine,
          )
      | inr (err, bad) ↦ ground (
        arith,
        flag-remove_path (add_path stat pr p ro).0 p e,
        (add_path-error stat pr p ro err bad).0,
      )
    ]
