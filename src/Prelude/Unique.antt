-- ===== src/Prelude/Unique.antt =====
-- Association lists where each key stands once, as in a Go map.
use mathlib.Core.Bool.{Bool}
use mathlib.Core.List.{List, [], ◌∷◌}
use mathlib.Core.Option.{Option, none, some}
use mathlib.Core.Path.{◌≡◌, refl, ap, subst}
use native.Mathlib.Omega.{arith}
use homura.Prelude.Dict.{get, put, delete, remove_if, get-put, get-delete}
use homura.Prelude.Tests.{if◌then◌else◌}

module _ {K V : Type 0} (dec : Discrete K) where
  abbrev pub Unique : List (K × V) → Type 0
  Unique [] = Unit {0}
  Unique ((j, v) ∷ m) = (get dec m j ≡ none) × Unique m

  pub put-Unique : (m : List (K × V)) (k : K) (v : V) → Unique m → Unique (put dec m k v)
  unfolding put get
  put-Unique [] k v h = (refl, tt)
  put-Unique ((j, w) ∷ m) k v (hj, h) = ground (arith, get-put dec m k v j, put-Unique m k v h)

  pub delete-Unique : (m : List (K × V)) (k : K) → Unique m → Unique (delete dec m k)
  unfolding delete
  delete-Unique [] k h = tt
  delete-Unique ((j, w) ∷ m) k (hj, h) = ground (arith, get-delete dec m k j, delete-Unique m k h)

  module _ (test : K → V → Bool) where
    abbrev pub kept : K → Option V → Option V
    kept k none = none
    kept k (some v) = if test k v then none else some v

    pub get-remove_if :
        (m : List (K × V)) (k : K) → Unique m → get dec (remove_if test m) k ≡ kept k (get dec m k)
    unfolding get remove_if
    get-remove_if [] k h = refl
    get-remove_if ((j, v) ∷ m) k (hj, h) = elim (dec j k) [
      | yes e ↦
          let gone : get dec m k ≡ none = subst (λ x. get dec m x ≡ none) e hj in
          let same : test j v ≡ test k v = ap (λ x. test x v) e in
          ground (arith, get-remove_if m k h)
      | no n ↦ ground (arith, get-remove_if m k h)
    ]

    pub remove_if-Unique : (m : List (K × V)) → Unique m → Unique (remove_if test m)
    unfolding remove_if
    remove_if-Unique [] h = tt
    remove_if-Unique ((j, v) ∷ m) (hj, h) =
        ground (arith, get-remove_if m j h, remove_if-Unique m h)
