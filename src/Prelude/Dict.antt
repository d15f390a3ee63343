-- ===== src/Prelude/Dict.antt =====
-- A Go map as an association list over keys with decidable equality: `get` is the comma-ok index,
-- `put` an assignment, `delete` the builtin. The order of the entries stands for the iteration order.
use mathlib.Core.List.{List, [], ◌∷◌}
use mathlib.Core.Bool.{Bool}
use mathlib.Core.Logic.{◌≢◌, ite}
use homura.Prelude.Tests.{if◌then◌else◌}
use mathlib.Core.Option.{Option, none, some}
use mathlib.Core.Path.{◌≡◌, refl}
use native.Mathlib.Omega.{arith}

module _ {ℓ} {K V : Type ℓ} (dec : Discrete K) where
  unfoldable pub get : List (K × V) → K → Option V
  get [] k = none
  get ((j, v) ∷ m) k = ite (dec j k) (some v) (get m k)

  unfoldable pub put : List (K × V) → K → V → List (K × V)
  put [] k v = (k, v) ∷ []
  put ((j, w) ∷ m) k v = ite (dec j k) ((k, v) ∷ m) ((j, w) ∷ put m k v)

  unfoldable pub delete : List (K × V) → K → List (K × V)
  delete [] k = []
  delete ((j, v) ∷ m) k = ite (dec j k) (delete m k) ((j, v) ∷ delete m k)

  pub get-put :
      (m : List (K × V)) (k : K) (v : V) (j : K)
      → get (put m k v) j ≡ ite (dec k j) (some v) (get m j)
  unfolding get put
  get-put [] k v j = refl
  get-put ((i, w) ∷ m) k v j = ground (arith, get-put m k v j)

  pub get-delete : (m : List (K × V)) (k j : K) → get (delete m k) j ≡ ite (dec k j) none (get m j)
  unfolding get delete
  get-delete [] k j = ground arith
  get-delete ((i, w) ∷ m) k j = ground (arith, get-delete m k j)

  pub get-put_self : (m : List (K × V)) (k : K) (v : V) → get (put m k v) k ≡ some v
  get-put_self m k v = ground (arith, get-put m k v k)

  pub get-put_ne : (m : List (K × V)) (k : K) (v : V) (j : K) → k ≢ j → get (put m k v) j ≡ get m j
  get-put_ne m k v j h = ground (arith, get-put m k v j)

  pub get-delete_self : (m : List (K × V)) (k : K) → get (delete m k) k ≡ none
  get-delete_self m k = ground (arith, get-delete m k k)

  pub get-delete_ne : (m : List (K × V)) (k j : K) → k ≢ j → get (delete m k) j ≡ get m j
  get-delete_ne m k j h = ground (arith, get-delete m k j)

-- A loop over a map that deletes the entries of a test.
module _ {ℓ} {K V : Type ℓ} where
  unfoldable pub remove_if : (K → V → Bool) → List (K × V) → List (K × V)
  remove_if test [] = []
  remove_if test ((j, v) ∷ m) =
      let rest = remove_if test m in if test j v then rest else (j, v) ∷ rest
