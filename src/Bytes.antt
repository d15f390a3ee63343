-- ===== src/Bytes.antt =====
-- Go strings and byte slices: lists of byte values, with decidable equality.
use Prim.Native.Char.{code}
use Prim.Native.String.{String}
use homura.Prelude.{ℕ, refl, List, [], ◌∷◌, ℕ_discrete}

abbrev pub Bytes : Type 0
Bytes = List ℕ

-- The bytes of an ASCII literal.
abbrev pub codes : String → Bytes
codes String.[] = []
codes (String.◌∷◌ c s) = code c ∷ codes s

-- `==` on Go strings.
unfoldable pub bytes_dec : Discrete Bytes
unfolding ℕ_discrete
bytes_dec [] [] = yes refl
bytes_dec [] (y ∷ ys) = no (λ e. cc)
bytes_dec (x ∷ xs) [] = no (λ e. cc)
bytes_dec (x ∷ xs) (y ∷ ys) = elim (ℕ_discrete x y) [
  | yes p ↦ elim (bytes_dec xs ys) [ yes q ↦ yes (cc) | no n ↦ no (λ e. n (cc)) ]
  | no n ↦ no (λ e. n (cc))
]

-- `==` on lists of path components.
unfoldable pub names_dec : Discrete (List Bytes)
unfolding bytes_dec
names_dec [] [] = yes refl
names_dec [] (y ∷ ys) = no (λ e. cc)
names_dec (x ∷ xs) [] = no (λ e. cc)
names_dec (x ∷ xs) (y ∷ ys) = elim (bytes_dec x y) [
  | yes p ↦ elim (names_dec xs ys) [ yes q ↦ yes (cc) | no n ↦ no (λ e. n (cc)) ]
  | no n ↦ no (λ e. n (cc))
]
