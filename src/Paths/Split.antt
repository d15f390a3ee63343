-- ===== src/Paths/Split.antt =====
-- `strings.Split` and `strings.Join` at the slash.
use homura.Bytes.{Bytes}
use homura.Prelude.{ℕ, ◌≡◌, ◌≢◌, refl, List, [], ◌∷◌, ◌++◌, ◌==◌, if◌then◌else◌, arith}

abbrev pub slash : ℕ
slash = b'/'

-- Adds a byte in front of the first part.
unfoldable pub extend : ℕ → List Bytes → List Bytes
extend c [] = (c ∷ []) ∷ []
extend c (p ∷ ps) = (c ∷ p) ∷ ps

-- `strings.Split(s, "/")`
unfoldable pub split : Bytes → List Bytes
unfolding extend
split [] = [] ∷ []
split (c ∷ s) = let parts = split s in if c == slash then [] ∷ parts else extend c parts

-- `strings.Join(parts, "/")`
unfoldable pub join : List Bytes → Bytes
join [] = []
join (p ∷ []) = p
join (p ∷ q ∷ ps) = p ++ (slash ∷ join (q ∷ ps))

extend-ne-nil : (c : ℕ) (ps : List Bytes) → extend c ps ≢ []
unfolding extend
extend-ne-nil c [] = λ e. cc
extend-ne-nil c (p ∷ ps) = λ e. cc

pub split-ne-nil : (s : Bytes) → split s ≢ []
unfolding split
split-ne-nil [] = λ e. cc
split-ne-nil (c ∷ s) = ground (arith, extend-ne-nil c (split s))

join-extend : (c : ℕ) (ps : List Bytes) → join (extend c ps) ≡ c ∷ join ps
unfolding join extend
join-extend c [] = refl
join-extend c (p ∷ []) = refl
join-extend c (p ∷ q ∷ ps) = refl

join-cons_nil : (ps : List Bytes) → ps ≢ [] → join ([] ∷ ps) ≡ slash ∷ join ps
unfolding join
join-cons_nil [] h = absurd (h refl)
join-cons_nil (p ∷ ps) h = refl

-- Joining the parts of a text gives it back.
pub join-split : (s : Bytes) → join (split s) ≡ s
unfolding split join
join-split [] = refl
join-split (c ∷ s) =
    ground (arith, join-split s, join-extend c (split s), join-cons_nil (split s), split-ne-nil s)
