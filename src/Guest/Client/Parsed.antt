-- ===== src/Guest/Client/Parsed.antt =====
-- parsePath against the names that a path is made of.
use homura.Bytes.{Bytes}
use homura.Guest.Client.Names.{byte_string, kept, parts, trim_slash, parse_path}
use homura.Paths.{slash, join}
use homura.Prelude.{
  ℕ, ◌≡◌, ◌≢◌, refl, sym, ap, ◌∙◌, List, [], ◌∷◌, ◌++◌, map, append-nil, append_assoc, ◌==◌, ltb,
  Bool-cases, inl, inr, arith,
}

-- A name of a file: not empty, and without a slash.
abbrev pub HasNoSlash : Bytes → Type 0
HasNoSlash [] = Unit
HasNoSlash (c ∷ s) = (c ≢ slash) × HasNoSlash s

abbrev pub AreNames : List Bytes → Type 0
AreNames [] = Unit
AreNames (n ∷ ns) = (n ≢ []) × HasNoSlash n × AreNames ns

-- Each byte in the UTF-8 of its number.
abbrev pub recoded : Bytes → Bytes
recoded [] = []
recoded (c ∷ s) = byte_string c ++ recoded s

parts-name :
    (current n rest : Bytes)
    → HasNoSlash n
    → parts current (n ++ rest) ≡ parts (current ++ recoded n) rest
unfolding parts
parts-name current [] rest h = ap (λ x. parts x rest) (sym (append-nil current))
parts-name current (c ∷ n) rest (other, h) = elim (Bool-cases (c == slash)) [
  | inl same ↦ absurd (other (ground arith))
  | inr differs ↦
      rw (parts, differs)
        (parts-name (current ++ byte_string c) n rest h
          ∙ ap (λ x. parts x rest) (append_assoc current (byte_string c) (recoded n)))
]

byte_string-cons : (c : ℕ) (s : Bytes) → byte_string c ++ s ≢ []
unfolding byte_string
byte_string-cons c s = elim (Bool-cases (ltb c 128)) [
  | inl e ↦ rw e (λ x. cc)
  | inr e ↦ rw e (λ x. cc)
]

append-ne-nil : (s t : Bytes) → t ≢ [] → s ++ t ≢ []
append-ne-nil [] t h = h
append-ne-nil (c ∷ s) t h = λ e. cc

trim_slash-cons : (c : ℕ) (s : Bytes) → s ≢ [] → trim_slash (c ∷ s) ≡ c ∷ trim_slash s
unfolding trim_slash
trim_slash-cons c [] h = absurd (h refl)
trim_slash-cons c (d ∷ s) h = refl

trim_slash-append : (s t : Bytes) → t ≢ [] → trim_slash (s ++ t) ≡ s ++ trim_slash t
trim_slash-append [] t h = refl
trim_slash-append (c ∷ s) t h =
    trim_slash-cons c (s ++ t) (append-ne-nil s t h) ∙ ap (λ x. c ∷ x) (trim_slash-append s t h)

trim_slash-name : (n : Bytes) → HasNoSlash n → trim_slash n ≡ n
unfolding trim_slash
trim_slash-name [] h = refl
trim_slash-name (c ∷ []) (other, h) = ground (arith, other)
trim_slash-name (c ∷ d ∷ n) (other, h) = ap (λ x. c ∷ x) (trim_slash-name (d ∷ n) h)

join-ne-nil : (n : Bytes) (ns : List Bytes) → n ≢ [] → join (n ∷ ns) ≢ []
unfolding join
join-ne-nil n [] h = h
join-ne-nil [] (m ∷ ns) h = absurd (h refl)
join-ne-nil (c ∷ n) (m ∷ ns) h = λ e. cc

trim_slash-names : (ns : List Bytes) → AreNames ns → trim_slash (join ns) ≡ join ns
unfolding trim_slash join
trim_slash-names [] h = refl
trim_slash-names (n ∷ []) (filled, plain, h) = trim_slash-name n plain
trim_slash-names (n ∷ m ∷ ns) (filled, plain, h) =
    trim_slash-append n (slash ∷ join (m ∷ ns)) (λ e. cc)
    ∙ ap (λ x. n ++ x) (trim_slash-cons slash (join (m ∷ ns)) (join-ne-nil m ns h.0))
    ∙ ap (λ x. n ++ slash ∷ x) (trim_slash-names (m ∷ ns) h)

kept-filled : (s : Bytes) (rest : List Bytes) → s ≢ [] → kept s rest ≡ s ∷ rest
kept-filled [] rest h = absurd (h refl)
kept-filled (c ∷ s) rest h = refl

recoded-ne-nil : (n : Bytes) → n ≢ [] → recoded n ≢ []
recoded-ne-nil [] h = h
recoded-ne-nil (c ∷ n) h = byte_string-cons c (recoded n)

parts-names : (ns : List Bytes) → AreNames ns → parts [] (join ns) ≡ map recoded ns
unfolding parts join
parts-names [] h = refl
parts-names (n ∷ []) (filled, plain, h) =
    ap (parts []) (sym (append-nil n))
    ∙ parts-name [] n [] plain
    ∙ kept-filled (recoded n) [] (recoded-ne-nil n filled)
parts-names (n ∷ m ∷ ns) (filled, plain, h) =
    parts-name [] n (slash ∷ join (m ∷ ns)) plain
    ∙ kept-filled (recoded n) _ (recoded-ne-nil n filled)
    ∙ ap (λ x. recoded n ∷ x) (parts-names (m ∷ ns) h)

-- parsePath of a slash and names joined by slashes, not empty and without slashes themselves,
-- returns these names with each byte replaced by the UTF-8 of the character with that number.
pub parse_path-names :
    (ns : List Bytes) → AreNames ns → parse_path (slash ∷ join ns) ≡ map recoded ns
unfolding parse_path
parse_path-names ns h = ap (parts []) (trim_slash-names ns h) ∙ parts-names ns h
