-- ===== src/ShareRequest/Words.antt =====
-- The words of a kernel command line, as strings.Fields finds them, and prefixes of words.
use homura.Bytes.{Bytes, bytes_dec}
use homura.Decimal.{decimal, digits_from}
use homura.Git.{starts_with}
use homura.Paths.{extend}
use homura.Prelude.{
  ℕ, zero, suc, ◌+◌, ◌/◌, ◌%◌, ◌≡◌, ◌≢◌, refl, sym, ap, ◌∙◌, Bool, true, false, List, [], ◌∷◌, ◌++◌,
  append_assoc, ◌==◌, ◌&&◌, if◌then◌else◌, ite, if_pos, if_neg, leb, ltb, length, take, Bool-cases,
  inl, inr, arith, ==→eq,
}
use homura.ShareRequest.{split_spaces, drop_empty, fields}
use homura.Vm.Dirs.{is_space}

-- No byte is white space.
unfoldable pub spaceless : Bytes → Bool
spaceless [] = true
spaceless (c ∷ s) = let rest = spaceless s in if is_space c then false else rest

-- None of the words is empty or has white space in it.
unfoldable pub are_words : List Bytes → Bool
unfolding spaceless
are_words [] = true
are_words ([] ∷ words) = false
are_words ((c ∷ w) ∷ words) = spaceless (c ∷ w) && are_words words

-- The words, with a blank in front of each.
unfoldable pub spaced : List Bytes → Bytes
spaced [] = []
spaced (w ∷ words) = b' ' ∷ (w ++ spaced words)

pub spaced-append : (ws vs : List Bytes) → spaced (ws ++ vs) ≡ spaced ws ++ spaced vs
unfolding spaced
spaced-append [] vs = refl
spaced-append (w ∷ ws) vs =
    ap (λ s. b' ' ∷ s)
      (ap (λ s. w ++ s) (spaced-append ws vs) ∙ sym (append_assoc w (spaced ws) (spaced vs)))

pub are_words-append :
    (ws vs : List Bytes) → are_words ws ≡ true → are_words vs ≡ true → are_words (ws ++ vs) ≡ true
unfolding are_words
are_words-append [] vs h h' = h'
are_words-append ([] ∷ ws) vs h h' = absurd (cc)
are_words-append ((c ∷ w) ∷ ws) vs h h' = elim (Bool-cases (spaceless (c ∷ w))) [
  | inl clean ↦
      let rest : are_words ws ≡ true = sym (ap (λ b. b && are_words ws) clean) ∙ h in
      ap (λ b. b && are_words (ws ++ vs)) clean ∙ are_words-append ws vs rest h'
  | inr other ↦
      let no_words : false ≡ true = sym (ap (λ b. b && are_words ws) other) ∙ h in absurd (cc)
]

unless : Bool → Bytes → Bool
unless b r = if b then false else spaceless r

pub spaceless-append :
    (s t : Bytes) → spaceless s ≡ true → spaceless t ≡ true → spaceless (s ++ t) ≡ true
unfolding spaceless unless
spaceless-append [] t h h' = h'
spaceless-append (c ∷ s) t h h' = elim (Bool-cases (is_space c)) [
  | inl space ↦ let no : false ≡ true = sym (ap (λ b. unless b s) space) ∙ h in absurd (cc)
  | inr other ↦
      let rest : spaceless s ≡ true = sym (ap (λ b. unless b s) other) ∙ h in
      ap (λ b. unless b (s ++ t)) other ∙ spaceless-append s t rest h'
]

-- A word in front of white space.
split_spaces-word :
    (w s : Bytes) (space : ℕ)
    → spaceless w ≡ true
    → is_space space ≡ true
    → split_spaces (w ++ space ∷ s) ≡ w ∷ split_spaces s
unfolding split_spaces spaceless extend
split_spaces-word [] s space h sp = rw sp
split_spaces-word (c ∷ w) s space h sp = elim (Bool-cases (is_space c)) [
  | inl bad ↦ let no : false ≡ true = rw bad at h in absurd (cc)
  | inr other ↦
      let rest : spaceless w ≡ true = rw other at h in
      rw other (ap (extend c) (split_spaces-word w s space rest sp))
]

are_words-first :
    (w : Bytes) (words : List Bytes)
    → are_words (w ∷ words) ≡ true
    → (spaceless w ≡ true) × (are_words words ≡ true)
unfolding are_words
are_words-first [] words h = absurd (cc)
are_words-first (c ∷ w) words h = elim (Bool-cases (spaceless (c ∷ w))) [
  | inl clean ↦ (clean, sym (ap (λ b. b && are_words words) clean) ∙ h)
  | inr other ↦
      let no_words : false ≡ true = sym (ap (λ b. b && are_words words) other) ∙ h in absurd (cc)
]

drop_empty-cons :
    (w : Bytes) (vs us : List Bytes)
    → drop_empty vs ≡ drop_empty us
    → drop_empty (w ∷ vs) ≡ drop_empty (w ∷ us)
unfolding drop_empty
drop_empty-cons [] vs us e = e
drop_empty-cons (c ∷ w) vs us e = ap (λ x. (c ∷ w) ∷ x) e

drop_empty-words : (words : List Bytes) → are_words words ≡ true → drop_empty words ≡ words
unfolding drop_empty are_words
drop_empty-words [] h = refl
drop_empty-words ([] ∷ words) h = absurd (cc)
drop_empty-words ((c ∷ w) ∷ words) h =
    ap (λ x. (c ∷ w) ∷ x) (drop_empty-words words (are_words-first (c ∷ w) words h).1)

behind_word :
    (w : Bytes) (words : List Bytes) (space : ℕ)
    → is_space space ≡ true
    → spaceless w ≡ true
    → are_words words ≡ true
    → drop_empty (split_spaces (w ++ (spaced words ++ space ∷ []))) ≡ drop_empty (w ∷ words)
unfolding spaced drop_empty split_spaces
behind_word w [] space sp clean h =
    ap drop_empty (split_spaces-word w [] space clean sp)
    ∙ drop_empty-cons w ([] ∷ []) [] (no_pieces)
  where
    no_pieces : drop_empty ([] ∷ []) ≡ drop_empty []
    no_pieces = refl
behind_word w (v ∷ words) space sp clean h =
    let (v_clean, rest) = are_words-first v words h in
    ap drop_empty (
      split_spaces-word w ((v ++ spaced words) ++ space ∷ []) b' ' clean refl
      ∙ ap (λ x. w ∷ split_spaces x) (append_assoc v (spaced words) (space ∷ [])))
    ∙ drop_empty-cons w (split_spaces (v ++ (spaced words ++ space ∷ []))) (v ∷ words)
        (behind_word v words space sp v_clean rest)

-- The words are the fields of the text, with white space behind it.
pub fields-spaced :
    (words : List Bytes) (space : ℕ)
    → is_space space ≡ true
    → are_words words ≡ true
    → fields (spaced words ++ space ∷ []) ≡ words
unfolding fields spaceless drop_empty
fields-spaced words space sp h = behind_word [] words space sp refl h ∙ drop_empty-words words h

-- A number has a digit, and no white space.
is_space-digit : (d : ℕ) → is_space (b'0' + d % 10) ≡ false
is_space-digit d = ground arith

digits_from-clean : (fuel n : ℕ) → spaceless (digits_from fuel n) ≡ true
unfolding digits_from spaceless
digits_from-clean zero n = refl
digits_from-clean (suc fuel) n = elim (Bool-cases (ltb n 10)) [
  | inl small ↦ rw small (let digit : is_space (b'0' + n) ≡ false = ground arith in rw digit)
  | inr large ↦ rw large (
      spaceless-append (digits_from fuel (n / 10)) ((b'0' + n % 10) ∷ [])
        (digits_from-clean fuel (n / 10)) (rw (is_space-digit n)))
]

append-ne-nil : (s : Bytes) (c : ℕ) → (d : ℕ) × (t : Bytes) × (s ++ c ∷ [] ≡ d ∷ t)
append-ne-nil [] c = (c, [], refl)
append-ne-nil (d ∷ s) c = (d, s ++ c ∷ [], refl)

pub decimal-word :
    (n : ℕ) → (d : ℕ) × (s : Bytes) × (decimal n ≡ d ∷ s) × (spaceless (decimal n) ≡ true)
unfolding decimal digits_from
decimal-word n = elim (Bool-cases (ltb n 10)) [
  | inl small ↦ (b'0' + n, [], rw small, digits_from-clean (suc n) n)
  | inr large ↦
      let (d, s, e) = append-ne-nil (digits_from n (n / 10)) (b'0' + n % 10) in
      (d, s, rw large e, digits_from-clean (suc n) n)
]

-- strings.HasPrefix, byte by byte.
unfoldable pub prefixed : Bytes → Bytes → Bool
prefixed [] s = true
prefixed (c ∷ p) [] = false
prefixed (c ∷ p) (d ∷ s) = let rest = prefixed p s in if c == d then rest else false

same_head :
    (c d : ℕ) (x p : Bytes)
    → c ≡ d
    → ite (bytes_dec (d ∷ x) (c ∷ p)) true false ≡ ite (bytes_dec x p) true false
same_head c d x p same = elim (bytes_dec x p) [
  | yes e ↦
      if_pos (bytes_dec (d ∷ x) (c ∷ p)) (cc) true false ∙ sym (if_pos (bytes_dec x p) e true false)
  | no ne ↦
      if_neg (bytes_dec (d ∷ x) (c ∷ p)) (λ e. ne (cc)) true false
      ∙ sym (if_neg (bytes_dec x p) ne true false)
]

and_false : (b : Bool) → (b && false) ≡ false
and_false true = refl
and_false false = refl

leb_zero : (n : ℕ) → leb 0 n ≡ true
leb_zero n = ground arith

leb_succ : (m n : ℕ) → leb (suc m) (suc n) ≡ leb m n
leb_succ m n = ground arith

leb_succ_zero : (m : ℕ) → leb (suc m) 0 ≡ false
leb_succ_zero m = ground arith

-- The step of the comparison, by the rest of the two texts.
prefixed-step :
    (c d : ℕ) (p s : Bytes)
    → (leb (length p) (length s) && ite (bytes_dec (take (length p) s) p) true false) ≡ prefixed p s
    → (leb (length p) (length s) && ite (bytes_dec (d ∷ take (length p) s) (c ∷ p)) true false)
      ≡ prefixed (c ∷ p) (d ∷ s)
unfolding prefixed
prefixed-step c d p s rest = elim (Bool-cases (c == d)) [
  | inl same ↦
      ap (λ b. leb (length p) (length s) && b)
        (same_head c d (take (length p) s) p (==→eq c d same))
      ∙ (rest ∙ sym (ap (λ b. if b then prefixed p s else false) same))
  | inr other ↦
      ap (λ b. leb (length p) (length s) && b)
        (if_neg (bytes_dec (d ∷ take (length p) s) (c ∷ p)) (apart other) true false)
      ∙ (and_false (leb (length p) (length s))
          ∙ sym (ap (λ b. if b then prefixed p s else false) other))
]
  where
    apart : (c == d) ≡ false → (d ∷ take (length p) s) ≢ (c ∷ p)
    apart other e = let same : d ≡ c = cc in absurd (ground arith)

pub starts_with-prefixed : (p s : Bytes) → starts_with p s ≡ prefixed p s
unfolding starts_with prefixed
starts_with-prefixed [] s =
    ap (λ b. b && ite (bytes_dec [] []) true false) (leb_zero (length s))
    ∙ if_pos (bytes_dec [] []) refl true false
starts_with-prefixed (c ∷ p) [] =
    ap (λ b. b && ite (bytes_dec [] (c ∷ p)) true false) (leb_succ_zero (length p))
starts_with-prefixed (c ∷ p) (d ∷ s) =
    ap (λ b. b && ite (bytes_dec (d ∷ take (length p) s) (c ∷ p)) true false)
      (leb_succ (length p) (length s))
    ∙ prefixed-step c d p s (starts_with-prefixed p s)
