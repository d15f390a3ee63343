-- ===== src/Git/Exclude.antt =====
-- A pattern that is added to an exclude file is a line of it.
use homura.Bytes.{Bytes, bytes_dec}
use homura.Git.{newline, split_lines, has_line, add_to_git_exclude}
use homura.Paths.{extend}
use homura.Prelude.{
  ℕ, ◌≡◌, refl, sym, ap, ◌∙◌, true, false, List, [], ◌∷◌, ◌++◌, append_assoc, ◌==◌, if_pos, if_neg,
  Bool-cases, inl, inr, ◌⊎◌,
}

split_lines-cons : (s : Bytes) → (l : Bytes) × (ls : List Bytes) × (split_lines s ≡ (l ∷ ls))
unfolding split_lines extend
split_lines-cons [] = ([], [], refl)
split_lines-cons (c ∷ s) = elim (Bool-cases (c == newline)) [
  | inl found ↦ ([], split_lines s, rw found)
  | inr other ↦ let (l, ls, e) = split_lines-cons s in (c ∷ l, ls, rw other (ap (extend c) e))
]

extend-append :
    (c : ℕ) (l : Bytes) (ls lines more : List Bytes)
    → lines ≡ (l ∷ ls)
    → extend c (lines ++ more) ≡ extend c lines ++ more
unfolding extend
extend-append c l ls lines more e =
    ap (λ x. extend c (x ++ more)) e ∙ ap (λ x. extend c x ++ more) (sym e)

split_lines-append : (s t : Bytes) → split_lines (s ++ newline ∷ t) ≡ split_lines s ++ split_lines t
unfolding split_lines
split_lines-append [] t = refl
split_lines-append (c ∷ s) t = elim (Bool-cases (c == newline)) [
  | inl found ↦ rw found (ap (λ x. [] ∷ x) (split_lines-append s t))
  | inr other ↦
      let (l, ls, e) = split_lines-cons s in
      rw other (
        ap (extend c) (split_lines-append s t)
        ∙ extend-append c l ls (split_lines s) (split_lines t) e)
]

-- A text without a newline.
abbrev pub IsOneLine : Bytes → Type 0
IsOneLine s = split_lines s ≡ s ∷ []

-- A file that is empty or ends with a newline.
abbrev pub IsEnded : Bytes → Type 0
IsEnded s = (s ≡ []) ⊎ ((t : Bytes) × (s ≡ t ++ newline ∷ []))

has_line-append : (p : Bytes) (before after : List Bytes) → has_line p (before ++ p ∷ after) ≡ true
unfolding has_line
has_line-append p [] after = if_pos (bytes_dec p p) refl true (has_line p after)
has_line-append p (l ∷ before) after = elim (bytes_dec l p) [
  | yes e ↦ if_pos (bytes_dec l p) e true (has_line p (before ++ p ∷ after))
  | no ne ↦
      if_neg (bytes_dec l p) ne true (has_line p (before ++ p ∷ after))
      ∙ has_line-append p before after
]

line-split_lines : (p : Bytes) → IsOneLine p → split_lines (p ++ newline ∷ []) ≡ p ∷ [] ∷ []
unfolding split_lines
line-split_lines p one = split_lines-append p [] ∙ ap (λ x. x ++ [] ∷ []) one

appended :
    (p s : Bytes)
    → IsOneLine p
    → IsEnded s
    → has_line p (split_lines (s ++ (p ++ newline ∷ []))) ≡ true
appended p s one (inl e) =
    ap (λ x. has_line p (split_lines (x ++ (p ++ newline ∷ [])))) e
    ∙ (ap (has_line p) (line-split_lines p one) ∙ has_line-append p [] ([] ∷ []))
appended p s one (inr (t, e)) =
    ap (λ x. has_line p (split_lines (x ++ (p ++ newline ∷ [])))) e
    ∙ (ap (λ x. has_line p (split_lines x)) (append_assoc t (newline ∷ []) (p ++ newline ∷ []))
        ∙ (ap (has_line p) (split_lines-append t (p ++ newline ∷ []))
            ∙ (ap (λ x. has_line p (split_lines t ++ x)) (line-split_lines p one)
                ∙ has_line-append p (split_lines t) ([] ∷ []))))

add_to_git_exclude-known :
    (s p : Bytes) → has_line p (split_lines s) ≡ true → add_to_git_exclude s p ≡ s
unfolding add_to_git_exclude
add_to_git_exclude-known s p h = rw (add_to_git_exclude, h)

add_to_git_exclude-new :
    (s p : Bytes)
    → has_line p (split_lines s) ≡ false
    → add_to_git_exclude s p ≡ s ++ (p ++ newline ∷ [])
unfolding add_to_git_exclude
add_to_git_exclude-new s p h = rw (add_to_git_exclude, h)

is_line :
    (existing pattern : Bytes)
    → IsOneLine pattern
    → IsEnded existing
    → has_line pattern (split_lines (add_to_git_exclude existing pattern)) ≡ true
is_line existing pattern one ended =
    let lines = λ (x : Bytes). has_line pattern (split_lines x) in
    elim (Bool-cases (has_line pattern (split_lines existing))) [
      | inl found ↦ ap lines (add_to_git_exclude-known existing pattern found) ∙ found
      | inr not_found ↦
          ap lines (add_to_git_exclude-new existing pattern not_found)
          ∙ appended pattern existing one ended
    ]

-- After AddToGitExclude of a pattern without a newline to an exclude file that is empty or ends
-- with a newline, the pattern is a line of the file, and a second call with the same pattern
-- changes nothing.
pub add_to_git_exclude-added :
    (existing pattern : Bytes)
    → IsOneLine pattern
    → IsEnded existing
    → (has_line pattern (split_lines (add_to_git_exclude existing pattern)) ≡ true)
      × (add_to_git_exclude (add_to_git_exclude existing pattern) pattern
          ≡ add_to_git_exclude existing pattern)
add_to_git_exclude-added existing pattern one ended =
    let added = is_line existing pattern one ended in
    (added, add_to_git_exclude-known (add_to_git_exclude existing pattern) pattern added)
