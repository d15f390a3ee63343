-- ===== src/VmConfig/Dedupe.antt =====
-- What dedupeAllowPaths keeps of the allowed paths.
use homura.Bytes.{Bytes, bytes_dec}
use homura.Paths.{clean}
use homura.Prelude.{
  ◌≡◌, ◌≢◌, refl, sym, ap, ◌∙◌, true, false, List, [], ◌∷◌, map, if_pos, if_neg, Bool-cases, inl,
  inr, ◌⊎◌, Has,
}
use homura.VmConfig.{known, cleaned_path, dedupe_each, dedupe_allow_paths, auto_expose_paths}

-- No two of the paths are alike when cleaned.
abbrev pub Distinct : List Bytes → Type 0
Distinct [] = Unit {0}
Distinct (p ∷ paths) =
    ((q : Bytes) → Has paths q → cleaned_path q ≢ cleaned_path p) × Distinct paths

pub record IsDeduped (auto seen paths out : List Bytes) : Type 0 where
  -- What is kept was given, and is neither among the automatic paths nor seen before.
  pub given : (p : Bytes) → Has out p → Has paths p
  pub not_auto : (p : Bytes) → Has out p → known (cleaned_path p) auto ≡ false
  pub not_seen : (p : Bytes) → Has out p → known (cleaned_path p) seen ≡ false
  -- What was given is one of these, or the like of it is kept.
  pub kept :
      (p : Bytes)
      → Has paths p
      → (known (cleaned_path p) auto ≡ true)
        ⊎ (known (cleaned_path p) seen ≡ true)
        ⊎ ((q : Bytes) × Has out q × (cleaned_path q ≡ cleaned_path p))
  pub distinct : Distinct out

true-ne-false : true ≡ false → ⊥
true-ne-false e = cc

known-here : (p : Bytes) (seen : List Bytes) → known p (p ∷ seen) ≡ true
unfolding known
known-here p seen = if_pos (bytes_dec p p) refl true (known p seen)

known-there : (p q : Bytes) (seen : List Bytes) → known p seen ≡ true → known p (q ∷ seen) ≡ true
unfolding known
known-there p q seen h = elim (bytes_dec p q) [
  | yes e ↦ if_pos (bytes_dec p q) e true (known p seen)
  | no ne ↦ if_neg (bytes_dec p q) ne true (known p seen) ∙ h
]

known-rest : (p q : Bytes) (seen : List Bytes) → known p (q ∷ seen) ≡ false → known p seen ≡ false
known-rest p q seen h = elim (Bool-cases (known p seen)) [
  | inl e ↦ absurd (true-ne-false (sym (known-there p q seen e) ∙ h))
  | inr e ↦ e
]

known-ne : (p q : Bytes) (seen : List Bytes) → known p (q ∷ seen) ≡ false → p ≢ q
known-ne p q seen h e =
    absurd (true-ne-false (sym (ap (λ x. known x (q ∷ seen)) e ∙ known-here q seen) ∙ h))

-- The like of a path, among those seen.
known-cons :
    (p q : Bytes) (seen : List Bytes) → known p (q ∷ seen) ≡ true → (p ≡ q) ⊎ (known p seen ≡ true)
unfolding known
known-cons p q seen h = elim (bytes_dec p q) [
  | yes e ↦ inl e
  | no ne ↦ inr (sym (if_neg (bytes_dec p q) ne true (known p seen)) ∙ h)
]

module _ (auto : List Bytes) where
  IsDeduped-skip :
      (seen paths out : List Bytes) (p : Bytes)
      → (known (cleaned_path p) auto ≡ true) ⊎ (known (cleaned_path p) seen ≡ true)
      → IsDeduped auto seen paths out
      → IsDeduped auto seen (p ∷ paths) out
  IsDeduped-skip seen paths out p why h = record {
    given = λ q has. inr (h.given q has);
    not_auto = h.not_auto;
    not_seen = h.not_seen;
    kept = λ q. elim [
      | inl same ↦ elim why [ inl a ↦ inl (rw (← same) a) | inr s ↦ inr (inl (rw (← same) s)) ]
      | inr has ↦ h.kept q has
    ];
    distinct = h.distinct;
  }

  IsDeduped-keep :
      (seen paths out : List Bytes) (p : Bytes)
      → known (cleaned_path p) auto ≡ false
      → known (cleaned_path p) seen ≡ false
      → IsDeduped auto (cleaned_path p ∷ seen) paths out
      → IsDeduped auto seen (p ∷ paths) (p ∷ out)
  IsDeduped-keep seen paths out p a s h = record {
    given = λ q. elim [ inl same ↦ inl same | inr has ↦ inr (h.given q has) ];
    not_auto = λ q. elim [ inl same ↦ rw (← same) a | inr has ↦ h.not_auto q has ];
    not_seen = λ q. elim [
      | inl same ↦ rw (← same) s
      | inr has ↦ known-rest (cleaned_path q) (cleaned_path p) seen (h.not_seen q has)
    ];
    kept = λ q. elim [
      | inl same ↦ inr (inr (p, inl refl, ap cleaned_path same))
      | inr has ↦ elim (h.kept q has) [
        | inl e ↦ inl e
        | inr (inl e) ↦ elim (known-cons (cleaned_path q) (cleaned_path p) seen e) [
          | inl same ↦ inr (inr (p, inl refl, sym same))
          | inr e' ↦ inr (inl e')
        ]
        | inr (inr (r, has', same)) ↦ inr (inr (r, inr has', same))
      ]
    ];
    distinct =
        (λ q has. known-ne (cleaned_path q) (cleaned_path p) seen (h.not_seen q has), h.distinct);
  }

  dedupe_each-IsDeduped :
      (seen paths : List Bytes) → IsDeduped auto seen paths (dedupe_each auto seen paths)
  unfolding dedupe_each
  dedupe_each-IsDeduped seen [] = record {
    given = λ p has. has;
    not_auto = λ p has. absurd has;
    not_seen = λ p has. absurd has;
    kept = λ p has. absurd has;
    distinct = tt;
  }
  dedupe_each-IsDeduped seen (p ∷ paths) = elim (Bool-cases (known (cleaned_path p) auto)) [
    | inl a ↦
        rw (dedupe_each, a)
          (IsDeduped-skip seen paths _ p (inl a) (dedupe_each-IsDeduped seen paths))
    | inr a ↦ elim (Bool-cases (known (cleaned_path p) seen)) [
      | inl s ↦
          rw (dedupe_each, a, s)
            (IsDeduped-skip seen paths _ p (inr s) (dedupe_each-IsDeduped seen paths))
      | inr s ↦
          rw (dedupe_each, a, s)
            (IsDeduped-keep seen paths _ p a s
              (dedupe_each-IsDeduped (cleaned_path p ∷ seen) paths))
    ]
  ]

-- The cleaned paths of autoExposePaths.
abbrev pub auto_paths : Bytes → List Bytes
auto_paths home = map clean (auto_expose_paths home)

-- What dedupeAllowPaths keeps was given and is, cleaned, none of the four paths of
-- autoExposePaths, no two of the paths kept are alike when cleaned, and each path given is,
-- cleaned, one of these four or like one that is kept; whether NewVM shares the four is not a
-- part of this.
pub dedupe_allow_paths-IsDeduped :
    (paths : List Bytes) (home : Bytes)
    → IsDeduped (auto_paths home) (auto_paths home) paths (dedupe_allow_paths paths home)
unfolding dedupe_allow_paths
dedupe_allow_paths-IsDeduped paths home =
    dedupe_each-IsDeduped (auto_paths home) (auto_paths home) paths
