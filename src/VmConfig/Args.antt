-- ===== src/VmConfig/Args.antt =====
-- A path that the VM manager passes to 9passthrough, and what that makes of it.
use homura.Bytes.{Bytes, bytes_dec, codes}
use homura.Prelude.{
  ◌+◌, ◌-◌, ◌≡◌, ◌≤◌, ◌↔◌, sym, ap, ◌∙◌, true, false, ◌++◌, leb, length, take, drop, length-append,
  length-take, drop-length-append, take-length-append, arith, Bool-cases, inl, inr, ◌⊎◌, if_pos,
}
use homura.VmConfig.{PathSpec, has_suffix, trim_suffix, parse_path_arg, format_path_arg}

true-ne-false : true ≡ false → ⊥
true-ne-false e = cc

ends_at : (p q : Bytes) → length (p ++ q) - length q ≡ length p
ends_at p q = omega (arith, length-append p q)

has_suffix-append : (p q : Bytes) → has_suffix (p ++ q) q ≡ true
unfolding has_suffix
has_suffix-append p q =
    let long : leb (length q) (length (p ++ q)) ≡ true = ground (arith, length-append p q) in
    let end : drop (length (p ++ q) - length q) (p ++ q) ≡ q =
      ap (λ n. drop n (p ++ q)) (ends_at p q) ∙ drop-length-append p q in
    rw (has_suffix, long, if_pos (bytes_dec (drop (length (p ++ q) - length q) (p ++ q)) q) end)

trim_suffix-append : (p q : Bytes) → trim_suffix (p ++ q) q ≡ p
unfolding trim_suffix
trim_suffix-append p q =
    rw (trim_suffix, has_suffix-append p q)
      (ap (λ n. take n (p ++ q)) (ends_at p q) ∙ take-length-append p q)

suffix_fits : (s q : Bytes) → has_suffix s q ≡ true → length q ≤ length s
unfolding has_suffix
suffix_fits s q h = elim (Bool-cases (leb (length q) (length s))) [
  | inl long ↦ ground (arith, long)
  | inr short ↦ absurd (true-ne-false (sym (rw short at h)))
]

-- What has a suffix is longer than what is left of it.
length-trim_suffix :
    (s q : Bytes) → has_suffix s q ≡ true → length (trim_suffix s q) + length q ≡ length s
unfolding trim_suffix
length-trim_suffix s q h =
    let fits = suffix_fits s q h in
    rw (trim_suffix, h) (omega (arith, length-take (length s - length q) s))

-- A path that keeps its meaning as an argument.
abbrev pub IsPlain : PathSpec → Type 0
IsPlain s =
    (s.read_only ≡ true)
    ⊎ ((has_suffix s.path (codes ":ro") ≡ false) × (has_suffix s.path (codes ":rw") ≡ false))

-- The same of a path that can be written.
plain_arg :
    (path : Bytes)
    → (parse_path_arg path ≡ (path, false)) ↔ (
        (false ≡ true)
        ⊎ ((has_suffix path (codes ":ro") ≡ false) × (has_suffix path (codes ":rw") ≡ false)))
unfolding parse_path_arg
plain_arg path = elim (Bool-cases (has_suffix path (codes ":ro"))) [
  | inl ro ↦ (
    (λ h. absurd (true-ne-false (ap (λ x. x.1) (rw (parse_path_arg, ro) at h)))),
    elim [ inl e ↦ absurd (true-ne-false (sym e)) | inr e ↦ absurd (true-ne-false (sym ro ∙ e.0)) ],
  )
  | inr not_ro ↦ elim (Bool-cases (has_suffix path (codes ":rw"))) [
    | inl rw_suffix ↦ (
      (λ h.
          let same = ap (λ x. length x.0) (rw (parse_path_arg, not_ro, rw_suffix) at h) in
          let shorter = length-trim_suffix path (codes ":rw") rw_suffix in
          absurd (omega (arith, same, shorter))),
      elim [
        | inl e ↦ absurd (true-ne-false (sym e))
        | inr e ↦ absurd (true-ne-false (sym rw_suffix ∙ e.1))
      ],
    )
    | inr not_rw ↦ ((λ h. inr (not_ro, not_rw)), (λ h. rw (parse_path_arg, not_ro, not_rw)))
  ]
]

-- What 9passthrough's parsePathSpec makes of the argument that FormatPathArg writes is the path
-- and the mode meant just where the mode is read-only, or the path ends neither in ":ro" nor in
-- ":rw".
pub parse_path_arg-format_path_arg :
    (s : PathSpec) → (parse_path_arg (format_path_arg s) ≡ (s.path, s.read_only)) ↔ IsPlain s
unfolding parse_path_arg format_path_arg
parse_path_arg-format_path_arg s = elim (Bool-cases s.read_only) [
  | inl ro ↦ (
    (λ h. inl ro),
    (λ h. rw (ro, has_suffix-append s.path (codes ":ro"), trim_suffix-append s.path (codes ":ro"))),
  )
  | inr rw_mode ↦ rw rw_mode (plain_arg s.path)
]
