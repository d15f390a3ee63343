-- ===== src/Commands/Quoted.antt =====
-- What a POSIX shell reads in the command line of `homura vm run`.
use homura.Bytes.{Bytes, codes}
use homura.Commands.Run.{
  single_quote, backslash, escape_quotes, shell_quote, join_words, build_remote_cmd,
}
use homura.Prelude.{
  ℕ, ◌≤◌, ◌≡◌, ◌≢◌, sym, ap, ◌∙◌, List, [], ◌∷◌, ◌++◌, append_assoc, append-nil, ◌==◌, map,
  Bool-cases, inl, inr, ==→eq, arith,
}

-- A word, or the operator `&&`.
pub data Token : Type 0 where
  word : Bytes → Token
  and_if : Token

-- Where the shell is in its input: between words, in a word, or in a quoted part of one.
pub data Place : Type 0 where
  between : Place
  in_word in_quotes : Bytes → Place

-- How a POSIX shell splits its input (Shell Command Language, 2.2.1, 2.2.2 and 2.3), as far as
-- quotes, blanks, lower-case letters and `&&` go.
pub record IsPosix (read : Place → Bytes → List Token) : Type 0 where
  pub letter :
      (c : ℕ) (s : Bytes) → 97 ≤ c → c ≤ 122 → read between (c ∷ s) ≡ read (in_word (c ∷ [])) s
  pub next_letter :
      (w : Bytes) (c : ℕ) (s : Bytes)
      → 97 ≤ c
      → c ≤ 122
      → read (in_word w) (c ∷ s) ≡ read (in_word (w ++ c ∷ [])) s
  pub opens : (s : Bytes) → read between (single_quote ∷ s) ≡ read (in_quotes []) s
  pub reopens : (w s : Bytes) → read (in_word w) (single_quote ∷ s) ≡ read (in_quotes w) s
  pub literal :
      (w : Bytes) (c : ℕ) (s : Bytes)
      → c ≢ single_quote
      → read (in_quotes w) (c ∷ s) ≡ read (in_quotes (w ++ c ∷ [])) s
  pub closes : (w s : Bytes) → read (in_quotes w) (single_quote ∷ s) ≡ read (in_word w) s
  pub escaped_quote :
      (w s : Bytes)
      → read (in_word w) (backslash ∷ single_quote ∷ s) ≡ read (in_word (w ++ single_quote ∷ [])) s
  pub ends_word : (w s : Bytes) → read (in_word w) (b' ' ∷ s) ≡ word w ∷ read between s
  pub skips_blank : (s : Bytes) → read between (b' ' ∷ s) ≡ read between s
  pub reads_and : (s : Bytes) → read between (b'&' ∷ b'&' ∷ b' ' ∷ s) ≡ and_if ∷ read between s
  pub last_word : (w : Bytes) → read (in_word w) [] ≡ word w ∷ []

-- The words that the remote shell should see.
abbrev pub remote_tokens : Bytes → List Bytes → List Token
remote_tokens work_dir [] = word (codes "cd") ∷ word (codes "/mnt/host" ++ work_dir) ∷ []
remote_tokens work_dir (c ∷ command) =
    word (codes "cd") ∷ word (codes "/mnt/host" ++ work_dir) ∷ and_if ∷ map word (c ∷ command)

module _ (read : Place → Bytes → List Token) (P : IsPosix read) where
  read-escape_quotes :
      (w s t : Bytes) → read (in_quotes w) (escape_quotes s ++ t) ≡ read (in_quotes (w ++ s)) t
  unfolding escape_quotes
  read-escape_quotes w [] t = ap (λ x. read (in_quotes x) t) (sym (append-nil w))
  read-escape_quotes w (c ∷ s) t = elim (Bool-cases (c == single_quote)) [
    | inl quote ↦ rw quote (
        P.closes w (backslash ∷ single_quote ∷ single_quote ∷ (escape_quotes s ++ t))
        ∙ (P.escaped_quote w (single_quote ∷ (escape_quotes s ++ t))
            ∙ (P.reopens (w ++ single_quote ∷ []) (escape_quotes s ++ t)
                ∙ (read-escape_quotes (w ++ single_quote ∷ []) s t
                    ∙ ap (λ x. read (in_quotes x) t)
                        (append_assoc w (single_quote ∷ []) s
                          ∙ ap (λ x. w ++ x ∷ s) (sym (==→eq c single_quote quote)))))))
    | inr other ↦ rw other (
        P.literal w c (escape_quotes s ++ t) (λ e. absurd (ground arith))
        ∙ (read-escape_quotes (w ++ c ∷ []) s t
            ∙ ap (λ x. read (in_quotes x) t) (append_assoc w (c ∷ []) s)))
  ]

  read-shell_quote : (s t : Bytes) → read between (shell_quote s ++ t) ≡ read (in_word s) t
  unfolding shell_quote
  read-shell_quote s t =
      ap (λ x. read between (single_quote ∷ x))
        (append_assoc (escape_quotes s) (single_quote ∷ []) t)
      ∙ (P.opens (escape_quotes s ++ single_quote ∷ t)
          ∙ (read-escape_quotes [] s (single_quote ∷ t) ∙ P.closes s t))

  read-last : (s : Bytes) → read between (shell_quote s) ≡ word s ∷ []
  read-last s =
      ap (read between) (sym (append-nil (shell_quote s))) ∙ (read-shell_quote s [] ∙ P.last_word s)

  read-join_words :
      (c : Bytes) (command : List Bytes)
      → read between (join_words (map shell_quote (c ∷ command))) ≡ map word (c ∷ command)
  unfolding join_words
  read-join_words c [] = read-last c
  read-join_words c (d ∷ command) =
      read-shell_quote c (b' ' ∷ join_words (map shell_quote (d ∷ command)))
      ∙ (P.ends_word c (join_words (map shell_quote (d ∷ command)))
          ∙ ap (λ x. word c ∷ x) (read-join_words d command))

  read-cd : (s : Bytes) → read between (codes "cd " ++ s) ≡ word (codes "cd") ∷ read between s
  read-cd s =
      P.letter b'c' (b'd' ∷ b' ' ∷ s) (omega arith) (omega arith)
      ∙ (P.next_letter (b'c' ∷ []) b'd' (b' ' ∷ s) (omega arith) (omega arith)
          ∙ P.ends_word (codes "cd") s)

  -- In any shell that splits its input as POSIX says, the command line that `homura vm run`
  -- sends is a change to the directory under /mnt/host and, where there is a command, behind
  -- `&&` its words as they were given, whatever bytes these hold.
  pub build_remote_cmd-tokens :
      (work_dir : Bytes) (command : List Bytes)
      → read between (build_remote_cmd work_dir command) ≡ remote_tokens work_dir command
  unfolding build_remote_cmd
  build_remote_cmd-tokens work_dir [] =
      read-cd (shell_quote (codes "/mnt/host" ++ work_dir))
      ∙ ap (λ x. word (codes "cd") ∷ x) (read-last (codes "/mnt/host" ++ work_dir))
  build_remote_cmd-tokens work_dir (c ∷ command) =
      let dir = codes "/mnt/host" ++ work_dir in
      let rest = join_words (map shell_quote (c ∷ command)) in
      read-cd (shell_quote dir ++ (codes " && " ++ rest))
      ∙ ap (λ x. word (codes "cd") ∷ x)
          (read-shell_quote dir (codes " && " ++ rest)
            ∙ (P.ends_word dir (codes "&& " ++ rest)
                ∙ ap (λ x. word dir ∷ x)
                    (P.reads_and rest ∙ ap (λ x. and_if ∷ x) (read-join_words c command))))
