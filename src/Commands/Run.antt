-- ===== src/Commands/Run.antt =====
-- internal/commands/vm_run.go: the command line for the shell of the guest, and how `homura vm run`
-- takes its own arguments apart.
use homura.Bytes.{Bytes, bytes_dec, codes}
use homura.Prelude.{
  ℕ, Option, none, some, List, [], ◌∷◌, ◌++◌, ◌==◌, if◌then◌else◌, ite, ltb, length, map,
}

abbrev pub single_quote : ℕ
single_quote = b'\''

abbrev pub backslash : ℕ
backslash = b'\\'

-- strings.ReplaceAll of the quotes in shellQuote
unfoldable pub escape_quotes : Bytes → Bytes
escape_quotes [] = []
escape_quotes (c ∷ s) =
    let rest = escape_quotes s in
    if c == single_quote
    then single_quote ∷ backslash ∷ single_quote ∷ single_quote ∷ rest
    else c ∷ rest

-- shellQuote
unfoldable pub shell_quote : Bytes → Bytes
unfolding escape_quotes
shell_quote s = single_quote ∷ (escape_quotes s ++ single_quote ∷ [])

-- strings.Join of the words with spaces
unfoldable pub join_words : List Bytes → Bytes
join_words [] = []
join_words (w ∷ []) = w
join_words (w ∷ v ∷ words) = w ++ (b' ' ∷ join_words (v ∷ words))

-- buildRemoteCmd
unfoldable pub build_remote_cmd : Bytes → List Bytes → Bytes
unfolding shell_quote join_words
build_remote_cmd work_dir [] = codes "cd " ++ shell_quote (codes "/mnt/host" ++ work_dir)
build_remote_cmd work_dir (c ∷ command) =
    codes "cd "
    ++ (shell_quote (codes "/mnt/host" ++ work_dir)
        ++ (codes " && " ++ join_words (map shell_quote (c ∷ command))))

-- What stands behind the first "--".
unfoldable pub after_separator : List Bytes → Option (List Bytes)
unfolding bytes_dec
after_separator [] = none
after_separator (a ∷ args) = ite (bytes_dec a (codes "--")) (some args) (after_separator args)

-- The branch in front of the command, if there are more arguments than the command's.
unfoldable pub branch_of : List Bytes → List Bytes → Bytes
branch_of [] command = []
branch_of (a ∷ args) command = if ltb (length command) (length (a ∷ args)) then a else []

-- splitRunArgs, by what cobra passes and by the program's arguments
unfoldable pub split_run_args : List Bytes → List Bytes → Bytes × List Bytes
unfolding after_separator branch_of
split_run_args args program_args = elim (after_separator program_args) [
  | none ↦ ([], args)
  | some command ↦ (branch_of args command, command)
]
