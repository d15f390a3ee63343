-- ===== src/Git.antt =====
-- internal/git/git.go: where the copy of a branch stands, what `git worktree list --porcelain` says, and
-- the exclude file of a worktree. What git and the file system answer are arguments.
pub mod Exclude
mod Tests
use mathlib.Core.List.{reverse}
use homura.Bytes.{Bytes, bytes_dec, codes}
use homura.Paths.{clean, extend, join_paths, slash, dot}
use homura.Prelude.{
  ℕ, Bool, true, false, ◌&&◌, Option, none, some, List, [], ◌∷◌, ◌++◌, ◌==◌, if◌then◌else◌, ite,
  leb, length, take, drop,
}

-- GetHomuraDir
unfoldable pub get_homura_dir : Bytes → Bytes
unfolding join_paths
get_homura_dir root = join_paths root (codes ".homura")

-- BranchDirName
unfoldable pub branch_dir_name : Bytes → Bytes
branch_dir_name [] = []
branch_dir_name (c ∷ s) = (if c == slash then dot else c) ∷ branch_dir_name s

-- GetCopyPath
unfoldable pub get_copy_path : Bytes → Bytes → Bytes
unfolding get_homura_dir branch_dir_name join_paths
get_copy_path root branch = join_paths (get_homura_dir root) (branch_dir_name branch)

abbrev pub newline : ℕ
newline = 10

-- strings.Split at newlines
unfoldable pub split_lines : Bytes → List Bytes
unfolding extend
split_lines [] = [] ∷ []
split_lines (c ∷ s) = let rest = split_lines s in if c == newline then [] ∷ rest else extend c rest

pub record Worktree : Type 0 where
  pub path : Bytes
  pub branch : Bytes

unfoldable pub starts_with : Bytes → Bytes → Bool
unfolding bytes_dec
starts_with prefix s =
    leb (length prefix) (length s) && ite (bytes_dec (take (length prefix) s) prefix) true false

-- strings.TrimPrefix
unfoldable pub trim_prefix : Bytes → Bytes → Bytes
unfolding starts_with
trim_prefix s prefix = if starts_with prefix s then drop (length prefix) s else s

-- The text in front of the last place where a segment that is not empty stands.
unfoldable pub before_last : Bytes → Bytes → Option Bytes
unfolding starts_with
before_last segment [] = none
before_last segment (c ∷ s) = elim (before_last segment s) [
  | some before ↦ some (c ∷ before)
  | none ↦ if starts_with segment (c ∷ s) then some [] else none
]

-- What os.Stat says of a path.
pub data Stat : Type 0 where
  missing failed file directory : Stat

abbrev pub is_directory : Stat → Bool
is_directory directory = true
is_directory _ = false

module _ (stat : Bytes → Stat) where
  -- IsGitRepo
  unfoldable pub is_git_repo : Bytes → Bool
  unfolding join_paths
  is_git_repo path = is_directory (stat (join_paths path (codes ".git")))

  -- resolveHomuraParent
  unfoldable pub resolve_homura_parent : Bytes → Option Bytes
  unfolding clean before_last is_git_repo
  resolve_homura_parent root = elim (before_last (codes "/.homura/") (clean root)) [
    | none ↦ none
    | some parent ↦ if is_git_repo parent then some parent else none
  ]

  -- GetRepoRoot, by what `git rev-parse --show-toplevel` prints, less the white space around it
  unfoldable pub get_repo_root : Option Bytes → Option Bytes
  unfolding resolve_homura_parent
  get_repo_root none = none
  get_repo_root (some top) = elim (resolve_homura_parent top) [
    | none ↦ some top
    | some parent ↦ some parent
  ]

-- The loop of WorktreeList; the latest worktree is in front.
unfoldable pub add_line : List Worktree → Bytes → List Worktree
unfolding starts_with trim_prefix
add_line [] line =
    if starts_with (codes "worktree ") line
    then record { path = trim_prefix line (codes "worktree "); branch = [] } ∷ []
    else []
add_line (w ∷ trees) line =
    if starts_with (codes "worktree ") line
    then record { path = trim_prefix line (codes "worktree "); branch = [] } ∷ w ∷ trees
    else if starts_with (codes "branch ") line
    then record w {
      branch = trim_prefix (trim_prefix line (codes "branch ")) (codes "refs/heads/");
    }
      ∷ trees
    else w ∷ trees

unfoldable pub add_lines : List Worktree → List Bytes → List Worktree
unfolding add_line
add_lines trees [] = trees
add_lines trees (line ∷ lines) = add_lines (add_line trees line) lines

-- WorktreeList, by what git prints
unfoldable pub worktree_list : Bytes → List Worktree
unfolding add_lines split_lines
worktree_list output = reverse (add_lines [] (split_lines output))

unfoldable pub has_line : Bytes → List Bytes → Bool
unfolding bytes_dec
has_line pattern [] = false
has_line pattern (line ∷ lines) = ite (bytes_dec line pattern) true (has_line pattern lines)

-- The exclude file after AddToGitExclude has read it and written to it.
unfoldable pub add_to_git_exclude : Bytes → Bytes → Bytes
unfolding has_line split_lines
add_to_git_exclude existing pattern =
    if has_line pattern (split_lines existing)
    then existing
    else existing ++ (pattern ++ newline ∷ [])
