-- ===== src/Git/Tests.antt =====
-- Copies of branches, worktrees and exclude files, and a theorem on one of these.
use homura.Bytes.{bytes_dec, codes}
use homura.Git.Exclude.{add_to_git_exclude-added}
use homura.Git.{
  get_homura_dir, get_copy_path, branch_dir_name, starts_with, trim_prefix, add_line, add_lines,
  worktree_list, split_lines, has_line, add_to_git_exclude,
}
use homura.Paths.{extend, join_paths, clean}
use homura.Prelude.{◌≡◌, refl, true, false, [], ◌∷◌, ◌++◌, inl}

program : Unit {0}
unfolding get_homura_dir get_copy_path branch_dir_name starts_with trim_prefix add_line add_lines
    worktree_list split_lines has_line add_to_git_exclude extend join_paths clean bytes_dec
program = tt

-- Two branches with one directory.
copies :
    (get_copy_path (codes "/r") (codes "feat/x") ≡ codes "/r/.homura/feat.x")
    × (get_copy_path (codes "/r") (codes "feat.x") ≡ codes "/r/.homura/feat.x")
unfolding program
copies = (refl, refl)

trees :
    worktree_list (
      codes "worktree /r"
      ++ 10 ∷ codes "HEAD 1"
      ++ 10 ∷ codes "branch refs/heads/main"
      ++ 10 ∷ 10 ∷ codes "worktree /s"
      ++ 10 ∷ [])
    ≡ (record { path = codes "/r"; branch = codes "main" }
        ∷ record { path = codes "/s"; branch = [] }
        ∷ [])
unfolding program
trees = refl

-- A file whose last line is not ended swallows the pattern.
swallowed :
    (add_to_git_exclude (codes "a") (codes "b") ≡ codes "ab" ++ 10 ∷ [])
    × (has_line (codes "b") (split_lines (codes "ab" ++ 10 ∷ [])) ≡ false)
unfolding program
swallowed = (refl, refl)

add_to_git_exclude-added_example :
    (has_line (codes "b") (split_lines (add_to_git_exclude [] (codes "b"))) ≡ true)
    × (add_to_git_exclude (add_to_git_exclude [] (codes "b")) (codes "b")
        ≡ add_to_git_exclude [] (codes "b"))
unfolding program
add_to_git_exclude-added_example = add_to_git_exclude-added [] (codes "b") refl (inl refl)
