-- ===== src/Commands/Places.antt =====
-- The directory that a command on a branch is about.
use homura.Bytes.{Bytes}
use homura.Commands.Target.{
  Site, TargetError, or_fail, load_state, repo_root, existing_copy, default_copy, at_cwd,
  work_dir_of, resolve_vm_work_dir,
}
use homura.Git.{Stat, missing, failed, file, directory, get_copy_path}
use homura.Outcome.{Outcome, ok, err, panic, ◌>>=◌}
use homura.Prelude.{
  ℕ, ◌≡◌, ◌≢◌, refl, sym, ap, ◌∙◌, true, false, Option, none, some, [], ◌∷◌, if◌then◌else◌,
  Bool-cases, inl, inr, ◌⊎◌,
}

pub bind-ok :
    {E A B : Type 0} (m : Outcome E A) (f : A → Outcome E B) (b : B)
    → (m >>= f) ≡ ok b
    → (a : A) × (m ≡ ok a) × (f a ≡ ok b)
bind-ok (ok a) f b h = (a, refl, h)
bind-ok (err e) f b h = absurd (cc)
bind-ok panic f b h = absurd (cc)

pub or_fail-ok :
    {A : Type 0} (e : TargetError) (o : Option A) (a : A) → or_fail e o ≡ ok a → o ≡ some a
or_fail-ok e none a h = absurd (cc)
or_fail-ok e (some b) a h = cc

-- The copy of a branch: of the one given, or else of the repository's default branch.
pub record IsCopyOf (s : Site) (branch dir : Bytes) : Type 0 where
  pub cwd : Bytes
  pub root : Bytes
  pub name : Bytes
  pub at : s.cwd ≡ some cwd
  pub in_repo : repo_root s cwd ≡ some root
  pub copy : dir ≡ get_copy_path root name
  pub exists : s.stat dir ≢ missing
  pub named : (branch ≡ name) ⊎ ((branch ≡ []) × (load_state s root ≡ some name))
  pub not_empty : name ≢ []

-- The directory that a command on a branch is about.
abbrev pub IsPlaceOf : Site → Bytes → Bytes → Type 0
IsPlaceOf s branch dir =
    ((s.here ≡ true) × (branch ≡ []) × (s.cwd ≡ some dir))
    ⊎ ((s.here ≡ false) × IsCopyOf s branch dir)

cons-ne-nil : (c : ℕ) (s : Bytes) → (c ∷ s) ≢ []
cons-ne-nil c s e = cc

abbrev Same : Outcome TargetError (Bytes × Bytes) → Outcome TargetError (Bytes × Bytes) → Type 0
Same r r' = r ≡ r'

existing_copy-ok :
    (s : Site) (root branch dir name : Bytes)
    → existing_copy s root branch ≡ ok (dir, name)
    → (dir ≡ get_copy_path root branch) × (s.stat dir ≢ missing) × (branch ≡ name)
unfolding existing_copy
existing_copy-ok s root branch dir name h = found (s.stat (get_copy_path root branch)) refl h
  where
    there :
        (x : Stat)
        → s.stat (get_copy_path root branch) ≡ x
        → x ≢ missing
        → Same (ok (get_copy_path root branch, branch)) (ok (dir, name))
        → (dir ≡ get_copy_path root branch) × (s.stat dir ≢ missing) × (branch ≡ name)
    there x e other h' =
        let same : get_copy_path root branch ≡ dir = cc in
        (sym same, λ gone. other (sym e ∙ ap s.stat same ∙ gone), cc)

    found :
        (x : Stat)
        → s.stat (get_copy_path root branch) ≡ x
        → Same
            (elim x [
              | missing ↦ err TargetError.no_copy
              | _ ↦ ok (get_copy_path root branch, branch)
            ])
            (ok (dir, name))
        → (dir ≡ get_copy_path root branch) × (s.stat dir ≢ missing) × (branch ≡ name)
    found missing e h' = absurd (cc)
    found failed e h' = there failed e (λ x. cc) h'
    found file e h' = there file e (λ x. cc) h'
    found directory e h' = there directory e (λ x. cc) h'

named-IsCopyOf :
    (s : Site) (cwd : Bytes) (c : ℕ) (branch dir name : Bytes)
    → s.cwd ≡ some cwd
    → work_dir_of s cwd (c ∷ branch) true ≡ ok (dir, name)
    → IsCopyOf s (c ∷ branch) dir
unfolding work_dir_of
named-IsCopyOf s cwd c branch dir name at h =
    let (root, in_repo, h') =
      bind-ok (or_fail TargetError.not_a_repo (repo_root s cwd)) _ (dir, name) h in
    let (copy, there, same) = existing_copy-ok s root (c ∷ branch) dir name h' in
    record {
      cwd = cwd;
      root = root;
      name = c ∷ branch;
      at = at;
      in_repo = or_fail-ok TargetError.not_a_repo (repo_root s cwd) root in_repo;
      copy = copy;
      exists = there;
      named = inl refl;
      not_empty = cons-ne-nil c branch;
    }

default_copy-ok :
    (s : Site) (root branch dir name : Bytes)
    → default_copy s root branch ≡ ok (dir, name)
    → (existing_copy s root branch ≡ ok (dir, name)) × (branch ≢ [])
unfolding default_copy
default_copy-ok s root [] dir name h = absurd (cc)
default_copy-ok s root (c ∷ branch) dir name h = (h, cons-ne-nil c branch)

default-IsCopyOf :
    (s : Site) (cwd dir name : Bytes)
    → s.cwd ≡ some cwd
    → work_dir_of s cwd [] true ≡ ok (dir, name)
    → IsCopyOf s [] dir
unfolding work_dir_of
default-IsCopyOf s cwd dir name at h =
    let (root, in_repo, h') =
      bind-ok (or_fail TargetError.not_a_repo (repo_root s cwd)) _ (dir, name) h in
    let (branch, loaded, h'') =
      bind-ok (or_fail TargetError.no_state (load_state s root)) _ (dir, name) h' in
    let (found, not_empty) = default_copy-ok s root branch dir name h'' in
    let (copy, there, same) = existing_copy-ok s root branch dir name found in
    record {
      cwd = cwd;
      root = root;
      name = branch;
      at = at;
      in_repo = or_fail-ok TargetError.not_a_repo (repo_root s cwd) root in_repo;
      copy = copy;
      exists = there;
      named = inr (refl, or_fail-ok TargetError.no_state (load_state s root) branch loaded);
      not_empty = not_empty;
    }

at_cwd-ok :
    (cwd branch dir name : Bytes) → at_cwd cwd branch ≡ ok (dir, name) → (branch ≡ []) × (cwd ≡ dir)
at_cwd-ok cwd [] dir name h = (refl, cc)
at_cwd-ok cwd (c ∷ branch) dir name h = absurd (cc)

required-IsCopyOf :
    (s : Site) (cwd branch dir name : Bytes)
    → s.cwd ≡ some cwd
    → work_dir_of s cwd branch true ≡ ok (dir, name)
    → IsCopyOf s branch dir
required-IsCopyOf s cwd [] dir name at h = default-IsCopyOf s cwd dir name at h
required-IsCopyOf s cwd (c ∷ branch) dir name at h = named-IsCopyOf s cwd c branch dir name at h

pub resolve_vm_work_dir-IsPlaceOf :
    (s : Site) (branch dir name : Bytes)
    → resolve_vm_work_dir s branch true ≡ ok (dir, name)
    → IsPlaceOf s branch dir
unfolding resolve_vm_work_dir
resolve_vm_work_dir-IsPlaceOf s branch dir name h =
    let (cwd, at, h') = bind-ok (or_fail TargetError.no_cwd s.cwd) _ (dir, name) h in
    let at' = or_fail-ok TargetError.no_cwd s.cwd cwd at in
    elim (Bool-cases s.here) [
      | inl here ↦
          let h'' : at_cwd cwd branch ≡ ok (dir, name) =
            sym (ap (λ b. if b then at_cwd cwd branch else work_dir_of s cwd branch true) here)
            ∙ h' in
          let (empty, same) = at_cwd-ok cwd branch dir name h'' in
          inl (here, empty, at' ∙ ap some same)
      | inr not_here ↦
          let h'' : work_dir_of s cwd branch true ≡ ok (dir, name) =
            sym (ap (λ b. if b then at_cwd cwd branch else work_dir_of s cwd branch true) not_here)
            ∙ h' in
          inr (not_here, required-IsCopyOf s cwd branch dir name at' h'')
    ]
