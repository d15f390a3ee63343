-- ===== src/VirtualFs/Guarded.antt =====
-- No operation that changes files makes a host call on a path that is not exposed for writing.
use homura.Bytes.{Bytes}
use homura.Prelude.{
  ℕ, ◌≡◌, ◌≢◌, refl, true, false, Option, none, some, arith, Bool-cases, inl, inr, ◌⊎◌,
}
use homura.Registry.{
  PathRegistry, PathVisibility, exposed, virtual_ancestor, not_visible, check_path, is_read_only,
}
use homura.VirtualFs.{
  Errno, eperm, erofs, ebadf, eopnotsupp, ok, err, Log, Os, M, and_then, Qid, VirtualFile,
  guard_writable, guard_exposed,
}
use homura.VirtualFs.Handles.{open_file_at, open_exposed, open_real, write_at}
use homura.VirtualFs.Mutate.{
  SetAttrMask, SetAttr, OpenMode, set_attr, create, make_dir, make_symlink, make_link, make_node,
  rename_to, rename_at, unlink_at, set_xattr, remove_xattr,
}

-- A request of the guest that changes files, on the file `vf`.
pub data Change : Type 0 where
  change_attr : SetAttrMask → SetAttr → Change
  change_create : Bytes → OpenMode → ℕ → Option ℕ → Option ℕ → Change
  change_mkdir : Bytes → ℕ → Option ℕ → Option ℕ → Change
  change_symlink : Bytes → Bytes → Option ℕ → Option ℕ → Change
  change_link : Option VirtualFile → Bytes → Change
  change_mknod : Bytes → ℕ → ℕ → ℕ → Option ℕ → Option ℕ → Change
  change_rename : Option VirtualFile → Bytes → Change
  change_rename_at : Bytes → Option VirtualFile → Bytes → Change
  change_unlink : Bytes → Change
  change_set_xattr : Bytes → Bytes → ℕ → Change
  change_remove_xattr : Bytes → Change

module _ (os : Os) (pr : PathRegistry) where
  -- The host calls that a request leaves in the log.
  unfoldable pub calls : VirtualFile → Change → Log → Log
  calls vf (change_attr valid attr) log = (set_attr os pr vf valid attr log).1
  calls vf (change_create name mode perm uid gid) log =
      (create os pr vf name mode perm uid gid log).1
  calls vf (change_mkdir name perm uid gid) log = (make_dir os pr vf name perm uid gid log).1
  calls vf (change_symlink old new uid gid) log = (make_symlink os pr vf old new uid gid log).1
  calls vf (change_link target new) log = (make_link os pr vf target new log).1
  calls vf (change_mknod name mode major minor uid gid) log =
      (make_node os pr vf name mode major minor uid gid log).1
  calls vf (change_rename dir new) log = (rename_to os pr vf dir new log).1
  calls vf (change_rename_at old dir new) log = (rename_at os pr vf old dir new log).1
  calls vf (change_unlink name) log = (unlink_at os pr vf name log).1
  calls vf (change_set_xattr name value flags) log = (set_xattr os pr vf name value flags log).1
  calls vf (change_remove_xattr name) log = (remove_xattr os pr vf name log).1

-- A path that is exposed and not read-only.
pub record IsWritable (pr : PathRegistry) (path : Bytes) : Type 0 where
  pub visible : check_path pr path ≡ exposed
  pub not_read_only : is_read_only pr path ≡ false

-- The second file of a request: a directory that takes a renamed file has to be writable, a file
-- that is linked to has to be exposed.
abbrev pub AllowsSecond : PathRegistry → Change → Type 0
AllowsSecond pr (change_link none new) = ⊥
AllowsSecond pr (change_link (some target) new) = check_path pr target.path ≡ exposed
AllowsSecond pr (change_rename none new) = ⊥
AllowsSecond pr (change_rename (some dir) new) = IsWritable pr dir.path
AllowsSecond pr (change_rename_at old none new) = ⊥
AllowsSecond pr (change_rename_at old (some dir) new) = IsWritable pr dir.path
AllowsSecond pr other = Unit {0}

guard_writable-cases :
    (pr : PathRegistry) (e : Errno) (path : Bytes) (log : Log)
    → (IsWritable pr path × (guard_writable pr e path log ≡ (ok tt, log)))
      ⊎ ((e' : Errno) × (guard_writable pr e path log ≡ (err e', log)))
unfolding guard_writable
guard_writable-cases pr e path log = go (check_path pr path) refl
  where
    go :
        (v : PathVisibility)
        → check_path pr path ≡ v
        → (IsWritable pr path × (guard_writable pr e path log ≡ (ok tt, log)))
          ⊎ ((e' : Errno) × (guard_writable pr e path log ≡ (err e', log)))
    go not_visible s = inr (e, ground arith)
    go virtual_ancestor s = inr (e, ground arith)
    go exposed s = elim (Bool-cases (is_read_only pr path)) [
      | inl ro ↦ inr (erofs, ground arith)
      | inr rw' ↦ inl (record { visible = s; not_read_only = rw' }, ground arith)
    ]

-- A check that leaves a call behind has passed.
guarded_then :
    {A : Type 0} (pr : PathRegistry) (e : Errno) (path : Bytes) (k : Unit {0} → M A) (log : Log)
    → (and_then (guard_writable pr e path log) k).1 ≢ log
    → IsWritable pr path × ((k tt log).1 ≢ log)
guarded_then pr e path k log h = elim (guard_writable-cases pr e path log) [
  | inl (w, passed) ↦ (w, rw passed at h)
  | inr (e', failed) ↦ absurd ((rw failed at h) refl)
]

guard_exposed_then :
    {A : Type 0} (pr : PathRegistry) (e : Errno) (path : Bytes) (k : Unit {0} → M A) (log : Log)
    → (and_then (guard_exposed pr e path log) k).1 ≢ log
    → check_path pr path ≡ exposed
unfolding guard_exposed
guard_exposed_then pr e path k log h = go (check_path pr path) refl
  where
    go : (v : PathVisibility) → check_path pr path ≡ v → check_path pr path ≡ exposed
    go exposed s = s
    go not_visible s = absurd ((rw (s, guard_exposed) at h) refl)
    go virtual_ancestor s = absurd ((rw (s, guard_exposed) at h) refl)

module _ (os : Os) (pr : PathRegistry) (vf : VirtualFile) (log : Log) where
  -- For every answer of the host: where one of the operations SetAttr, Create, Mkdir, Symlink,
  -- Link, Mknod, Rename, RenameAt, UnlinkAt, SetXattr and RemoveXattr makes a host call at all,
  -- the path of its file is exposed and not read-only, the directory that takes a renamed file
  -- is so too, and a file that is linked to is exposed.
  pub calls-guarded :
      (c : Change) → calls os pr vf c log ≢ log → IsWritable pr vf.path × AllowsSecond pr c
  unfolding calls set_attr create make_dir make_symlink make_link make_node rename_to rename_at
      unlink_at set_xattr remove_xattr
  calls-guarded (change_attr valid attr) h = ((guarded_then pr eperm vf.path _ log h).0, tt)
  calls-guarded (change_create name mode perm uid gid) h =
      ((guarded_then pr eperm vf.path _ log h).0, tt)
  calls-guarded (change_mkdir name perm uid gid) h = ((guarded_then pr eperm vf.path _ log h).0, tt)
  calls-guarded (change_symlink old new uid gid) h = ((guarded_then pr eperm vf.path _ log h).0, tt)
  calls-guarded (change_link none new) h = absurd ((guarded_then pr eperm vf.path _ log h).1 refl)
  calls-guarded (change_link (some target) new) h =
      let (w, h') = guarded_then pr eperm vf.path _ log h in
      (w, guard_exposed_then pr eperm target.path _ log h')
  calls-guarded (change_mknod name mode major minor uid gid) h =
      ((guarded_then pr eperm vf.path _ log h).0, tt)
  calls-guarded (change_rename none new) h = absurd ((guarded_then pr eperm vf.path _ log h).1 refl)
  calls-guarded (change_rename (some dir) new) h =
      let (w, h') = guarded_then pr eperm vf.path _ log h in
      (w, (guarded_then pr eperm dir.path _ log h').0)
  calls-guarded (change_rename_at old none new) h =
      absurd ((guarded_then pr eperm vf.path _ log h).1 refl)
  calls-guarded (change_rename_at old (some dir) new) h =
      let (w, h') = guarded_then pr eperm vf.path _ log h in
      (w, (guarded_then pr eperm dir.path _ log h').0)
  calls-guarded (change_unlink name) h = ((guarded_then pr eperm vf.path _ log h).0, tt)
  calls-guarded (change_set_xattr name value flags) h =
      ((guarded_then pr eopnotsupp vf.path _ log h).0, tt)
  calls-guarded (change_remove_xattr name) h = ((guarded_then pr eopnotsupp vf.path _ log h).0, tt)

module _ (os : Os) (pr : PathRegistry) (vf vf' : VirtualFile) (mode : OpenMode) (log log' : Log)
    (qid : Qid) (iounit : ℕ) where
  -- Where Open of a file without a handle succeeds on a read-only path, it was asked for reading
  -- only, and WriteAt on the file that it leaves fails with EBADF or EROFS and makes no host
  -- call.
  pub write_at-open :
      (content : Bytes) (offset : ℕ) (late : Log)
      → open_file_at os pr vf mode log ≡ (ok (vf', qid, iounit), log')
      → vf.real_file ≡ none
      → is_read_only pr vf.path ≡ true
      → (mode.read_only ≡ true)
        × ((write_at os pr vf' content offset late ≡ (err ebadf, late))
            ⊎ (write_at os pr vf' content offset late ≡ (err erofs, late)))
  unfolding open_file_at open_exposed open_real write_at
  write_at-open content offset late opened closed ro = ground arith
