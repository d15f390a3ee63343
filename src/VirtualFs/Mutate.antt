-- ===== src/VirtualFs/Mutate.antt =====
-- The operations of VirtualFile that change the host's files. A `p9.File` argument that is no
-- VirtualFile is `none`; NoUID and NoGID are `none`.
use Prim.Native.Nat.{bit_or}
use homura.Bytes.{Bytes}
use homura.Paths.{join_paths}
use homura.Prelude.{ℕ, ◌+◌, ◌*◌, ◌^◌, Bool, true, false, ◌||◌, Option, none, some, ◌∷◌}
use homura.Registry.{PathRegistry}
use homura.VirtualFs.{
  eperm, einval, eopnotsupp, Result, ok, err, FileInfo, lstat, remove, open_file, truncate, chmod,
  mkdir, chown, lchown, chtimes, symlink, link, rename, mknod, setxattr, removexattr, fchown, fstat,
  close_file, Os, M, ◌>>=◌, ◌>>◌, pure, fail, ask, when, attempt, Qid, VirtualFile,
  file_info_to_qid, guard_writable, guard_exposed,
}

pub record SetAttrMask : Type 0 where
  pub size : Bool
  pub permissions : Bool
  pub uid : Bool
  pub gid : Bool
  pub atime : Bool
  pub mtime : Bool

pub record SetAttr : Type 0 where
  pub size : ℕ
  pub permissions : ℕ
  pub uid : ℕ
  pub gid : ℕ
  pub atime : ℕ × ℕ
  pub mtime : ℕ × ℕ

-- p9.OpenFlags: whether it is p9.ReadOnly, and its OSFlags().
pub record OpenMode : Type 0 where
  pub read_only : Bool
  pub os_flags : ℕ

abbrev pub is_some : Option ℕ → Bool
is_some none = false
is_some (some n) = true

abbrev pub if_valid : Bool → ℕ → Option ℕ
if_valid true n = some n
if_valid false n = none

abbrev pub choose : Bool → ℕ × ℕ → ℕ × ℕ → ℕ × ℕ
choose true new old = new
choose false new old = old

-- os.O_CREATE | os.O_EXCL on Linux
abbrev pub create_exclusive : ℕ
create_exclusive = 0xc0

module _ (os : Os) (pr : PathRegistry) where
  -- The times that are not given stay at the old mtime.
  unfoldable pub set_times : Bytes → SetAttrMask → SetAttr → M (Unit {0})
  set_times path valid attr = do
    info ← ask os.info (lstat path)
    ask os.done (
        chtimes path (choose valid.atime attr.atime info.mtime)
          (choose valid.mtime attr.mtime info.mtime))

  -- SetAttr
  unfoldable pub set_attr : VirtualFile → SetAttrMask → SetAttr → M (Unit {0})
  unfolding set_times
  set_attr vf valid attr = do
    guard_writable pr eperm vf.path
    when valid.size (ask os.done (truncate vf.path attr.size))
    when valid.permissions (ask os.done (chmod vf.path attr.permissions))
    when (valid.uid || valid.gid) (
        attempt (
          ask os.done (lchown vf.path (if_valid valid.uid attr.uid) (if_valid valid.gid attr.gid))))
    when (valid.atime || valid.mtime) (set_times vf.path valid attr)

  -- After fstat has failed the new file is closed and removed.
  unfoldable pub created : Bytes → ℕ → Result FileInfo → M (VirtualFile × Qid × ℕ)
  created path f (ok info) = pure (
    record { path = path; real_file = some f; opened_read_only = false },
    file_info_to_qid info,
    65536,
  )
  created path f (err e) = do
    attempt (ask os.done (close_file f))
    attempt (ask os.done (remove path))
    fail e

  -- Create: the new file, its QID and the I/O unit.
  unfoldable pub create :
      VirtualFile → Bytes → OpenMode → ℕ → Option ℕ → Option ℕ → M (VirtualFile × Qid × ℕ)
  unfolding created
  create vf name mode permissions uid gid = do
    guard_writable pr eperm vf.path
    let path = join_paths vf.path name
    f ← ask os.handle (open_file path (bit_or mode.os_flags create_exclusive) permissions)
    when (is_some uid || is_some gid) (attempt (ask os.done (fchown f uid gid)))
    (λ log. created path f (os.info log (fstat f)) (fstat f ∷ log))

  -- The QID of a path that has just been made.
  unfoldable pub qid_of : Bytes → M Qid
  qid_of path = do info ← ask os.info (lstat path); pure (file_info_to_qid info)

  -- Mkdir
  unfoldable pub make_dir : VirtualFile → Bytes → ℕ → Option ℕ → Option ℕ → M Qid
  unfolding qid_of
  make_dir vf name permissions uid gid = do
    guard_writable pr eperm vf.path
    let path = join_paths vf.path name
    ask os.done (mkdir path permissions)
    when (is_some uid || is_some gid) (attempt (ask os.done (chown path uid gid)))
    qid_of path

  -- Symlink
  unfoldable pub make_symlink : VirtualFile → Bytes → Bytes → Option ℕ → Option ℕ → M Qid
  unfolding qid_of
  make_symlink vf oldname newname uid gid = do
    guard_writable pr eperm vf.path
    let path = join_paths vf.path newname
    ask os.done (symlink oldname path)
    when (is_some uid || is_some gid) (attempt (ask os.done (lchown path uid gid)))
    qid_of path

  -- Link
  unfoldable pub make_link : VirtualFile → Option VirtualFile → Bytes → M (Unit {0})
  make_link vf none newname = do guard_writable pr eperm vf.path; fail einval
  make_link vf (some target) newname = do
    guard_writable pr eperm vf.path
    guard_exposed pr eperm target.path
    ask os.done (link target.path (join_paths vf.path newname))

  -- Mknod
  unfoldable pub make_node : VirtualFile → Bytes → ℕ → ℕ → ℕ → Option ℕ → Option ℕ → M Qid
  unfolding qid_of
  make_node vf name mode major minor uid gid = do
    guard_writable pr eperm vf.path
    let path = join_paths vf.path name
    ask os.done (mknod path mode (major * 2 ^ 32 + minor))
    when (is_some uid || is_some gid) (attempt (ask os.done (lchown path uid gid)))
    qid_of path

  -- Rename
  unfoldable pub rename_to : VirtualFile → Option VirtualFile → Bytes → M (Unit {0})
  rename_to vf none newname = do guard_writable pr eperm vf.path; fail einval
  rename_to vf (some dir) newname = do
    guard_writable pr eperm vf.path
    guard_writable pr eperm dir.path
    ask os.done (rename vf.path (join_paths dir.path newname))

  -- RenameAt
  unfoldable pub rename_at : VirtualFile → Bytes → Option VirtualFile → Bytes → M (Unit {0})
  rename_at vf oldname none newname = do guard_writable pr eperm vf.path; fail einval
  rename_at vf oldname (some dir) newname = do
    guard_writable pr eperm vf.path
    guard_writable pr eperm dir.path
    ask os.done (rename (join_paths vf.path oldname) (join_paths dir.path newname))

  -- UnlinkAt
  unfoldable pub unlink_at : VirtualFile → Bytes → M (Unit {0})
  unlink_at vf name = do
    guard_writable pr eperm vf.path
    ask os.done (remove (join_paths vf.path name))

  -- SetXattr
  unfoldable pub set_xattr : VirtualFile → Bytes → Bytes → ℕ → M (Unit {0})
  set_xattr vf name value flags = do
    guard_writable pr eopnotsupp vf.path
    ask os.done (setxattr vf.path name value flags)

  -- RemoveXattr
  unfoldable pub remove_xattr : VirtualFile → Bytes → M (Unit {0})
  remove_xattr vf name = do
    guard_writable pr eopnotsupp vf.path
    ask os.done (removexattr vf.path name)
