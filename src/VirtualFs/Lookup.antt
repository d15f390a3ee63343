-- ===== src/VirtualFs/Lookup.antt =====
-- The operations of VirtualFile that look files up: Attach, Walk, GetAttr, WalkGetAttr, Readlink.
use Prim.Native.Nat.{bit_or}
use homura.Bytes.{Bytes, bytes_dec}
use homura.Paths.{dir, join_paths, dot, dot_dot, slash}
use homura.Prelude.{ℕ, false, List, [], ◌∷◌, none, ite}
use homura.Registry.{PathRegistry, exposed, virtual_ancestor, not_visible, check_path}
use homura.VirtualFs.{
  enoent, eperm, FileInfo, lstat, readlink, Os, M, ◌>>=◌, ◌>>◌, pure, fail, ask, Qid, VirtualFile,
  virtual_dir_qid, file_info_to_qid, guard_exposed,
}

-- Attach
abbrev pub attach : VirtualFile
attach = record { path = slash ∷ []; real_file = none; opened_read_only = false }

-- The path after one name of a Walk.
unfoldable pub walk_name : Bytes → Bytes → Bytes
walk_name path name =
    ite (bytes_dec name dot_dot) (dir path)
      (ite (bytes_dec name (dot ∷ [])) path (join_paths path name))

pub record Attr : Type 0 where
  pub mode : ℕ
  pub uid : ℕ
  pub gid : ℕ
  pub nlink : ℕ
  pub rdev : ℕ
  pub size : ℕ
  pub block_size : ℕ
  pub blocks : ℕ
  pub atime : ℕ × ℕ
  pub mtime : ℕ × ℕ
  pub ctime : ℕ × ℕ

-- fileInfoToAttr
unfoldable pub file_info_to_attr : FileInfo → Attr
file_info_to_attr i = record {
  mode = i.mode;
  uid = i.uid;
  gid = i.gid;
  nlink = i.nlink;
  rdev = i.rdev;
  size = i.size;
  block_size = i.blksize;
  blocks = i.blocks;
  atime = i.atime;
  mtime = i.mtime;
  ctime = i.ctime;
}

module _ (os : Os) (pr : PathRegistry) where
  -- The QID of a path that a Walk comes to.
  unfoldable pub visible_qid : Bytes → M Qid
  visible_qid path = elim (check_path pr path) [
    | not_visible ↦ fail enoent
    | exposed ↦ do info ← ask os.info (lstat path); pure (file_info_to_qid info)
    | virtual_ancestor ↦ pure (virtual_dir_qid path)
  ]

  -- The loop of Walk: the QIDs and the last path.
  unfoldable pub walk_from : Bytes → List Bytes → M (List Qid × Bytes)
  unfolding visible_qid walk_name
  walk_from path [] = pure ([], path)
  walk_from path (name ∷ rest) = do
    qid ← visible_qid (walk_name path name)
    (qids, last) ← walk_from (walk_name path name) rest
    pure (qid ∷ qids, last)

  -- Walk
  unfoldable pub walk : VirtualFile → List Bytes → M (List Qid × VirtualFile)
  unfolding walk_from
  walk vf names = do
    (qids, last) ← walk_from vf.path names
    pure (qids, record { path = last; real_file = none; opened_read_only = false })

  -- GetAttr
  unfoldable pub get_attr : VirtualFile → M (Qid × Attr)
  get_attr vf = elim (check_path pr vf.path) [
    | not_visible ↦ fail enoent
    | exposed ↦ do
      info ← ask os.info (lstat vf.path)
      pure (file_info_to_qid info, file_info_to_attr info)
    | virtual_ancestor ↦ pure (
      virtual_dir_qid vf.path,
      record {
        mode = bit_or os.mode_directory 0o755;
        uid = 0;
        gid = 0;
        nlink = 2;
        rdev = 0;
        size = 4096;
        block_size = 0;
        blocks = 0;
        atime = (0, 0);
        mtime = (0, 0);
        ctime = (0, 0);
      },
    )
  ]

  -- WalkGetAttr
  unfoldable pub walk_get_attr : VirtualFile → List Bytes → M (List Qid × VirtualFile × Attr)
  walk_get_attr vf names = do
    (qids, file) ← walk vf names
    (_, attr) ← get_attr file
    pure (qids, file, attr)

  -- Readlink
  unfoldable pub read_link : VirtualFile → M Bytes
  read_link vf = do guard_exposed pr eperm vf.path; ask os.bytes (readlink vf.path)
