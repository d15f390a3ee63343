-- ===== src/VirtualFs/Handles.antt =====
-- The operations of VirtualFile on opened files, and Open itself, with the file that it leaves.
use homura.Bytes.{Bytes}
use homura.Prelude.{ℕ, Bool, not, ◌&&◌, none, some, if◌then◌else◌}
use homura.Registry.{PathRegistry, exposed, virtual_ancestor, not_visible, check_path, is_read_only}
use homura.VirtualFs.{
  enoent, eperm, erofs, ebadf, Result, ok, FileInfo, lstat, open_file, sync, close_file, pread,
  pwrite, Log, Os, M, ◌>>=◌, pure, fail, ask, Qid, VirtualFile, virtual_dir_qid, file_info_to_qid,
}
use homura.VirtualFs.Mutate.{OpenMode}

module _ (os : Os) (pr : PathRegistry) where
  -- The part of Open for a regular file.
  unfoldable pub open_real : VirtualFile → OpenMode → Bool → FileInfo → M (VirtualFile × Qid × ℕ)
  open_real vf mode read_only info = do
    f ← ask os.handle (open_file vf.path mode.os_flags 0)
    pure (
      record vf { real_file = some f; opened_read_only = read_only },
      file_info_to_qid info,
      65536,
    )

  -- The part of Open for an exposed path.
  unfoldable pub open_exposed : VirtualFile → OpenMode → M (VirtualFile × Qid × ℕ)
  unfolding open_real
  open_exposed vf mode = do
    info ← ask os.info (lstat vf.path)
    let read_only = is_read_only pr vf.path
    if read_only && not mode.read_only
        then fail erofs
        else if info.is_dir
        then pure (vf, file_info_to_qid info, 8192)
        else open_real vf mode read_only info

  -- Open: the file as it is afterwards, its QID and the I/O unit.
  unfoldable pub open_file_at : VirtualFile → OpenMode → M (VirtualFile × Qid × ℕ)
  unfolding open_exposed
  open_file_at vf mode = elim (check_path pr vf.path) [
    | not_visible ↦ fail enoent
    | exposed ↦ open_exposed vf mode
    | virtual_ancestor ↦
        if not mode.read_only then fail eperm else pure (vf, virtual_dir_qid vf.path, 8192)
  ]

  -- ReadAt
  unfoldable pub read_at : VirtualFile → ℕ → ℕ → M Bytes
  read_at vf count offset = elim vf.real_file [
    | none ↦ fail ebadf
    | some f ↦ ask os.bytes (pread f count offset)
  ]

  -- WriteAt; the host answers with the number of bytes.
  unfoldable pub write_at : VirtualFile → Bytes → ℕ → M ℕ
  write_at vf content offset = elim vf.real_file [
    | none ↦ fail ebadf
    | some f ↦ if vf.opened_read_only then fail erofs else ask os.handle (pwrite f content offset)
  ]

  -- FSync
  unfoldable pub fsync : VirtualFile → M (Unit {0})
  fsync vf = elim vf.real_file [ none ↦ pure tt | some f ↦ ask os.done (sync f) ]

  -- Close: the handle is gone, whatever the host answers.
  unfoldable pub close : VirtualFile → Log → VirtualFile × (Result (Unit {0}) × Log)
  close vf log = elim vf.real_file [
    | none ↦ (vf, (ok tt, log))
    | some f ↦ (record vf { real_file = none }, ask os.done (close_file f) log)
  ]
