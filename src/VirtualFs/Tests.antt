-- ===== src/VirtualFs/Tests.antt =====
-- Runs of the file system on a small host, and its theorems at concrete inputs.
use homura.Bytes.{Bytes, codes, bytes_dec}
use homura.Paths.{clean, dir, join_paths}
use homura.Prelude.Dict.{get, put, delete}
use homura.Prelude.{
  ◌≡◌, refl, true, false, List, [], ◌∷◌, arith, ℕ_discrete, ◌⊎◌, none, some, length, inl, Has,
}
use homura.Registry.{
  PathRegistry, new_path_registry, flag, add_path, check_path, list_paths, is_read_only,
  get_exposed_children, ancestor_path,
}
use homura.VirtualFs.Guarded.{
  change_rename_at, calls, IsWritable, AllowsSecond, calls-guarded, write_at-open,
}
use homura.VirtualFs.Handles.{open_file_at, write_at}
use homura.VirtualFs.Lookup.{walk_name, walk, attach}
use homura.VirtualFs.Mutate.{OpenMode, rename_at, unlink_at}
use homura.VirtualFs.Directory.{Dirent, entry_of, readdir, list_xattrs}
use homura.VirtualFs.Pages.{readdir-children}
use homura.VirtualFs.Xattrs.{terminated, list_xattrs-terminated}
use homura.VirtualFs.Walks.{WalksVisible, OnlyLooks, walk-visible, walk-OnlyLooks}
use homura.VirtualFs.{
  FileInfo, Os, Qid, VirtualFile, ok, err, enoent, erofs, ebadf, eperm, lstat, open_file, remove,
  virtual_dir_qid, file_info_to_qid, guard_writable, guard_exposed,
}

program : Unit {0}
unfolding add_path check_path is_read_only get_exposed_children list_paths flag ancestor_path
    bytes_dec ℕ_discrete get put delete clean walk open_file_at write_at unlink_at rename_at calls
    guard_writable guard_exposed walk_name virtual_dir_qid file_info_to_qid join_paths dir readdir
program = tt

-- A regular file of ten bytes.
abbrev regular : FileInfo
regular = record {
  is_dir = false;
  is_symlink = false;
  mode = 0o100644;
  size = 10;
  ino = 7;
  uid = 1;
  gid = 1;
  nlink = 1;
  rdev = 0;
  atime = (5, 0);
  mtime = (6, 0);
  ctime = (6, 0);
  blksize = 4096;
  blocks = 8;
}

-- A host where every call succeeds.
abbrev host : Os
host = record {
  done = λ log c. ok tt;
  info = λ log c. ok regular;
  handle = λ log c. ok 3;
  bytes = λ log c. ok [];
  entries = λ log c. ok [];
  fs_stat = λ log c. ok (record {
    type = 1;
    block_size = 4096;
    blocks = 9;
    blocks_free = 8;
    blocks_available = 7;
    files = 6;
    files_free = 5;
    name_length = 255;
  });
  mode_directory = 0x4000;
}

-- "/a/b" read-only, and "/a/b/c" writable below it.
abbrev shared : PathRegistry
shared =
    let first = (add_path (λ p. true) new_path_registry (codes "/a/b") true).0 in
    (add_path (λ p. true) first (codes "/a/b/c") false).0

abbrev at : Bytes → VirtualFile
at p = record { path = p; real_file = none; opened_read_only = false }

abbrev reading : OpenMode
reading = record { read_only = true; os_flags = 0 }

-- The QID that the host's file has everywhere.
abbrev regular_qid : Qid
regular_qid = file_info_to_qid regular

walks :
    (walk host shared attach (codes "etc" ∷ []) [] ≡ (err enoent, []))
    × ((walk host shared attach (codes "a" ∷ codes "b" ∷ codes ".." ∷ []) []).1
        ≡ lstat (codes "/a/b") ∷ [])
unfolding program
walks = (refl, refl)

removals :
    (unlink_at host shared (at (codes "/a/b")) (codes "x") [] ≡ (err erofs, []))
    × (unlink_at host shared (at (codes "/a")) (codes "b") [] ≡ (err eperm, []))
    × (unlink_at host shared (at (codes "/a/b/c")) (codes "x") []
        ≡ (ok tt, remove (codes "/a/b/c/x") ∷ []))
unfolding program
removals = (refl, refl, refl)

calls-guarded_example :
    IsWritable shared (codes "/a/b/c")
    × AllowsSecond shared (change_rename_at (codes "x") (some (at (codes "/a/b/c/d"))) (codes "y"))
unfolding program
calls-guarded_example =
    calls-guarded host shared (at (codes "/a/b/c")) []
      (change_rename_at (codes "x") (some (at (codes "/a/b/c/d"))) (codes "y"))
      (λ same. ground arith)

write_at-open_example :
    (reading.read_only ≡ true)
    × ((write_at host shared
            (record { path = codes "/a/b/x"; real_file = some 3; opened_read_only = true })
            (codes "w")
            0
            []
          ≡ (err ebadf, []))
        ⊎ (write_at host shared
              (record { path = codes "/a/b/x"; real_file = some 3; opened_read_only = true })
              (codes "w")
              0
              []
            ≡ (err erofs, [])))
unfolding program
write_at-open_example =
    write_at-open host shared (at (codes "/a/b/x"))
      (record { path = codes "/a/b/x"; real_file = some 3; opened_read_only = true }) reading []
      (open_file (codes "/a/b/x") 0 0 ∷ lstat (codes "/a/b/x") ∷ []) regular_qid 65536 (codes "w") 0
      [] refl refl refl

walk-visible_example :
    WalksVisible shared (codes "/") (codes "a" ∷ codes "b" ∷ [])
    × ((at (codes "/a/b")).path ≡ codes "/a/b")
    × ((at (codes "/a/b")).real_file ≡ none)
    × (length (virtual_dir_qid (codes "/a") ∷ regular_qid ∷ []) ≡ 2)
unfolding program
walk-visible_example =
    walk-visible host shared attach (at (codes "/a/b")) (codes "a" ∷ codes "b" ∷ []) []
      (lstat (codes "/a/b") ∷ []) (virtual_dir_qid (codes "/a") ∷ regular_qid ∷ []) refl

walk-OnlyLooks_example :
    OnlyLooks shared (walk host shared attach (codes "a" ∷ codes "b" ∷ codes "etc" ∷ []) []).1
walk-OnlyLooks_example =
    walk-OnlyLooks host shared attach (codes "a" ∷ codes "b" ∷ codes "etc" ∷ []) [] tt

-- The entry of "b" in the virtual directory "/a".
abbrev b_entry : Dirent
b_entry = entry_of 0 (codes "b", regular)

readdir-children_example : Has (get_exposed_children shared (codes "/a")) (codes "b")
unfolding program
readdir-children_example =
    readdir-children host shared (at (codes "/a")) 0 0 [] (lstat (codes "/a/b") ∷ []) (b_entry ∷ [])
      b_entry refl refl (inl refl)

-- A host where a file has the attributes "u.a" and "u.b".
abbrev attributes : List Bytes
attributes = codes "u.a" ∷ codes "u.b" ∷ []

abbrev xattr_host : Os
xattr_host = record host { handle = λ log c. ok 8; bytes = λ log c. ok (terminated attributes) }

list_xattrs-terminated_example :
    (list_xattrs xattr_host shared (at (codes "/a/b")) []).0 ≡ ok attributes
unfolding program
list_xattrs-terminated_example =
    list_xattrs-terminated xattr_host shared (at (codes "/a/b")) [] attributes refl
      (
        (λ e. cc),
        ((λ e. cc), ((λ e. cc), ((λ e. cc), tt))),
        ((λ e. cc), ((λ e. cc), ((λ e. cc), ((λ e. cc), tt))), tt),
      )
      refl refl
