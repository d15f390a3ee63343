-- ===== src/VirtualFs.antt =====
-- 9passthrough/virtualfs.go: the types, the host calls and the helpers that all operations share.
-- The host answers by the record `Os`, from the calls made so far; a log lists them, the last first.
pub mod Lookup
pub mod Mutate
pub mod Handles
pub mod Guarded
pub mod Walks
pub mod Directory
pub mod Pages
pub mod Xattrs
mod Tests
use Prim.Native.Nat.{bit_xor}
use mathlib.Core.List.{foldl}
use homura.Bytes.{Bytes}
use homura.Prelude.{
  ℕ, ◌*◌, ◌%◌, ◌^◌, Bool, true, false, List, [], ◌∷◌, Option, none, some, if◌then◌else◌,
}
use homura.Registry.{
  PathRegistry, PathVisibility, exposed, virtual_ancestor, not_visible, check_path, is_read_only,
}

-- The errors that the code makes itself, and those of the host by number.
pub data Errno : Type 0 where
  enoent eperm erofs einval ebadf eopnotsupp : Errno
  host_error : ℕ → Errno

pub data Result (A : Type 0) : Type 0 where
  ok : A → Result A
  err : Errno → Result A

-- os.FileInfo with its Stat_t; `mode` is p9.ModeFromOS of its mode.
pub record FileInfo : Type 0 where
  pub is_dir : Bool
  pub is_symlink : Bool
  pub mode : ℕ
  pub size : ℕ
  pub ino : ℕ
  pub uid : ℕ
  pub gid : ℕ
  pub nlink : ℕ
  pub rdev : ℕ
  pub atime : ℕ × ℕ
  pub mtime : ℕ × ℕ
  pub ctime : ℕ × ℕ
  pub blksize : ℕ
  pub blocks : ℕ

-- A file handle is a number; a missing owner is -1 in the call. The calls for extended attributes
-- have the length of the buffer, 0 to ask for the length.
pub data OsCall : Type 0 where
  lstat readlink statfs remove : Bytes → OsCall
  open_file : Bytes → ℕ → ℕ → OsCall
  truncate chmod mkdir : Bytes → ℕ → OsCall
  chown lchown : Bytes → Option ℕ → Option ℕ → OsCall
  chtimes : Bytes → ℕ × ℕ → ℕ × ℕ → OsCall
  symlink link rename : Bytes → Bytes → OsCall
  mknod : Bytes → ℕ → ℕ → OsCall
  setxattr : Bytes → Bytes → Bytes → ℕ → OsCall
  removexattr : Bytes → Bytes → OsCall
  getxattr : Bytes → Bytes → ℕ → OsCall
  listxattr : Bytes → ℕ → OsCall
  fchown : ℕ → Option ℕ → Option ℕ → OsCall
  fstat sync read_dir close_file : ℕ → OsCall
  pread : ℕ → ℕ → ℕ → OsCall
  pwrite : ℕ → Bytes → ℕ → OsCall

abbrev pub Log : Type 0
Log = List OsCall

-- p9.FSStat
pub record FsStat : Type 0 where
  pub type : ℕ
  pub block_size : ℕ
  pub blocks : ℕ
  pub blocks_free : ℕ
  pub blocks_available : ℕ
  pub files : ℕ
  pub files_free : ℕ
  pub name_length : ℕ

-- What the host answers to a call after the calls of the log, by the kind of the answer, and the
-- constant p9.ModeDirectory.
pub record Os : Type 0 where
  pub done : Log → OsCall → Result (Unit {0})
  pub info : Log → OsCall → Result FileInfo
  pub handle : Log → OsCall → Result ℕ
  pub bytes : Log → OsCall → Result Bytes
  pub entries : Log → OsCall → Result (List (Bytes × FileInfo))
  pub fs_stat : Log → OsCall → Result FsStat
  pub mode_directory : ℕ

abbrev pub M : Type 0 → Type 0
M A = Log → Result A × Log

abbrev pub and_then : {A B : Type 0} → Result A × Log → (A → M B) → Result B × Log
and_then (ok a, log) f = f a log
and_then (err e, log) f = (err e, log)

infixl 5 ◌>>=◌ ◌>>◌
abbrev pub ◌>>=◌ : {A B : Type 0} → M A → (A → M B) → M B
◌>>=◌ m f log = and_then (m log) f

abbrev pub ◌>>◌ : {B : Type 0} → M (Unit {0}) → M B → M B
m >> k = m >>= λ _. k

abbrev pub pure : {A : Type 0} → A → M A
pure a log = (ok a, log)

abbrev pub fail : {A : Type 0} → Errno → M A
fail e log = (err e, log)

-- A call, by the field of the host that answers it.
abbrev pub ask : {A : Type 0} → (Log → OsCall → Result A) → OsCall → M A
ask answer c log = (answer log c, c ∷ log)

abbrev pub when : Bool → M (Unit {0}) → M (Unit {0})
when true m = m
when false m = pure tt

-- A call whose failure is only logged.
abbrev pub attempt : M (Unit {0}) → M (Unit {0})
attempt m log = (ok tt, (m log).1)

pub record QidType : Type 0 where
  pub dir : Bool
  pub symlink : Bool

pub record Qid : Type 0 where
  pub type : QidType
  pub path : ℕ
  pub version : ℕ

-- `real_file` is the handle of an opened file.
pub record VirtualFile : Type 0 where
  pub path : Bytes
  pub real_file : Option ℕ
  pub opened_read_only : Bool

-- fnv.New64a over a text.
unfoldable pub fnv64a : Bytes → ℕ
fnv64a s = foldl (λ h b. bit_xor h b * 1099511628211 % 2 ^ 64) 14695981039346656037 s

-- virtualDirQID
unfoldable pub virtual_dir_qid : Bytes → Qid
virtual_dir_qid path = record {
  type = record { dir = true; symlink = false };
  path = fnv64a path;
  version = 0;
}

-- qidType
unfoldable pub qid_type : FileInfo → QidType
qid_type i = record { dir = i.is_dir; symlink = i.is_symlink }

-- fileInfoToQID, where Sys() is a Stat_t, as on Linux
unfoldable pub file_info_to_qid : FileInfo → Qid
unfolding qid_type
file_info_to_qid i = record { type = qid_type i; path = i.ino; version = i.mtime.0 % 2 ^ 32 }

-- The check in front of every change: the path is exposed, or the operation fails with the first
-- error, and it is not read-only.
unfoldable pub guard_writable : PathRegistry → Errno → Bytes → M (Unit {0})
guard_writable pr e path = elim (check_path pr path) [
  | exposed ↦ if is_read_only pr path then fail erofs else pure tt
  | _ ↦ fail e
]

-- The check of the operations that only read.
unfoldable pub guard_exposed : PathRegistry → Errno → Bytes → M (Unit {0})
guard_exposed pr e path = elim (check_path pr path) [ exposed ↦ pure tt | _ ↦ fail e ]
