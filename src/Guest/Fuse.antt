-- ===== src/Guest/Fuse.antt =====
-- guest/9pfuse/fuse.go: the nodes and the file handles of the FUSE server, over the 9p client. What the
-- library go-fuse is told is the result; the tree of inodes is the library's.
pub mod Nodes
pub mod Changes
pub mod Setattr
pub mod Released
mod Tests
use homura.Bytes.{Bytes, codes}
use homura.Guest.AttrCache.{Attrs}
use homura.Guest.Client.Listing.{child_path, is_dots, read_dir}
use homura.Guest.Client.Ops.{
  forgetting, open_path, create_file, get_attrs, read, write, sync, readlink, stat_fs, make_dir,
  unlink, rename, truncate, chmod, chown, utimens, make_symlink, make_link, close_fid,
}
use homura.Guest.Client.{
  OpenFlags, read_only, write_only, read_write, Remote, Client, Result, ok, err, M, and_then, ◌>>=◌,
  pure,
}
use homura.Prelude.{
  ℕ, ◌+◌, ◌*◌, ◌/◌, ◌%◌, ◌^◌, Bool, true, false, ◌||◌, ◌&&◌, not, List, [], ◌∷◌, Option, none, some,
  length, ◌==◌, if◌then◌else◌,
}
use homura.VirtualFs.Directory.{Dirent}
use homura.VirtualFs.Lookup.{Attr}
use homura.VirtualFs.{FsStat, QidType, Qid}

-- The error numbers that the server answers.
pub data Errno : Type 0 where
  eio enoent : Errno

pub data Reply (A : Type 0) : Type 0 where
  answered : A → Reply A
  refused : Errno → Reply A

-- What the calls of the library p9 say of a mode.
pub record Modes : Type 0 where
  pub is_dir : ℕ → Bool
  pub is_symlink : ℕ → Bool

-- NinePFileHandle
pub record FileHandle : Type 0 where
  pub path : Bytes
  pub fid : ℕ

-- The attributes that the server answers: the mode, the size, and the times of access, change of the
-- content and change of the attributes, which the kernel keeps for no time.
pub record AttrOut : Type 0 where
  pub mode : ℕ
  pub size : ℕ
  pub atime : ℕ × ℕ
  pub mtime : ℕ × ℕ
  pub ctime : ℕ × ℕ

-- fuse.SetAttrIn: which fields are valid, and the fields.
pub record SetAttrIn : Type 0 where
  pub has_size : Bool
  pub has_mode : Bool
  pub has_uid : Bool
  pub has_gid : Bool
  pub has_atime : Bool
  pub has_mtime : Bool
  pub size : ℕ
  pub mode : ℕ
  pub uid : ℕ
  pub gid : ℕ
  pub atime : ℕ × ℕ
  pub mtime : ℕ × ℕ

-- fuse.DirEntry
pub record DirEntry : Type 0 where
  pub name : Bytes
  pub mode : ℕ
  pub ino : ℕ

-- An error of the client, as an error number.
abbrev pub reply : {A : Type 0} → Errno → Result A × Client → Reply A × Client
reply e (ok a, c) = (answered a, c)
reply e (err x, c) = (refused e, c)

-- `|` with a number of one bit.
abbrev pub or_bit : ℕ → ℕ → ℕ
or_bit bit n = if n / bit % 2 == 1 then n else n + bit

abbrev pub s_ifdir : ℕ
s_ifdir = 0x4000

abbrev pub or_symlink : ℕ → ℕ
or_symlink n = or_bit 0x8000 (or_bit 0x2000 n)

-- Whether the flags have O_WRONLY, O_RDWR, O_TRUNC or O_APPEND.
abbrev pub may_write : ℕ → Bool
may_write flags = not (flags % 4 == 0) || (flags / 512 % 2 == 1) || (flags / 1024 % 2 == 1)

-- flagsToP9; the access mode 3 has no case.
unfoldable pub flags_to_p9 : ℕ → OpenFlags
flags_to_p9 flags =
    if flags % 4 == 1 then write_only else if flags % 4 == 2 then read_write else read_only

-- The attributes of an entry that has just been made.
abbrev pub made : ℕ → ℕ → AttrOut
made mode size = record { mode = mode; size = size; atime = (0, 0); mtime = (0, 0); ctime = (0, 0) }

-- A change that is asked for, and whose failure ends Setattr.
abbrev pub must : Bool → M (Unit {0}) → M (Unit {0})
must true m = m
must false m = pure tt

-- A change that is asked for, and whose failure is only logged.
abbrev pub may : Bool → M (Unit {0}) → M (Unit {0})
may true m c = (ok tt, (m c).1)
may false m c = (ok tt, c)
