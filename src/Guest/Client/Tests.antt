-- ===== src/Guest/Client/Tests.antt =====
-- Runs of the guest's client, and the theorems at them.
use homura.Bytes.{Bytes, codes}
use homura.Guest.Client.Handles.{Op, by_method, by_walk, by_open, by_create, by_close_fid, by_close}
use homura.Guest.Client.Listed.{Lists, read_dir-all_entries}
use homura.Guest.Client.Listing.{page_size, read_dir}
use homura.Guest.Client.Names.{parse_path, parts, byte_string, trim_slash, flags_to_p9_create}
use homura.Guest.Client.Owned.Calls.{m_mkdir, m_rename}
use homura.Guest.Client.Parsed.{parse_path-names, recoded}
use homura.Guest.Client.{Call, readdir, read_only, read_write, Remote, ok, new_client}
use homura.Paths.{slash, join}
use homura.Prelude.{arith, ◌≡◌, refl, true, false, List, [], ◌∷◌, map, take}
use homura.VirtualFs.Directory.{Dirent, page}
use homura.VirtualFs.Lookup.{file_info_to_attr}
use homura.VirtualFs.Pages.{all_entries}
use homura.VirtualFs.{FileInfo, file_info_to_qid}

program : Unit {0}
unfolding parse_path parts byte_string trim_slash flags_to_p9_create
program = tt

paths :
    (parse_path (codes "/a//bc/") ≡ codes "a" ∷ codes "bc" ∷ [])
    × (parse_path (codes "/") ≡ [])
    × (parse_path (codes "xab") ≡ codes "ab" ∷ [])
unfolding program
paths = (refl, refl, refl)

-- The two bytes of an e with an acute accent become four.
accent : parse_path (slash ∷ 195 ∷ 169 ∷ []) ≡ (195 ∷ 131 ∷ 194 ∷ 169 ∷ []) ∷ []
unfolding program
accent = refl

flags : (flags_to_p9_create 0 ≡ read_write) × (flags_to_p9_create 64 ≡ read_only)
unfolding program
flags = (refl, refl)

parse_path-names_example :
    parse_path (slash ∷ join (codes "a" ∷ (195 ∷ 169 ∷ []) ∷ []))
    ≡ map recoded (codes "a" ∷ (195 ∷ 169 ∷ []) ∷ [])
parse_path-names_example = parse_path-names (codes "a" ∷ (195 ∷ 169 ∷ []) ∷ []) (
  λ e. cc,
  (λ e. omega (arith, e), tt),
  (λ e. cc, (λ e. omega (arith, e), (λ e. omega (arith, e), tt)), tt),
)

abbrev regular : FileInfo
regular = record {
  is_dir = false;
  is_symlink = false;
  mode = 0o100644;
  size = 10;
  ino = 7;
  uid = 1;
  gid = 1;
  nlink = 1;
  rdev = 0;
  atime = (5, 0);
  mtime = (6, 0);
  ctime = (6, 0);
  blksize = 4096;
  blocks = 8;
}

-- A server that accepts everything and serves two files, one at a time.
abbrev two : List (Bytes × FileInfo)
two = (codes "x", regular) ∷ (codes "y", regular) ∷ []

abbrev served : List Call → List Dirent
served (readdir h offset count ∷ calls) = take 1 (page offset page_size 0 0 two)
served calls = []

abbrev remote : Remote
remote = record {
  accepts = λ calls. true;
  qid = λ calls. file_info_to_qid regular;
  attr = λ calls. file_info_to_attr regular;
  entries = served;
  content = λ calls. [];
  written = λ calls. 0;
  stat = λ calls. record {
    type = 1;
    block_size = 4096;
    blocks = 9;
    blocks_free = 8;
    blocks_available = 7;
    files = 6;
    files_free = 5;
    name_length = 255;
  };
  now = λ calls. 0;
  permissions = λ mode. mode;
}

two-Lists : Lists remote (codes "/d") two
two-Lists = record {
  extra = λ calls. 0;
  walks = λ calls. refl;
  opens = λ h calls. refl;
  reads = λ h offset calls. refl;
  serves = λ h offset calls. refl;
}

read_dir-all_entries_example :
    (read_dir remote 3 (codes "/d") new_client).0 ≡ ok (all_entries 0 two)
read_dir-all_entries_example = read_dir-all_entries remote (codes "/d") two two-Lists new_client

-- A file is created and opened again, a directory is walked to, one of the files is closed, a
-- directory is made and moved, and the client is closed: the file walked to is still open.
abbrev ops : List Op
ops =
    by_create (codes "/a/x") 420 0
    ∷ by_open (codes "/a/x") read_only
    ∷ by_walk (codes "/a")
    ∷ by_method (m_mkdir (codes "/b") 493)
    ∷ by_close_fid 1
    ∷ by_method (m_rename (codes "/b") (codes "/c"))
    ∷ by_close
    ∷ []
