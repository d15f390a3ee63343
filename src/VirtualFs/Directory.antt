-- ===== src/VirtualFs/Directory.antt =====
-- The operations of VirtualFile that list things, Readdir, StatFS, GetXattr and ListXattrs, and the
-- small ones, Lock and Renamed.
use homura.Bytes.{Bytes}
use homura.Paths.{join_paths}
use homura.Prelude.{
  ℕ, zero, suc, Bool, true, false, List, [], ◌∷◌, ◌++◌, Option, none, some, ltb, leb, ◌&&◌,
}
use homura.Registry.{
  PathRegistry, exposed, virtual_ancestor, not_visible, check_path, get_exposed_children,
}
use homura.VirtualFs.{
  enoent, eopnotsupp, ok, err, FileInfo, FsStat, lstat, statfs, open_file, read_dir, close_file,
  getxattr, listxattr, Log, Os, M, and_then, ◌>>=◌, ◌>>◌, pure, ask, QidType, Qid, VirtualFile,
  qid_type, file_info_to_qid, virtual_dir_qid, guard_exposed,
}

-- p9.Dirent
pub record Dirent : Type 0 where
  pub qid : Qid
  pub type : QidType
  pub name : Bytes
  pub offset : ℕ

abbrev pub dir_type : QidType
dir_type = record { dir = true; symlink = false }

-- The entry of a file at the index `i`.
abbrev pub entry_of : ℕ → Bytes × FileInfo → Dirent
entry_of i (name, info) = record {
  qid = file_info_to_qid info;
  type = qid_type info;
  name = name;
  offset = suc i;
}

-- Whether the page has all the entries asked for.
unfoldable pub is_full : ℕ → ℕ → Bool
is_full count made = ltb 0 count && leb count made

-- Readdir's loop over the files of an exposed directory, from the index `i`, with `made` entries.
unfoldable pub page : ℕ → ℕ → ℕ → ℕ → List (Bytes × FileInfo) → List Dirent
unfolding is_full
page offset count i made [] = []
page offset count i made (e ∷ es) = elim (ltb i offset) [
  | true ↦ page offset count (suc i) made es
  | false ↦ elim (is_full count made) [
    | true ↦ []
    | false ↦ entry_of i e ∷ page offset count (suc i) (suc made) es
  ]
]

-- The bytes of a buffer of that size after the host has put some there.
unfoldable pub fill : ℕ → Bytes → Bytes
fill zero content = []
fill (suc n) [] = 0 ∷ fill n []
fill (suc n) (b ∷ content) = b ∷ fill n content

-- The next names of ListXattrs at a byte, with the name that it ends, if any.
unfoldable pub end_name : ℕ → Bytes → List Bytes → List Bytes
end_name zero [] rest = rest
end_name zero (c ∷ name) rest = (c ∷ name) ∷ rest
end_name (suc b) name rest = rest

-- The loop of ListXattrs, with the bytes from `start` to the index.
unfoldable pub parse_names : Bytes → Bytes → List Bytes
unfolding end_name
parse_names name [] = []
parse_names name (zero ∷ buf) = end_name 0 name (parse_names [] buf)
parse_names name (suc b ∷ buf) = parse_names (name ++ (suc b ∷ [])) buf

module _ (os : Os) (pr : PathRegistry) where
  -- The entry of a child of a virtual directory; `none` where the host cannot stat it.
  unfoldable pub child_entry : ℕ → Bytes → Bytes → Log → Option Dirent × Log
  child_entry i path name log = elim (check_path pr path) [
    | exposed ↦ elim (os.info log (lstat path)) [
      | err e ↦ (none, lstat path ∷ log)
      | ok info ↦ (some (entry_of i (name, info)), lstat path ∷ log)
    ]
    | _ ↦ (
      some (record { qid = virtual_dir_qid path; type = dir_type; name = name; offset = suc i }),
      log,
    )
  ]

  -- Readdir's loop over the children of a virtual directory.
  unfoldable pub virtual_page : Bytes → ℕ → ℕ → ℕ → ℕ → List Bytes → Log → List Dirent × Log
  unfolding is_full child_entry
  virtual_page path offset count i made [] log = ([], log)
  virtual_page path offset count i made (name ∷ names) log = elim (ltb i offset) [
    | true ↦ virtual_page path offset count (suc i) made names log
    | false ↦ elim (is_full count made) [
      | true ↦ ([], log)
      | false ↦
          let (entry, l) = child_entry i (join_paths path name) name log in
          elim entry [
            | none ↦ virtual_page path offset count (suc i) made names l
            | some d ↦
                let (ds, l') = virtual_page path offset count (suc i) (suc made) names l in
                (d ∷ ds, l')
          ]
    ]
  ]

  -- Readdir of an exposed directory, once it is open; the file is closed at the end.
  unfoldable pub read_entries : ℕ → ℕ → ℕ → M (List Dirent)
  unfolding page
  read_entries f offset count log = elim (os.entries log (read_dir f)) [
    | err e ↦ (err e, close_file f ∷ read_dir f ∷ log)
    | ok es ↦ (ok (page offset count 0 0 es), close_file f ∷ read_dir f ∷ log)
  ]

  -- Readdir
  unfoldable pub readdir : VirtualFile → ℕ → ℕ → M (List Dirent)
  unfolding read_entries virtual_page
  readdir vf offset count log = elim (check_path pr vf.path) [
    | not_visible ↦ (err enoent, log)
    | exposed ↦
        and_then (ask os.handle (open_file vf.path 0 0) log) (λ f. read_entries f offset count)
    | virtual_ancestor ↦
        let (ds, l) = virtual_page vf.path offset count 0 0 (get_exposed_children pr vf.path) log in
        (ok ds, l)
  ]

  -- StatFS; a virtual directory, and a path that is not visible, gets made up numbers.
  unfoldable pub stat_fs : VirtualFile → M FsStat
  stat_fs vf = elim (check_path pr vf.path) [
    | exposed ↦ ask os.fs_stat (statfs vf.path)
    | _ ↦ pure (record {
      type = 0x01021997;
      block_size = 4096;
      blocks = 1000000;
      blocks_free = 1000000;
      blocks_available = 1000000;
      files = 1000;
      files_free = 1000;
      name_length = 255;
    })
  ]

  -- GetXattr: the host is asked for the length first, then for the value.
  unfoldable pub get_xattr : VirtualFile → Bytes → M Bytes
  unfolding fill
  get_xattr vf name = do
    guard_exposed pr eopnotsupp vf.path
    size ← ask os.handle (getxattr vf.path name 0)
    content ← ask os.bytes (getxattr vf.path name size)
    pure (fill size content)

  -- ListXattrs after its length is known.
  unfoldable pub names_of : Bytes → ℕ → M (List Bytes)
  unfolding fill parse_names
  names_of path zero = pure []
  names_of path (suc n) = do
    content ← ask os.bytes (listxattr path (suc n))
    pure (parse_names [] (fill (suc n) content))

  -- ListXattrs
  unfoldable pub list_xattrs : VirtualFile → M (List Bytes)
  unfolding names_of
  list_xattrs vf = do
    guard_exposed pr eopnotsupp vf.path
    size ← ask os.handle (listxattr vf.path 0)
    names_of vf.path size

-- Lock: every lock is granted.
unfoldable pub lock : VirtualFile → M (Unit {0})
lock vf = pure tt

-- Renamed: the file of a renamed path; `none` for a directory that is no VirtualFile.
unfoldable pub renamed : VirtualFile → Option VirtualFile → Bytes → VirtualFile
renamed vf none name = vf
renamed vf (some dir) name = record vf { path = join_paths dir.path name }
