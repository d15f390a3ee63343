-- ===== src/Guest/Fuse/Nodes.antt =====
-- The methods of the nodes and of the file handles in guest/9pfuse/fuse.go.
use homura.Bytes.{Bytes}
use homura.Guest.AttrCache.{Attrs}
use homura.Guest.Client.Listing.{child_path, is_dots, read_dir}
use homura.Guest.Client.Ops.{
  forgetting, open_path, create_file, get_attrs, read, write, sync, readlink, stat_fs, make_dir,
  unlink, rename, truncate, chmod, chown, utimens, make_symlink, make_link, close_fid,
}
use homura.Guest.Client.{Remote, Client, M, and_then, ◌>>=◌, pure}
use homura.Prelude.{ℕ, ◌%◌, ◌^◌, Bool, false, ◌||◌, ◌&&◌, not, List, [], ◌∷◌, length, if◌then◌else◌}
use homura.VirtualFs.Directory.{Dirent}
use homura.VirtualFs.Lookup.{Attr}
use homura.VirtualFs.{FsStat, QidType}
use homura.Guest.Fuse.{
  AttrOut, DirEntry, FileHandle, Modes, Reply, SetAttrIn, answered, eio, enoent, flags_to_p9, made,
  may, may_write, must, or_bit, or_symlink, reply, s_ifdir,
}

module _ (remote : Remote) (lib : Modes) where
  -- modeToFileMode
  unfoldable pub mode_to_file_mode : ℕ → ℕ
  mode_to_file_mode mode =
      if lib.is_dir mode
      then or_bit s_ifdir (remote.permissions mode)
      else if lib.is_symlink mode
      then or_symlink (remote.permissions mode)
      else or_bit 0x8000 (remote.permissions mode)

  -- fillAttrOut and fillEntryOut
  unfoldable pub attr_out : Attr → AttrOut
  unfolding mode_to_file_mode
  attr_out a = record {
    mode = mode_to_file_mode a.mode;
    size = a.size;
    atime = a.atime;
    mtime = a.mtime;
    ctime = a.ctime;
  }

  abbrev pub out_of : M Attrs → M AttrOut
  out_of m = m >>= λ attrs. pure (attr_out attrs.1)

  -- Lookup
  unfoldable pub lookup : Bytes → Bytes → Client → Reply (Bytes × AttrOut) × Client
  unfolding child_path get_attrs and_then pure attr_out
  lookup path name c =
      let child = child_path path name in
      reply enoent ((get_attrs remote child >>= λ attrs. pure (child, attr_out attrs.1)) c)

  -- Getattr
  unfoldable pub get_attr_out : Bytes → Client → Reply AttrOut × Client
  unfolding get_attrs and_then pure attr_out
  get_attr_out path c = reply eio (out_of (get_attrs remote path) c)

  -- Open; the flag is FOPEN_KEEP_CACHE.
  unfoldable pub open_node : Bytes → ℕ → Client → Reply (FileHandle × Bool) × Client
  unfolding forgetting open_path and_then pure flags_to_p9
  open_node path flags c =
      let forgotten = if may_write flags then path ∷ [] else [] in
      reply eio (
        forgetting forgotten
          (open_path remote path (flags_to_p9 flags) >>= λ opened.
            pure (record { path = path; fid = opened.0 }, not (may_write flags)))
          c)

  -- Readlink
  unfoldable pub read_link_node : Bytes → Client → Reply Bytes × Client
  unfolding readlink
  read_link_node path c = reply eio (readlink remote path c)

  -- Create
  unfoldable pub create_node :
      Bytes → Bytes → ℕ → ℕ → Client → Reply (FileHandle × AttrOut) × Client
  unfolding child_path forgetting create_file and_then pure
  create_node path name flags mode c =
      let child = child_path path name in
      reply eio (
        forgetting (path ∷ [])
          (create_file remote child mode flags >>= λ opened.
            pure (record { path = child; fid = opened.0 }, made mode 0))
          c)

  -- Mkdir
  unfoldable pub mkdir_node : Bytes → Bytes → ℕ → Client → Reply (Bytes × AttrOut) × Client
  unfolding child_path make_dir and_then pure
  mkdir_node path name mode c =
      let child = child_path path name in
      reply eio (
        (make_dir remote child (or_bit s_ifdir mode) >>= λ qid.
        pure (child, made (or_bit s_ifdir mode) 0))
          c)

  -- Unlink and Rmdir
  unfoldable pub unlink_node : Bytes → Bytes → Client → Reply (Unit {0}) × Client
  unfolding child_path forgetting unlink
  unlink_node path name c =
      let child = child_path path name in
      reply eio (forgetting (child ∷ path ∷ []) (unlink remote child) c)

  -- Rename, to a node of this file system
  unfoldable pub rename_node : Bytes → Bytes → Bytes → Bytes → Client → Reply (Unit {0}) × Client
  unfolding child_path rename
  rename_node path name new_parent new_name c =
      reply eio (rename remote (child_path path name) (child_path new_parent new_name) c)

  -- The end of Setattr: both times are sent where one of them is valid, and the attributes are read.
  unfoldable pub set_times : Bytes → SetAttrIn → M AttrOut
  unfolding utimens get_attrs and_then pure attr_out
  set_times path i = may (i.has_mtime || i.has_atime) (utimens remote path i.atime i.mtime) >>= λ _.
      out_of (get_attrs remote path)

  -- From the owners on: both are sent where one of them is valid.
  unfoldable pub set_owners : Bytes → SetAttrIn → M AttrOut
  unfolding chown and_then set_times
  set_owners path i =
      may (i.has_uid || i.has_gid) (chown remote path (false, i.uid) (false, i.gid)) >>= λ _.
      set_times path i

  -- From the mode on.
  unfoldable pub set_mode : Bytes → SetAttrIn → M AttrOut
  unfolding chmod and_then pure set_owners
  set_mode path i = must i.has_mode (chmod remote path i.mode) >>= λ _. set_owners path i

  unfoldable pub set_size : Bytes → SetAttrIn → M AttrOut
  unfolding truncate and_then pure set_mode
  set_size path i = must i.has_size (truncate remote path i.size) >>= λ _. set_mode path i

  -- Setattr
  unfoldable pub set_attr_node : Bytes → SetAttrIn → Client → Reply AttrOut × Client
  unfolding forgetting set_size
  set_attr_node path i c = reply eio (forgetting (path ∷ []) (set_size path i) c)

  -- Symlink
  unfoldable pub symlink_node : Bytes → Bytes → Bytes → Client → Reply (Bytes × AttrOut) × Client
  unfolding child_path make_symlink and_then pure
  symlink_node path target name c =
      let child = child_path path name in
      reply eio (
        (make_symlink remote child target >>= λ qid.
        pure (child, made (or_symlink 0o777) (length target)))
          c)

  -- Link, to a node of this file system
  unfoldable pub link_node : Bytes → Bytes → Bytes → Client → Reply (Bytes × AttrOut) × Client
  unfolding child_path make_link get_attrs and_then pure attr_out
  link_node path target name c =
      let child = child_path path name in
      reply eio (
        (make_link remote child target >>= λ qid.
        get_attrs remote target >>= λ attrs. pure (child, attr_out attrs.1))
          c)

  -- Statfs, with the sizes of 32 bits
  unfoldable pub statfs_node : Bytes → Client → Reply FsStat × Client
  unfolding stat_fs and_then pure
  statfs_node path c = reply eio (
      (stat_fs remote path >>= λ s.
      pure (record s { block_size = s.block_size % 2 ^ 32; name_length = s.name_length % 2 ^ 32 }))
        c)

-- The mode of a directory entry, by its type.
abbrev pub entry_mode : QidType → ℕ
entry_mode t =
    if t.dir && not t.symlink then 0x41ED else if t.symlink && not t.dir then 0xA1FF else 0x81A4

-- The loop of Readdir.
unfoldable pub dir_entries : List Dirent → List DirEntry
unfolding is_dots
dir_entries [] = []
dir_entries (d ∷ ds) =
    let rest = dir_entries ds in
    if is_dots d.name
    then rest
    else record { name = d.name; mode = entry_mode d.type; ino = d.offset } ∷ rest

module _ (remote : Remote) where
  -- Readdir
  unfoldable pub read_dir_node : ℕ → Bytes → Client → Reply (List DirEntry) × Client
  unfolding read_dir and_then pure dir_entries
  read_dir_node fuel path c =
      reply eio ((read_dir remote fuel path >>= λ ds. pure (dir_entries ds)) c)

  -- Read
  unfoldable pub read_handle : FileHandle → ℕ → ℕ → Client → Reply Bytes × Client
  unfolding read
  read_handle fh size offset c = reply eio (read remote fh.fid offset size c)

  -- Write
  unfoldable pub write_handle : FileHandle → Bytes → ℕ → Client → Reply ℕ × Client
  unfolding forgetting write and_then pure
  write_handle fh content offset c =
      reply eio (
        forgetting (fh.path ∷ []) (write remote fh.fid content offset >>= λ n. pure (n % 2 ^ 32)) c)

  -- Fsync
  unfoldable pub fsync_handle : FileHandle → Client → Reply (Unit {0}) × Client
  unfolding sync
  fsync_handle fh c = reply eio (sync remote fh.fid c)

  -- Flush, which does not fail
  unfoldable pub flush_handle : FileHandle → Client → Reply (Unit {0}) × Client
  unfolding sync
  flush_handle fh c = (answered tt, (sync remote fh.fid c).1)

-- Release, as far as the client goes; the error of the close is passed on.
unfoldable pub release_handle : FileHandle → Client → Client
unfolding close_fid
release_handle fh c = close_fid fh.fid c
