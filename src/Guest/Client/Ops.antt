-- ===== src/Guest/Client/Ops.antt =====
-- The methods of P9Client in guest/9pfuse/client.go, but for Readdir. A deferred Close comes after the
-- last call of the body.
use homura.Bytes.{Bytes}
use homura.Guest.AttrCache.{Attrs, get_cached, put_cached, invalidate}
use homura.Guest.Client.Names.{parse_path, flags_to_p9_create}
use homura.Guest.Client.{
  OpenFlags, AttrChange, Call, walk, open_file, create, get_attr, get_ids, read_link, statfs, fsync,
  read_at, write_at, mkdir, unlink_at, rename_at, set_attr, symlink, link, Remote, Client,
  walk_failed, invalid_handle, call_failed, Result, ok, err, M, ◌>>=◌, and_then, pure, sent, walked,
  close_file, call, with_walked, without_fid, register, get_file,
}
use homura.Paths.{dir, base}
use homura.Prelude.{ℕ, Bool, true, false, List, [], ◌∷◌, Option, none, some, take}
use homura.VirtualFs.{FsStat, Qid}

-- What a call returns that is only a success.
abbrev pub done : List Call → Unit {0}
done calls = tt

abbrev pub no_change : AttrChange
no_change = record {
  permissions = none;
  uid = none;
  gid = none;
  size = none;
  atime = none;
  mtime = none;
}

abbrev pub forget : Bytes → Client → Client
forget path c = record c { attr_cache = invalidate c.attr_cache path }

-- What follows the calls of Invalidate, in their order.
unfoldable pub forgetting : {A : Type 0} → List Bytes → M A → M A
unfolding invalidate
forgetting [] m c = m c
forgetting (path ∷ paths) m c = forgetting paths m (forget path c)

-- The file is registered where the last call succeeded, else closed.
abbrev pub keeping : {A : Type 0} → ℕ → Result A × Client → Result (ℕ × A) × Client
keeping h (ok a, c) = (ok (c.next_fid, a), register h c)
keeping h (err e, c) = (err e, close_file h c)

-- An owner that is negative is left alone.
abbrev pub owner : Bool × ℕ → Option ℕ
owner (true, n) = none
owner (false, n) = some n

unfoldable pub drop_handle : ℕ → Option ℕ → Client → Client
unfolding without_fid close_file
drop_handle fid none c = c
drop_handle fid (some h) c = close_file h (record c { files = without_fid fid c.files })

-- CloseFID
unfoldable pub close_fid : ℕ → Client → Client
unfolding get_file drop_handle
close_fid fid c = drop_handle fid (get_file fid c.files) c

-- Close, as far as the files go; they are closed in the order of the map.
unfoldable pub close_all : List (ℕ × ℕ) → Client → Client
unfolding close_file
close_all [] c = record c { files = [] }
close_all ((fid, h) ∷ files) c = close_all files (close_file h c)

module _ (remote : Remote) where
  -- Walk, whose file is the caller's to close.
  unfoldable pub walk_file : Bytes → M ℕ
  unfolding parse_path
  walk_file path c = elim (remote.accepts (walk (parse_path path) ∷ c.calls)) [
    | true ↦ (ok c.next_handle, walked (sent (walk (parse_path path)) c))
    | false ↦ (err walk_failed, sent (walk (parse_path path)) c)
  ]

  -- The walk of Open and Create, which is not closed after a success.
  unfoldable pub with_kept : {A : Type 0} → List Bytes → (ℕ → M A) → M (ℕ × A)
  unfolding register close_file
  with_kept names body c = elim (remote.accepts (walk names ∷ c.calls)) [
    | true ↦ keeping c.next_handle (body c.next_handle (walked (sent (walk names) c)))
    | false ↦ (err walk_failed, sent (walk names) c)
  ]

  -- Open
  unfoldable pub open_path : Bytes → OpenFlags → M (ℕ × Unit {0})
  unfolding with_kept parse_path call
  open_path path flags = with_kept (parse_path path) (λ h. call remote (open_file h flags) done)

  -- Create; the parent's handle becomes that of the created file.
  unfoldable pub create_file : Bytes → ℕ → ℕ → M (ℕ × Qid)
  unfolding with_kept parse_path flags_to_p9_create call forgetting dir base
  create_file path mode flags = forgetting (dir path ∷ []) (
      with_kept (parse_path (dir path)) (λ h.
        call remote (create h (base path) (flags_to_p9_create flags) (remote.permissions mode))
          remote.qid))

  -- The attributes of a file, which go into the cache.
  abbrev pub cached : Bytes → Result Attrs × Client → Result Attrs × Client
  cached path (ok attrs, c) =
      (ok attrs, record c { attr_cache = put_cached c.attr_cache path attrs (remote.now c.calls) })
  cached path (err e, c) = (err e, c)

  unfoldable pub caching : Bytes → M Attrs → M Attrs
  unfolding put_cached
  caching path m c = cached path (m c)

  -- The walk and the call of GetAttr, and of prefetchAttrs for one entry.
  unfoldable pub fetch_attr : Bytes → M Attrs
  unfolding with_walked parse_path call caching
  fetch_attr path = with_walked remote (parse_path path) (λ h.
      caching path (call remote (get_attr h) (λ calls. (remote.qid calls, remote.attr calls))))

  abbrev pub or_fetch : Bytes → Option Attrs → M Attrs
  or_fetch path none = fetch_attr path
  or_fetch path (some attrs) = pure attrs

  -- GetAttr
  unfoldable pub get_attrs : Bytes → M Attrs
  unfolding get_cached fetch_attr pure
  get_attrs path c =
      let (cache, found) = get_cached c.attr_cache path (remote.now c.calls) in
      or_fetch path found (record c { attr_cache = cache })

  -- GetFile, and the call on the file.
  unfoldable pub with_file : {A : Type 0} → ℕ → (ℕ → M A) → M A
  unfolding get_file
  with_file fid body c = elim (get_file fid c.files) [
    | none ↦ (err invalid_handle, c)
    | some h ↦ body h c
  ]

  -- What the client says of the bytes that are there at an error.
  abbrev pub read_result : Bool → Bytes → Result Bytes
  read_result true content = ok content
  read_result false [] = err call_failed
  read_result false (b ∷ content) = ok (b ∷ content)

  abbrev pub read_file : ℕ → ℕ → ℕ → M Bytes
  read_file offset count h c =
      let calls = read_at h offset count ∷ c.calls in
      (
        read_result (remote.accepts calls) (take count (remote.content calls)),
        record c { calls = calls },
      )

  -- ReadAt
  unfoldable pub read : ℕ → ℕ → ℕ → M Bytes
  unfolding with_file
  read fid offset count = with_file fid (read_file offset count)

  -- WriteAt
  unfoldable pub write : ℕ → Bytes → ℕ → M ℕ
  unfolding with_file call
  write fid content offset =
      with_file fid (λ h. call remote (write_at h content offset) remote.written)

  -- Fsync
  unfoldable pub sync : ℕ → M (Unit {0})
  unfolding with_file call
  sync fid = with_file fid (λ h. call remote (fsync h) done)

  -- Readlink
  unfoldable pub readlink : Bytes → M Bytes
  unfolding with_walked parse_path call
  readlink path =
      with_walked remote (parse_path path) (λ h. call remote (read_link h) remote.content)

  -- Statfs
  unfoldable pub stat_fs : Bytes → M FsStat
  unfolding with_walked parse_path call
  stat_fs path = with_walked remote (parse_path path) (λ h. call remote (statfs h) remote.stat)

  -- Mkdir
  unfoldable pub make_dir : Bytes → ℕ → M Qid
  unfolding forgetting with_walked parse_path call dir base
  make_dir path mode = forgetting (dir path ∷ []) (
      with_walked remote (parse_path (dir path))
        (λ h. call remote (mkdir h (base path) (remote.permissions mode)) remote.qid))

  -- Unlink
  unfoldable pub unlink : Bytes → M (Unit {0})
  unfolding forgetting with_walked parse_path call dir base
  unlink path =
      forgetting (path ∷ dir path ∷ []) (
        with_walked remote (parse_path (dir path))
          (λ h. call remote (unlink_at h (base path)) done))

  -- Rename
  unfoldable pub rename : Bytes → Bytes → M (Unit {0})
  unfolding forgetting with_walked parse_path call dir base
  rename old new = forgetting (old ∷ new ∷ dir old ∷ dir new ∷ []) (
      with_walked remote (parse_path (dir old)) (λ h.
        with_walked remote (parse_path (dir new))
          (λ k. call remote (rename_at h (base old) k (base new)) done)))

  -- SetAttr of the file at a path.
  unfoldable pub change : Bytes → AttrChange → M (Unit {0})
  unfolding with_walked parse_path call
  change path attrs =
      with_walked remote (parse_path path) (λ h. call remote (set_attr h attrs) done)

  -- Truncate
  unfoldable pub truncate : Bytes → ℕ → M (Unit {0})
  unfolding change forgetting
  truncate path size = forgetting (path ∷ []) (change path (record no_change { size = some size }))

  -- Chmod
  unfoldable pub chmod : Bytes → ℕ → M (Unit {0})
  unfolding change forgetting
  chmod path mode =
      forgetting (path ∷ [])
        (change path (record no_change { permissions = some (remote.permissions mode) }))

  -- Chown, of signed numbers
  unfoldable pub chown : Bytes → Bool × ℕ → Bool × ℕ → M (Unit {0})
  unfolding change
  chown path uid gid = change path (record no_change { uid = owner uid; gid = owner gid })

  -- Utimens, of seconds and nanoseconds
  unfoldable pub utimens : Bytes → ℕ × ℕ → ℕ × ℕ → M (Unit {0})
  unfolding change
  utimens path atime mtime =
      change path (record no_change { atime = some atime; mtime = some mtime })

  -- Symlink
  unfoldable pub make_symlink : Bytes → Bytes → M Qid
  unfolding with_walked parse_path call dir base
  make_symlink path target =
      with_walked remote (parse_path (dir path))
        (λ h. call remote (symlink h target (base path)) remote.qid)

  -- Link
  unfoldable pub make_link : Bytes → Bytes → M Qid
  unfolding with_walked parse_path call and_then dir base
  make_link path target = with_walked remote (parse_path (dir path)) (λ h.
      with_walked remote (parse_path target)
        (λ k. call remote (link h k (base path)) done >>= λ _. call remote (get_ids k) remote.qid))
