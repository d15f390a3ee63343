-- ===== src/Guest/Client/Owned/Calls.antt =====
-- The methods of P9Client that open no file for their caller.
use homura.Bytes.{Bytes}
use homura.Guest.AttrCache.{Attrs, get_cached}
use homura.Guest.Client.Listing.{
  and_page, read_pages, prefetch, prefetch_attrs, prefetch_missing, then_prefetch, is_dots,
  child_path, read_dir,
}
use homura.Guest.Client.Names.{parse_path}
use homura.Guest.Client.Ops.{
  done, no_change, owner, get_attrs, read_file, read, write, sync, readlink, stat_fs, make_dir,
  unlink, rename, change, truncate, chmod, chown, utimens, make_symlink, make_link,
}
use homura.Guest.Client.Owned.Steps.{
  Keeps, kept, Keeps-trans, IsKeeping, pure-IsKeeping, fail-IsKeeping, and_then-IsKeeping,
  forgetting-IsKeeping, call-IsKeeping, with_walked-IsKeeping, with_file-IsKeeping,
  fetch_attr-IsKeeping, get_attrs-IsKeeping,
}
use homura.Guest.Client.{
  AttrChange, Call, Remote, Client, M, set_attr, read_link, statfs, unlink_at, write_at, fsync,
  mkdir, rename_at, symlink, get_ids, link, open_file, read_only, call, with_walked,
}
use homura.Paths.{dir, base}
use homura.Prelude.{
  ℕ, zero, suc, ◌+◌, refl, Bool, List, [], ◌∷◌, Option, none, some, length, Bool-cases, inl, inr,
}
use homura.VirtualFs.Directory.{Dirent}

-- A method that opens no file.
pub data Method : Type 0 where
  m_get_attr m_read_link m_statfs m_unlink : Bytes → Method
  m_read_dir : ℕ → Bytes → Method
  m_read : ℕ → ℕ → ℕ → Method
  m_write : ℕ → Bytes → ℕ → Method
  m_fsync : ℕ → Method
  m_mkdir m_truncate m_chmod : Bytes → ℕ → Method
  m_rename m_symlink m_link : Bytes → Bytes → Method
  m_chown : Bytes → Bool × ℕ → Bool × ℕ → Method
  m_utimens : Bytes → ℕ × ℕ → ℕ × ℕ → Method

and_page-IsKeeping :
    (page : List Dirent) {rest : M (List Dirent)} → IsKeeping rest → IsKeeping (and_page page rest)
and_page-IsKeeping [] k = pure-IsKeeping _
and_page-IsKeeping (d ∷ ds) k = and_then-IsKeeping k (λ more. pure-IsKeeping _)

module _ (remote : Remote) where
  pub apply : Method → Client → Client
  apply (m_get_attr path) c = (get_attrs remote path c).1
  apply (m_read_link path) c = (readlink remote path c).1
  apply (m_statfs path) c = (stat_fs remote path c).1
  apply (m_unlink path) c = (unlink remote path c).1
  apply (m_read_dir fuel path) c = (read_dir remote fuel path c).1
  apply (m_read fid offset count) c = (read remote fid offset count c).1
  apply (m_write fid content offset) c = (write remote fid content offset c).1
  apply (m_fsync fid) c = (sync remote fid c).1
  apply (m_mkdir path mode) c = (make_dir remote path mode c).1
  apply (m_truncate path size) c = (truncate remote path size c).1
  apply (m_chmod path mode) c = (chmod remote path mode c).1
  apply (m_rename old new) c = (rename remote old new c).1
  apply (m_symlink path target) c = (make_symlink remote path target c).1
  apply (m_link path target) c = (make_link remote path target c).1
  apply (m_chown path uid gid) c = (chown remote path uid gid c).1
  apply (m_utimens path atime mtime) c = (utimens remote path atime mtime c).1

  read_file-IsKeeping : (offset count h : ℕ) → IsKeeping (read_file remote offset count h)
  read_file-IsKeeping offset count h = record { keeps = λ c. kept c _ refl refl refl refl }

  -- One call on the file at a path.
  one_call :
      {A : Type 0} (names : List Bytes) (request : ℕ → Call) (result : List Call → A)
      → IsKeeping (with_walked remote names (λ h. call remote (request h) result))
  one_call names request result =
      with_walked-IsKeeping remote names (λ h. call-IsKeeping remote (request h) result)

  change-IsKeeping : (path : Bytes) (attrs : AttrChange) → IsKeeping (change remote path attrs)
  unfolding change
  change-IsKeeping path attrs = one_call (parse_path path) (λ h. set_attr h attrs) done

  read_pages-IsKeeping : (fuel h offset : ℕ) → IsKeeping (read_pages remote fuel h offset)
  unfolding read_pages
  read_pages-IsKeeping zero h offset = fail-IsKeeping _
  read_pages-IsKeeping (suc fuel) h offset =
      and_then-IsKeeping (call-IsKeeping remote _ remote.entries)
        (λ page. and_page-IsKeeping page (read_pages-IsKeeping fuel h (offset + length page)))

  missing-Keeps :
      (path : Bytes) (found : Option Attrs) (c : Client)
      → Keeps c (prefetch_missing remote path found c)
  missing-Keeps path none c = (fetch_attr-IsKeeping remote path).keeps c
  missing-Keeps path (some attrs) c = kept c c refl refl refl refl

  prefetch-Keeps : (path : Bytes) (c : Client) → Keeps c (prefetch remote path c)
  unfolding prefetch
  prefetch-Keeps path c =
      let (cache, found) = get_cached c.attr_cache path (remote.now c.calls) in
      Keeps-trans c (record c { attr_cache = cache }) _ (kept _ _ refl refl refl refl)
        (missing-Keeps path found (record c { attr_cache = cache }))

  prefetch_attrs-Keeps :
      (parent : Bytes) (ds : List Dirent) (c : Client) → Keeps c (prefetch_attrs remote parent ds c)
  unfolding prefetch_attrs
  prefetch_attrs-Keeps parent [] c = kept c c refl refl refl refl
  prefetch_attrs-Keeps parent (d ∷ ds) c = elim (Bool-cases (is_dots d.name)) [
    | inl e ↦ rw (prefetch_attrs, e) (prefetch_attrs-Keeps parent ds c)
    | inr e ↦
        let path = child_path parent d.name in
        rw (prefetch_attrs, e)
          (Keeps-trans c _ _ (prefetch-Keeps path c)
            (prefetch_attrs-Keeps parent ds (prefetch remote path c)))
  ]

  then_prefetch-IsKeeping :
      (path : Bytes) (ds : List Dirent) → IsKeeping (then_prefetch remote path ds)
  unfolding then_prefetch
  then_prefetch-IsKeeping path ds = record { keeps = λ c. prefetch_attrs-Keeps path ds c }

  -- Every method closes the files that it walks to, on every path through it.
  pub apply-Keeps : (m : Method) (c : Client) → Keeps c (apply m c)
  unfolding apply read write sync readlink stat_fs make_dir unlink rename truncate chmod chown
      utimens make_symlink make_link read_dir
  apply-Keeps (m_get_attr path) c = (get_attrs-IsKeeping remote path).keeps c
  apply-Keeps (m_read_link path) c = (one_call (parse_path path) read_link remote.content).keeps c
  apply-Keeps (m_statfs path) c = (one_call (parse_path path) statfs remote.stat).keeps c
  apply-Keeps (m_unlink path) c =
      (forgetting-IsKeeping (path ∷ dir path ∷ [])
          (one_call (parse_path (dir path)) (λ h. unlink_at h (base path)) done)).keeps
        c
  apply-Keeps (m_read_dir fuel path) c =
      (with_walked-IsKeeping remote (parse_path path) (λ h.
          and_then-IsKeeping (call-IsKeeping remote (open_file h read_only) done) (λ _.
            and_then-IsKeeping (read_pages-IsKeeping fuel h 0)
              (then_prefetch-IsKeeping path)))).keeps
        c
  apply-Keeps (m_read fid offset count) c =
      (with_file-IsKeeping remote fid (read_file-IsKeeping offset count)).keeps c
  apply-Keeps (m_write fid content offset) c =
      (with_file-IsKeeping remote fid
          (λ h. call-IsKeeping remote (write_at h content offset) remote.written)).keeps
        c
  apply-Keeps (m_fsync fid) c =
      (with_file-IsKeeping remote fid (λ h. call-IsKeeping remote (fsync h) done)).keeps c
  apply-Keeps (m_mkdir path mode) c =
      (forgetting-IsKeeping (dir path ∷ []) (
          one_call (parse_path (dir path)) (λ h. mkdir h (base path) (remote.permissions mode))
            remote.qid)).keeps
        c
  apply-Keeps (m_truncate path size) c =
      (forgetting-IsKeeping (path ∷ [])
          (change-IsKeeping path (record no_change { size = some size }))).keeps
        c
  apply-Keeps (m_chmod path mode) c =
      (forgetting-IsKeeping (path ∷ []) (
          change-IsKeeping path
            (record no_change { permissions = some (remote.permissions mode) }))).keeps
        c
  apply-Keeps (m_rename old new) c =
      (forgetting-IsKeeping (old ∷ new ∷ dir old ∷ dir new ∷ []) (
          with_walked-IsKeeping remote (parse_path (dir old)) (λ h.
            one_call (parse_path (dir new)) (λ k. rename_at h (base old) k (base new)) done))).keeps
        c
  apply-Keeps (m_symlink path target) c =
      (one_call (parse_path (dir path)) (λ h. symlink h target (base path)) remote.qid).keeps c
  apply-Keeps (m_link path target) c =
      (with_walked-IsKeeping remote (parse_path (dir path)) (λ h.
          with_walked-IsKeeping remote (parse_path target) (λ k.
            and_then-IsKeeping (call-IsKeeping remote (link h k (base path)) done)
              (λ _. call-IsKeeping remote (get_ids k) remote.qid)))).keeps
        c
  apply-Keeps (m_chown path uid gid) c =
      (change-IsKeeping path (record no_change { uid = owner uid; gid = owner gid })).keeps c
  apply-Keeps (m_utimens path atime mtime) c =
      (change-IsKeeping path (record no_change { atime = some atime; mtime = some mtime })).keeps c
