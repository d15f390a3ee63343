-- ===== src/Guest/Client/Listing.antt =====
-- Readdir of P9Client in guest/9pfuse/client.go, with prefetchAttrs. Its goroutines are taken one after
-- the other.
use homura.Bytes.{Bytes, bytes_dec}
use homura.Guest.AttrCache.{Attrs, get_cached}
use homura.Guest.Client.Names.{parse_path}
use homura.Guest.Client.Ops.{done, fetch_attr}
use homura.Guest.Client.{
  open_file, read_only, readdir, Remote, Client, endless, ok, M, ◌>>=◌, and_then, pure, fail, call,
  with_walked,
}
use homura.Paths.{slash, dot, dot_dot}
use homura.Prelude.{
  ℕ, zero, suc, ◌+◌, Bool, true, false, List, [], ◌∷◌, ◌++◌, Option, none, some, length, ite,
}
use homura.VirtualFs.Directory.{Dirent}

abbrev pub page_size : ℕ
page_size = 8192

-- The path of an entry in prefetchAttrs.
unfoldable pub child_path : Bytes → Bytes → Bytes
unfolding bytes_dec
child_path parent name = ite (bytes_dec parent (slash ∷ [])) (slash ∷ name) (parent ++ slash ∷ name)

-- The entries that are not prefetched.
unfoldable pub is_dots : Bytes → Bool
unfolding bytes_dec
is_dots name = ite (bytes_dec name (dot ∷ [])) true (ite (bytes_dec name dot_dot) true false)

-- A page, and the pages behind it unless it is empty.
abbrev pub and_page : List Dirent → M (List Dirent) → M (List Dirent)
and_page [] rest = pure []
and_page (d ∷ ds) rest = rest >>= λ more. pure ((d ∷ ds) ++ more)

module _ (remote : Remote) where
  -- The loop of Readdir from an offset; the fuel bounds the number of pages.
  unfoldable pub read_pages : ℕ → ℕ → ℕ → M (List Dirent)
  unfolding call and_then pure fail
  read_pages zero h offset = fail endless
  read_pages (suc fuel) h offset =
      call remote (readdir h offset page_size) remote.entries >>= λ page.
      and_page page (read_pages fuel h (offset + length page))

  abbrev pub prefetch_missing : Bytes → Option Attrs → Client → Client
  prefetch_missing path none c = (fetch_attr remote path c).1
  prefetch_missing path (some attrs) c = c

  -- One turn of the loop of prefetchAttrs.
  unfoldable pub prefetch : Bytes → Client → Client
  unfolding get_cached fetch_attr
  prefetch path c =
      let (cache, found) = get_cached c.attr_cache path (remote.now c.calls) in
      prefetch_missing path found (record c { attr_cache = cache })

  -- prefetchAttrs
  unfoldable pub prefetch_attrs : Bytes → List Dirent → Client → Client
  unfolding prefetch child_path is_dots
  prefetch_attrs parent [] c = c
  prefetch_attrs parent (d ∷ ds) c = elim (is_dots d.name) [
    | true ↦ prefetch_attrs parent ds c
    | false ↦ prefetch_attrs parent ds (prefetch (child_path parent d.name) c)
  ]

  unfoldable pub then_prefetch : Bytes → List Dirent → M (List Dirent)
  unfolding prefetch_attrs
  then_prefetch path ds c = (ok ds, prefetch_attrs path ds c)

  -- Readdir
  unfoldable pub read_dir : ℕ → Bytes → M (List Dirent)
  unfolding with_walked parse_path call and_then read_pages then_prefetch
  read_dir fuel path = with_walked remote (parse_path path) (λ h.
      call remote (open_file h read_only) done >>= λ _. read_pages fuel h 0 >>= then_prefetch path)
