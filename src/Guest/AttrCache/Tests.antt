-- ===== src/Guest/AttrCache/Tests.antt =====
-- Runs of the cache, and its theorem at one history.
use homura.Bytes.{codes, bytes_dec}
use homura.Guest.AttrCache.Fresh.{
  Calls, gets, puts, invalidates_prefix, cleans, apply, after, latest, get_cached-latest,
}
use homura.Guest.AttrCache.{
  Attrs, get_cached, put_cached, put_each, put_batch, invalidate, invalidate_prefix, clear,
  cache_size, cleanup,
}
use homura.Prelude.Dict.{get, put, delete, remove_if}
use homura.Prelude.{◌≡◌, refl, false, [], ◌∷◌, some, none, arith, ℕ_discrete}

program : Unit {0}
unfolding apply after latest get_cached put_cached put_each put_batch invalidate invalidate_prefix
    clear cache_size cleanup get put delete remove_if bytes_dec ℕ_discrete
program = tt

-- A regular file with one link.
abbrev attrs : Attrs
attrs = (
  record { type = record { dir = false; symlink = false }; path = 7; version = 1 },
  record {
    mode = 0o644;
    uid = 0;
    gid = 0;
    nlink = 1;
    rdev = 0;
    size = 10;
    block_size = 512;
    blocks = 1;
    atime = (0, 0);
    mtime = (0, 0);
    ctime = (0, 0);
  },
)

-- "/a/b" put at 20 and "/c" at 30, a Get of the latter at 31.
abbrev calls : Calls
calls =
    (31, gets (codes "/c")) ∷ (30, puts (codes "/c") attrs) ∷ (20, puts (codes "/a/b") attrs) ∷ []

cached :
    ((get_cached (after 100 calls) (codes "/a/b") 120).1 ≡ some attrs)
    × ((get_cached (after 100 calls) (codes "/a/b") 121).1 ≡ none)
    × (cache_size (get_cached (after 100 calls) (codes "/a/b") 121).0 ≡ 1)
    × (cache_size (after 100 ((131, cleans) ∷ calls)) ≡ 0)
    × ((get_cached (after 100 ((40, invalidates_prefix (codes "/a")) ∷ calls)) (codes "/a/b") 50).1
        ≡ none)
unfolding program
cached = (refl, refl, refl, refl, refl)

get_cached-latest_example :
    (get_cached (after 100 calls) (codes "/a/b") 60).1 ≡ latest 100 calls (codes "/a/b") 60
get_cached-latest_example = get_cached-latest 100 calls (codes "/a/b") 60 (omega arith)
