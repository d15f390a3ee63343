-- ===== src/Guest/AttrCache.antt =====
-- guest/9pfuse/attrcache.go: AttrCache. The time of a call is an argument, in nanoseconds. Get is
-- modelled as its two parts under the lock, `seen` and `expire`, one after the other.
pub mod Fresh
mod Tests
use homura.Bytes.{Bytes, bytes_dec}
use homura.Prelude.Dict.{get, put, delete, remove_if}
use homura.Prelude.{
  ℕ, ◌+◌, Bool, true, false, ◌&&◌, List, [], ◌∷◌, Option, none, some, ltb, leb, length, take, ite,
  if◌then◌else◌,
}
use homura.VirtualFs.Lookup.{Attr}
use homura.VirtualFs.{Qid}

-- A QID and its attributes.
abbrev pub Attrs : Type 0
Attrs = Qid × Attr

pub record CachedAttr : Type 0 where
  pub attrs : Attrs
  pub expiry : ℕ

pub record AttrCache : Type 0 where
  pub entries : List (Bytes × CachedAttr)
  pub ttl : ℕ

-- NewAttrCache
abbrev pub new_attr_cache : ℕ → AttrCache
new_attr_cache ttl = record { entries = []; ttl = ttl }

abbrev pub is_expired : ℕ → CachedAttr → Bool
is_expired now e = ltb e.expiry now

-- What Get makes of the entry that it has found.
abbrev pub seen : ℕ → Option CachedAttr → Option Attrs
seen now none = none
seen now (some e) = if is_expired now e then none else some e.attrs

-- The deletion of Get, after it has found that entry.
unfoldable pub expire : AttrCache → Bytes → ℕ → Option CachedAttr → AttrCache
expire c path now none = c
expire c path now (some e) =
    if is_expired now e then record c { entries = delete bytes_dec c.entries path } else c

-- Get
unfoldable pub get_cached : AttrCache → Bytes → ℕ → AttrCache × Option Attrs
unfolding expire
get_cached c path now =
    let found = get bytes_dec c.entries path in (expire c path now found, seen now found)

-- Put
unfoldable pub put_cached : AttrCache → Bytes → Attrs → ℕ → AttrCache
put_cached c path attrs now = record c {
  entries = put bytes_dec c.entries path (record { attrs = attrs; expiry = now + c.ttl });
}

-- The loop of PutBatch.
unfoldable pub put_each :
    List (Bytes × Attrs) → ℕ → List (Bytes × CachedAttr) → List (Bytes × CachedAttr)
put_each [] expiry entries = entries
put_each ((path, attrs) ∷ batch) expiry entries =
    put bytes_dec (put_each batch expiry entries) path (record { attrs = attrs; expiry = expiry })

-- PutBatch
unfoldable pub put_batch : AttrCache → List (Bytes × Attrs) → ℕ → AttrCache
unfolding put_each
put_batch c batch now = record c { entries = put_each batch (now + c.ttl) c.entries }

-- Invalidate
unfoldable pub invalidate : AttrCache → Bytes → AttrCache
invalidate c path = record c { entries = delete bytes_dec c.entries path }

abbrev pub has_prefix : Bytes → Bytes → Bool
has_prefix prefix path =
    leb (length prefix) (length path)
    && ite (bytes_dec (take (length prefix) path) prefix) true false

-- InvalidatePrefix
unfoldable pub invalidate_prefix : AttrCache → Bytes → AttrCache
invalidate_prefix c prefix = record c {
  entries = remove_if (λ path e. has_prefix prefix path) c.entries;
}

-- Clear
unfoldable pub clear : AttrCache → AttrCache
clear c = record c { entries = [] }

-- Size
unfoldable pub cache_size : AttrCache → ℕ
cache_size c = length c.entries

-- Cleanup
unfoldable pub cleanup : AttrCache → ℕ → AttrCache
cleanup c now = record c { entries = remove_if (λ path e. is_expired now e) c.entries }
