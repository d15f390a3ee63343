-- ===== src/Guest/AttrCache/Fresh.antt =====
-- What a Get returns, by the calls made before it.
use homura.Bytes.{Bytes, bytes_dec}
use homura.Guest.AttrCache.{
  Attrs, CachedAttr, AttrCache, new_attr_cache, is_expired, seen, expire, get_cached, put_cached,
  put_each, put_batch, invalidate, has_prefix, invalidate_prefix, clear, cleanup,
}
use homura.Prelude.Dict.{get, remove_if, get-put, get-delete}
use homura.Prelude.Unique.{Unique, kept, put-Unique, delete-Unique, remove_if-Unique, get-remove_if}
use homura.Prelude.{
  ℕ, ◌+◌, ◌≤◌, ◌≡◌, refl, ap, ◌∙◌, Bool, List, [], ◌∷◌, Option, none, some, ltb, ite, arith,
  if◌then◌else◌,
}

pub data Op : Type 0 where
  gets : Bytes → Op
  puts : Bytes → Attrs → Op
  puts_batch : List (Bytes × Attrs) → Op
  invalidates invalidates_prefix : Bytes → Op
  clears cleans : Op

-- Calls with their times, the last first.
abbrev pub Calls : Type 0
Calls = List (ℕ × Op)

unfoldable pub apply : AttrCache → ℕ → Op → AttrCache
unfolding get_cached put_cached put_batch invalidate invalidate_prefix clear cleanup
apply c t (gets path) = (get_cached c path t).0
apply c t (puts path attrs) = put_cached c path attrs t
apply c t (puts_batch batch) = put_batch c batch t
apply c t (invalidates path) = invalidate c path
apply c t (invalidates_prefix prefix) = invalidate_prefix c prefix
apply c t clears = clear c
apply c t cleans = cleanup c t

unfoldable pub after : ℕ → Calls → AttrCache
unfolding apply
after ttl [] = new_attr_cache ttl
after ttl ((t, op) ∷ calls) = apply (after ttl calls) t op

-- No call is later than the time, nor than the call after it.
abbrev pub UpTo : ℕ → Calls → Type 0
UpTo now [] = Unit {0}
UpTo now ((t, op) ∷ calls) = (t ≤ now) × UpTo t calls

-- A value put at a time, if it is still fresh.
abbrev pub fresh : ℕ → ℕ → ℕ → Attrs → Option Attrs
fresh ttl t now attrs = if ltb (t + ttl) now then none else some attrs

-- The latest value put for the path, unless it is too old or was invalidated since.
abbrev pub or_older : ℕ → ℕ → ℕ → Option Attrs → Option Attrs → Option Attrs
or_older ttl t now none older = older
or_older ttl t now (some attrs) older = fresh ttl t now attrs

unfoldable pub latest : ℕ → Calls → Bytes → ℕ → Option Attrs
latest ttl [] path now = none
latest ttl ((t, gets q) ∷ calls) path now = latest ttl calls path now
latest ttl ((t, puts q attrs) ∷ calls) path now =
    ite (bytes_dec q path) (fresh ttl t now attrs) (latest ttl calls path now)
latest ttl ((t, puts_batch batch) ∷ calls) path now =
    or_older ttl t now (get bytes_dec batch path) (latest ttl calls path now)
latest ttl ((t, invalidates q) ∷ calls) path now =
    ite (bytes_dec q path) none (latest ttl calls path now)
latest ttl ((t, invalidates_prefix prefix) ∷ calls) path now =
    if has_prefix prefix path then none else latest ttl calls path now
latest ttl ((t, clears) ∷ calls) path now = none
latest ttl ((t, cleans) ∷ calls) path now = latest ttl calls path now

put_each-Unique :
    (batch : List (Bytes × Attrs)) (expiry : ℕ) (m : List (Bytes × CachedAttr))
    → Unique bytes_dec m
    → Unique bytes_dec (put_each batch expiry m)
unfolding put_each
put_each-Unique [] expiry m h = h
put_each-Unique ((path, attrs) ∷ batch) expiry m h =
    put-Unique bytes_dec _ path _ (put_each-Unique batch expiry m h)

apply-Unique :
    (c : AttrCache) (t : ℕ) (op : Op)
    → Unique bytes_dec c.entries
    → Unique bytes_dec (apply c t op).entries
unfolding apply expire
apply-Unique c t (gets path) h = ground (arith, delete-Unique bytes_dec c.entries path h)
apply-Unique c t (puts path attrs) h = put-Unique bytes_dec c.entries path _ h
apply-Unique c t (puts_batch batch) h = put_each-Unique batch _ c.entries h
apply-Unique c t (invalidates path) h = delete-Unique bytes_dec c.entries path h
apply-Unique c t (invalidates_prefix prefix) h = remove_if-Unique bytes_dec _ c.entries h
apply-Unique c t clears h = tt
apply-Unique c t cleans h = remove_if-Unique bytes_dec _ c.entries h

after-Unique : (ttl : ℕ) (calls : Calls) → Unique bytes_dec (after ttl calls).entries
unfolding after
after-Unique ttl [] = tt
after-Unique ttl ((t, op) ∷ calls) = apply-Unique (after ttl calls) t op (after-Unique ttl calls)

apply-ttl : (c : AttrCache) (t : ℕ) (op : Op) → (apply c t op).ttl ≡ c.ttl
unfolding apply expire
apply-ttl c t (gets path) = ground arith
apply-ttl c t (puts path attrs) = refl
apply-ttl c t (puts_batch batch) = refl
apply-ttl c t (invalidates path) = refl
apply-ttl c t (invalidates_prefix prefix) = refl
apply-ttl c t clears = refl
apply-ttl c t cleans = refl

after-ttl : (ttl : ℕ) (calls : Calls) → (after ttl calls).ttl ≡ ttl
unfolding after
after-ttl ttl [] = refl
after-ttl ttl ((t, op) ∷ calls) = apply-ttl (after ttl calls) t op ∙ after-ttl ttl calls

abbrev view : AttrCache → Bytes → ℕ → Option Attrs
view c path now = seen now (get bytes_dec c.entries path)

view-expire :
    (c : AttrCache) (q path : Bytes) (t now : ℕ) (found : Option CachedAttr)
    → t ≤ now
    → get bytes_dec c.entries q ≡ found
    → view (expire c q t found) path now ≡ view c path now
unfolding expire
view-expire c q path t now none h e = refl
view-expire c q path t now (some x) h e =
    let gone = get-delete bytes_dec c.entries q path in
    elim (bytes_dec q path) [
      | no n ↦ ground (arith, gone)
      | yes p ↦ let here = ap (get bytes_dec c.entries) p in ground (arith, gone)
    ]

view-get :
    (c : AttrCache) (q path : Bytes) (t now : ℕ)
    → t ≤ now
    → view (apply c t (gets q)) path now ≡ view c path now
unfolding apply
view-get c q path t now h = view-expire c q path t now (get bytes_dec c.entries q) h refl

view-put :
    (c : AttrCache) (q path : Bytes) (attrs : Attrs) (t now : ℕ)
    → view (apply c t (puts q attrs)) path now
      ≡ ite (bytes_dec q path) (fresh c.ttl t now attrs) (view c path now)
unfolding apply
view-put c q path attrs t now =
    ground
      (arith, get-put bytes_dec c.entries q (record { attrs = attrs; expiry = t + c.ttl }) path)

view-put_each :
    (batch : List (Bytes × Attrs)) (m : List (Bytes × CachedAttr)) (ttl t : ℕ) (path : Bytes)
    (now : ℕ)
    → seen now (get bytes_dec (put_each batch (t + ttl) m) path)
      ≡ or_older ttl t now (get bytes_dec batch path) (seen now (get bytes_dec m path))
unfolding put_each get
view-put_each [] m ttl t path now = refl
view-put_each ((q, attrs) ∷ batch) m ttl t path now =
    let later = view-put_each batch m ttl t path now in
    let this =
      get-put bytes_dec (put_each batch (t + ttl) m) q (record { attrs = attrs; expiry = t + ttl })
        path in
    elim (bytes_dec q path) [ yes p ↦ ground (arith, this) | no n ↦ ground (arith, this, later) ]

view-invalidate :
    (c : AttrCache) (q path : Bytes) (now : ℕ)
    → view (invalidate c q) path now ≡ ite (bytes_dec q path) none (view c path now)
unfolding invalidate
view-invalidate c q path now = ground (arith, get-delete bytes_dec c.entries q path)

-- Of the entries that a loop keeps.
view-remove_if :
    (c : AttrCache) (test : Bytes → CachedAttr → Bool) (path : Bytes) (now : ℕ)
    → Unique bytes_dec c.entries
    → seen now (get bytes_dec (remove_if test c.entries) path)
      ≡ seen now (kept bytes_dec test path (get bytes_dec c.entries path))
view-remove_if c test path now u = ap (seen now) (get-remove_if bytes_dec test c.entries path u)

view-invalidate_prefix :
    (c : AttrCache) (prefix path : Bytes) (now : ℕ)
    → Unique bytes_dec c.entries
    → view (invalidate_prefix c prefix) path now
      ≡ (if has_prefix prefix path then none else view c path now)
unfolding invalidate_prefix
view-invalidate_prefix c prefix path now u =
    view-remove_if c (λ p e. has_prefix prefix p) path now u
    ∙ by_entry (get bytes_dec c.entries path)
  where
    by_entry :
        (found : Option CachedAttr)
        → seen now (kept bytes_dec (λ p e. has_prefix prefix p) path found)
          ≡ (if has_prefix prefix path then none else seen now found)
    by_entry none = ground arith
    by_entry (some e) = ground arith

view-cleanup :
    (c : AttrCache) (path : Bytes) (t now : ℕ)
    → t ≤ now
    → Unique bytes_dec c.entries
    → view (cleanup c t) path now ≡ view c path now
unfolding cleanup
view-cleanup c path t now h u =
    view-remove_if c (λ p e. is_expired t e) path now u ∙ by_entry (get bytes_dec c.entries path)
  where
    by_entry :
        (found : Option CachedAttr)
        → seen now (kept bytes_dec (λ p e. is_expired t e) path found) ≡ seen now found
    by_entry none = refl
    by_entry (some e) = ground arith

UpTo-le : (calls : Calls) (t now : ℕ) → t ≤ now → UpTo t calls → UpTo now calls
UpTo-le [] t now le h = tt
UpTo-le ((t', op) ∷ calls) t now le (h', h) = (omega arith, h)

view-after :
    (ttl : ℕ) (calls : Calls) (path : Bytes) (now : ℕ)
    → UpTo now calls
    → view (after ttl calls) path now ≡ latest ttl calls path now
unfolding after latest get
view-after ttl [] path now h = refl
view-after ttl ((t, gets q) ∷ calls) path now (ht, h) =
    view-get (after ttl calls) q path t now ht
    ∙ view-after ttl calls path now (UpTo-le calls t now ht h)
view-after ttl ((t, puts q attrs) ∷ calls) path now (ht, h) = rw (
  view-put (after ttl calls) q path attrs t now,
  after-ttl ttl calls,
  view-after ttl calls path now (UpTo-le calls t now ht h),
)
view-after ttl ((t, puts_batch batch) ∷ calls) path now (ht, h) =
    view-put_each batch (after ttl calls).entries (after ttl calls).ttl t path now
    ∙ rw (after-ttl ttl calls, view-after ttl calls path now (UpTo-le calls t now ht h))
view-after ttl ((t, invalidates q) ∷ calls) path now (ht, h) = rw (
  view-invalidate (after ttl calls) q path now,
  view-after ttl calls path now (UpTo-le calls t now ht h),
)
view-after ttl ((t, invalidates_prefix prefix) ∷ calls) path now (ht, h) = rw (
  view-invalidate_prefix (after ttl calls) prefix path now (after-Unique ttl calls),
  view-after ttl calls path now (UpTo-le calls t now ht h),
)
view-after ttl ((t, clears) ∷ calls) path now (ht, h) = refl
view-after ttl ((t, cleans) ∷ calls) path now (ht, h) =
    view-cleanup (after ttl calls) path t now ht (after-Unique ttl calls)
    ∙ view-after ttl calls path now (UpTo-le calls t now ht h)

-- After any calls of Get, Put, PutBatch, Invalidate, InvalidatePrefix, Clear and Cleanup at
-- times that never decrease, Get answers the attributes of the latest put of the path, where no
-- later call invalidates it and its time to live is not over, and nothing otherwise.
pub get_cached-latest :
    (ttl : ℕ) (calls : Calls) (path : Bytes) (now : ℕ)
    → UpTo now calls
    → (get_cached (after ttl calls) path now).1 ≡ latest ttl calls path now
unfolding get_cached
get_cached-latest ttl calls path now h = view-after ttl calls path now h
