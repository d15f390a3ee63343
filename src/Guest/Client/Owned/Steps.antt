-- ===== src/Guest/Client/Owned/Steps.antt =====
-- The steps of the 9p client that leave its open files as they are.
use homura.Bytes.{Bytes}
use homura.Guest.AttrCache.{Attrs, get_cached}
use homura.Guest.Client.Ops.{
  fetch_attr, caching, cached, or_fetch, get_attrs, with_file, forgetting, forget,
}
use homura.Guest.Client.{
  Call, Remote, Client, Result, ok, err, M, bound, and_then, pure, fail, ClientError, get_attr,
  sent, walked, close_file, shut, call, with_walked, get_file, walk,
}
use homura.Prelude.{
  ℕ, ◌+◌, ◌≤◌, ◌≡◌, refl, ap, ◌∙◌, List, [], ◌∷◌, Option, none, some, arith, Bool-cases,
  Option-cases, inl, inr,
}

-- The table and the open handles are the same, and no handle is given again.
pub record Keeps (c c' : Client) : Type 0 where
  pub same_files : c'.files ≡ c.files
  pub same_fid : c'.next_fid ≡ c.next_fid
  pub same_opened : c'.opened ≡ c.opened
  pub grows : c.next_handle ≤ c'.next_handle

pub kept :
    (c c' : Client)
    → c'.files ≡ c.files
    → c'.next_fid ≡ c.next_fid
    → c'.opened ≡ c.opened
    → c'.next_handle ≡ c.next_handle
    → Keeps c c'
kept c c' a b d e = record { same_files = a; same_fid = b; same_opened = d; grows = omega arith }

pub Keeps-trans : (a b c : Client) → Keeps a b → Keeps b c → Keeps a c
Keeps-trans a b c x y =
    let g : a.next_handle ≤ b.next_handle = x.grows in
    let g' : b.next_handle ≤ c.next_handle = y.grows in
    record {
      same_files = y.same_files ∙ x.same_files;
      same_fid = y.same_fid ∙ x.same_fid;
      same_opened = y.same_opened ∙ x.same_opened;
      grows = omega arith;
    }

-- A step that does so from every state.
pub record IsKeeping {A : Type 0} (m : M A) : Type 0 where
  pub keeps : (c : Client) → Keeps c (m c).1

bound-Keeps :
    {A B : Type 0} (c : Client) (r : Result A × Client) (f : A → M B)
    → Keeps c r.1
    → ((a : A) → IsKeeping (f a))
    → Keeps c (bound r f).1
bound-Keeps c (ok a, c') f k g = Keeps-trans c c' _ k ((g a).keeps c')
bound-Keeps c (err e, c') f k g = k

pub pure-IsKeeping : {A : Type 0} (a : A) → IsKeeping (pure a)
unfolding pure
pure-IsKeeping a = record { keeps = λ c. kept c c refl refl refl refl }

pub fail-IsKeeping : {A : Type 0} (e : ClientError) → IsKeeping {A = A} (fail e)
unfolding fail
fail-IsKeeping e = record { keeps = λ c. kept c c refl refl refl refl }

pub and_then-IsKeeping :
    {A B : Type 0} {m : M A} {f : A → M B}
    → IsKeeping m
    → ((a : A) → IsKeeping (f a))
    → IsKeeping (and_then m f)
unfolding and_then
and_then-IsKeeping {m = m} {f = f} k g = record { keeps = λ c. bound-Keeps c (m c) f (k.keeps c) g }

pub forgetting-IsKeeping :
    {A : Type 0} (paths : List Bytes) {m : M A} → IsKeeping m → IsKeeping (forgetting paths m)
unfolding forgetting
forgetting-IsKeeping [] k = record { keeps = λ c. k.keeps c }
forgetting-IsKeeping (path ∷ paths) k = record {
  keeps = λ c.
      Keeps-trans c (forget path c) _ (kept _ _ refl refl refl refl)
        ((forgetting-IsKeeping paths k).keeps (forget path c));
}

pub shut-head : (h : ℕ) (hs : List ℕ) → shut h (h ∷ hs) ≡ hs
unfolding shut
shut-head h hs = ground arith

-- What was walked to is closed.
pub shuts-Keeps : (c c' : Client) → Keeps (walked c) c' → Keeps c (close_file c.next_handle c')
unfolding close_file
shuts-Keeps c c' k =
    let g : c.next_handle + 1 ≤ c'.next_handle = k.grows in
    record {
      same_files = k.same_files;
      same_fid = k.same_fid;
      same_opened = ap (shut c.next_handle) k.same_opened ∙ shut-head c.next_handle c.opened;
      grows = omega arith;
    }

module _ (remote : Remote) where
  pub call-IsKeeping :
      {A : Type 0} (request : Call) (result : List Call → A)
      → IsKeeping (call remote request result)
  unfolding call
  call-IsKeeping request result = record {
    keeps = λ c. elim (Bool-cases (remote.accepts (request ∷ c.calls))) [
      | inl e ↦ rw (call, e) (kept c _ refl refl refl refl)
      | inr e ↦ rw (call, e) (kept c _ refl refl refl refl)
    ];
  }

  -- The file of the walk is closed again.
  pub with_walked-IsKeeping :
      {A : Type 0} (names : List Bytes) {body : ℕ → M A}
      → ((h : ℕ) → IsKeeping (body h))
      → IsKeeping (with_walked remote names body)
  unfolding with_walked
  with_walked-IsKeeping names {body = body} keeps = record {
    keeps = λ c. elim (Bool-cases (remote.accepts (walk names ∷ c.calls))) [
      | inr e ↦ rw (with_walked, e) (kept c _ refl refl refl refl)
      | inl e ↦
          rw (with_walked, e)
            (Keeps-trans c (sent (walk names) c) _ (kept _ _ refl refl refl refl) (
              shuts-Keeps (sent (walk names) c) _
                ((keeps c.next_handle).keeps (walked (sent (walk names) c)))))
    ];
  }

  pub with_file-IsKeeping :
      {A : Type 0} (fid : ℕ) {body : ℕ → M A}
      → ((h : ℕ) → IsKeeping (body h))
      → IsKeeping (with_file remote fid body)
  unfolding with_file
  with_file-IsKeeping fid keeps = record {
    keeps = λ c. elim (Option-cases (get_file fid c.files)) [
      | inl e ↦ rw (with_file, e) (kept c _ refl refl refl refl)
      | inr (h, e) ↦ rw (with_file, e) ((keeps h).keeps c)
    ];
  }

  cached-Keeps :
      (path : Bytes) (c : Client) (r : Result Attrs × Client)
      → Keeps c r.1
      → Keeps c (cached remote path r).1
  cached-Keeps path c (ok attrs, c') k = Keeps-trans c c' _ k (kept _ _ refl refl refl refl)
  cached-Keeps path c (err e, c') k = k

  caching-IsKeeping : (path : Bytes) {m : M Attrs} → IsKeeping m → IsKeeping (caching remote path m)
  unfolding caching
  caching-IsKeeping path {m = m} k = record { keeps = λ c. cached-Keeps path c (m c) (k.keeps c) }

  pub fetch_attr-IsKeeping : (path : Bytes) → IsKeeping (fetch_attr remote path)
  unfolding fetch_attr
  fetch_attr-IsKeeping path = with_walked-IsKeeping _ (λ h.
      caching-IsKeeping path
        (call-IsKeeping (get_attr h) (λ calls. (remote.qid calls, remote.attr calls))))

  or_fetch-IsKeeping :
      (path : Bytes) (found : Option Attrs) → IsKeeping (or_fetch remote path found)
  or_fetch-IsKeeping path none = fetch_attr-IsKeeping path
  or_fetch-IsKeeping path (some attrs) = pure-IsKeeping attrs

  pub get_attrs-IsKeeping : (path : Bytes) → IsKeeping (get_attrs remote path)
  unfolding get_attrs
  get_attrs-IsKeeping path = record {
    keeps = λ c.
        let (cache, found) = get_cached c.attr_cache path (remote.now c.calls) in
        Keeps-trans c (record c { attr_cache = cache }) _ (kept _ _ refl refl refl refl)
          ((or_fetch-IsKeeping path found).keeps (record c { attr_cache = cache }));
  }
