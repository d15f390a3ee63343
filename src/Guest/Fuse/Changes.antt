-- ===== src/Guest/Fuse/Changes.antt =====
-- What the steps of Setattr in guest/9pfuse/fuse.go change, by the calls of SetAttr that they make.
use homura.Bytes.{Bytes}
use homura.Guest.AttrCache.{Attrs, get_cached}
use homura.Guest.Client.Names.{parse_path}
use homura.Guest.Client.Ops.{
  done, no_change, forget, forgetting, change, truncate, chmod, chown, utimens, cached, caching,
  fetch_attr, or_fetch, get_attrs,
}
use homura.Guest.Client.{
  AttrChange, Call, get_attr, set_attr, walk, close, closing, Remote, Client, Result, ok, err, M,
  bound, and_then, pure, sent, walked, close_file, with_walked, call,
}
use homura.Guest.Fuse.{Modes, must, may}
use homura.Guest.Fuse.Nodes.{out_of}
use homura.Prelude.{
  ℕ, ◌≡◌, refl, sym, ap, ◌∙◌, Bool, true, false, List, [], ◌∷◌, Option, none, some,
}

-- The later value, where there is one.
abbrev pub newer : {A : Type 0} → Option A → Option A → Option A
newer (some x) old = some x
newer none old = old

abbrev pub over : AttrChange → AttrChange → AttrChange
over old new = record {
  permissions = newer new.permissions old.permissions;
  uid = newer new.uid old.uid;
  gid = newer new.gid old.gid;
  size = newer new.size old.size;
  atime = newer new.atime old.atime;
  mtime = newer new.mtime old.mtime;
}

-- What the calls of SetAttr change together; the last call is in front.
abbrev pub changed : List Call → AttrChange
changed [] = no_change
changed (set_attr h attrs ∷ calls) = over (changed calls) attrs
changed (_ ∷ calls) = changed calls

abbrev pub when : {A : Type 0} → Bool → A → Option A
when true x = some x
when false x = none

-- A step that succeeds and makes these changes.
pub record Sends (attrs : AttrChange) (m : M (Unit {0})) : Type 0 where
  pub succeeds : (c : Client) → (m c).0 ≡ ok tt
  pub sends : (c : Client) → changed (m c).1.calls ≡ over (changed c.calls) attrs

-- A step that changes nothing.
pub record IsQuiet {A : Type 0} (m : M A) : Type 0 where
  pub quiet : (c : Client) → changed (m c).1.calls ≡ changed c.calls

bound-succeeds :
    {A : Type 0} (r : Result (Unit {0}) × Client) (f : Unit {0} → M A)
    → r.0 ≡ ok tt
    → bound r f ≡ f tt r.1
bound-succeeds (ok tt, c) f e = refl
bound-succeeds (err x, c) f e = cc

bound-quiet :
    {A B : Type 0} (c : Client) (r : Result A × Client) (next : A → M B)
    → changed r.1.calls ≡ changed c.calls
    → ((a : A) → IsQuiet (next a))
    → changed (bound r next).1.calls ≡ changed c.calls
bound-quiet c (ok a, c') next e q = (q a).quiet c' ∙ e
bound-quiet c (err x, c') next e q = e

pub newer-none : {A : Type 0} (o : Option A) → newer o none ≡ o
newer-none none = refl
newer-none (some x) = refl

module _ (m : M (Unit {0})) (attrs : Bool → AttrChange) (s : Sends (attrs true) m)
    (e : attrs false ≡ no_change) where
  pub must-Sends : (b : Bool) → Sends (attrs b) (must b m)
  unfolding pure
  must-Sends true = s
  must-Sends false = record {
    succeeds = λ c. refl;
    sends = λ c. ap (over (changed c.calls)) (sym e);
  }

  pub may-Sends : (b : Bool) → Sends (attrs b) (may b m)
  may-Sends true = record { succeeds = λ c. refl; sends = s.sends }
  may-Sends false = record {
    succeeds = λ c. refl;
    sends = λ c. ap (over (changed c.calls)) (sym e);
  }

forgetting-Sends :
    (paths : List Bytes) (m : M (Unit {0})) (attrs : AttrChange)
    → Sends attrs m
    → Sends attrs (forgetting paths m)
unfolding forgetting
forgetting-Sends [] m attrs s = record { succeeds = s.succeeds; sends = s.sends }
forgetting-Sends (path ∷ paths) m attrs s =
    let later = forgetting-Sends paths m attrs s in
    record {
      succeeds = λ c. later.succeeds (forget path c);
      sends = λ c. later.sends (forget path c);
    }

-- A change, and what follows it.
pub then-changed :
    {A : Type 0} (m : M (Unit {0})) (attrs : AttrChange) (next : Unit {0} → M A) (c : Client)
    (all : AttrChange)
    → Sends attrs m
    → ((c' : Client)
        → changed c'.calls ≡ over (changed c.calls) attrs
        → changed (next tt c').1.calls ≡ all)
    → changed (and_then m next c).1.calls ≡ all
unfolding and_then
then-changed m attrs next c all s rest =
    ap (λ r. changed r.1.calls) (bound-succeeds (m c) next (s.succeeds c))
    ∙ rest (m c).1 (s.sends c)

module _ (remote : Remote) (accepts : (calls : List Call) → remote.accepts calls ≡ true) where
  with_walked-accepted :
      {A : Type 0} (names : List Bytes) (body : ℕ → M A) (c : Client)
      → with_walked remote names body c
        ≡ closing c.next_handle (body c.next_handle (walked (sent (walk names) c)))
  unfolding with_walked close_file
  with_walked-accepted names body c = rw (with_walked, accepts (walk names ∷ c.calls)) refl

  call-accepted :
      {A : Type 0} (request : Call) (result : List Call → A) (c : Client)
      → call remote request result c ≡ (ok (result (request ∷ c.calls)), sent request c)
  unfolding call
  call-accepted request result c = rw (call, accepts (request ∷ c.calls)) refl

  -- One call on the file at a path.
  one_call :
      {A : Type 0} (names : List Bytes) (request : ℕ → Call) (result : List Call → A) (c : Client)
      → (with_walked remote names (λ h. call remote (request h) result) c).1.calls
        ≡ close c.next_handle ∷ request c.next_handle ∷ walk names ∷ c.calls
  unfolding close_file
  one_call names request result c =
      ap (λ r. r.1.calls) (with_walked-accepted names (λ h. call remote (request h) result) c)
      ∙ ap (λ r. close c.next_handle ∷ r.1.calls)
          (call-accepted (request c.next_handle) result (walked (sent (walk names) c)))

  change-Sends : (path : Bytes) (attrs : AttrChange) → Sends attrs (change remote path attrs)
  unfolding change
  change-Sends path attrs = record {
    succeeds = λ c.
        ap (λ r. r.0)
          (with_walked-accepted (parse_path path) (λ h. call remote (set_attr h attrs) done) c)
        ∙ ap (λ r. r.0)
            (call-accepted (set_attr c.next_handle attrs) done
              (walked (sent (walk (parse_path path)) c)));
    sends = λ c. ap changed (one_call (parse_path path) (λ h. set_attr h attrs) done c);
  }

  pub truncate-Sends :
      (path : Bytes) (size : ℕ)
      → Sends (record no_change { size = some size }) (truncate remote path size)
  unfolding truncate
  truncate-Sends path size = forgetting-Sends (path ∷ []) _ _ (change-Sends path _)

  pub chmod-Sends :
      (path : Bytes) (mode : ℕ)
      → Sends
          (record no_change { permissions = some (remote.permissions mode) })
          (chmod remote path mode)
  unfolding chmod
  chmod-Sends path mode = forgetting-Sends (path ∷ []) _ _ (change-Sends path _)

  cached-calls :
      (path : Bytes) (r : Result Attrs × Client) → (cached remote path r).1.calls ≡ r.1.calls
  cached-calls path (ok attrs, c) = refl
  cached-calls path (err e, c) = refl

  fetch_attr-IsQuiet : (path : Bytes) → IsQuiet (fetch_attr remote path)
  unfolding fetch_attr caching close_file
  fetch_attr-IsQuiet path = record {
    quiet = λ c.
        let c' : Client = walked (sent (walk (parse_path path)) c) in
        let asked : M Attrs =
          call remote (get_attr c.next_handle) (λ calls. (remote.qid calls, remote.attr calls)) in
        ap (λ r. changed r.1.calls)
          (with_walked-accepted (parse_path path)
            (λ h.
              caching remote path
                (call remote (get_attr h) (λ calls. (remote.qid calls, remote.attr calls))))
            c)
        ∙ ap changed (cached-calls path (asked c'))
        ∙ ap (λ r. changed r.1.calls)
            (call-accepted {A = Attrs} (get_attr c.next_handle)
              (λ calls. (remote.qid calls, remote.attr calls)) c');
  }

  or_fetch-IsQuiet : (path : Bytes) (found : Option Attrs) → IsQuiet (or_fetch remote path found)
  unfolding pure
  or_fetch-IsQuiet path none = fetch_attr-IsQuiet path
  or_fetch-IsQuiet path (some attrs) = record { quiet = λ c. refl }

  get_attrs-IsQuiet : (path : Bytes) → IsQuiet (get_attrs remote path)
  unfolding get_attrs
  get_attrs-IsQuiet path = record {
    quiet = λ c.
        let (cache, found) = get_cached c.attr_cache path (remote.now c.calls) in
        (or_fetch-IsQuiet path found).quiet (record c { attr_cache = cache });
  }

  pub out_of-IsQuiet :
      (lib : Modes) (path : Bytes) → IsQuiet (out_of remote lib (get_attrs remote path))
  unfolding and_then pure
  out_of-IsQuiet lib path = record {
    quiet = λ c.
        bound-quiet c (get_attrs remote path c) _ ((get_attrs-IsQuiet path).quiet c)
          (λ a. record { quiet = λ c'. refl });
  }

  pub chown-Sends :
      (path : Bytes) (uid gid : ℕ)
      → Sends
          (record no_change { uid = some uid; gid = some gid })
          (chown remote path (false, uid) (false, gid))
  unfolding chown
  chown-Sends path uid gid = change-Sends path _

  pub utimens-Sends :
      (path : Bytes) (atime mtime : ℕ × ℕ)
      → Sends
          (record no_change { atime = some atime; mtime = some mtime })
          (utimens remote path atime mtime)
  unfolding utimens
  utimens-Sends path atime mtime = change-Sends path _
