-- ===== src/Guest/Fuse/Setattr.antt =====
-- The attributes that Setattr of the FUSE server changes, against those that it is asked to change.
use homura.Guest.Fuse.Changes.{
  newer-none, over, changed, when, must-Sends, may-Sends, truncate-Sends, chmod-Sends, chown-Sends,
  utimens-Sends, out_of-IsQuiet, then-changed,
}
use homura.Bytes.{Bytes}
use homura.Guest.Client.Ops.{
  no_change, forget, forgetting, truncate, chmod, chown, utimens, get_attrs,
}
use homura.Guest.Client.{AttrChange, Call, Remote, Client, Result, ok, err}
use homura.Guest.Fuse.{Modes, SetAttrIn, Errno, eio, reply, must, may}
use homura.Guest.Fuse.Nodes.{out_of, set_times, set_owners, set_mode, set_size, set_attr_node}
use homura.Prelude.{◌≡◌, ◌↔◌, refl, sym, ap, ◌∙◌, Bool, true, false, ◌||◌, List}

-- The attributes that are asked for.
abbrev pub requested : Remote → SetAttrIn → AttrChange
requested remote i = record {
  permissions = when i.has_mode (remote.permissions i.mode);
  uid = when i.has_uid i.uid;
  gid = when i.has_gid i.gid;
  size = when i.has_size i.size;
  atime = when i.has_atime i.atime;
  mtime = when i.has_mtime i.mtime;
}

reply-calls : {A : Type 0} (e : Errno) (r : Result A × Client) → (reply e r).1.calls ≡ r.1.calls
reply-calls e (ok a, c) = refl
reply-calls e (err x, c) = refl

-- Two values that are sent where one of them is asked for.
both :
    {A B : Type 0} (u g : Bool) (x : A) (y : B)
    → when (u || g) x ≡ when u x
    → when (u || g) y ≡ when g y
    → u ≡ g
both true true x y e f = refl
both false false x y e f = refl
both true false x y e f = cc
both false true x y e f = cc

or-same : (u g : Bool) → u ≡ g → (u || g) ≡ u
or-same true g e = refl
or-same false g e = sym e

module _ (remote : Remote) (accepts : (calls : List Call) → remote.accepts calls ≡ true) where
  sizes : SetAttrIn → Bool → AttrChange
  sizes i b = record no_change { size = when b i.size }

  modes : SetAttrIn → Bool → AttrChange
  modes i b = record no_change { permissions = when b (remote.permissions i.mode) }

  owners : SetAttrIn → Bool → AttrChange
  owners i b = record no_change { uid = when b i.uid; gid = when b i.gid }

  times : SetAttrIn → Bool → AttrChange
  times i b = record no_change { atime = when b i.atime; mtime = when b i.mtime }

  -- All that Setattr sends.
  total : SetAttrIn → AttrChange
  total i = record {
    permissions = when i.has_mode (remote.permissions i.mode);
    uid = when (i.has_uid || i.has_gid) i.uid;
    gid = when (i.has_uid || i.has_gid) i.gid;
    size = when i.has_size i.size;
    atime = when (i.has_mtime || i.has_atime) i.atime;
    mtime = when (i.has_mtime || i.has_atime) i.mtime;
  }

  -- What the later three changes make of the first.
  from_mode : SetAttrIn → AttrChange → AttrChange
  from_mode i x =
      over (over (over x (modes i i.has_mode)) (owners i (i.has_uid || i.has_gid)))
        (times i (i.has_mtime || i.has_atime))

  all_sent : (i : SetAttrIn) → from_mode i (over no_change (sizes i i.has_size)) ≡ total i
  unfolding from_mode sizes modes owners times total
  all_sent i =
      rw
        (
          newer-none (when i.has_mode (remote.permissions i.mode)),
          newer-none (when i.has_size i.size),
          newer-none (when (i.has_uid || i.has_gid) i.uid),
          newer-none (when (i.has_uid || i.has_gid) i.gid),
          newer-none (when (i.has_mtime || i.has_atime) i.atime),
          newer-none (when (i.has_mtime || i.has_atime) i.mtime),
        )
        refl

  total-requested :
      (i : SetAttrIn)
      → i.has_uid ≡ i.has_gid
      → i.has_atime ≡ i.has_mtime
      → total i ≡ requested remote i
  unfolding total
  total-requested i e f =
      rw (or-same i.has_uid i.has_gid e, or-same i.has_mtime i.has_atime (sym f), e, f) refl

  module _ (lib : Modes) (path : Bytes) (i : SetAttrIn) where
    set_times-changed :
        (c : Client)
        → changed (set_times remote lib path i c).1.calls
          ≡ over (changed c.calls) (times i (i.has_mtime || i.has_atime))
    unfolding set_times times
    set_times-changed c =
        then-changed (may (i.has_mtime || i.has_atime) (utimens remote path i.atime i.mtime))
          (times i (i.has_mtime || i.has_atime)) (λ _. out_of remote lib (get_attrs remote path)) c
          _
          (may-Sends _ (times i) (utimens-Sends remote accepts path i.atime i.mtime) refl
            (i.has_mtime || i.has_atime))
          (λ c' e. (out_of-IsQuiet remote accepts lib path).quiet c' ∙ e)

    set_owners-changed :
        (c : Client)
        → changed (set_owners remote lib path i c).1.calls
          ≡ over
              (over (changed c.calls) (owners i (i.has_uid || i.has_gid)))
              (times i (i.has_mtime || i.has_atime))
    unfolding set_owners owners
    set_owners-changed c =
        then-changed
          (may (i.has_uid || i.has_gid) (chown remote path (false, i.uid) (false, i.gid)))
          (owners i (i.has_uid || i.has_gid)) (λ _. set_times remote lib path i) c _
          (may-Sends _ (owners i) (chown-Sends remote accepts path i.uid i.gid) refl
            (i.has_uid || i.has_gid))
          (λ c' e. set_times-changed c' ∙ ap (λ x. over x (times i (i.has_mtime || i.has_atime))) e)

    set_mode-changed :
        (c : Client)
        → changed (set_mode remote lib path i c).1.calls ≡ from_mode i (changed c.calls)
    unfolding set_mode modes from_mode
    set_mode-changed c =
        then-changed (must i.has_mode (chmod remote path i.mode)) (modes i i.has_mode)
          (λ _. set_owners remote lib path i) c _
          (must-Sends _ (modes i) (chmod-Sends remote accepts path i.mode) refl i.has_mode)
          (λ c' e.
            set_owners-changed c'
            ∙ ap
                (λ x.
                  over (over x (owners i (i.has_uid || i.has_gid)))
                    (times i (i.has_mtime || i.has_atime)))
                e)

    set_size-changed :
        (c : Client)
        → changed (set_size remote lib path i c).1.calls
          ≡ from_mode i (over (changed c.calls) (sizes i i.has_size))
    unfolding set_size sizes
    set_size-changed c =
        then-changed (must i.has_size (truncate remote path i.size)) (sizes i i.has_size)
          (λ _. set_mode remote lib path i) c _
          (must-Sends _ (sizes i) (truncate-Sends remote accepts path i.size) refl i.has_size)
          (λ c' e. set_mode-changed c' ∙ ap (from_mode i) e)

    set_attr_node-total :
        (c : Client)
        → changed c.calls ≡ no_change
        → changed (set_attr_node remote lib path i c).1.calls ≡ total i
    unfolding set_attr_node forgetting
    set_attr_node-total c none_yet =
        ap changed (reply-calls eio (set_size remote lib path i (forget path c)))
        ∙ set_size-changed (forget path c)
        ∙ ap (λ x. from_mode i (over x (sizes i i.has_size))) none_yet
        ∙ all_sent i

  -- With a server that accepts all calls, and before any other SetAttr, what the SetAttr calls
  -- of the FUSE server's Setattr change together is just what the request asks for, if and only
  -- if the request has both or none of the owners, and both or none of the times.
  pub set_attr_node-requested :
      (lib : Modes) (path : Bytes) (i : SetAttrIn) (c : Client)
      → changed c.calls ≡ no_change
      → (changed (set_attr_node remote lib path i c).1.calls ≡ requested remote i)
        ↔ ((i.has_uid ≡ i.has_gid) × (i.has_atime ≡ i.has_mtime))
  unfolding total
  set_attr_node-requested lib path i c none_yet =
      let all : changed (set_attr_node remote lib path i c).1.calls ≡ total i =
        set_attr_node-total lib path i c none_yet in
      (
        λ e.
            let same : total i ≡ requested remote i = sym all ∙ e in
            (
              both i.has_uid i.has_gid i.uid i.gid (ap (λ x. x.uid) same) (ap (λ x. x.gid) same),
              sym (
                  both i.has_mtime i.has_atime i.mtime i.atime (ap (λ x. x.mtime) same)
                    (ap (λ x. x.atime) same)),
            ),
        λ (owners_alike, times_alike). all ∙ total-requested i owners_alike times_alike,
      )
