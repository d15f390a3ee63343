-- ===== src/Guest/Fuse/Released.antt =====
-- Open and Create of the FUSE server, and the Release of their file handles.
use homura.Bytes.{Bytes}
use homura.Guest.Client.Listing.{child_path}
use homura.Guest.Client.Names.{parse_path, flags_to_p9_create}
use homura.Guest.Client.Ops.{
  done, keeping, forget, forgetting, with_kept, open_path, create_file, close_fid, drop_handle,
}
use homura.Guest.Client.Owned.{IsOwned, without_fid-fresh}
use homura.Guest.Client.Owned.Steps.{Keeps, IsKeeping, call-IsKeeping, shut-head, shuts-Keeps}
use homura.Guest.Client.{
  OpenFlags, open_file, create, Remote, Client, ClientError, Result, ok, err, M, bound, and_then,
  pure, sent, walked, close_file, shut, without_fid, register, get_file, walk, call,
}
use homura.Guest.Fuse.{
  Errno, eio, Reply, answered, refused, Modes, FileHandle, reply, may_write, flags_to_p9, made,
}
use homura.Guest.Fuse.Nodes.{open_node, create_node, release_handle}
use homura.Paths.{dir, base}
use homura.Prelude.{
  ℕ, if◌then◌else◌, ◌≡◌, refl, ap, ◌∙◌, not, List, [], ◌∷◌, some, arith, Bool-cases, inl, inr,
}

-- The same files in the table and the same handles open.
pub record SameFiles (c c' : Client) : Type 0 where
  pub files_same : c'.files ≡ c.files
  pub opened_same : c'.opened ≡ c.opened

-- A walk that has kept a file or failed: closing the file gives the files of before.
data Held {A : Type 0} (c : Client) : Result (ℕ × A) × Client → Type 0 where
  not_held : (e : ClientError) (c' : Client) → SameFiles c c' → Held c (err e, c')
  is_held :
      (fid : ℕ) (a : A) (c' : Client) → SameFiles c (close_fid fid c') → Held c (ok (fid, a), c')

-- The same for a node that is opened.
pub data Balanced {A : Type 0} (c : Client) : Reply (FileHandle × A) × Client → Type 0 where
  was_refused : (e : Errno) (c' : Client) → SameFiles c c' → Balanced c (refused e, c')
  was_opened :
      (fh : FileHandle) (a : A) (c' : Client)
      → SameFiles c (release_handle fh c')
      → Balanced c (answered (fh, a), c')

get_file-head : (fid h : ℕ) (files : List (ℕ × ℕ)) → get_file fid ((fid, h) ∷ files) ≡ some h
unfolding get_file
get_file-head fid h files = ground arith

without_fid-head :
    (fid h : ℕ) (files : List (ℕ × ℕ)) → without_fid fid ((fid, h) ∷ files) ≡ without_fid fid files
unfolding without_fid
without_fid-head fid h files = ground arith

-- The entry that has just been made is closed again.
close_fid-register :
    (n : ℕ) (c c' : Client)
    → IsOwned n c
    → Keeps (walked c) c'
    → SameFiles c (close_fid c'.next_fid (register c.next_handle c'))
unfolding close_fid register drop_handle close_file
close_fid-register n c c' owned k =
    let fresh : without_fid c'.next_fid c'.files ≡ c.files =
      rw (k.same_fid, k.same_files)
        (without_fid-fresh c.next_fid c.next_handle c.next_fid c.files (omega arith) owned.falls) in
    let fresh' : without_fid c'.next_fid c.files ≡ c.files =
      rw k.same_fid
        (without_fid-fresh c.next_fid c.next_handle c.next_fid c.files (omega arith) owned.falls) in
    rw (get_file-head c'.next_fid c.next_handle (without_fid c'.next_fid c'.files)) (record {
      files_same =
          without_fid-head c'.next_fid c.next_handle (without_fid c'.next_fid c'.files)
          ∙ ap (without_fid c'.next_fid) fresh
          ∙ fresh';
      opened_same = ap (shut c.next_handle) k.same_opened ∙ shut-head c.next_handle c.opened;
    })

keeping-Held :
    {A : Type 0} (n : ℕ) (c : Client) (r : Result A × Client)
    → IsOwned n c
    → Keeps (walked c) r.1
    → Held c (keeping c.next_handle r)
keeping-Held n c (ok a, c') owned k = is_held _ _ _ (close_fid-register n c c' owned k)
keeping-Held n c (err e, c') owned k =
    let shuts = shuts-Keeps c c' k in
    not_held _ _ (record { files_same = shuts.same_files; opened_same = shuts.same_opened })

-- What the calls made and the cache do not matter for.
with_calls :
    (n : ℕ) (c c' : Client)
    → c' ≡ record c { calls = c'.calls; attr_cache = c'.attr_cache }
    → IsOwned n c
    → IsOwned n c'
with_calls n c c' e owned =
    rw e (record { falls = owned.falls; handles = owned.handles; bounded = owned.bounded })

Held-from :
    {A : Type 0} (c c' : Client) (r : Result (ℕ × A) × Client)
    → SameFiles c c'
    → Held c' r
    → Held c r
Held-from c c' r same (not_held e d k) = not_held e d (record {
  files_same = k.files_same ∙ same.files_same;
  opened_same = k.opened_same ∙ same.opened_same;
})
Held-from c c' r same (is_held fid a d k) = is_held fid a d (record {
  files_same = k.files_same ∙ same.files_same;
  opened_same = k.opened_same ∙ same.opened_same;
})

abbrev HoldsFrom : {A : Type 0} → ℕ → M (ℕ × A) → Type 0
HoldsFrom n m = (c : Client) → IsOwned n c → Held c (m c)

-- What holds after the calls of Invalidate, from a state with the same files.
forgetting-all :
    {A : Type 0} (n : ℕ) (paths : List Bytes) (m : M A) (P : Result A × Client → Type 0)
    (c : Client)
    → IsOwned n c
    → ((c' : Client) → SameFiles c c' → IsOwned n c' → P (m c'))
    → P (forgetting paths m c)
unfolding forgetting
forgetting-all n [] m P c owned next =
    next c (record { files_same = refl; opened_same = refl }) owned
forgetting-all n (path ∷ paths) m P c owned next =
    forgetting-all n paths m P (forget path c) (with_calls n c (forget path c) refl owned)
      (λ c' same owned'.
        next c' (record { files_same = same.files_same; opened_same = same.opened_same }) owned')

-- An opened file is handed to the library.
handed :
    {A B : Type 0} (c : Client) (r : Result (ℕ × A) × Client) (path : Bytes) (b : B)
    → Held c r
    → Balanced c (reply eio (bound r (λ o. pure (record { path = path; fid = o.0 }, b))))
unfolding pure release_handle
handed c r path b (not_held e c' k) = was_refused eio c' k
handed c r path b (is_held fid a c' k) = was_opened _ b c' k

-- After the calls of Invalidate, too.
opening :
    {A B : Type 0} (n : ℕ) (paths : List Bytes) (m : M (ℕ × A)) (path : Bytes) (b : B)
    → HoldsFrom n m
    → (c : Client) → IsOwned n c
    → Balanced c (
        reply eio
          (forgetting paths (and_then m (λ o. pure (record { path = path; fid = o.0 }, b))) c))
unfolding and_then
opening {B = B} n paths m path b holds c owned =
    forgetting-all n paths (and_then m (λ o. pure (record { path = path; fid = o.0 }, b)))
      (λ r. Balanced {A = B} c (reply eio r)) c owned
      (λ c' same owned'. handed c (m c') path b (Held-from c c' (m c') same (holds c' owned')))

module _ (remote : Remote) (lib : Modes) where
  with_kept-Held :
      {A : Type 0} (n : ℕ) (names : List Bytes) (body : ℕ → M A)
      → ((h : ℕ) → IsKeeping (body h))
      → HoldsFrom n (with_kept remote names body)
  unfolding with_kept
  with_kept-Held n names body keeps c owned =
      let c' : Client = sent (walk names) c in
      let same : SameFiles c c' = record { files_same = refl; opened_same = refl } in
      elim (Bool-cases (remote.accepts (walk names ∷ c.calls))) [
        | inr e ↦ rw (with_kept, e) (not_held _ c' same)
        | inl e ↦
            rw (with_kept, e)
              (Held-from c c' _ same (
                keeping-Held n c' _ (with_calls n c c' refl owned)
                  ((keeps c.next_handle).keeps (walked c'))))
      ]

  open_path-Held :
      (n : ℕ) (path : Bytes) (flags : OpenFlags) → HoldsFrom n (open_path remote path flags)
  unfolding open_path
  open_path-Held n path flags c owned =
      with_kept-Held n (parse_path path) (λ h. call remote (open_file h flags) done)
        (λ h. call-IsKeeping remote (open_file h flags) done) c owned

  create_file-Held :
      (n : ℕ) (path : Bytes) (mode flags : ℕ) → HoldsFrom n (create_file remote path mode flags)
  unfolding create_file
  create_file-Held n path mode flags c owned =
      forgetting-all n (dir path ∷ []) _ (Held c) c owned (λ c' same owned'. Held-from c c' _ same (
        with_kept-Held n (parse_path (dir path)) _
          (λ h.
            call-IsKeeping remote
              (create h (base path) (flags_to_p9_create flags) (remote.permissions mode))
              remote.qid)
          c' owned'))

  open_node-Balanced :
      (n : ℕ) (path : Bytes) (flags : ℕ) (c : Client)
      → IsOwned n c
      → Balanced c (open_node remote lib path flags c)
  unfolding open_node
  open_node-Balanced n path flags c owned =
      opening n (if may_write flags then path ∷ [] else [])
        (open_path remote path (flags_to_p9 flags)) path (not (may_write flags))
        (open_path-Held n path (flags_to_p9 flags)) c owned

  create_node-Balanced :
      (n : ℕ) (path name : Bytes) (flags mode : ℕ) (c : Client)
      → IsOwned n c
      → Balanced c (create_node remote lib path name flags mode c)
  unfolding create_node
  create_node-Balanced n path name flags mode c owned =
      opening n (path ∷ []) (create_file remote (child_path path name) mode flags)
        (child_path path name) (made mode 0) (create_file-Held n (child_path path name) mode flags)
        c owned

  -- Where the open handles are those of the table of files, Open and Create of the FUSE server
  -- either answer an error and leave the table and the open handles as they were, or answer a
  -- file handle whose Release gives both back as they were.
  pub opens-Balanced :
      (n : ℕ) (path name : Bytes) (flags mode : ℕ) (c : Client)
      → IsOwned n c
      → Balanced c (open_node remote lib path flags c)
        × Balanced c (create_node remote lib path name flags mode c)
  opens-Balanced n path name flags mode c owned =
      (open_node-Balanced n path flags c owned, create_node-Balanced n path name flags mode c owned)
