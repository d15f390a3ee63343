-- ===== src/Guest/Client.antt =====
-- guest/9pfuse/client.go: the 9p client of the guest. The p9 library and the server behind it answer as
-- an arbitrary function of the calls made so far; a handle of the library is a number. The state is
-- what P9Client holds, with the handles that are open and the calls, the last first.
pub mod Names
pub mod Ops
pub mod Listing
pub mod Listed
pub mod Parsed
pub mod Owned
pub mod Held
pub mod Handles
mod Tests
use homura.Bytes.{Bytes}
use homura.Guest.AttrCache.{AttrCache, new_attr_cache}
use homura.Prelude.{
  ℕ, ◌+◌, ◌*◌, ◌%◌, ◌^◌, Bool, true, false, List, [], ◌∷◌, Option, none, some, ◌==◌, if◌then◌else◌,
}
use homura.VirtualFs.Directory.{Dirent}
use homura.VirtualFs.Lookup.{Attr}
use homura.VirtualFs.{FsStat, Qid}

pub data OpenFlags : Type 0 where
  read_only write_only read_write : OpenFlags

-- p9.SetAttr, with the fields that the mask has.
pub record AttrChange : Type 0 where
  pub permissions : Option ℕ
  pub uid : Option ℕ
  pub gid : Option ℕ
  pub size : Option ℕ
  pub atime : Option (ℕ × ℕ)
  pub mtime : Option (ℕ × ℕ)

-- What the client asks of p9.File; the handle is in front.
pub data Call : Type 0 where
  walk : List Bytes → Call
  open_file : ℕ → OpenFlags → Call
  create : ℕ → Bytes → OpenFlags → ℕ → Call
  get_attr get_ids read_link statfs fsync close : ℕ → Call
  read_at : ℕ → ℕ → ℕ → Call
  write_at : ℕ → Bytes → ℕ → Call
  readdir : ℕ → ℕ → ℕ → Call
  mkdir : ℕ → Bytes → ℕ → Call
  unlink_at : ℕ → Bytes → Call
  rename_at : ℕ → Bytes → ℕ → Bytes → Call
  set_attr : ℕ → AttrChange → Call
  symlink : ℕ → Bytes → Bytes → Call
  link : ℕ → ℕ → Bytes → Call

-- The answers: whether a call succeeds and with what, by the calls made, that one in front; the time
-- then, and FileMode.Permissions of the library.
pub record Remote : Type 0 where
  pub accepts : List Call → Bool
  pub qid : List Call → Qid
  pub attr : List Call → Attr
  pub entries : List Call → List Dirent
  pub content : List Call → Bytes
  pub written : List Call → ℕ
  pub stat : List Call → FsStat
  pub now : List Call → ℕ
  pub permissions : ℕ → ℕ

pub record Client : Type 0 where
  pub files : List (ℕ × ℕ)
  pub next_fid : ℕ
  pub attr_cache : AttrCache
  pub opened : List ℕ
  pub next_handle : ℕ
  pub calls : List Call

-- NewP9Client, once it is attached; the cache holds for 100 ms.
abbrev pub new_client : Client
new_client = record {
  files = [];
  next_fid = 1;
  attr_cache = new_attr_cache (100 * 1000 * 1000);
  opened = [];
  next_handle = 0;
  calls = [];
}

pub data ClientError : Type 0 where
  walk_failed call_failed invalid_handle endless : ClientError

pub data Result (A : Type 0) : Type 0 where
  ok : A → Result A
  err : ClientError → Result A

abbrev pub M : Type 0 → Type 0
M A = Client → Result A × Client

-- A handle is open once.
unfoldable pub shut : ℕ → List ℕ → List ℕ
shut h [] = []
shut h (x ∷ xs) = let rest = shut h xs in if x == h then xs else x ∷ rest

abbrev pub sent : Call → Client → Client
sent call c = record c { calls = call ∷ c.calls }

-- File.Close, whose error is not looked at.
unfoldable pub close_file : ℕ → Client → Client
unfolding shut
close_file h c = record c { calls = close h ∷ c.calls; opened = shut h c.opened }

-- The handle that Walk makes.
abbrev pub walked : Client → Client
walked c = record c { opened = c.next_handle ∷ c.opened; next_handle = c.next_handle + 1 }

abbrev pub closing : {A : Type 0} → ℕ → Result A × Client → Result A × Client
closing h (r, c) = (r, close_file h c)

abbrev pub bound : {A B : Type 0} → Result A × Client → (A → M B) → Result B × Client
bound (ok a, c) f = f a c
bound (err e, c) f = (err e, c)

unfoldable pub and_then : {A B : Type 0} → M A → (A → M B) → M B
and_then m f c = bound (m c) f

infixl 5 ◌>>=◌
abbrev pub ◌>>=◌ : {A B : Type 0} → M A → (A → M B) → M B
m >>= f = and_then m f

unfoldable pub pure : {A : Type 0} → A → M A
pure a c = (ok a, c)

unfoldable pub fail : {A : Type 0} → ClientError → M A
fail e c = (err e, c)

module _ (remote : Remote) where
  -- One call on a handle, and its result, which is read off the calls.
  unfoldable pub call : {A : Type 0} → Call → (List Call → A) → M A
  call request result c = elim (remote.accepts (request ∷ c.calls)) [
    | true ↦ (ok (result (request ∷ c.calls)), sent request c)
    | false ↦ (err call_failed, sent request c)
  ]

  -- A walk from the root, what is done with its file, and the deferred Close.
  unfoldable pub with_walked : {A : Type 0} → List Bytes → (ℕ → M A) → M A
  unfolding close_file
  with_walked names body c = elim (remote.accepts (walk names ∷ c.calls)) [
    | true ↦ closing c.next_handle (body c.next_handle (walked (sent (walk names) c)))
    | false ↦ (err walk_failed, sent (walk names) c)
  ]

-- allocateFID, of 32 bits, and the entry of the table for it.
unfoldable pub without_fid : ℕ → List (ℕ × ℕ) → List (ℕ × ℕ)
without_fid fid [] = []
without_fid fid ((f, h) ∷ files) =
    let rest = without_fid fid files in if f == fid then rest else (f, h) ∷ rest

unfoldable pub register : ℕ → Client → Client
unfolding without_fid
register h c = record c {
  files = (c.next_fid, h) ∷ without_fid c.next_fid c.files;
  next_fid = (c.next_fid + 1) % 2 ^ 32;
}

-- GetFile
unfoldable pub get_file : ℕ → List (ℕ × ℕ) → Option ℕ
get_file fid [] = none
get_file fid ((f, h) ∷ files) = let rest = get_file fid files in if f == fid then some h else rest
