-- ===== src/Guest/Client/Owned.antt =====
-- The file handles of the 9p client: which are open, and who closes them.
pub mod Calls
pub mod Steps
use homura.Bytes.{Bytes}
use homura.Guest.Client.Listing.{read_dir}
use homura.Guest.Client.Ops.{
  done, keeping, drop_handle, close_fid, with_kept, open_path, create_file, get_attrs, read, write,
  sync, readlink, stat_fs, make_dir, unlink, rename, truncate, chmod, chown, utimens, make_symlink,
  make_link, forget, forgetting,
}
use homura.Guest.Client.Names.{flags_to_p9_create}
use homura.Guest.Client.Owned.Calls.{Method, apply, apply-Keeps}
use homura.Guest.Client.Owned.Steps.{
  Keeps, IsKeeping, kept, shuts-Keeps, call-IsKeeping, forgetting-IsKeeping,
}
use homura.Guest.Client.{
  OpenFlags, Remote, Client, Result, ok, err, M, new_client, open_file, create, sent, walked,
  close_file, shut, call, with_walked, without_fid, register, get_file, walk,
}
use homura.Paths.{dir, base}
use homura.Prelude.{
  ℕ, suc, ◌+◌, ◌^◌, ◌%◌, ◌≤◌, ◌<◌, ◌≡◌, ◌≢◌, refl, sym, ap, ◌∙◌, subst, Bool, true, false, List, [],
  ◌∷◌, Option, none, some, length, arith, ◌==◌, map, Bool-cases, inl, inr,
}

-- The files of a table have falling identifiers and handles, below those given.
abbrev pub Falls : ℕ → ℕ → List (ℕ × ℕ) → Type 0
Falls fid handle [] = Unit
Falls fid handle ((f, h) ∷ files) = (f < fid) × (h < handle) × Falls f h files

abbrev pub handle_of : ℕ × ℕ → ℕ
handle_of (f, h) = h

-- The handles that are open are those of the table, and at most n - 1 identifiers have been given.
pub record IsOwned (n : ℕ) (c : Client) : Type 0 where
  pub falls : Falls c.next_fid c.next_handle c.files
  pub handles : c.opened ≡ map handle_of c.files
  pub bounded : c.next_fid ≤ n

Falls-mono :
    (f h f' h' : ℕ) (files : List (ℕ × ℕ)) → f ≤ f' → h ≤ h' → Falls f h files → Falls f' h' files
Falls-mono f h f' h' [] a b e = tt
Falls-mono f h f' h' ((g, k) ∷ files) a b (below, under, rest) = (omega arith, omega arith, rest)

pub without_fid-fresh :
    (f h fid : ℕ) (files : List (ℕ × ℕ)) → f ≤ fid → Falls f h files → without_fid fid files ≡ files
unfolding without_fid
without_fid-fresh f h fid [] a e = refl
without_fid-fresh f h fid ((g, k) ∷ files) a (below, under, rest) =
    let later = without_fid-fresh g k fid files (omega arith) rest in ground (arith, later)
