-- ===== src/Registry/Root.antt =====
-- The registry whose only listed path is the root.
use homura.Bytes.{Bytes}
use homura.Paths.{clean, slash}
use homura.Prelude.{ℕ, zero, suc, ◌≡◌, ◌≢◌, refl, true, List, [], ◌∷◌, arith, inl, inr, length}
use homura.Registry.Effects.{Sees-unique}
use homura.Registry.Invariant.{IsConsistent}
use homura.Registry.Visibility.{Covers, LiesAbove, check_path-Sees, concat_cons-ne-nil}
use homura.Registry.{
  PathRegistry, not_visible, flag, split_path, ancestor_path, read_only_from, check_path,
  is_read_only,
}

abbrev pub root_path : Bytes
root_path = slash ∷ []

-- Nothing but the root is listed.
pub record OnlyRoot (pr : PathRegistry) : Type 0 where
  pub has_root : flag pr.exposed root_path ≡ true
  pub only : (e : Bytes) → flag pr.exposed e ≡ true → e ≡ root_path

split_path-root : split_path root_path ≡ []
unfolding split_path
split_path-root = refl

module _ (pr : PathRegistry) (alone : OnlyRoot pr) where
  not-Covers : (q : Bytes) → split_path q ≢ [] → ¬ Covers pr q
  not-Covers q h (e, f, rest, eq, inl same) = h (cc (alone.only e f, split_path-root))
  not-Covers q h (e, f, rest, eq, inr below) = below (cc (alone.only e f, split_path-root))

  not-LiesAbove : (q : Bytes) → ¬ LiesAbove pr q
  not-LiesAbove q (e, f, c, rest, eq) =
      concat_cons-ne-nil (split_path q) c rest (cc (alone.only e f, split_path-root))

  read_only_from-root :
      (cs : List Bytes) (n : ℕ) → read_only_from pr cs n ≡ flag pr.read_only root_path
  unfolding read_only_from
  read_only_from-root cs zero = ground (arith, alone.has_root)
  read_only_from-root cs (suc n) =
      ground (arith, alone.only (ancestor_path cs (suc n)), read_only_from-root cs n)

  -- On a consistent registry that lists the root alone, every path with components is not
  -- visible to CheckPath, and IsReadOnly of it answers the flag of the root all the same.
  pub check_path-root_alone :
      (p : Bytes)
      → IsConsistent pr
      → split_path (clean p) ≢ []
      → (check_path pr p ≡ not_visible) × (is_read_only pr p ≡ flag pr.read_only root_path)
  unfolding is_read_only
  check_path-root_alone p ok h = (
    Sees-unique pr (clean p) (check_path pr p) not_visible (check_path-Sees pr p ok)
        (not-Covers (clean p) h, h, not-LiesAbove (clean p)),
    ground (
      arith,
      alone.only (clean p),
      read_only_from-root (split_path (clean p)) (length (split_path (clean p))),
    ),
  )
