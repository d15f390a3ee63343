-- ===== src/Paths.antt =====
-- What the sources use of Go's `path` and `strings` packages (Clean, IsAbs, Join, Dir, Split), over
-- byte strings. `clean` follows the lexical rules that the package documents.
mod Split
pub mod Absolute
use mathlib.Core.List.{reverse}
use homura.Bytes.{Bytes, bytes_dec}
use homura.Prelude.{ℕ, Bool, true, false, List, [], ◌∷◌, ◌++◌, ◌==◌, if◌then◌else◌, ite}
unfoldable pub use Split.{slash, split, join, extend}
pub use Split.{join-split, split-ne-nil}

abbrev pub dot : ℕ
dot = b'.'

abbrev pub dot_dot : Bytes
dot_dot = dot ∷ dot ∷ []

-- `path.IsAbs`
unfoldable pub is_abs : Bytes → Bool
is_abs [] = false
is_abs (c ∷ s) = c == slash

-- A ".." against the stack of kept elements: it drops the last one, stays at a root, and is kept
-- where a relative path has nothing to drop.
unfoldable pub go_up : Bool → List Bytes → List Bytes
go_up true [] = []
go_up false [] = dot_dot ∷ []
go_up rooted (e ∷ stack) = ite (bytes_dec e dot_dot) (dot_dot ∷ e ∷ stack) stack

-- The kept elements, the last in front, after the elements of the second list.
unfoldable pub clean_parts : Bool → List Bytes → List Bytes → List Bytes
unfolding go_up
clean_parts rooted stack [] = stack
clean_parts rooted stack (c ∷ cs) =
    clean_parts rooted
      (ite (bytes_dec c []) stack (
        ite (bytes_dec c (dot ∷ [])) stack
          (ite (bytes_dec c dot_dot) (go_up rooted stack) (c ∷ stack))))
      cs

-- A relative path that vanishes is ".".
unfoldable pub print : Bool → List Bytes → Bytes
unfolding join
print true parts = slash ∷ join parts
print false [] = dot ∷ []
print false (p ∷ ps) = join (p ∷ ps)

-- `path.Clean`
unfoldable pub clean : Bytes → Bytes
unfolding is_abs split clean_parts print
clean p = print (is_abs p) (reverse (clean_parts (is_abs p) [] (split p)))

-- `path.Join` of two elements: the empty ones are left out.
unfoldable pub join_paths : Bytes → Bytes → Bytes
unfolding clean
join_paths [] [] = []
join_paths [] (c ∷ q) = clean (c ∷ q)
join_paths (c ∷ p) [] = clean (c ∷ p)
join_paths (c ∷ p) (d ∷ q) = clean ((c ∷ p) ++ (slash ∷ d ∷ q))

-- The text up to the last slash, that slash included.
unfoldable pub up_to_slash : Bytes → Bytes
up_to_slash [] = []
up_to_slash (c ∷ s) = elim (up_to_slash s) [
  | [] ↦ if c == slash then c ∷ [] else []
  | d ∷ r ↦ c ∷ d ∷ r
]

-- `path.Dir`
unfoldable pub dir : Bytes → Bytes
unfolding clean up_to_slash
dir p = clean (up_to_slash p)

-- The last element that is not empty, else the one given.
unfoldable pub last_name : Bytes → List Bytes → Bytes
last_name name [] = name
last_name name ([] ∷ rest) = last_name name rest
last_name name ((c ∷ s) ∷ rest) = last_name (c ∷ s) rest

-- `filepath.Base`
unfoldable pub base : Bytes → Bytes
unfolding split last_name
base [] = dot ∷ []
base (c ∷ s) = last_name (slash ∷ []) (split (c ∷ s))
