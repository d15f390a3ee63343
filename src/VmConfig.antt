-- ===== src/VmConfig.antt =====
-- internal/vm/vmconfig.go: the paths that a VM's configuration allows, and 9passthrough/main.go, which
-- reads them from its arguments.
pub mod Args
pub mod Dedupe
mod Tests
use homura.Bytes.{Bytes, bytes_dec, codes}
use homura.Paths.{clean, join_paths}
use homura.Prelude.{
  ℕ, ◌-◌, Bool, true, false, ◌&&◌, List, [], ◌∷◌, ◌++◌, map, if◌then◌else◌, ite, leb, length, take,
  drop,
}

pub record PathSpec : Type 0 where
  pub path : Bytes
  pub read_only : Bool

-- strings.HasSuffix
unfoldable pub has_suffix : Bytes → Bytes → Bool
unfolding bytes_dec
has_suffix s suffix =
    leb (length suffix) (length s)
    && ite (bytes_dec (drop (length s - length suffix) s) suffix) true false

-- strings.TrimSuffix
unfoldable pub trim_suffix : Bytes → Bytes → Bytes
unfolding has_suffix
trim_suffix s suffix = if has_suffix s suffix then take (length s - length suffix) s else s

-- ParsePathSpec
unfoldable pub parse_path_spec : Bytes → PathSpec
parse_path_spec spec =
    if has_suffix spec (codes ":ro")
    then record { path = trim_suffix spec (codes ":ro"); read_only = true }
    else if has_suffix spec (codes ":rw")
    then record { path = trim_suffix spec (codes ":rw"); read_only = false }
    else record { path = spec; read_only = false }

-- parsePathSpec of 9passthrough/main.go
unfoldable pub parse_path_arg : Bytes → Bytes × Bool
parse_path_arg spec =
    if has_suffix spec (codes ":ro")
    then (trim_suffix spec (codes ":ro"), true)
    else if has_suffix spec (codes ":rw")
    then (trim_suffix spec (codes ":rw"), false)
    else (spec, false)

-- FormatPathArg
unfoldable pub format_path_arg : PathSpec → Bytes
format_path_arg s = if s.read_only then s.path ++ codes ":ro" else s.path

-- autoExposePaths; filepath.Join of more elements joins the first ones first.
unfoldable pub auto_expose_paths : Bytes → List Bytes
unfolding join_paths
auto_expose_paths home =
    join_paths home (codes ".claude.json")
    ∷ join_paths home (codes ".claude")
    ∷ join_paths home (codes ".claude.lock")
    ∷ join_paths (join_paths (join_paths home (codes ".config")) (codes "homura"))
        (codes "CLAUDE.md")
    ∷ []

-- A look into a set of paths.
unfoldable pub known : Bytes → List Bytes → Bool
unfolding bytes_dec
known path [] = false
known path (p ∷ paths) = ite (bytes_dec path p) true (known path paths)

-- The path by which allowed paths are compared.
unfoldable pub cleaned_path : Bytes → Bytes
unfolding parse_path_spec clean
cleaned_path p = clean (parse_path_spec p).path

-- The loop of dedupeAllowPaths, with the cleaned paths of autoExposePaths and those seen.
unfoldable pub dedupe_each : List Bytes → List Bytes → List Bytes → List Bytes
unfolding known cleaned_path
dedupe_each auto seen [] = []
dedupe_each auto seen (p ∷ paths) =
    let skipped = dedupe_each auto seen paths in
    let kept = p ∷ dedupe_each auto (cleaned_path p ∷ seen) paths in
    if known (cleaned_path p) auto
    then skipped
    else if known (cleaned_path p) seen
    then skipped
    else kept

-- dedupeAllowPaths
unfoldable pub dedupe_allow_paths : List Bytes → Bytes → List Bytes
unfolding dedupe_each auto_expose_paths clean
dedupe_allow_paths paths home =
    let auto = map clean (auto_expose_paths home) in dedupe_each auto auto paths

-- GetAllowPaths
unfoldable pub get_allow_paths : List Bytes → List PathSpec
unfolding parse_path_spec
get_allow_paths paths = map parse_path_spec paths
