-- ===== src/VmConfig/Tests.antt =====
-- Allowed paths, and the theorems on them.
use homura.Bytes.{Bytes, codes, bytes_dec}
use homura.Paths.{clean, join_paths}
use homura.Prelude.{◌≡◌, ◌↔◌, refl, true, false, List, [], ◌∷◌}
use homura.VmConfig.Args.{IsPlain, parse_path_arg-format_path_arg}
use homura.VmConfig.Dedupe.{IsDeduped, auto_paths, dedupe_allow_paths-IsDeduped}
use homura.VmConfig.{
  PathSpec, has_suffix, trim_suffix, parse_path_spec, parse_path_arg, format_path_arg,
  auto_expose_paths, known, cleaned_path, dedupe_each, dedupe_allow_paths, get_allow_paths,
}

program : Unit {0}
unfolding has_suffix trim_suffix parse_path_spec parse_path_arg format_path_arg auto_expose_paths
    known cleaned_path dedupe_each dedupe_allow_paths get_allow_paths clean join_paths bytes_dec
program = tt

abbrev allowed : List Bytes
allowed = codes "/w:ro" ∷ codes "/h/.claude/" ∷ codes "/w/" ∷ codes "/x:rw" ∷ []

-- A path that is to be writable, but whose name ends like a read-only one.
abbrev odd : PathSpec
odd = record { path = codes "/x:ro"; read_only = false }

parsed :
    (dedupe_allow_paths allowed (codes "/h") ≡ (codes "/w:ro" ∷ codes "/x:rw" ∷ []))
    × (get_allow_paths (codes "/w:ro" ∷ []) ≡ (record { path = codes "/w"; read_only = true } ∷ []))
    × (parse_path_spec (codes "/x:ro:rw") ≡ odd)
    × (parse_path_arg (format_path_arg odd) ≡ (codes "/x", true))
unfolding program
parsed = (refl, refl, refl, refl)

parse_path_arg-format_path_arg_example :
    (parse_path_arg (format_path_arg odd) ≡ (codes "/x:ro", false)) ↔ IsPlain odd
parse_path_arg-format_path_arg_example = parse_path_arg-format_path_arg odd

dedupe_allow_paths-IsDeduped_example :
    IsDeduped
      (auto_paths (codes "/h"))
      (auto_paths (codes "/h"))
      allowed
      (dedupe_allow_paths allowed (codes "/h"))
dedupe_allow_paths-IsDeduped_example = dedupe_allow_paths-IsDeduped allowed (codes "/h")
