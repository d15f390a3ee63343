-- ===== src/Vm/Dirs.antt =====
-- The state directory and the SSH key of a new VM.
use mathlib.Core.List.{reverse}
use homura.Bytes.{Bytes, codes}
use homura.Paths.{join_paths}
use homura.Prelude.{
  ℕ, ◌+◌, ◌-◌, ◌*◌, ◌%◌, ◌^◌, Bool, true, false, ◌&&◌, ◌||◌, List, [], ◌∷◌, Option, none, some,
  ◌==◌, leb, ltb, length, map, if◌then◌else◌,
}
use homura.Vm.{
  Host, M, Config, ◌>>=◌, ◌>>◌, pure, need, check, modify, as_is, remove_state_dir, no_state_base,
  no_state_dir, bad_size, no_space, path_too_long, no_ssh_key,
}
use homura.VmConfig.{has_suffix, trim_suffix}

-- resolveStateDir, by the environment variable and the configured directory
unfoldable pub resolve_state_dir : Bytes → Bytes → Bytes → Bytes → Bytes × Bool
unfolding join_paths
resolve_state_dir (c ∷ s) env config cache_root = (c ∷ s, false)
resolve_state_dir [] (c ∷ s) config cache_root = (c ∷ s, false)
resolve_state_dir [] [] (c ∷ s) cache_root = (c ∷ s, false)
resolve_state_dir [] [] [] cache_root = (join_paths cache_root (codes "state"), true)

abbrev pub ephemeral_disk_size : Bytes
ephemeral_disk_size = codes "50G"

abbrev pub is_space : ℕ → Bool
is_space c = (c == 32) || (leb 9 c && leb c 13)

-- strings.TrimSpace
unfoldable pub trim_left : Bytes → Bytes
trim_left [] = []
trim_left (c ∷ s) = let rest = trim_left s in if is_space c then rest else c ∷ s

unfoldable pub trim_space : Bytes → Bytes
unfolding trim_left
trim_space s = reverse (trim_left (reverse (trim_left s)))

-- strings.ToUpper of ASCII
abbrev pub to_upper : ℕ → ℕ
to_upper c = if leb 97 c && leb c 122 then c - 32 else c

-- The number that decimal digits stand for.
unfoldable pub digits : ℕ → Bytes → Option ℕ
digits acc [] = some acc
digits acc (c ∷ s) =
    let rest = digits (acc * 10 + (c - 48)) s in if leb 48 c && leb c 57 then rest else none

-- strconv.ParseUint in base 10 at 64 bits
unfoldable pub parse_uint : Bytes → Option ℕ
unfolding digits
parse_uint [] = none
parse_uint (c ∷ s) = elim (digits 0 (c ∷ s)) [
  | none ↦ none
  | some n ↦ if ltb n (2 ^ 64) then some n else none
]

-- The unit of a size, and the number in front of it.
unfoldable pub size_unit : Bytes → ℕ × Bytes
unfolding has_suffix trim_suffix
size_unit s =
    if has_suffix s (codes "G")
    then (1024 * 1024 * 1024, trim_suffix s (codes "G"))
    else if has_suffix s (codes "M")
    then (1024 * 1024, trim_suffix s (codes "M"))
    else if has_suffix s (codes "K")
    then (1024, trim_suffix s (codes "K"))
    else (1, s)

-- rootfsSizeBytes, of any size
unfoldable pub rootfs_size_bytes : Bytes → Option ℕ
unfolding trim_space size_unit parse_uint
rootfs_size_bytes size =
    let (unit, number) = size_unit (map to_upper (trim_space size)) in
    elim (parse_uint number) [ none ↦ none | some n ↦ some (n * unit % 2 ^ 64) ]

module _ (h : Host) where
  -- checkStateDirSpace, after the size is known; the directory goes where it fails.
  unfoldable pub check_state_dir_space : ℕ → M (Unit {0})
  unfolding remove_state_dir
  check_state_dir_space needed = do
    available ← need (remove_state_dir h) no_space h.free_bytes
    check (remove_state_dir h) no_space (leb needed available)

  -- The check of the default directory.
  unfoldable pub check_default : Bool → M (Unit {0})
  unfolding check_state_dir_space rootfs_size_bytes remove_state_dir
  check_default false = pure tt
  check_default true = do
    needed ← need (remove_state_dir h) bad_size (rootfs_size_bytes ephemeral_disk_size)
    check_state_dir_space needed

  -- NewVM from the state base to the length check: the directory that is made.
  unfoldable pub make_state_dir : Bytes → Config → Bytes → M Bytes
  unfolding resolve_state_dir check_default remove_state_dir join_paths
  make_state_dir state_dir_base config cache_root = do
    let (base, defaulted) =
        resolve_state_dir state_dir_base h.env_state_dir config.state_dir cache_root
    check as_is no_state_base ((length base == 0) || h.makes_base)
    dir ← need as_is no_state_dir h.temp_dir
    modify (λ w. record w { state_dir = true })
    check_default defaulted
    check (remove_state_dir h) path_too_long
        (leb (length (join_paths dir (codes "virtiofs.sock"))) 104)
    pure dir

  -- The first of the keys that is there.
  unfoldable pub first_existing : List Bytes → Option Bytes
  first_existing [] = none
  first_existing (path ∷ paths) =
      let rest = first_existing paths in if h.exists path then some path else rest

  unfoldable pub find_ssh_key : Bytes → M Bytes
  unfolding first_existing remove_state_dir join_paths
  find_ssh_key home =
      let dir = join_paths home (codes ".ssh") in
      need (remove_state_dir h) no_ssh_key (
        first_existing (
          join_paths dir (codes "id_ed25519.pub")
          ∷ join_paths dir (codes "id_rsa.pub")
          ∷ join_paths dir (codes "id_ecdsa.pub")
          ∷ []))
