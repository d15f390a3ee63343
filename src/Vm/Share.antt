-- ===== src/Vm/Share.antt =====
-- The file system daemons of a VM: internal/vm/virtiofsd.go, and 9passthrough as NewVM starts it.
use homura.Bytes.{Bytes, codes, bytes_dec}
use homura.Decimal.{decimal}
use homura.Paths.{join_paths}
use homura.Git.{split_lines}
use homura.Prelude.{
  ℕ, Bool, true, false, List, [], ◌∷◌, ◌++◌, Option, none, some, ltb, leb, not, length,
  if◌then◌else◌, ite, map, ◌==◌, ◌^◌, ◌&&◌,
}
use homura.Vm.{
  Host, World, absent, running, zombie, M, ◌>>=◌, ◌>>◌, pure, need, check, modify, remove_state_dir,
  fd_limit, no_virtiofsd, no_token, no_port, virtiofsd_failed, virtiofsd_not_ready, no_ninep,
  ninep_failed, no_token_file, bad_token_file, bad_port,
}
use homura.Vm.Dirs.{digits, trim_space}
use homura.VmConfig.{PathSpec, format_path_arg}

abbrev pub min_file_descriptors : ℕ
min_file_descriptors = 100000

-- VirtiofsManager; its Cmd is set once the daemon is started.
pub record VirtiofsManager : Type 0 where
  pub binary_path : Bytes
  pub socket_path : Bytes
  pub admin_port : ℕ
  pub vm_port : ℕ
  pub admin_token : Bytes
  pub vm_token : Bytes
  pub home_dir : Bytes
  pub work_dir : Bytes
  pub extra_paths : List PathSpec
  pub slot_number : ℕ
  pub pid : Option ℕ

abbrev pub claude_md : Bytes → Bytes
claude_md home =
    join_paths (join_paths (join_paths home (codes ".config")) (codes "homura")) (codes "CLAUDE.md")

-- The argument for one shared path.
abbrev pub share : Bytes → Bytes → Bytes
share path mode = codes "--share=" ++ path ++ codes ":" ++ mode

abbrev pub share_of : PathSpec → Bytes
share_of spec = share spec.path (if spec.read_only then codes "ro" else codes "rw")

abbrev pub only_if : Bool → List Bytes → List Bytes
only_if true args = args
only_if false args = []

-- VirtiofsManager.Stop of a daemon that was started: it is killed and waited for.
abbrev pub stop_fs_daemon : World → World
stop_fs_daemon w = record w { fs_daemon = absent }

-- Whether a path is among those that are added.
unfoldable pub added : Bytes → List Bytes → Bool
unfolding bytes_dec
added path [] = false
added path (p ∷ paths) = ite (bytes_dec path p) true (added path paths)

-- The configured paths that are not added yet, as arguments.
unfoldable pub configured_args : List Bytes → List PathSpec → List Bytes
unfolding added format_path_arg
configured_args paths [] = []
configured_args paths (spec ∷ specs) =
    let skipped = configured_args paths specs in
    let kept = format_path_arg spec ∷ configured_args (spec.path ∷ paths) specs in
    if added spec.path paths then skipped else kept

module _ (h : Host) where
  -- The arguments of virtiofsd in VirtiofsManager.Start.
  unfoldable pub virtiofsd_args : VirtiofsManager → List Bytes
  unfolding join_paths decimal
  virtiofsd_args v =
      (codes "--socket-path=" ++ v.socket_path)
      ∷ codes "--shared-dir=/"
      ∷ codes "--sandbox=none"
      ∷ codes "--seccomp=none"
      ∷ codes "--http-control"
      ∷ (codes "--admin-api-port=" ++ decimal v.admin_port)
      ∷ (codes "--vm-api-port=" ++ decimal v.vm_port)
      ∷ (codes "--admin-token=" ++ v.admin_token)
      ∷ (codes "--vm-token=" ++ v.vm_token)
      ∷ (codes "--vm-name=" ++ v.work_dir ++ codes ":" ++ decimal v.slot_number)
      ∷ (codes "--translate-uid=map:0:" ++ decimal h.uid ++ codes ":1")
      ∷ (codes "--translate-gid=map:0:" ++ decimal h.gid ++ codes ":1")
      ∷ share v.work_dir (codes "rw")
      ∷ (only_if (h.exists (join_paths v.home_dir (codes ".claude.json")))
            (share (join_paths v.home_dir (codes ".claude.json")) (codes "rw") ∷ [])
          ++ only_if (h.exists (join_paths v.home_dir (codes ".claude")))
              (share (join_paths v.home_dir (codes ".claude")) (codes "rw") ∷ [])
          ++ (share (join_paths v.home_dir (codes ".claude.lock")) (codes "rw") ∷ [])
          ++ only_if (h.exists (claude_md v.home_dir))
              (share (claude_md v.home_dir) (codes "ro") ∷ [])
          ++ map share_of v.extra_paths)

  -- NewVirtiofsManager
  unfoldable pub new_virtiofs_manager :
      Bytes → Bytes → Bytes → ℕ → List PathSpec → M VirtiofsManager
  unfolding remove_state_dir join_paths
  new_virtiofs_manager state_dir home work_dir slot extra = do
    cache_root ← need (remove_state_dir h) no_virtiofsd h.cache_root
    check (remove_state_dir h) no_virtiofsd h.virtiofsd_found
    (admin, guest) ← need (remove_state_dir h) no_token h.tokens
    (admin_port, vm_port) ← need (remove_state_dir h) no_port h.ports
    pure (record {
      binary_path = join_paths (join_paths cache_root (codes "bin")) (codes "virtiofsd");
      socket_path = join_paths state_dir (codes "virtiofs.sock");
      admin_port = admin_port;
      vm_port = vm_port;
      admin_token = admin;
      vm_token = guest;
      home_dir = home;
      work_dir = work_dir;
      extra_paths = extra;
      slot_number = slot;
      pid = none;
    })

  -- VirtiofsManager.Start, and what NewVM does where it fails.
  unfoldable pub start_virtiofsd : VirtiofsManager → M VirtiofsManager
  unfolding remove_state_dir virtiofsd_args
  start_virtiofsd v = do
    pid ← need (remove_state_dir h) virtiofsd_failed (h.virtiofsd_starts (virtiofsd_args v))
    modify (λ w. record w { fs_daemon = running })
    check (λ w. remove_state_dir h (stop_fs_daemon w)) virtiofsd_not_ready h.socket_appears
    check (λ w. remove_state_dir h (stop_fs_daemon w)) no_token h.writes_token
    modify (λ w. record w { token_file = true })
    pure (record v { pid = some pid })

  -- checkFileDescriptorLimit
  unfoldable pub check_fd_limit : M (Unit {0})
  unfolding remove_state_dir
  check_fd_limit = do
    limit ← need (remove_state_dir h) fd_limit h.fd_limit
    check (remove_state_dir h) fd_limit (leb min_file_descriptors limit)

  -- The paths of the host's own configuration that are shared.
  unfoldable pub builtin_paths : Bytes → List Bytes
  unfolding join_paths
  builtin_paths home =
      only_if (h.exists (join_paths home (codes ".claude.json")))
        (join_paths home (codes ".claude.json") ∷ [])
      ++ only_if (h.exists (join_paths home (codes ".claude")))
          (join_paths home (codes ".claude") ∷ [])
      ++ (join_paths home (codes ".claude.lock") ∷ [])

  -- The arguments of 9passthrough.
  unfoldable pub ninep_args : Bytes → Bytes → List PathSpec → List Bytes
  unfolding builtin_paths configured_args join_paths
  ninep_args work_dir home extra =
      let own = work_dir ∷ builtin_paths home in
      let guide = only_if (h.exists (claude_md home)) (claude_md home ∷ []) in
      own ++ map (λ p. p ++ codes ":ro") guide ++ configured_args (own ++ guide) extra

-- strconv.Atoi: the sign, and the number behind it, at 64 bits.
unfoldable pub atoi : Bytes → Option (Bool × ℕ)
unfolding digits
atoi [] = none
atoi (c ∷ s) =
    let signed = (c == b'-') in
    let rest = if signed then s else if c == b'+' then s else c ∷ s in
    if length rest == 0 then none else elim (digits 0 rest) [
      | none ↦ none
      | some n ↦
          if ltb n (2 ^ 63)
          then some (signed && not (n == 0), n)
          else if signed && (n == 2 ^ 63)
          then some (signed, n)
          else none
    ]

-- What the token file of 9passthrough says.
pub record NinepInfo : Type 0 where
  pub pid : ℕ
  pub token : Bytes
  pub control_port : Bool × ℕ
  pub port : Bool × ℕ

-- The three lines of a token file, or how it is wrong.
pub data TokenFile : Type 0 where
  too_few_lines bad_number : TokenFile
  parsed : Bytes → Bool × ℕ → Bool × ℕ → TokenFile

abbrev pub numbers : Bytes → Option (Bool × ℕ) → Option (Bool × ℕ) → TokenFile
numbers token none port = bad_number
numbers token (some c) none = bad_number
numbers token (some c) (some p) = parsed token c p

unfoldable pub parse_lines : List Bytes → TokenFile
unfolding atoi
parse_lines (token ∷ control ∷ port ∷ rest) = numbers token (atoi control) (atoi port)
parse_lines lines = too_few_lines

unfoldable pub parse_token_file : Bytes → TokenFile
unfolding parse_lines split_lines trim_space
parse_token_file text = parse_lines (split_lines (trim_space text))

module _ (h : Host) where
  -- The daemon is killed, which leaves its files, and not waited for.
  abbrev pub kill_ninep : World → World
  kill_ninep w = remove_state_dir h (record w { fs_daemon = zombie })

  unfoldable pub accept_token_file : ℕ → TokenFile → M NinepInfo
  unfolding remove_state_dir
  accept_token_file pid too_few_lines w = (need (kill_ninep) bad_token_file none w)
  accept_token_file pid bad_number w = (need (kill_ninep) bad_port none w)
  accept_token_file pid (parsed token control port) w =
      pure (record { pid = pid; token = token; control_port = control; port = port }) w

  -- NewVM's start of 9passthrough, which makes its control socket, and its token file after that. It
  -- may have come to the socket where its token file is not found in time.
  unfoldable pub start_ninep : Bytes → List Bytes → M NinepInfo
  unfolding remove_state_dir accept_token_file parse_token_file join_paths
  start_ninep cache_root args = do
    check (remove_state_dir h) no_ninep
        (h.exists (join_paths (join_paths cache_root (codes "bin")) (codes "9passthrough")))
    pid ← need (remove_state_dir h) ninep_failed (h.ninep_starts args)
    modify (λ w. record w { fs_daemon = running; control_socket = h.ninep_listens })
    text ← need kill_ninep no_token_file h.token_text
    modify (λ w. record w { token_file = true; control_socket = true })
    accept_token_file pid (parse_token_file text)
