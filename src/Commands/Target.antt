-- ===== src/Commands/Target.antt =====
-- The directory that a command is about, and the VM that `homura vm run` runs in: vm.go and
-- vm_run.go of internal/commands, with LoadState of internal/config/state.go.
use homura.Bytes.{Bytes, codes}
use homura.Commands.Run.{split_run_args, build_remote_cmd}
use homura.Daemon.Start.{StartParams, parse_share_mode}
use homura.Git.{Stat, missing, get_homura_dir, get_copy_path, get_repo_root}
use homura.Outcome.{Outcome, ok, err, ◌>>=◌}
use homura.Paths.{join_paths}
use homura.Prelude.{ℕ, Bool, true, false, Option, none, some, List, [], ◌∷◌, if◌then◌else◌}
use homura.Vm.Share.{atoi}
use homura.Vm.{ShareMode, unset, ninep, virtiofs}

-- What the query for the default branch gives, the opening of the database included.
pub data Stored : Type 0 where
  unreadable no_rows : Stored
  stored : Bytes → Stored

-- What the host answers to a command: the working directory and the flag --here, os.Stat, what
-- `git rev-parse --show-toplevel` prints in a directory, less the white space around it, and the
-- state databases.
pub record Site : Type 0 where
  pub cwd : Option Bytes
  pub here : Bool
  pub stat : Bytes → Stat
  pub top_level : Bytes → Option Bytes
  pub query : Bytes → Stored
  pub state_dir_base : Bytes

-- The part of vm.VMSlot that a command needs.
pub record Target : Type 0 where
  pub ip_address : Bytes
  pub port_start : ℕ
  pub working_dir : Bytes

-- What a command asks of the table of VMs, of the daemon and of a VM that starts.
pub record Vms : Type 0 where
  pub find_vm_by_slot : Bool × ℕ → Option Target
  pub find_vms_by_work_dir : Bytes → Option (List Target)
  pub ensure_daemon : Bool
  pub start_vm : StartParams → Option (Bytes × ℕ)
  pub wait_for_ssh : Bytes → ℕ → Bool

pub data TargetError : Type 0 where
  no_cwd here_with_branch not_a_repo no_copy no_state no_default : TargetError
  bad_share_mode no_command no_such_vm no_daemon not_started no_ssh : TargetError

abbrev pub or_fail : {A : Type 0} → TargetError → Option A → Outcome TargetError A
or_fail e none = err e
or_fail e (some a) = ok a

-- GetStateFilePath
unfoldable pub get_state_file_path : Bytes → Bytes
unfolding get_homura_dir join_paths
get_state_file_path root = join_paths (get_homura_dir root) (codes "state.db")

abbrev pub default_of : Stored → Option Bytes
default_of unreadable = none
default_of no_rows = some []
default_of (stored branch) = some branch

-- LoadState: without a file there is no default branch.
unfoldable pub load_state : Site → Bytes → Option Bytes
unfolding get_state_file_path
load_state s root = elim (s.stat (get_state_file_path root)) [
  | missing ↦ some []
  | _ ↦ default_of (s.query (get_state_file_path root))
]

unfoldable pub repo_root : Site → Bytes → Option Bytes
unfolding get_repo_root
repo_root s cwd = get_repo_root s.stat (s.top_level cwd)

-- The copy of a branch, where it is not known to be missing.
unfoldable pub existing_copy : Site → Bytes → Bytes → Outcome TargetError (Bytes × Bytes)
unfolding get_copy_path
existing_copy s root branch = elim (s.stat (get_copy_path root branch)) [
  | missing ↦ err no_copy
  | _ ↦ ok (get_copy_path root branch, branch)
]

unfoldable pub default_copy : Site → Bytes → Bytes → Outcome TargetError (Bytes × Bytes)
unfolding existing_copy
default_copy s root [] = err no_default
default_copy s root (c ∷ branch) = existing_copy s root (c ∷ branch)

-- The copy of the default branch, where os.Stat finds it, or the working directory.
unfoldable pub default_or_cwd : Site → Bytes → Bytes → Option Bytes → Bytes × Bytes
unfolding get_copy_path
default_or_cwd s cwd root none = (cwd, [])
default_or_cwd s cwd root (some []) = (cwd, [])
default_or_cwd s cwd root (some (c ∷ branch)) = elim (s.stat (get_copy_path root (c ∷ branch))) [
  | missing ↦ (cwd, [])
  | Stat.failed ↦ (cwd, [])
  | _ ↦ (get_copy_path root (c ∷ branch), c ∷ branch)
]

unfoldable pub falls_back : Site → Bytes → Option Bytes → Bytes × Bytes
unfolding default_or_cwd load_state
falls_back s cwd none = (cwd, [])
falls_back s cwd (some root) = default_or_cwd s cwd root (load_state s root)

-- --here takes no branch.
abbrev pub at_cwd : Bytes → Bytes → Outcome TargetError (Bytes × Bytes)
at_cwd cwd [] = ok (cwd, [])
at_cwd cwd (c ∷ branch) = err here_with_branch

-- resolveVMWorkDir behind the flag --here
unfoldable pub work_dir_of : Site → Bytes → Bytes → Bool → Outcome TargetError (Bytes × Bytes)
unfolding repo_root existing_copy load_state default_copy falls_back
work_dir_of s cwd (c ∷ branch) require_copy =
    or_fail not_a_repo (repo_root s cwd) >>= λ root. existing_copy s root (c ∷ branch)
work_dir_of s cwd [] true = or_fail not_a_repo (repo_root s cwd) >>= λ root.
    or_fail no_state (load_state s root) >>= default_copy s root
work_dir_of s cwd [] false = ok (falls_back s cwd (repo_root s cwd))

-- resolveVMWorkDir: the directory and its branch
unfoldable pub resolve_vm_work_dir : Site → Bytes → Bool → Outcome TargetError (Bytes × Bytes)
unfolding work_dir_of
resolve_vm_work_dir s branch require_copy = or_fail no_cwd s.cwd >>= λ cwd.
    if s.here then at_cwd cwd branch else work_dir_of s cwd branch require_copy

-- string(shareMode)
abbrev pub share_mode_text : ShareMode → Bytes
share_mode_text unset = []
share_mode_text ninep = codes "9p"
share_mode_text virtiofs = codes "virtiofs"

-- The VM that a start gives, once its SSH answers.
abbrev pub when_ready : Vms → Bytes → Bytes × ℕ → Outcome TargetError Target
when_ready v dir (ip, port) =
    if v.wait_for_ssh ip port
    then ok (record { ip_address = ip; port_start = port; working_dir = dir })
    else err no_ssh

-- A new VM of the daemon.
unfoldable pub start_in : Site → Vms → ShareMode → Bytes → Outcome TargetError Target
start_in s v mode dir =
    if v.ensure_daemon
    then or_fail not_started (
        v.start_vm (record {
          work_dir = dir;
          share_mode = share_mode_text mode;
          state_dir_base = s.state_dir_base;
        }))
      >>= when_ready v dir
    else err no_daemon

-- The first of the VMs that run there, or a new one.
unfoldable pub first_or_start :
    Site → Vms → ShareMode → Bytes → Option (List Target) → Outcome TargetError Target
unfolding start_in
first_or_start s v mode dir (some (t ∷ targets)) = ok t
first_or_start s v mode dir _ = start_in s v mode dir

unfoldable pub by_number :
    Site → Vms → ShareMode → Bytes → Option (Bool × ℕ) → Outcome TargetError Target
unfolding resolve_vm_work_dir first_or_start
by_number s v mode branch (some n) = or_fail no_such_vm (v.find_vm_by_slot n)
by_number s v mode branch none = resolve_vm_work_dir s branch true >>= λ (dir, _).
    first_or_start s v mode dir (v.find_vms_by_work_dir dir)

-- resolveVMRunSlot: --here takes no branch, and an empty branch is no number.
unfoldable pub resolve_vm_run_slot : Site → Vms → Bytes → ShareMode → Outcome TargetError Target
unfolding atoi by_number
resolve_vm_run_slot s v [] mode = by_number s v mode [] none
resolve_vm_run_slot s v (c ∷ branch) mode =
    if s.here then err here_with_branch else by_number s v mode (c ∷ branch) (atoi (c ∷ branch))

-- The ssh that takes the place of the command: its address, its port and the remote command.
pub record Ssh : Type 0 where
  pub ip : Bytes
  pub port : ℕ
  pub remote_cmd : Bytes

unfoldable pub run_in : List Bytes → Target → Outcome TargetError Ssh
unfolding build_remote_cmd
run_in command t = ok (record {
  ip = t.ip_address;
  port = t.port_start;
  remote_cmd = build_remote_cmd t.working_dir command;
})

unfoldable pub run_split : Site → Vms → ShareMode → Bytes × List Bytes → Outcome TargetError Ssh
unfolding resolve_vm_run_slot run_in
run_split s v mode (branch, []) = err no_command
run_split s v mode (branch, c ∷ command) =
    resolve_vm_run_slot s v branch mode >>= run_in (c ∷ command)

-- VMRun
unfoldable pub vm_run : Site → Vms → List Bytes → List Bytes → Bytes → Outcome TargetError Ssh
unfolding parse_share_mode split_run_args run_split
vm_run s v args program_args share_mode =
    or_fail bad_share_mode (parse_share_mode share_mode) >>= λ mode.
    run_split s v mode (split_run_args args program_args)
