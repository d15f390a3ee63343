-- ===== src/Vm/Tests.antt =====
-- Runs of the start of a VM on one host, and a theorem at it.
use homura.Bytes.{bytes_dec, codes}
use homura.Daemon.Start.{ManagedVm, StartParams, parse_share_mode, to_lower}
use homura.Daemon.Stop
use homura.Daemon.Stop.{Stopping, stopped, handle_stop_vm, find_managed, stop_managed, stop_all_vms}
use homura.Git.{split_lines}
use homura.Paths.{clean, join_paths}
use homura.Prelude.{Bool, ◌≡◌, refl, ◌*◌, true, false, [], ◌∷◌, ◌++◌, some, none}
use homura.VmSlots.Db.{VmSlot}
use homura.Vm.Dirs.{rootfs_size_bytes, trim_space}
use homura.Vm.Lifecycle.{by_ninep, shutdown, goes_away, delivered, failed}
use homura.Vm.Share.{parse_token_file, parsed, bad_number, atoi, ninep_args}
use homura.VmConfig.{dedupe_allow_paths, has_suffix}
use homura.Vm.{ninep, Host, virtiofs, ok, err, signal_failed, not_running}

abbrev slot : VmSlot
slot = record {
  slot_number = 1;
  ip_address = codes "127.0.0.1";
  port_start = 40000;
  port_end = 40099;
  vm_pid = 7;
  passt_socket_path = [];
  share_mode = [];
  working_dir = [];
  ninep_pid = 0;
  ninep_control_socket = [];
  ninep_control_port = 0;
  virtiofs_pid = 0;
  virtiofs_socket = [];
  virtiofs_admin_port = 0;
  virtiofs_vm_port = 0;
  qemu_pid = 0;
  console_socket = [];
  console_log = [];
  created_at = 0;
}

abbrev host : Host
host = record {
  passt_found = true;
  home = some (codes "/h");
  config = some (record { allow_paths = []; state_dir = [] });
  cache_root = some (codes "/c");
  env_state_dir = [];
  makes_base = true;
  temp_dir = some (codes "/c/state/v1");
  free_bytes = some 100000000000;
  exists = λ path. true;
  uid = 1000;
  gid = 1000;
  peeked_slot = some 1;
  fd_limit = some 100000;
  virtiofsd_found = true;
  tokens = some (codes "a", codes "b");
  ports = some (5000, 5001);
  virtiofsd_starts = λ args. some 10;
  socket_appears = true;
  writes_token = true;
  ninep_starts = λ args. some 11;
  ninep_listens = true;
  token_text = some (codes "ab" ++ (10 ∷ codes "41000") ++ (10 ∷ codes "41001") ++ 10 ∷ []);
  allocated = some slot;
  clears_socket = true;
  passt_starts = λ args. true;
  images = some (codes "k", codes "i", codes "r");
  cpus = 8;
  makes_disk = true;
  qemu_starts = λ args. some 12;
  removes_dir = true;
  releases_slot = true;
}

abbrev params : StartParams
params = record { work_dir = codes "/w"; share_mode = codes "9P"; state_dir_base = [] }

program : Unit {0}
unfolding parse_share_mode to_lower bytes_dec parse_token_file atoi split_lines trim_space
    rootfs_size_bytes shutdown goes_away handle_stop_vm find_managed stop_managed stop_all_vms
program = tt

modes :
    (parse_share_mode (codes "VirtioFS") ≡ some virtiofs) × (parse_share_mode (codes "9q") ≡ none)
unfolding program
modes = (refl, refl)

-- U+0130 is lowered to an ASCII letter.
dotted :
    parse_share_mode (codes "V" ++ (196 ∷ 176 ∷ codes "RT") ++ (196 ∷ 176 ∷ codes "OFS"))
    ≡ some virtiofs
unfolding program
dotted = refl

token_file :
    parse_token_file (codes "ab" ++ (10 ∷ codes "41000") ++ (10 ∷ codes "-1") ++ 10 ∷ [])
    ≡ parsed (codes "ab") (false, 41000) (true, 1)
unfolding program
token_file = refl

bad_port : parse_token_file (codes "ab" ++ (10 ∷ codes "x") ++ (10 ∷ codes "1")) ≡ bad_number
unfolding program
bad_port = refl

-- The multiplication of the size wraps.
sizes :
    (rootfs_size_bytes (codes "20g") ≡ some (20 * 1024 * 1024 * 1024))
    × (rootfs_size_bytes (codes "17179869185G") ≡ some (1024 * 1024 * 1024))
unfolding program
sizes = (refl, refl)

shutdowns :
    (shutdown (some 12) delivered (true ∷ false ∷ []) failed ≡ ok tt)
    × (shutdown (some 12) delivered (true ∷ []) failed ≡ err signal_failed)
    × (shutdown none delivered [] failed ≡ err not_running)
unfolding program
shutdowns = (refl, refl, refl)

abbrev managed : ManagedVm
managed = record {
  vm = record {
    work_dir = codes "/w";
    ssh_pub_path = [];
    state_dir = codes "/c/state/v1";
    host_home_dir = codes "/h";
    slot = slot;
    passt = record {
      socket_path = [];
      ip_address = [];
      port_start = 40000;
      port_end = 40099;
      started = true;
    };
    mode = ninep;
    fs = by_ninep (record { pid = 11; token = []; control_port = (false, 1); port = (false, 2) });
    ephemeral_disk = [];
    qemu_pid = some 12;
  };
  slot = 1;
  console_log = codes "log";
}

-- QEMU exits at the first signal, and the supervision ends in time or does not.
abbrev exits : Bool → Stopping
exits ended = record {
  term = delivered;
  probes = true ∷ false ∷ [];
  kill = failed;
  is_done = ended;
}

stops :
    (handle_stop_vm (some 1) (managed ∷ []) (exits true) ≡ stopped 1 (codes "log"))
    × (handle_stop_vm (some 1) (managed ∷ []) (exits false) ≡ Stop.refused 2)
    × (handle_stop_vm (some 2) (managed ∷ []) (exits true) ≡ Stop.refused 3)
unfolding program
stops = (refl, refl, refl)

-- A VM that was not stopped is counted.
counts : stop_all_vms ((managed, exits false) ∷ []) ≡ (false ∷ [], 1)
unfolding program
counts = refl

-- An allowed path that dedupeAllowPaths drops as automatic, and that NewVM does not share where it is
-- not there.
abbrev empty_home : Host
empty_home = record host { exists = λ path. false }

dropped :
    (dedupe_allow_paths (codes "/h/.claude" ∷ []) (codes "/h") ≡ [])
    × (ninep_args empty_home (codes "/w") (codes "/h") []
        ≡ codes "/w" ∷ codes "/h/.claude.lock" ∷ [])
unfolding dedupe_allow_paths ninep_args has_suffix clean join_paths bytes_dec
dropped = (refl, refl)
