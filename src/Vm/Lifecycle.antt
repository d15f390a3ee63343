-- ===== src/Vm/Lifecycle.antt =====
-- NewVM, and the methods Start, Shutdown and Cleanup of VM, in internal/vm/vm.go.
use homura.Bytes.{Bytes, codes}
use homura.Paths.{join_paths}
use homura.Prelude.{
  ℕ, ◌/◌, Bool, true, false, List, [], ◌∷◌, Option, none, some, ltb, if◌then◌else◌,
}
use homura.Vm.{
  ShareMode, unset, virtiofs, Host, World, absent, running, M, Action, Result, ok, err, ◌>>=◌, ◌>>◌,
  pure, need, check, modify, as_is, remove_state_dir, no_passt, no_home, no_config, no_cache_root,
  no_peek, no_slot, passt_failed, no_images, no_disk, qemu_failed, not_running, signal_failed,
  not_removed, and_then,
}
use homura.Vm.Dirs.{make_state_dir, find_ssh_key}
use homura.Vm.Passt.{PasstManager, new_passt_manager, passt_args}
use homura.Vm.Qemu.{QemuConfig, build_qemu_args}
use homura.Vm.Share.{
  VirtiofsManager, NinepInfo, stop_fs_daemon, check_fd_limit, new_virtiofs_manager, start_virtiofsd,
  ninep_args, start_ninep, kill_ninep,
}
use homura.VmConfig.{PathSpec}
use homura.VmSlots.Db.{VmSlot}

-- The file system daemon of a VM.
pub data FsDaemon : Type 0 where
  by_virtiofs : VirtiofsManager → FsDaemon
  by_ninep : NinepInfo → FsDaemon

abbrev pub virtiofs_socket : FsDaemon → Bytes
virtiofs_socket (by_virtiofs v) = v.socket_path
virtiofs_socket (by_ninep info) = []

abbrev pub virtiofs_token : FsDaemon → Bytes
virtiofs_token (by_virtiofs v) = v.vm_token
virtiofs_token (by_ninep info) = []

abbrev pub virtiofs_port : FsDaemon → ℕ
virtiofs_port (by_virtiofs v) = v.vm_port
virtiofs_port (by_ninep info) = 0

abbrev pub ninep_token_of : FsDaemon → Bytes
ninep_token_of (by_virtiofs v) = []
ninep_token_of (by_ninep info) = info.token

abbrev pub ninep_ports : FsDaemon → (Bool × ℕ) × (Bool × ℕ)
ninep_ports (by_virtiofs v) = ((false, 0), (false, 0))
ninep_ports (by_ninep info) = (info.control_port, info.port)

-- Whether the daemon makes a control socket in /tmp.
abbrev pub has_control_socket : FsDaemon → Bool
has_control_socket (by_virtiofs v) = false
has_control_socket (by_ninep info) = true

pub record Vm : Type 0 where
  pub work_dir : Bytes
  pub ssh_pub_path : Bytes
  pub state_dir : Bytes
  pub host_home_dir : Bytes
  pub slot : VmSlot
  pub passt : PasstManager
  pub mode : ShareMode
  pub fs : FsDaemon
  pub ephemeral_disk : Bytes
  pub qemu_pid : Option ℕ

-- A running VM is changed by Start also where that fails.
abbrev pub Started : Type 0 → Type 0
Started A = Action (Vm × World) A

-- The processes that Cleanup stops, and the token file, but not the control socket of 9passthrough, which
-- is killed; PasstManager.Stop does nothing to a passt that
-- was not started.
unfoldable pub stop_processes : Vm → World → World
stop_processes vm w = record w {
  fs_daemon = absent;
  token_file = false;
  passt = if vm.passt.started then absent else w.passt;
}

-- The share mode where none is given.
abbrev pub or_virtiofs : ShareMode → ShareMode
or_virtiofs unset = virtiofs
or_virtiofs mode = mode

-- defaultVCPUs
abbrev pub default_vcpus : ℕ → ℕ
default_vcpus n = if ltb (n / 2) 1 then 1 else n / 2

abbrev pub mark_passt : Vm × World → Vm × World
mark_passt s =
    (record s.0 { passt = record s.0.passt { started = true } }, record s.1 { passt = running })

module _ (h : Host) where
  -- The start of the file system daemon in NewVM, by the share mode.
  unfoldable pub start_fs :
      ShareMode → Bytes → Bytes → Bytes → Bytes → ℕ → List PathSpec → M FsDaemon
  unfolding check_fd_limit new_virtiofs_manager start_virtiofsd ninep_args start_ninep
  start_fs virtiofs cache_root home work_dir dir slot extra = do
    check_fd_limit h
    v ← new_virtiofs_manager h dir home work_dir slot extra
    v' ← start_virtiofsd h v
    pure (by_virtiofs v')
  start_fs mode cache_root home work_dir dir slot extra = do
    info ← start_ninep h cache_root (ninep_args h work_dir home extra)
    pure (by_ninep info)

  -- cleanupOnError: 9passthrough is killed and not waited for.
  unfoldable pub cleanup_on_error : FsDaemon → World → World
  unfolding remove_state_dir
  cleanup_on_error (by_virtiofs v) w = remove_state_dir h (stop_fs_daemon w)
  cleanup_on_error (by_ninep info) w = kill_ninep h w

  -- NewVM
  unfoldable pub new_vm : ShareMode → Bytes → Bytes → M Vm
  unfolding make_state_dir find_ssh_key start_fs cleanup_on_error new_passt_manager remove_state_dir
  new_vm mode work_dir state_dir_base = do
    check as_is no_passt h.passt_found
    home ← need as_is no_home h.home
    config ← need as_is no_config h.config
    cache_root ← need as_is no_cache_root h.cache_root
    dir ← make_state_dir h state_dir_base config cache_root
    key ← find_ssh_key h home
    peeked ← need (remove_state_dir h) no_peek h.peeked_slot
    fs ← start_fs (or_virtiofs mode) cache_root home work_dir dir peeked config.allow_paths
    slot ← need (cleanup_on_error fs) no_slot h.allocated
    modify (λ w. record w { slot = true })
    pure (record {
      work_dir = work_dir;
      ssh_pub_path = key;
      state_dir = dir;
      host_home_dir = home;
      slot = slot;
      passt = new_passt_manager dir slot;
      mode = or_virtiofs mode;
      fs = fs;
      ephemeral_disk = [];
      qemu_pid = none;
    })

  -- PasstManager.Start
  unfoldable pub start_passt : Started (Unit {0})
  start_passt = do
    check as_is passt_failed h.passt_found
    check as_is passt_failed h.clears_socket
    λ s. check as_is passt_failed (h.passt_starts (passt_args s.0.passt)) s
    modify mark_passt

  -- The configuration of QEMU in Start; a console is given where the VM runs for the daemon.
  unfoldable pub qemu_config : Vm → Bytes × Bytes → Bytes → Option (Bytes × Bytes) → QemuConfig
  qemu_config vm (kernel, initrd) disk console = record {
    kernel_path = kernel;
    initrd_path = initrd;
    rootfs_path = disk;
    memory = 4096;
    cpus = default_vcpus h.cpus;
    passt_socket = vm.passt.socket_path;
    host_home_dir = vm.host_home_dir;
    share_mode = vm.mode;
    ninep_token = ninep_token_of vm.fs;
    ninep_control_port = (ninep_ports vm.fs).0;
    ninep_port = (ninep_ports vm.fs).1;
    virtiofs_socket = virtiofs_socket vm.fs;
    virtiofs_vm_token = virtiofs_token vm.fs;
    virtiofs_vm_port = virtiofs_port vm.fs;
    host_ip = vm.slot.ip_address;
    ssh_port = vm.slot.port_start;
    port_start = vm.slot.port_start;
    port_end = vm.slot.port_end;
    slot_number = vm.slot.slot_number;
    console_socket = elim console [ none ↦ [] | some (socket, log) ↦ socket ];
    console_log = elim console [ none ↦ [] | some (socket, log) ↦ log ];
  }

  unfoldable pub launch : Bytes × Bytes → Bytes → Option (Bytes × Bytes) → Started (Unit {0})
  unfolding qemu_config build_qemu_args
  launch images disk console s =
      and_then
        (need as_is qemu_failed
          (h.qemu_starts (build_qemu_args (qemu_config s.0 images disk console))) s)
        λ pid. modify (λ s'. (record s'.0 { qemu_pid = some pid }, record s'.1 { qemu = running }))

  -- Start; the snapshot in front and the updates of the row behind it are only logged where they fail.
  unfoldable pub start : Option (Bytes × Bytes) → Started (Unit {0})
  unfolding start_passt launch join_paths
  start console = do
    start_passt
    (kernel, initrd, rootfs) ← need as_is no_images h.images
    check as_is no_disk h.makes_disk
    modify (λ s. (
      record s.0 { ephemeral_disk = join_paths s.0.state_dir (codes "rootfs-ephemeral.qcow2") },
      s.1,
    ))
    λ s. launch (kernel, initrd) s.0.ephemeral_disk console s

  -- Cleanup; the release of the slot is only logged where it fails.
  unfoldable pub cleanup : Vm → M (Unit {0})
  unfolding stop_processes
  cleanup vm w =
      let w' = stop_processes vm w in
      let released : Bool = elim h.releases_slot [ true ↦ false | false ↦ w'.slot ] in
      let w'' = record w' { slot = if ltb 0 vm.slot.slot_number then released else w'.slot } in
      elim h.removes_dir [
        | true ↦ (ok tt, record w'' { state_dir = false })
        | false ↦ (err not_removed, w'')
      ]

-- What the host says to a signal.
pub data Signalled : Type 0 where
  delivered process_done failed : Signalled

-- Whether one of the probes before the deadline finds the process gone.
unfoldable pub goes_away : List Bool → Bool
goes_away [] = false
goes_away (there ∷ probes) = let rest = goes_away probes in if there then rest else true

-- Shutdown, by the answers to SIGTERM, to the probes and to SIGKILL
unfoldable pub shutdown : Option ℕ → Signalled → List Bool → Signalled → Result (Unit {0})
unfolding goes_away
shutdown none term probes kill = err not_running
shutdown (some pid) failed probes kill = err signal_failed
shutdown (some pid) process_done probes kill = ok tt
shutdown (some pid) delivered probes kill = elim (goes_away probes) [
  | true ↦ ok tt
  | false ↦ elim kill [ failed ↦ err signal_failed | _ ↦ ok tt ]
]
