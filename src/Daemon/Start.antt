-- ===== src/Daemon/Start.antt =====
-- The start of a VM by the daemon, and its supervision, in internal/daemon/server.go; ParseShareMode in
-- internal/vm/vmconfig.go.
use homura.Bytes.{Bytes, bytes_dec, codes}
use homura.Daemon.Idle.{Server, add_vm, remove_vm}
use homura.Decimal.{decimal}
use homura.Paths.{join_paths}
use homura.Prelude.{
  ℕ, ◌+◌, ◌&&◌, List, [], ◌∷◌, ◌++◌, Option, none, some, leb, if◌then◌else◌, ◌==◌, ite, map,
}
use homura.Vm.{
  ShareMode, ninep, virtiofs, Host, World, absent, M, Result, ok, err, no_log_dir, need, ◌>>=◌,
}
use homura.Vm.Lifecycle.{Vm, new_vm, start, cleanup}

-- strings.ToLower, as far as it leads to ASCII letters of a share mode: outside of ASCII, only U+0130,
-- in UTF-8, does.
unfoldable pub to_lower : Bytes → Bytes
to_lower [] = []
to_lower (x ∷ []) = (if leb 65 x && leb x 90 then x + 32 else x) ∷ []
to_lower (x ∷ y ∷ s) =
    let shorter = to_lower s in
    let rest = to_lower (y ∷ s) in
    if (x == 196) && (y == 176)
    then 105 ∷ shorter
    else if leb 65 x && leb x 90
    then (x + 32) ∷ rest
    else x ∷ rest

-- ParseShareMode
unfoldable pub parse_share_mode : Bytes → Option ShareMode
unfolding to_lower bytes_dec
parse_share_mode s =
    let lower = to_lower s in
    ite (bytes_dec lower (codes "9p")) (some ninep) (
      ite (bytes_dec lower (codes "virtiofs")) (some virtiofs)
        (ite (bytes_dec lower []) (some virtiofs) none))

-- StartVMParams
pub record StartParams : Type 0 where
  pub work_dir : Bytes
  pub share_mode : Bytes
  pub state_dir_base : Bytes

-- managedVM
pub record ManagedVm : Type 0 where
  pub vm : Vm
  pub slot : ℕ
  pub console_log : Bytes

pub record VmResult : Type 0 where
  pub slot : ℕ
  pub ip : Bytes
  pub ssh_port : ℕ
  pub port_start : ℕ
  pub port_end : ℕ
  pub console_socket : Bytes
  pub console_log : Bytes
  pub qemu_pid : ℕ
  pub share_mode : ShareMode

-- A result, or an error by its code.
pub data Reply : Type 0 where
  started : VmResult → Reply
  refused : ℕ → Reply

-- The time of the start is in milliseconds.
abbrev pub console_log_path : Option Bytes → ℕ → ℕ → Option Bytes
console_log_path none slot now = none
console_log_path (some dir) slot now = some (
    join_paths dir
      (codes "console-slot" ++ (decimal slot ++ (codes "-" ++ (decimal now ++ codes ".log")))))

abbrev pub console_socket : Vm → Bytes
console_socket vm = join_paths vm.state_dir (codes "console.sock")

-- What start-vm and list-vms say of a VM, with its ConnectionInfo.
unfoldable pub vm_result : ManagedVm → VmResult
unfolding join_paths
vm_result m = record {
  slot = m.vm.slot.slot_number;
  ip = m.vm.slot.ip_address;
  ssh_port = m.vm.slot.port_start;
  port_start = m.vm.slot.port_start;
  port_end = m.vm.slot.port_end;
  console_socket = console_socket m.vm;
  console_log = m.console_log;
  qemu_pid = elim m.vm.qemu_pid [ none ↦ 0 | some pid ↦ pid ];
  share_mode = m.vm.mode;
}

-- handleListVMs, on the VMs in the order of the map
unfoldable pub list_vms : List ManagedVm → List VmResult
unfolding vm_result
list_vms vms = map vm_result vms

-- What Start has done is cleaned up where it fails.
abbrev pub or_cleanup : Host → Bytes → Result (Unit {0}) × (Vm × World) → Result ManagedVm × World
or_cleanup h log (ok a, (vm, w)) =
    (ok (record { vm = vm; slot = vm.slot.slot_number; console_log = log }), w)
or_cleanup h log (err e, (vm, w)) = (err e, (cleanup h vm w).1)

abbrev pub answer : Server → Result ManagedVm × World → Reply × (Server × World)
answer s (ok m, w) = (started (vm_result m), (add_vm m.slot s, w))
answer s (err e, w) = (refused 2, (s, w))

-- supervise, once QEMU has exited; Cleanup is only logged where it fails.
unfoldable pub supervise : Host → ManagedVm → Server × World → Server × World
unfolding cleanup remove_vm
supervise h m (s, w) = (remove_vm m.slot s, (cleanup h m.vm (record w { qemu = absent })).1)

module _ (h : Host) (log_dir : Option Bytes) (now : ℕ) where
  -- NewVM and Start in handleStartVM.
  unfoldable pub start_vm : ShareMode → StartParams → M ManagedVm
  unfolding new_vm start cleanup join_paths decimal
  start_vm mode p = do
    vm ← new_vm h mode p.work_dir p.state_dir_base
    log ←
        need (λ w. (cleanup h vm w).1) no_log_dir (console_log_path log_dir vm.slot.slot_number now)
    λ w. or_cleanup h log (start h (some (console_socket vm, log)) (vm, w))

  abbrev pub with_mode : Option ShareMode → StartParams → Server × World → Reply × (Server × World)
  with_mode none p s = (refused 1, s)
  with_mode (some mode) p (s, w) = answer s (start_vm mode p w)

  -- handleStartVM, on the decoded parameters
  unfoldable pub handle_start_vm : Option StartParams → Server × World → Reply × (Server × World)
  unfolding parse_share_mode start_vm vm_result add_vm
  handle_start_vm none s = (refused 1, s)
  handle_start_vm (some p) s = with_mode (parse_share_mode p.share_mode) p s
