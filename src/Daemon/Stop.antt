-- ===== src/Daemon/Stop.antt =====
-- The handlers of stop-vm and shutdown in internal/daemon/server.go. The supervision of a VM, which
-- cleans up and removes it from the server, runs beside them; whether it has ended in time is an answer.
use homura.Bytes.{Bytes}
use homura.Daemon.Start.{ManagedVm}
use homura.Prelude.{ℕ, suc, Bool, false, List, [], ◌∷◌, Option, none, some, ◌==◌, if◌then◌else◌}
use homura.Vm.Lifecycle.{Signalled, shutdown}
use homura.Vm.{ok, err}

-- What the host answers while a VM is stopped: to the signals of Shutdown and to the probes between
-- them, and whether the supervision has ended in time.
pub record Stopping : Type 0 where
  pub term : Signalled
  pub probes : List Bool
  pub kill : Signalled
  pub is_done : Bool

pub data StopReply : Type 0 where
  stopped : ℕ → Bytes → StopReply
  refused : ℕ → StopReply

-- stopManaged: whether the VM is stopped
unfoldable pub stop_managed : ManagedVm → Stopping → Bool
unfolding shutdown
stop_managed m s = elim (shutdown m.vm.qemu_pid s.term s.probes s.kill) [
  | err e ↦ false
  | ok a ↦ s.is_done
]

-- The index into the map of VMs.
unfoldable pub find_managed : ℕ → List ManagedVm → Option ManagedVm
find_managed slot [] = none
find_managed slot (m ∷ vms) =
    let rest = find_managed slot vms in if m.slot == slot then some m else rest

abbrev pub stop_found : Option ManagedVm → Stopping → StopReply
stop_found none s = refused 3
stop_found (some m) s = if stop_managed m s then stopped m.slot m.console_log else refused 2

-- handleStopVM, on the decoded slot
unfoldable pub handle_stop_vm : Option ℕ → List ManagedVm → Stopping → StopReply
unfolding find_managed stop_managed
handle_stop_vm none vms s = refused 1
handle_stop_vm (some slot) vms s = stop_found (find_managed slot vms) s

-- stopAllVMs: whether each VM is stopped, and the count that is returned
unfoldable pub stop_all_vms : List (ManagedVm × Stopping) → List Bool × ℕ
unfolding stop_managed
stop_all_vms [] = ([], 0)
stop_all_vms ((m, s) ∷ vms) =
    let (outcomes, count) = stop_all_vms vms in (stop_managed m s ∷ outcomes, suc count)

-- handleShutdown: the answer, after which the daemon exits
unfoldable pub handle_shutdown : List (ManagedVm × Stopping) → ℕ
unfolding stop_all_vms
handle_shutdown vms = (stop_all_vms vms).1
