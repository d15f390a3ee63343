-- ===== src/Daemon/Supervised.antt =====
-- What start-vm registers, and what it and the supervision of a VM leave on the host.
use homura.Bytes.{Bytes}
use homura.Daemon.Idle.{Server, add_vm, remove_vm}
use homura.Daemon.Start.{ManagedVm, Reply, started, refused, vm_result, supervise}
use homura.Prelude.{ℕ, ◌≡◌}
use homura.Vm.{Host, World, running}
use homura.Vm.Left.{OnlyDebris}
use homura.Vm.Left.Cleanup.{left_by}
use homura.Vm.Lifecycle.{Vm}

-- The end of start-vm: an error with the server as it was and only debris left, or a VM that runs and
-- is registered, whose supervision ends with nothing left but the control socket of 9passthrough.
pub data Handled (h : Host) (s : Server) : Reply × (Server × World) → Type 0 where
  was_refused : (code : ℕ) (w : World) → OnlyDebris w → Handled h s (refused code, (s, w))
  was_started :
      (m : ManagedVm) (w : World)
      → w.qemu ≡ running
      → supervise h m (add_vm m.slot s, w) ≡ (remove_vm m.slot (add_vm m.slot s), left_by m.vm.fs)
      → Handled h s (started (vm_result m), (add_vm m.slot s, w))
