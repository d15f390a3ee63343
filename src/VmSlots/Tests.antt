-- ===== src/VmSlots/Tests.antt =====
-- Runs on the database in memory, and the theorems at these runs.
use homura.Bytes.{codes, bytes_dec}
use homura.Decimal.{decimal, digits_from}
use homura.Paths.{dir, base}
use homura.Prelude.{
  ℕ, ◌≡◌, ◌≢◌, ◌≤◌, ◌<◌, refl, sym, Bool, true, ltb, List, [], ◌∷◌, none, arith, ◌⊎◌, some-ne-none,
}
use homura.VmSlots.Allocate.{Fails, Claims, allocate_vm_slot-cases}
use homura.VmSlots.Db.{VmSlot, effect}
use homura.VmSlots.Lookup.{
  find_vm_by_slot, find_vm_by_work_dir, find_vms_by_work_dir, list_all_vms, find_vm_by_ninep_pid,
}
use homura.VmSlots.Memory.{
  Memory, checked, collect, fits, exec, count_rows, memory_db, memory_db-IsLawful,
}
use homura.VmSlots.Ports.{Call, allocate, perform, run, run-apart}
use homura.VmSlots.{
  Result, ok, err, not_found, World, allocate_vm_slot, peek_next_slot_number, VmSlotParams,
  new_slot, slot_ip,
}

program : Unit {0}
unfolding run perform allocate_vm_slot peek_next_slot_number find_vm_by_slot find_vm_by_work_dir
    find_vms_by_work_dir list_all_vms find_vm_by_ninep_pid checked collect fits exec count_rows
    effect new_slot slot_ip dir base decimal digits_from bytes_dec
program = tt

abbrev params : VmSlotParams
params = record {
  socket_path = codes "/t/homura-vm-1/s";
  working_dir = codes "/w";
  share_mode = [];
  ninep_pid = 41;
  ninep_socket = [];
  ninep_port = 0;
  virtiofs_pid = 0;
  virtiofs_socket = [];
  virtiofs_admin_port = 0;
  virtiofs_vm_port = 0;
  console_socket = [];
  console_log = [];
}

abbrev no_vms : World Memory
no_vms = record { db = record { rows = λ n. none; saved = λ n. none }; removed = [] }

abbrev all_alive : ℕ → Bool
all_alive pid = true

-- Two VMs, of the processes 50 and 60.
abbrev two_calls : List ((ℕ → Bool) × Call)
two_calls = (all_alive, allocate params 50 1) ∷ (all_alive, allocate params 60 2) ∷ []

abbrev two_vms : World Memory
two_vms = run memory_db two_calls no_vms

-- The number of a row found.
abbrev number : {W : Type 0} → Result VmSlot × W → Result ℕ
number (ok r, w) = ok r.slot_number
number (err e, w) = err e

-- The third VM has slot 3; when process 50 has died, its slot is the next one, and its directory goes.
slots :
    ((peek_next_slot_number memory_db all_alive two_vms).0 ≡ ok 3)
    × ((peek_next_slot_number memory_db (ltb 55) two_vms).0 ≡ ok 1)
    × ((peek_next_slot_number memory_db (ltb 55) two_vms).1.removed ≡ (codes "/t/homura-vm-1" ∷ []))
    × (number (find_vm_by_slot memory_db all_alive 2 two_vms) ≡ ok 2)
    × (number (find_vm_by_slot memory_db all_alive 3 two_vms) ≡ err not_found)
    × (number (find_vm_by_work_dir memory_db (ltb 55) (codes "/w") two_vms) ≡ ok 2)
    × (number (find_vm_by_ninep_pid memory_db all_alive 42 two_vms) ≡ err not_found)
unfolding program
slots = (refl, refl, refl, refl, refl, refl, refl)

allocate_vm_slot-cases_example :
    Fails memory_db memory_db-IsLawful params 70 3 (ltb 55) two_vms
    ⊎ Claims memory_db memory_db-IsLawful params 70 3 (ltb 55) two_vms
allocate_vm_slot-cases_example =
    allocate_vm_slot-cases memory_db memory_db-IsLawful params 70 3 (ltb 55) two_vms

run-apart_example :
    (10000 ≤ (new_slot params 50 1 1).port_start)
    × ((new_slot params 50 1 1).port_end < (new_slot params 60 2 2).port_start)
    × ((new_slot params 60 2 2).port_end ≤ 12539)
    × ((new_slot params 50 1 1).ip_address ≢ (new_slot params 60 2 2).ip_address)
unfolding program
run-apart_example =
    run-apart memory_db memory_db-IsLawful two_calls no_vms 1 2 (new_slot params 50 1 1)
      (new_slot params 60 2 2) (λ n r e. absurd (some-ne-none r (sym e))) (omega arith) refl refl
