-- ===== src/VmSlots.antt =====
-- internal/vm/globalstate.go: the slots of running VMs, in a table of an SQL database. The database
-- is the interface of VmSlots.Db, and a call of it may fail at any time.
pub mod Db
pub mod Lookup
pub mod Cleanup
pub mod Stale
pub mod Allocate
pub mod Rows
pub mod Ports
pub mod Memory
mod Tests
use homura.Bytes.{Bytes, bytes_dec, codes}
use homura.Decimal.{decimal}
use homura.Paths.{dir, base}
use homura.Prelude.{
  ℕ, zero, suc, ◌+◌, ◌-◌, ◌*◌, Bool, true, false, ◌&&◌, List, [], ◌∷◌, ◌++◌, Option, none, some,
  ◌==◌, not, leb, length, take, ite, if◌then◌else◌,
}
use homura.VmSlots.Db.{VmSlot, SlotDb, Statement, insert, remove, set_qemu, set_console}

pub data SlotError : Type 0 where
  db_failed no_slots not_found : SlotError

pub data Result (A : Type 0) : Type 0 where
  ok : A → Result A
  err : SlotError → Result A

abbrev pub max_vm_slots : ℕ
max_vm_slots = 254

abbrev pub base_port : ℕ
base_port = 10000

abbrev pub ports_per_slot : ℕ
ports_per_slot = 10

pub record VmSlotParams : Type 0 where
  pub socket_path : Bytes
  pub working_dir : Bytes
  pub share_mode : Bytes
  pub ninep_pid : ℕ
  pub ninep_socket : Bytes
  pub ninep_port : ℕ
  pub virtiofs_pid : ℕ
  pub virtiofs_socket : Bytes
  pub virtiofs_admin_port : ℕ
  pub virtiofs_vm_port : ℕ
  pub console_socket : Bytes
  pub console_log : Bytes

-- A stale directory that CleanupStaleSlots removes.
unfoldable pub has_vm_name : Bytes → Bool
unfolding base bytes_dec
has_vm_name path =
    leb (length (codes "homura-vm-")) (length (base path))
    && ite (bytes_dec (take (length (codes "homura-vm-")) (base path)) (codes "homura-vm-")) true
        false

-- The first loop of CleanupStaleSlots: the slots whose process is dead, with their directories.
unfoldable pub stale_slots : (ℕ → Bool) → List VmSlot → List (ℕ × Bytes)
unfolding dir
stale_slots alive [] = []
stale_slots alive (r ∷ rows) =
    let rest = stale_slots alive rows in
    if alive r.vm_pid then rest else (r.slot_number, dir r.passt_socket_path) ∷ rest

-- The directories that its second loop removes.
unfoldable pub removed_dirs : List (ℕ × Bytes) → List Bytes
unfolding has_vm_name
removed_dirs [] = []
removed_dirs ((n, path) ∷ stale) =
    let rest = removed_dirs stale in if has_vm_name path then path ∷ rest else rest

-- The address and the ports of a slot.
unfoldable pub slot_ip : ℕ → Bytes
unfolding decimal
slot_ip n = codes "127.0.0." ++ decimal n

abbrev pub slot_port : ℕ → ℕ
slot_port n = base_port + (n - 1) * ports_per_slot

-- The share mode is "9p" where none is asked for.
abbrev pub share_mode_of : Bytes → Bytes
share_mode_of [] = codes "9p"
share_mode_of (c ∷ s) = c ∷ s

-- The row of a new slot.
unfoldable pub new_slot : VmSlotParams → ℕ → ℕ → ℕ → VmSlot
unfolding slot_ip
new_slot params pid now n = record {
  slot_number = n;
  ip_address = slot_ip n;
  port_start = slot_port n;
  port_end = slot_port n + ports_per_slot - 1;
  vm_pid = pid;
  passt_socket_path = params.socket_path;
  share_mode = share_mode_of params.share_mode;
  working_dir = params.working_dir;
  ninep_pid = params.ninep_pid;
  ninep_control_socket = params.ninep_socket;
  ninep_control_port = params.ninep_port;
  virtiofs_pid = params.virtiofs_pid;
  virtiofs_socket = params.virtiofs_socket;
  virtiofs_admin_port = params.virtiofs_admin_port;
  virtiofs_vm_port = params.virtiofs_vm_port;
  qemu_pid = 0;
  console_socket = params.console_socket;
  console_log = params.console_log;
  created_at = now;
}

-- The database and the directories removed so far.
pub record World (State : Type 0) : Type 0 where
  pub db : State
  pub removed : List Bytes

module _ (D : SlotDb) where
  abbrev pub M : Type 0 → Type 0
  M A = World D.State → Result A × World D.State

  abbrev pub and_then :
      {A B : Type 0} → Result A × World D.State → (A → M B) → Result B × World D.State
  and_then (ok a, w) f = f a w
  and_then (err e, w) f = (err e, w)

  -- A statement of the database, or its failure, which changes nothing.
  unfoldable pub done_or : World D.State → Option D.State → Result (Unit {0}) × World D.State
  done_or w none = (err db_failed, w)
  done_or w (some s) = (ok tt, record w { db = s })

  -- initGlobalStateDB
  unfoldable pub init_db : M (Unit {0})
  unfolding done_or
  init_db w = done_or w (D.init w.db)

  unfoldable pub execute : Statement → M (Unit {0})
  unfolding done_or
  execute st w = done_or w (D.exec w.db st)

  -- The deletions of CleanupStaleSlots.
  unfoldable pub delete_slots : List (ℕ × Bytes) → M (Unit {0})
  unfolding execute
  delete_slots [] w = (ok tt, w)
  delete_slots ((n, path) ∷ stale) w = and_then (execute (remove n) w) (λ _. delete_slots stale)

  -- A transaction that is not committed is rolled back.
  abbrev pub or_rollback : {A : Type 0} → Result A × World D.State → Result A × World D.State
  or_rollback (ok a, w) = (ok a, w)
  or_rollback (err e, w) = (err e, record w { db = D.rollback w.db })

  unfoldable pub in_transaction : {A : Type 0} → M A → M A
  unfolding done_or
  in_transaction body w = and_then (done_or w (D.begin w.db)) λ _ w'.
      or_rollback (
        and_then (body w') λ a w''. and_then (done_or w'' (D.commit w''.db)) λ _ w'''. (ok a, w'''))

  -- CleanupStaleSlots after its query.
  unfoldable pub drop_stale : List (ℕ × Bytes) → M (Unit {0})
  unfolding in_transaction delete_slots removed_dirs
  drop_stale [] w = (ok tt, w)
  drop_stale (e ∷ stale) w =
      in_transaction (delete_slots (e ∷ stale))
        (record w { removed = w.removed ++ removed_dirs (e ∷ stale) })

  unfoldable pub cleanup_after_init : (ℕ → Bool) → M (Unit {0})
  unfolding drop_stale stale_slots
  cleanup_after_init alive w = elim (D.all_slots w.db) [
    | none ↦ (err db_failed, w)
    | some rows ↦ drop_stale (stale_slots alive rows) w
  ]

  -- CleanupStaleSlots
  unfoldable pub cleanup_stale_slots : (ℕ → Bool) → M (Unit {0})
  unfolding init_db cleanup_after_init
  cleanup_stale_slots alive w = and_then (init_db w) λ _. cleanup_after_init alive

  -- What all later operations start with.
  unfoldable pub prepare : (ℕ → Bool) → M (Unit {0})
  unfolding init_db cleanup_stale_slots
  prepare alive w = and_then (init_db w) λ _. cleanup_stale_slots alive

  -- The loop over the slots, with as many left to try.
  unfoldable pub next_slot : D.State → ℕ → ℕ → Result ℕ
  next_slot s n zero = err no_slots
  next_slot s n (suc left) = elim (D.count s n) [
    | none ↦ err db_failed
    | some c ↦ elim (c == 0) [ true ↦ ok n | false ↦ next_slot s (suc n) left ]
  ]

  -- PeekNextSlotNumber
  unfoldable pub peek_next_slot_number : (ℕ → Bool) → M ℕ
  unfolding prepare next_slot
  peek_next_slot_number alive w =
      and_then (prepare alive w) λ _ w'. (next_slot w'.db 1 max_vm_slots, w')

  -- The transaction of AllocateVMSlot.
  unfoldable pub claim : VmSlotParams → ℕ → ℕ → M VmSlot
  unfolding next_slot new_slot execute
  claim params pid now w =
      and_then (next_slot w.db 1 max_vm_slots, w)
        λ n w'.
          and_then (execute (insert (new_slot params pid now n)) w')
            λ _ w''. (ok (new_slot params pid now n), w'')

  -- AllocateVMSlot, by the process and the time
  unfoldable pub allocate_vm_slot : (ℕ → Bool) → VmSlotParams → ℕ → ℕ → M VmSlot
  unfolding prepare in_transaction claim
  allocate_vm_slot alive params pid now w =
      and_then (prepare alive w) λ _. in_transaction (claim params pid now)

  -- UpdateSlotQEMUPid
  unfoldable pub update_slot_qemu_pid : ℕ → ℕ → M (Unit {0})
  unfolding init_db execute
  update_slot_qemu_pid n pid w = and_then (init_db w) λ _. execute (set_qemu n pid)

  -- UpdateSlotConsole
  unfoldable pub update_slot_console : ℕ → Bytes → Bytes → M (Unit {0})
  unfolding init_db execute
  update_slot_console n socket log w = and_then (init_db w) λ _. execute (set_console n socket log)

  -- ReleaseVMSlot
  unfoldable pub release_vm_slot : ℕ → M (Unit {0})
  unfolding init_db execute
  release_vm_slot n w = and_then (init_db w) λ _. execute (remove n)
