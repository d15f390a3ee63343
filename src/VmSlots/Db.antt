-- ===== src/VmSlots/Db.antt =====
-- The table vm_slots behind the SQL text of internal/vm/globalstate.go, and what the statements are
-- documented to do. A table is a function from slot numbers, its primary key, to rows.
use homura.Bytes.{Bytes}
use homura.Prelude.{ℕ, ◌≡◌, ◌↔◌, List, Option, none, some, Has, ◌==◌, if◌then◌else◌}

pub record VmSlot : Type 0 where
  pub slot_number : ℕ
  pub ip_address : Bytes
  pub port_start : ℕ
  pub port_end : ℕ
  pub vm_pid : ℕ
  pub passt_socket_path : Bytes
  pub share_mode : Bytes
  pub working_dir : Bytes
  pub ninep_pid : ℕ
  pub ninep_control_socket : Bytes
  pub ninep_control_port : ℕ
  pub virtiofs_pid : ℕ
  pub virtiofs_socket : Bytes
  pub virtiofs_admin_port : ℕ
  pub virtiofs_vm_port : ℕ
  pub qemu_pid : ℕ
  pub console_socket : Bytes
  pub console_log : Bytes
  pub created_at : ℕ

-- INSERT INTO vm_slots, DELETE FROM vm_slots, and the two UPDATEs, of a slot number.
pub data Statement : Type 0 where
  insert : VmSlot → Statement
  remove : ℕ → Statement
  set_qemu : ℕ → ℕ → Statement
  set_console : ℕ → Bytes → Bytes → Statement

abbrev pub Table : Type 0
Table = ℕ → Option VmSlot

abbrev pub change : (VmSlot → VmSlot) → Option VmSlot → Option VmSlot
change f none = none
change f (some r) = some (f r)

-- The table after a statement that succeeds.
unfoldable pub effect : Statement → Table → Table
effect (insert r) t n = if r.slot_number == n then some r else t n
effect (remove k) t n = if k == n then none else t n
effect (set_qemu k pid) t n =
    if k == n then change (λ r. record r { qemu_pid = pid }) (t n) else t n
effect (set_console k socket log) t n =
    if k == n
    then change (λ r. record r { console_socket = socket; console_log = log }) (t n)
    else t n

-- The calls of the database; `none` is a failure. `all_slots` is a SELECT of the whole table and
-- `count` one of COUNT(*) for a slot number.
pub record SlotDb : Type 1 where
  pub State : Type 0
  pub table : State → Table
  pub committed : State → Table
  pub init : State → Option State
  pub begin : State → Option State
  pub commit : State → Option State
  pub rollback : State → State
  pub exec : State → Statement → Option State
  pub count : State → ℕ → Option ℕ
  pub all_slots : State → Option (List VmSlot)

pub record IsLawful (D : SlotDb) : Type 0 where
  pub table-init : (s s' : D.State) (n : ℕ) → D.init s ≡ some s' → D.table s' n ≡ D.table s n
  pub table-begin : (s s' : D.State) (n : ℕ) → D.begin s ≡ some s' → D.table s' n ≡ D.table s n
  pub committed-begin :
      (s s' : D.State) (n : ℕ) → D.begin s ≡ some s' → D.committed s' n ≡ D.table s n
  pub table-commit : (s s' : D.State) (n : ℕ) → D.commit s ≡ some s' → D.table s' n ≡ D.table s n
  pub table-rollback : (s : D.State) (n : ℕ) → D.table (D.rollback s) n ≡ D.committed s n
  pub table-exec :
      (s s' : D.State) (st : Statement) (n : ℕ)
      → D.exec s st ≡ some s'
      → D.table s' n ≡ effect st (D.table s) n
  pub committed-exec :
      (s s' : D.State) (st : Statement) (n : ℕ)
      → D.exec s st ≡ some s'
      → D.committed s' n ≡ D.committed s n
  pub count_lem : (s : D.State) (n c : ℕ) → D.count s n ≡ some c → (c ≡ 0) ↔ (D.table s n ≡ none)
  pub all_slots_sound :
      (s : D.State) (rows : List VmSlot) (r : VmSlot)
      → D.all_slots s ≡ some rows
      → Has rows r
      → D.table s r.slot_number ≡ some r
  pub all_slots_complete :
      (s : D.State) (rows : List VmSlot) (n : ℕ) (r : VmSlot)
      → D.all_slots s ≡ some rows
      → D.table s n ≡ some r
      → Has rows r
  pub keyed : (s : D.State) (n : ℕ) (r : VmSlot) → D.table s n ≡ some r → r.slot_number ≡ n
