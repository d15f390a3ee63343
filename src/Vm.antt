-- ===== src/Vm.antt =====
-- internal/vm/vm.go and what it calls: the life of one VM. What the host answers is the record `Host`;
-- the state is what one VM holds on the host: its directory, its slot and its processes.
pub mod Dirs
pub mod Share
pub mod Passt
pub mod Qemu
pub mod Lifecycle
pub mod Left
mod Tests
use homura.Bytes.{Bytes}
use homura.Prelude.{ℕ, Bool, true, false, List, Option, none, some}
use homura.VmConfig.{PathSpec}
use homura.VmSlots.Db.{VmSlot}

pub data ShareMode : Type 0 where
  unset ninep virtiofs : ShareMode

-- Where NewVM and Start can fail.
pub data VmError : Type 0 where
  no_passt no_home no_config no_cache_root : VmError
  no_state_base no_state_dir bad_size no_space path_too_long no_ssh_key : VmError
  no_peek fd_limit no_virtiofsd no_token no_port virtiofsd_failed virtiofsd_not_ready : VmError
  no_ninep ninep_failed no_token_file bad_token_file bad_port : VmError
  no_slot no_passt_manager passt_failed no_images no_disk qemu_failed : VmError
  not_running signal_failed not_removed no_log_dir : VmError

-- A child process that nobody has waited for is a zombie once it is dead.
pub data Process : Type 0 where
  absent running zombie : Process

-- What one VM holds. The file system daemon is virtiofsd or 9passthrough, and leaves a file with its
-- token in /tmp, 9passthrough its control socket too; the other sockets and the disk of the VM stand
-- in its directory. The log of its console, which is kept, is not counted.
pub record World : Type 0 where
  pub state_dir : Bool
  pub fs_daemon : Process
  pub token_file : Bool
  pub control_socket : Bool
  pub slot : Bool
  pub passt : Process
  pub qemu : Process

abbrev pub nothing_held : World
nothing_held = record {
  state_dir = false;
  fs_daemon = absent;
  token_file = false;
  control_socket = false;
  slot = false;
  passt = absent;
  qemu = absent;
}

-- The values of the configuration that are used; no configuration is the empty one.
pub record Config : Type 0 where
  pub allow_paths : List PathSpec
  pub state_dir : Bytes

-- Answers of the host, `none` and `false` where a call fails. A process is known by its id.
pub record Host : Type 0 where
  pub passt_found : Bool
  pub home : Option Bytes
  pub config : Option Config
  pub cache_root : Option Bytes
  pub env_state_dir : Bytes
  pub makes_base : Bool
  pub temp_dir : Option Bytes
  pub free_bytes : Option ℕ
  pub exists : Bytes → Bool
  pub uid : ℕ
  pub gid : ℕ
  pub peeked_slot : Option ℕ
  pub fd_limit : Option ℕ
  pub virtiofsd_found : Bool
  pub tokens : Option (Bytes × Bytes)
  pub ports : Option (ℕ × ℕ)
  pub virtiofsd_starts : List Bytes → Option ℕ
  pub socket_appears : Bool
  pub writes_token : Bool
  pub ninep_starts : List Bytes → Option ℕ
  pub ninep_listens : Bool
  pub token_text : Option Bytes
  pub allocated : Option VmSlot
  pub clears_socket : Bool
  pub passt_starts : List Bytes → Bool
  pub images : Option (Bytes × Bytes × Bytes)
  pub cpus : ℕ
  pub makes_disk : Bool
  pub qemu_starts : List Bytes → Option ℕ
  pub removes_dir : Bool
  pub releases_slot : Bool

pub data Result (A : Type 0) : Type 0 where
  ok : A → Result A
  err : VmError → Result A

-- A step on a state, which comes back after a failure too.
abbrev pub Action : Type 0 → Type 0 → Type 0
Action S A = S → Result A × S

abbrev pub M : Type 0 → Type 0
M A = Action World A

module _ {S : Type 0} where
  unfoldable pub and_then : {A B : Type 0} → Result A × S → (A → Action S B) → Result B × S
  and_then (ok a, w) f = f a w
  and_then (err e, w) f = (err e, w)

  infixl 5 ◌>>=◌ ◌>>◌
  abbrev pub ◌>>=◌ : {A B : Type 0} → Action S A → (A → Action S B) → Action S B
  ◌>>=◌ m f w = and_then (m w) f

  abbrev pub ◌>>◌ : {B : Type 0} → Action S (Unit {0}) → Action S B → Action S B
  m >> k = m >>= λ _. k

  abbrev pub pure : {A : Type 0} → A → Action S A
  pure a w = (ok a, w)

  -- The value of an answer, or the failure after some clearing up.
  unfoldable pub need : {A : Type 0} → (S → S) → VmError → Option A → Action S A
  need undo e (some a) w = (ok a, w)
  need undo e none w = (err e, undo w)

  unfoldable pub check : (S → S) → VmError → Bool → Action S (Unit {0})
  check undo e true w = (ok tt, w)
  check undo e false w = (err e, undo w)

  abbrev pub modify : (S → S) → Action S (Unit {0})
  modify f w = (ok tt, f w)

  abbrev pub as_is : S → S
  as_is w = w

-- os.RemoveAll of the state directory, whose error is not looked at.
unfoldable pub remove_state_dir : Host → World → World
remove_state_dir h w = record w {
  state_dir = elim h.removes_dir [ true ↦ false | false ↦ w.state_dir ];
}
