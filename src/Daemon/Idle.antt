-- ===== src/Daemon/Idle.antt =====
-- When the daemon of internal/daemon/server.go exits for lack of work. What the mutex guards is a
-- Server, with one function for each critical section; the goroutines between their critical sections
-- are counted, and a step is a critical section or what happens outside of one.
pub mod Timed
use homura.Prelude.{
  ℕ, suc, ◌+◌, ◌-◌, ◌≡◌, Bool, true, false, ◌&&◌, List, [], ◌∷◌, Option, none, some, ◌==◌,
  if◌then◌else◌, length, Has,
}

-- A timer, before and after it has fired.
pub data Timer : Type 0 where
  armed fired : Timer

pub record Server : Type 0 where
  pub vms : List ℕ
  pub inflight : ℕ
  pub idle_timer : Option Timer

abbrev pub new_server : Server
new_server = record { vms = []; inflight = 0; idle_timer = none }

unfoldable pub is_idle : Server → Bool
is_idle s = (length s.vms == 0) && (s.inflight == 0)

-- The timer after updateIdleLocked, by whether the server is idle.
abbrev pub rearmed : Bool → Option Timer → Option Timer
rearmed true none = some armed
rearmed true (some t) = some t
rearmed false timer = none

-- updateIdleLocked
unfoldable pub update_idle : Server → Server
unfolding is_idle
update_idle s = record s { idle_timer = rearmed (is_idle s) s.idle_timer }

-- The first and the last critical section of handleConn.
unfoldable pub enter : Server → Server
unfolding update_idle
enter s = update_idle (record s { inflight = s.inflight + 1 })

unfoldable pub leave : Server → Server
unfolding update_idle
leave s = update_idle (record s { inflight = s.inflight - 1 })

unfoldable pub without : ℕ → List ℕ → List ℕ
without n [] = []
without n (m ∷ slots) = let rest = without n slots in if m == n then rest else m ∷ rest

-- The critical sections of handleStartVM and supervise.
unfoldable pub add_vm : ℕ → Server → Server
unfolding without update_idle
add_vm n s = update_idle (record s { vms = n ∷ without n s.vms })

unfoldable pub remove_vm : ℕ → Server → Server
unfolding without update_idle
remove_vm n s = update_idle (record s { vms = without n s.vms })

-- The daemon: the server, whether its listener is open, and how many goroutines are before the first
-- critical section of handleConn, between its two, before that of onIdleFire, and past it to exit.
pub record Daemon : Type 0 where
  pub server : Server
  pub listening : Bool
  pub accepted : ℕ
  pub handling : ℕ
  pub firing : ℕ
  pub exiting : ℕ

-- onIdleFire up to its exit
unfoldable pub on_idle_fire : Daemon → Daemon
unfolding is_idle
on_idle_fire d =
    if is_idle d.server
    then record d { firing = d.firing - 1; exiting = d.exiting + 1 }
    else record d { firing = d.firing - 1 }

-- Run arms the timer before it serves.
abbrev pub started : Daemon
unfolding update_idle
started = record {
  server = update_idle new_server;
  listening = true;
  accepted = 0;
  handling = 0;
  firing = 0;
  exiting = 0;
}

pub data Step : Daemon → Daemon → Type 0 where
  accept : {d : Daemon} → d.listening ≡ true → Step d (record d { accepted = d.accepted + 1 })
  begins :
      {d : Daemon} {k : ℕ}
      → d.accepted ≡ suc k
      → Step d (record d { server = enter d.server; accepted = k; handling = d.handling + 1 })
  ends :
      {d : Daemon} {k : ℕ}
      → d.handling ≡ suc k
      → Step d (record d { server = leave d.server; handling = k })
  starts_vm :
      {d : Daemon} {k : ℕ} (n : ℕ)
      → d.handling ≡ suc k
      → Step d (record d { server = add_vm n d.server })
  vm_exits :
      {d : Daemon} (n : ℕ)
      → Has d.server.vms n
      → Step d (record d { server = remove_vm n d.server })
  timer_fires :
      {d : Daemon}
      → d.server.idle_timer ≡ some armed
      → Step d
          (record d { server = record d.server { idle_timer = some fired }; firing = d.firing + 1 })
  checks : {d : Daemon} {k : ℕ} → d.firing ≡ suc k → Step d (on_idle_fire d)
  exits :
      {d : Daemon} {k : ℕ}
      → d.exiting ≡ suc k
      → Step d (record d { listening = false; exiting = k })
  shuts_down : {d : Daemon} → Step d (record d { listening = false })

pub data Steps : Daemon → Daemon → Type 0 where
  done : {d : Daemon} → Steps d d
  then_step : {d d' d'' : Daemon} → Steps d d' → Step d' d'' → Steps d d''
