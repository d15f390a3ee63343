-- ===== src/Daemon/Tests.antt =====
-- Runs of the daemon's parts, and a theorem at one of them.
use homura.Bytes.{codes}
use homura.Daemon.Events.Lines.{printed, printed-all_lines, all_lines, concat}
use homura.Daemon.Events.{index_byte, emit_lines, write, write_all, flush}
use homura.Daemon.Idle.Timed.{IsTimed, Steps-IsTimed}
use homura.Daemon.Idle.{
  Daemon, is_idle, update_idle, enter, without, add_vm, on_idle_fire, started, Steps, done,
  then_step, accept, begins, starts_vm, timer_fires, checks, exits,
}
use homura.Prelude.{◌≡◌, refl, false, [], ◌∷◌, ◌++◌, some, none}

program : Unit {0}
unfolding index_byte emit_lines write write_all flush is_idle update_idle enter without add_vm
    on_idle_fire
program = tt

-- "ab\nc" and "d\n" and "e"
events :
    printed ((codes "ab" ++ 10 ∷ codes "c") ∷ (codes "d" ++ 10 ∷ []) ∷ codes "e" ∷ [])
    ≡ some (record { buf = []; lines = codes "ab" ∷ codes "cd" ∷ codes "e" ∷ [] })
unfolding program
events = refl

-- The timer has fired and found the daemon idle; a request is accepted before the listener is closed.
abbrev late : Daemon
late = record {
  server = record { vms = 1 ∷ []; inflight = 1; idle_timer = none };
  listening = false;
  accepted = 0;
  handling = 1;
  firing = 0;
  exiting = 0;
}

-- The daemon exits with a VM just started.
late_vm : Steps started late
unfolding program
late_vm =
    then_step
      (then_step
        (then_step
          (then_step (then_step (then_step done (timer_fires refl)) (checks refl)) (accept refl))
          (begins refl))
        (starts_vm 1 refl))
      (exits refl)

Steps-IsTimed_example : IsTimed late
Steps-IsTimed_example = Steps-IsTimed late_vm

printed-all_lines_example :
    printed (codes "a" ∷ (10 ∷ codes "b") ∷ [])
    ≡ some (record { buf = []; lines = all_lines (concat (codes "a" ∷ (10 ∷ codes "b") ∷ [])) })
printed-all_lines_example = printed-all_lines (codes "a" ∷ (10 ∷ codes "b") ∷ [])
