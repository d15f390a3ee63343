-- ===== src/Daemon/Idle/Timed.antt =====
-- The timer of an idle daemon runs, and what it sets off leads to the exit.
use homura.Daemon.Idle.{
  Timer, armed, fired, Server, is_idle, rearmed, update_idle, enter, leave, without, add_vm,
  remove_vm, Daemon, on_idle_fire, started, Step, accept, begins, ends, starts_vm, vm_exits,
  timer_fires, checks, exits, shuts_down, Steps, done, then_step,
}
use homura.Prelude.{
  ℕ, suc, ◌+◌, ◌-◌, ◌≡◌, ◌≤◌, ◌⊎◌, inl, inr, refl, Bool, true, false, Option, none, some, arith,
  Bool-cases, sym, ◌∙◌, ◌∷◌,
}

-- What the timer says of the server.
abbrev AgreesWith : Bool → Option Timer → Type 0
AgreesWith idle timer =
    ((idle ≡ true) × ((timer ≡ some armed) ⊎ (timer ≡ some fired)))
    ⊎ ((idle ≡ false) × (timer ≡ none))

pub record IsTimed (d : Daemon) : Type 0 where
  -- The requests counted are those that are being handled.
  pub counted : d.server.inflight ≡ d.handling
  -- A timer stands exactly while the server is idle.
  pub timed : AgreesWith (is_idle d.server) d.server.idle_timer
  -- A timer that has fired is on its way to the exit.
  pub leads_to_exit :
      d.server.idle_timer ≡ some fired → (1 ≤ d.firing + d.exiting) ⊎ (d.listening ≡ false)

rearmed-AgreesWith : (idle : Bool) (timer : Option Timer) → AgreesWith idle (rearmed idle timer)
rearmed-AgreesWith true none = inl (refl, inl refl)
rearmed-AgreesWith true (some armed) = inl (refl, inl refl)
rearmed-AgreesWith true (some fired) = inl (refl, inr refl)
rearmed-AgreesWith false timer = inr (refl, refl)

update_idle-AgreesWith :
    (s : Server) → AgreesWith (is_idle (update_idle s)) (update_idle s).idle_timer
unfolding update_idle is_idle
update_idle-AgreesWith s = rearmed-AgreesWith (is_idle s) s.idle_timer

armed-ne-fired : some armed ≡ some fired → ⊥
armed-ne-fired e = cc

true-ne-false : true ≡ false → ⊥
true-ne-false e = cc

none-ne-fired : none ≡ some fired → ⊥
none-ne-fired e = cc

-- A timer that has fired did so before the critical section.
rearmed-fired :
    (idle : Bool) (timer : Option Timer) → rearmed idle timer ≡ some fired → timer ≡ some fired
rearmed-fired true none e = absurd (armed-ne-fired e)
rearmed-fired true (some t) e = e
rearmed-fired false timer e = absurd (none-ne-fired e)

update_idle-fired :
    (s : Server) → (update_idle s).idle_timer ≡ some fired → s.idle_timer ≡ some fired
unfolding update_idle
update_idle-fired s e = rearmed-fired (is_idle s) s.idle_timer e

AgreesWith-some :
    (idle : Bool) (timer : Option Timer) (t : Timer)
    → AgreesWith idle timer
    → timer ≡ some t
    → idle ≡ true
AgreesWith-some idle timer t (inl h) e = h.0
AgreesWith-some idle timer t (inr h) e = cc

IsTimed-on_idle_fire :
    (d : Daemon) (k : ℕ) → d.firing ≡ suc k → IsTimed d → IsTimed (on_idle_fire d)
unfolding on_idle_fire is_idle
IsTimed-on_idle_fire d k e h = elim (Bool-cases (is_idle d.server)) [
  | inl idle ↦
      rw idle
        (record { counted = h.counted; timed = h.timed; leads_to_exit = λ f. inl (omega arith) })
  | inr busy ↦ rw busy (record {
    counted = h.counted;
    timed = h.timed;
    leads_to_exit = λ f.
        let idle = AgreesWith-some (is_idle d.server) d.server.idle_timer fired h.timed f in
        absurd (true-ne-false (sym idle ∙ busy));
  })
]

IsTimed-Step : {d d' : Daemon} → IsTimed d → Step d d' → IsTimed d'
unfolding enter leave add_vm remove_vm is_idle update_idle
IsTimed-Step h (accept e) = record {
  counted = h.counted;
  timed = h.timed;
  leads_to_exit = h.leads_to_exit;
}
IsTimed-Step {d} h (begins e) = record {
  counted = omega (arith, h.counted);
  timed = update_idle-AgreesWith (record d.server { inflight = d.server.inflight + 1 });
  leads_to_exit = λ f.
      h.leads_to_exit (update_idle-fired (record d.server { inflight = d.server.inflight + 1 }) f);
}
IsTimed-Step {d} h (ends e) = record {
  counted = omega (arith, h.counted);
  timed = update_idle-AgreesWith (record d.server { inflight = d.server.inflight - 1 });
  leads_to_exit = λ f.
      h.leads_to_exit (update_idle-fired (record d.server { inflight = d.server.inflight - 1 }) f);
}
IsTimed-Step {d} h (starts_vm n e) = record {
  counted = h.counted;
  timed = update_idle-AgreesWith (record d.server { vms = n ∷ without n d.server.vms });
  leads_to_exit = λ f.
      h.leads_to_exit (update_idle-fired (record d.server { vms = n ∷ without n d.server.vms }) f);
}
IsTimed-Step {d} h (vm_exits n has) = record {
  counted = h.counted;
  timed = update_idle-AgreesWith (record d.server { vms = without n d.server.vms });
  leads_to_exit =
      λ f. h.leads_to_exit (update_idle-fired (record d.server { vms = without n d.server.vms }) f);
}
IsTimed-Step {d} h (timer_fires e) = record {
  counted = h.counted;
  timed = inl (AgreesWith-some (is_idle d.server) d.server.idle_timer armed h.timed e, inr refl);
  leads_to_exit = λ f. inl (omega arith);
}
IsTimed-Step {d} h (checks {k = k} e) = IsTimed-on_idle_fire d k e h
IsTimed-Step h (exits e) = record {
  counted = h.counted;
  timed = h.timed;
  leads_to_exit = λ f. inr refl;
}
IsTimed-Step h shuts_down = record {
  counted = h.counted;
  timed = h.timed;
  leads_to_exit = λ f. inr refl;
}

IsTimed-started : IsTimed started
unfolding update_idle is_idle
IsTimed-started = record {
  counted = refl;
  timed = inl (refl, inl refl);
  leads_to_exit = λ f. absurd (armed-ne-fired f);
}

-- In every state that the daemon reaches, for any interleaving of critical sections, the
-- requests counted are those being handled, the idle timer is set exactly while there is no VM
-- and no request, and a timer that is set and has fired has a goroutine on its way to check and
-- exit, or the listener is closed.
pub Steps-IsTimed : {d : Daemon} → Steps started d → IsTimed d
Steps-IsTimed done = IsTimed-started
Steps-IsTimed (then_step before step) = IsTimed-Step (Steps-IsTimed before) step
