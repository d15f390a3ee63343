-- ===== src/Vm/Left/Cleanup.antt =====
-- What a VM holds on the host after Start and Cleanup.
use homura.Bytes.{Bytes}
use homura.Prelude.{◌≡◌, refl, Bool, true, false, Option, ltb, ◌⊎◌, inl, inr, if◌then◌else◌}
use homura.Vm.{Host, World, nothing_held, absent, running, Process, ok}
use homura.Vm.Left.{IsNew}
use homura.Vm.Left.Outcomes.{Ends, good_end, bind-Stays, bind-ok, need-Stays, check-Stays}
use homura.Vm.Lifecycle.{
  FsDaemon, has_control_socket, Vm, start_passt, launch, start, cleanup, stop_processes,
}

if-same : {A : Type 0} (b : Bool) (x : A) → (if b then x else x) ≡ x
if-same true x = refl
if-same false x = refl

-- A VM and the host, once passt is up.
abbrev passt_up : Vm → World → Vm × World
passt_up vm w =
    (record vm { passt = record vm.passt { started = true } }, record w { passt = running })

-- What Cleanup leaves of a VM.
abbrev pub Leaves : Host → World → Vm × World → Type 0
Leaves h w s = cleanup h s.0 s.1 ≡ (ok tt, w)

-- Nothing but the control socket of 9passthrough, where that is the daemon.
abbrev pub left_by : FsDaemon → World
left_by fs = record nothing_held { control_socket = has_control_socket fs }

-- QEMU runs, and Cleanup leaves nothing else once it has exited.
abbrev pub IsRunning : Host → Vm × World → Type 0
IsRunning h s = (s.1.qemu ≡ running) × Leaves h (left_by s.0.fs) (s.0, record s.1 { qemu = absent })

module _ (h : Host) (removes : h.removes_dir ≡ true) (releases : h.releases_slot ≡ true) where
  pub cleaned :
      (vm : Vm) (w : World)
      → ltb 0 vm.slot.slot_number ≡ true
      → (vm.passt.started ≡ true) ⊎ (w.passt ≡ absent)
      → cleanup h vm w
        ≡ (ok tt, record nothing_held { control_socket = w.control_socket; qemu = w.qemu })
  unfolding cleanup stop_processes
  cleaned vm w positive (inl e) = rw (removes, releases, positive, e) refl
  cleaned vm w positive (inr e) =
      rw (removes, releases, positive, e, if-same vm.passt.started absent) refl

  pub leaves :
      (q : Process) (socket : Bool) (s : Vm × World)
      → ltb 0 s.0.slot.slot_number ≡ true
      → (s.0.passt.started ≡ true) ⊎ (s.1.passt ≡ absent)
      → s.1.qemu ≡ q
      → s.1.control_socket ≡ socket
      → Leaves h (record nothing_held { control_socket = socket; qemu = q }) s
  leaves q socket s positive passt same same' =
      rw (cleaned s.0 s.1 positive passt, same, same') refl

  start_passt-Ends :
      (vm : Vm) (w : World)
      → Leaves h (left_by vm.fs) (vm, w)
      → Ends (λ _ s. s ≡ passt_up vm w) (Leaves h (left_by vm.fs)) (start_passt h (vm, w))
  unfolding start_passt
  start_passt-Ends vm w fresh = bind-Stays _ (check-Stays _ _ _ _ fresh) (λ _.
      bind-Stays _ (check-Stays _ _ _ _ fresh)
        (λ _. bind-Stays _ (check-Stays _ _ _ _ fresh) (λ _. good_end _ _ refl)))

  -- start
  pub start-Ends :
      (console : Option (Bytes × Bytes)) (vm : Vm) (w : World)
      → IsNew h vm w
      → ltb 0 vm.slot.slot_number ≡ true
      → Ends (λ _ s. IsRunning h s) (Leaves h (left_by vm.fs)) (start h console (vm, w))
  unfolding start launch
  start-Ends console vm w new positive =
      let no_qemu : w.qemu ≡ absent = rw new.holds refl in
      let no_passt : w.passt ≡ absent = rw new.holds refl in
      let socket : w.control_socket ≡ has_control_socket vm.fs = rw new.holds refl in
      let fresh : Leaves h (left_by vm.fs) (vm, w) =
        leaves _ _ (vm, w) positive (inr no_passt) no_qemu socket in
      bind-Stays _ (start_passt-Ends vm w fresh) (λ _.
        let up : Leaves h (left_by vm.fs) (passt_up vm w) =
          leaves _ _ (passt_up vm w) positive (inl refl) no_qemu socket in
        bind-Stays _ (need-Stays _ _ _ _ up) (λ (kernel, initrd, rootfs).
          bind-Stays _ (check-Stays _ _ _ _ up) (λ _. bind-ok _ (
            bind-Stays _ (need-Stays _ _ _ _ (leaves _ _ _ positive (inl refl) no_qemu socket))
              (λ pid. good_end _ _ (refl, leaves absent _ _ positive (inl refl) refl socket))))))
