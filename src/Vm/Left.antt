-- ===== src/Vm/Left.antt =====
-- What a VM holds on the host after NewVM, Start and Cleanup, on every branch.
pub mod Cleanup
pub mod Outcomes
use homura.Bytes.{Bytes}
use homura.Prelude.{
  ℕ, ◌≡◌, ◌≢◌, refl, sym, ap, ◌∙◌, subst, Bool, true, false, List, Option, none, some, ◌<◌, ltb,
  arith,
}
use homura.Vm.{
  ShareMode, unset, ninep, virtiofs, Host, World, nothing_held, Process, absent, running, zombie,
  Config, M, Result, ok, err, check, need, modify, as_is, remove_state_dir, ◌>>=◌, pure, no_slot,
}
use homura.Vm.Dirs.{check_state_dir_space, check_default, make_state_dir, find_ssh_key}
use homura.Vm.Left.Outcomes.{
  Ends, good_end, bad_end, Stays, bind-Ends, bind-Stays, bind-ok, need-Stays, need-Same,
  check-Stays,
}
use homura.Vm.Share.{
  VirtiofsManager, check_fd_limit, new_virtiofs_manager, start_virtiofsd, TokenFile, too_few_lines,
  bad_number, parsed, parse_token_file, accept_token_file, start_ninep, ninep_args, stop_fs_daemon,
  kill_ninep,
}
use homura.VmConfig.{PathSpec}
use homura.Vm.Lifecycle.{
  FsDaemon, by_virtiofs, by_ninep, has_control_socket, Vm, start_fs, cleanup_on_error, new_vm,
  or_virtiofs,
}
use homura.Vm.Passt.{new_passt_manager}

-- Nothing is held but, perhaps, a dead process that nobody has waited for, a token file and a control
-- socket.
pub record OnlyDebris (w : World) : Type 0 where
  pub no_dir : w.state_dir ≡ false
  pub no_slot : w.slot ≡ false
  pub no_daemon : w.fs_daemon ≢ running
  pub no_passt : w.passt ≡ absent
  pub no_qemu : w.qemu ≡ absent

-- What a VM holds that has not been started.
abbrev pub new_vm_holds : Bool → World
new_vm_holds socket = record {
  state_dir = true;
  fs_daemon = running;
  token_file = true;
  control_socket = socket;
  slot = true;
  passt = absent;
  qemu = absent;
}

with_dir : World
with_dir = record nothing_held { state_dir = true }

pub nothing_held-OnlyDebris : OnlyDebris nothing_held
nothing_held-OnlyDebris = record {
  no_dir = refl;
  no_slot = refl;
  no_daemon = λ e. cc;
  no_passt = refl;
  no_qemu = refl;
}

-- A new VM, before it is started.
pub record IsNew (h : Host) (vm : Vm) (w : World) : Type 0 where
  pub holds : w ≡ new_vm_holds (has_control_socket vm.fs)
  pub allocated : h.allocated ≡ some vm.slot
  pub no_passt : vm.passt.started ≡ false
  pub no_qemu : vm.qemu_pid ≡ none

module _ (h : Host) (removes : h.removes_dir ≡ true) where
  removed : OnlyDebris (remove_state_dir h with_dir)
  unfolding remove_state_dir with_dir
  removed = rw removes nothing_held-OnlyDebris

  check_default-Stays : (defaulted : Bool) → Stays OnlyDebris (check_default h defaulted) with_dir
  unfolding check_default check_state_dir_space
  check_default-Stays false = good_end tt with_dir refl
  check_default-Stays true = bind-Stays _ (need-Stays _ _ _ _ removed) (λ needed.
      bind-Stays _ (need-Stays _ _ _ _ removed) (λ available. check-Stays _ _ _ _ removed))

  make_state_dir-Ends :
      (base : Bytes) (config : Config) (cache_root : Bytes)
      → Ends (λ d w. w ≡ with_dir) OnlyDebris (make_state_dir h base config cache_root nothing_held)
  unfolding make_state_dir with_dir
  make_state_dir-Ends base config cache_root =
      bind-Stays _ (check-Stays _ _ _ _ nothing_held-OnlyDebris) (λ _.
        bind-Stays _ (need-Stays _ _ _ _ nothing_held-OnlyDebris) (λ dir. bind-ok _ (
          bind-Stays _ (check_default-Stays _)
            (λ _. bind-Stays _ (check-Stays _ _ _ _ removed) (λ _. good_end dir with_dir refl)))))

  -- A running daemon, with its token file and its control socket.
  running_daemon : Bool → Bool → World
  running_daemon token socket = record with_dir {
    fs_daemon = running;
    token_file = token;
    control_socket = socket;
  }

  stopped-OnlyDebris :
      (token socket : Bool)
      → OnlyDebris (remove_state_dir h (stop_fs_daemon (running_daemon token socket)))
  unfolding remove_state_dir running_daemon with_dir
  stopped-OnlyDebris token socket = rw removes (record {
    no_dir = refl;
    no_slot = refl;
    no_daemon = λ e. cc;
    no_passt = refl;
    no_qemu = refl;
  })

  killed-OnlyDebris :
      (token socket : Bool) → OnlyDebris (kill_ninep h (running_daemon token socket))
  unfolding remove_state_dir running_daemon with_dir
  killed-OnlyDebris token socket = rw removes (record {
    no_dir = refl;
    no_slot = refl;
    no_daemon = λ e. cc;
    no_passt = refl;
    no_qemu = refl;
  })

  check_fd_limit-Stays : Stays OnlyDebris (check_fd_limit h) with_dir
  unfolding check_fd_limit
  check_fd_limit-Stays =
      bind-Stays _ (need-Stays _ _ _ _ removed) (λ limit. check-Stays _ _ _ _ removed)

  new_virtiofs_manager-Stays :
      (dir home work_dir : Bytes) (slot : ℕ) (extra : List PathSpec)
      → Stays OnlyDebris (new_virtiofs_manager h dir home work_dir slot extra) with_dir
  unfolding new_virtiofs_manager
  new_virtiofs_manager-Stays dir home work_dir slot extra =
      bind-Stays _ (need-Stays _ _ _ _ removed) (λ root.
        bind-Stays _ (check-Stays _ _ _ _ removed) (λ _.
          bind-Stays _ (need-Stays _ _ _ _ removed) (λ tokens.
            bind-Stays _ (need-Stays _ _ _ _ removed) (λ ports. good_end _ with_dir refl))))

  -- A step from one state to another.
  abbrev Goes : {A : Type 0} → World → World → M A → Type 0
  Goes s s' m = Ends (λ a w. w ≡ s') OnlyDebris (m s)

  start_virtiofsd-Goes :
      (v : VirtiofsManager) → Goes with_dir (running_daemon true false) (start_virtiofsd h v)
  unfolding start_virtiofsd with_dir running_daemon
  start_virtiofsd-Goes v = bind-Stays _ (need-Stays _ _ _ _ removed) (λ pid. bind-ok _ (
      bind-Stays _ (check-Stays _ _ _ _ (stopped-OnlyDebris false false)) (λ _.
        bind-Stays _ (check-Stays _ _ _ _ (stopped-OnlyDebris false false))
          (λ _. bind-ok _ (good_end _ _ refl)))))

  accept_token_file-Stays :
      (pid : ℕ) (file : TokenFile)
      → Stays OnlyDebris (accept_token_file h pid file) (running_daemon true true)
  unfolding accept_token_file
  accept_token_file-Stays pid too_few_lines = need-Stays _ _ _ _ (killed-OnlyDebris true true)
  accept_token_file-Stays pid bad_number = need-Stays _ _ _ _ (killed-OnlyDebris true true)
  accept_token_file-Stays pid (parsed token control port) = good_end _ _ refl

  start_ninep-Goes :
      (cache_root : Bytes) (args : List Bytes)
      → Goes with_dir (running_daemon true true) (start_ninep h cache_root args)
  unfolding start_ninep with_dir running_daemon
  start_ninep-Goes cache_root args = bind-Stays _ (check-Stays _ _ _ _ removed) (λ _.
      bind-Stays _ (need-Stays _ _ _ _ removed) (λ pid. bind-ok _ (
        bind-Stays _ (need-Stays _ _ _ _ (killed-OnlyDebris false h.ninep_listens))
          (λ content. bind-ok _ (accept_token_file-Stays pid _)))))

  -- The file system daemon runs, with the files that it makes.
  abbrev RunsFs : FsDaemon → World → Type 0
  RunsFs fs w = w ≡ running_daemon true (has_control_socket fs)

  by_ninep-Ends :
      (cache_root : Bytes) (args : List Bytes)
      → Ends RunsFs OnlyDebris
          ((start_ninep h cache_root args >>= λ info. pure (by_ninep info)) with_dir)
  by_ninep-Ends cache_root args =
      bind-Stays _ (start_ninep-Goes cache_root args) (λ info. good_end _ _ refl)

  start_fs-Ends :
      (mode : ShareMode) (cache_root home work_dir dir : Bytes) (slot : ℕ) (extra : List PathSpec)
      → Ends RunsFs OnlyDebris (start_fs h mode cache_root home work_dir dir slot extra with_dir)
  unfolding start_fs
  start_fs-Ends virtiofs cache_root home work_dir dir slot extra =
      bind-Stays _ check_fd_limit-Stays (λ _.
        bind-Stays _ (new_virtiofs_manager-Stays dir home work_dir slot extra)
          (λ v. bind-Stays _ (start_virtiofsd-Goes v) (λ v'. good_end _ _ refl)))
  start_fs-Ends ninep cache_root home work_dir dir slot extra = by_ninep-Ends cache_root _
  start_fs-Ends unset cache_root home work_dir dir slot extra = by_ninep-Ends cache_root _

  cleaned-OnlyDebris :
      (fs : FsDaemon) (w : World) → RunsFs fs w → OnlyDebris (cleanup_on_error h fs w)
  unfolding cleanup_on_error
  cleaned-OnlyDebris (by_virtiofs v) w e =
      subst (λ x. OnlyDebris (remove_state_dir h (stop_fs_daemon x))) (sym e)
        (stopped-OnlyDebris true false)
  cleaned-OnlyDebris (by_ninep info) w e =
      subst (λ x. OnlyDebris (kill_ninep h x)) (sym e) (killed-OnlyDebris true true)

  allocated_slot :
      (fs : FsDaemon) (w : World)
      → RunsFs fs w
      → Ends
          (λ slot w'. (w' ≡ w) × (h.allocated ≡ some slot))
          OnlyDebris
          (need (cleanup_on_error h fs) no_slot h.allocated w)
  allocated_slot fs w e = need-Same _ _ _ _ (cleaned-OnlyDebris fs w e)

  -- new
  pub new_vm-Ends :
      (mode : ShareMode) (work_dir state_dir_base : Bytes)
      → Ends (IsNew h) OnlyDebris (new_vm h mode work_dir state_dir_base nothing_held)
  unfolding new_vm find_ssh_key new_passt_manager with_dir running_daemon
  new_vm-Ends mode work_dir state_dir_base =
      bind-Stays _ (check-Stays _ _ _ _ nothing_held-OnlyDebris) (λ _.
        bind-Stays _ (need-Stays _ _ _ _ nothing_held-OnlyDebris) (λ home.
          bind-Stays _ (need-Stays _ _ _ _ nothing_held-OnlyDebris) (λ config.
            bind-Stays _ (need-Stays _ _ _ _ nothing_held-OnlyDebris) (λ cache_root.
              bind-Stays _ (make_state_dir-Ends state_dir_base config cache_root) (λ dir.
                bind-Stays _ (need-Stays _ _ _ _ removed) (λ key.
                  bind-Stays _ (need-Stays _ _ _ _ removed) (λ peeked.
                    bind-Ends _
                      (start_fs-Ends _ cache_root home work_dir dir peeked config.allow_paths)
                      (λ fs w runs. bind-Ends _ (allocated_slot fs w runs) (λ slot w' (same, row).
                        bind-ok _ (
                          good_end _ _ (record {
                            holds = ap {A = World} (λ x. record x { slot = true }) (same ∙ runs);
                            allocated = row;
                            no_passt = refl;
                            no_qemu = refl;
                          })))))))))))
