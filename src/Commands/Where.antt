-- ===== src/Commands/Where.antt =====
-- Where `homura vm run` runs a command.
use homura.Bytes.{Bytes}
use homura.Commands.Places.{bind-ok, or_fail-ok, IsPlaceOf, resolve_vm_work_dir-IsPlaceOf}
use homura.Commands.Quoted.{Token, Place, between, IsPosix, remote_tokens, build_remote_cmd-tokens}
use homura.Commands.Run.{split_run_args}
use homura.Commands.Target.{
  Site, Target, TargetError, Vms, Ssh, or_fail, resolve_vm_work_dir, when_ready, start_in,
  first_or_start, by_number, resolve_vm_run_slot, run_in, run_split, vm_run,
}
use homura.Daemon.Start.{parse_share_mode}
use homura.Outcome.{Outcome, ok, err}
use homura.Prelude.{
  ℕ, ◌≡◌, ◌≢◌, refl, sym, ap, ◌∙◌, subst, Bool, true, false, Option, none, some, List, [], ◌∷◌,
  if◌then◌else◌, Bool-cases, inl, inr, ◌⊎◌, Has,
}
use homura.Vm.Share.{atoi}
use homura.Vm.{ShareMode}

-- The VMs that are found by a directory work in it.
abbrev pub PlacesVms : Vms → Type 0
PlacesVms v =
    (dir : Bytes) (targets : List Target) (t : Target)
    → v.find_vms_by_work_dir dir ≡ some targets
    → Has targets t
    → t.working_dir ≡ dir

when_ready-dir :
    (v : Vms) (dir : Bytes) (answer : Bytes × ℕ) (t : Target)
    → when_ready v dir answer ≡ ok t
    → t.working_dir ≡ dir
when_ready-dir v dir (ip, port) t h = elim (Bool-cases (v.wait_for_ssh ip port)) [
  | inl ready ↦ sym (ap working_dir_of (sym (readied true ready) ∙ h))
  | inr not_ready ↦ absurd (refused (sym (readied false not_ready) ∙ h))
]
  where
    done : Bool → Outcome TargetError Target
    done b =
        if b
        then ok (record { ip_address = ip; port_start = port; working_dir = dir })
        else err TargetError.no_ssh

    readied : (b : Bool) → v.wait_for_ssh ip port ≡ b → when_ready v dir (ip, port) ≡ done b
    readied b e = ap done e

    working_dir_of : Outcome TargetError Target → Bytes
    working_dir_of (ok u) = u.working_dir
    working_dir_of other = dir

    refused : err TargetError.no_ssh ≡ ok t → ⊥
    refused e = cc

start_in-dir :
    (s : Site) (v : Vms) (mode : ShareMode) (dir : Bytes) (t : Target)
    → start_in s v mode dir ≡ ok t
    → t.working_dir ≡ dir
unfolding start_in
start_in-dir s v mode dir t h = elim (Bool-cases v.ensure_daemon) [
  | inl up ↦
      let (answer, started, h') = bind-ok _ (when_ready v dir) t (rw up at h) in
      when_ready-dir v dir answer t h'
  | inr down ↦ let h' : err TargetError.no_daemon ≡ ok t = rw down at h in absurd (cc)
]

first_or_start-dir :
    (s : Site) (v : Vms) (mode : ShareMode) (dir : Bytes) (found : Option (List Target))
    (t : Target)
    → PlacesVms v
    → v.find_vms_by_work_dir dir ≡ found
    → first_or_start s v mode dir found ≡ ok t
    → t.working_dir ≡ dir
unfolding first_or_start
first_or_start-dir s v mode dir (some (u ∷ targets)) t law e h =
    law dir (u ∷ targets) t e (inl (cc))
first_or_start-dir s v mode dir (some []) t law e h = start_in-dir s v mode dir t h
first_or_start-dir s v mode dir none t law e h = start_in-dir s v mode dir t h

-- The VM of a number that is given in place of a branch, or one in the branch's directory.
abbrev pub IsTargetOf : Site → Vms → Bytes → Target → Type 0
IsTargetOf s v branch t =
    ((n : Bool × ℕ) × (atoi branch ≡ some n) × (v.find_vm_by_slot n ≡ some t))
    ⊎ IsPlaceOf s branch t.working_dir

by_number-IsTargetOf :
    (s : Site) (v : Vms) (mode : ShareMode) (branch : Bytes) (number : Option (Bool × ℕ))
    (t : Target)
    → PlacesVms v
    → ((n : Bool × ℕ) → number ≡ some n → atoi branch ≡ some n)
    → by_number s v mode branch number ≡ ok t
    → IsTargetOf s v branch t
unfolding by_number
by_number-IsTargetOf s v mode branch (some n) t law read h =
    inl (n, read n refl, or_fail-ok TargetError.no_such_vm (v.find_vm_by_slot n) t h)
by_number-IsTargetOf s v mode branch none t law read h =
    let ((dir, name), resolved, h') = bind-ok (resolve_vm_work_dir s branch true) _ t h in
    let placed = first_or_start-dir s v mode dir (v.find_vms_by_work_dir dir) t law refl h' in
    inr (
      subst (IsPlaceOf s branch) (sym placed)
        (resolve_vm_work_dir-IsPlaceOf s branch dir name resolved))

resolve_vm_run_slot-IsTargetOf :
    (s : Site) (v : Vms) (branch : Bytes) (mode : ShareMode) (t : Target)
    → PlacesVms v
    → resolve_vm_run_slot s v branch mode ≡ ok t
    → IsTargetOf s v branch t
unfolding resolve_vm_run_slot
resolve_vm_run_slot-IsTargetOf s v [] mode t law h =
    by_number-IsTargetOf s v mode [] none t law (λ n e. absurd (cc)) h
resolve_vm_run_slot-IsTargetOf s v (c ∷ branch) mode t law h = elim (Bool-cases s.here) [
  | inl here ↦
      let h' : err TargetError.here_with_branch ≡ ok t =
        sym (ap (unless_here (c ∷ branch)) here) ∙ h in
      absurd (cc)
  | inr not_here ↦
      by_number-IsTargetOf s v mode (c ∷ branch) (atoi (c ∷ branch)) t law (λ n e. e)
        (sym (ap (unless_here (c ∷ branch)) not_here) ∙ h)
]
  where
    unless_here : Bytes → Bool → Outcome TargetError Target
    unless_here name b =
        if b then err TargetError.here_with_branch else by_number s v mode name (atoi name)

-- What `homura vm run` has made sure of when it goes over to ssh.
pub record Runs (read : Place → Bytes → List Token) (s : Site) (v : Vms) (ssh : Ssh)
    (branch : Bytes) (command : List Bytes) : Type 0 where
  pub target : Target
  pub of_branch : IsTargetOf s v branch target
  pub reaches : (ssh.ip ≡ target.ip_address) × (ssh.port ≡ target.port_start)
  pub says : read between ssh.remote_cmd ≡ remote_tokens target.working_dir command
  pub command_given : command ≢ []

command-ne-nil : (c : Bytes) (command : List Bytes) → (c ∷ command) ≢ []
command-ne-nil c command e = cc

run_split-Runs :
    (read : Place → Bytes → List Token) (s : Site) (v : Vms) (mode : ShareMode) (branch : Bytes)
    (command : List Bytes) (ssh : Ssh)
    → IsPosix read
    → PlacesVms v
    → run_split s v mode (branch, command) ≡ ok ssh
    → Runs read s v ssh branch command
unfolding run_split run_in
run_split-Runs read s v mode branch [] ssh posix law h = absurd (cc)
run_split-Runs read s v mode branch (c ∷ command) ssh posix law h =
    let (t, found, h') =
      bind-ok (resolve_vm_run_slot s v branch mode) (run_in (c ∷ command)) ssh h in
    record {
      target = t;
      of_branch = resolve_vm_run_slot-IsTargetOf s v branch mode t law found;
      reaches = (cc, cc);
      says =
          ap (read between) (cc) ∙ build_remote_cmd-tokens read posix t.working_dir (c ∷ command);
      command_given = command-ne-nil c command;
    }

-- A command of `homura vm run` that goes over to ssh runs in the place of its branch.
pub vm_run-Runs :
    (read : Place → Bytes → List Token) (s : Site) (v : Vms) (args program_args : List Bytes)
    (share_mode : Bytes) (ssh : Ssh)
    → IsPosix read
    → PlacesVms v
    → vm_run s v args program_args share_mode ≡ ok ssh
    → Runs read s v ssh (split_run_args args program_args).0 (split_run_args args program_args).1
unfolding vm_run
vm_run-Runs read s v args program_args share_mode ssh posix law h =
    let (mode, _, h') =
      bind-ok (or_fail TargetError.bad_share_mode (parse_share_mode share_mode)) _ ssh h in
    run_split-Runs read s v mode (split_run_args args program_args).0
      (split_run_args args program_args).1 ssh posix law h'
