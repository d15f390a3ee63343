-- ===== src/Commands/Table.antt =====
-- The table of VMs that the commands ask: the queries of VmSlots fill the interface `Vms`.
use homura.Bytes.{Bytes, bytes_dec}
use homura.Commands.Quoted.{Token, Place, IsPosix}
use homura.Commands.Run.{split_run_args}
use homura.Commands.Target.{Site, Target, Vms, Ssh, vm_run}
use homura.Commands.Where.{PlacesVms, Runs, vm_run-Runs}
use homura.Daemon.Start.{StartParams}
use homura.Outcome.{Outcome}
use homura.Prelude.{
  ℕ, ◌≡◌, refl, sym, ap, ◌∙◌, subst, Bool, true, false, Option, none, some, List, [], ◌∷◌, map,
  if_neg, if◌then◌else◌, Bool-cases, Option-cases, inl, inr, Has,
}
use homura.VmSlots.Db.{VmSlot, SlotDb}
use homura.VmSlots.Lookup.{selected, select, in_dir, find_vm_by_slot, find_vms_by_work_dir}
use homura.VmSlots.{Result, ok, err, db_failed, World, M, and_then, prepare}

unfoldable pub target_of : VmSlot → Target
target_of r = record {
  ip_address = r.ip_address;
  port_start = r.port_start;
  working_dir = r.working_dir;
}

abbrev pub answer_of : {A B : Type 0} → (A → B) → Result A → Option B
answer_of f (ok a) = some (f a)
answer_of f (err e) = none

-- A number with a sign is no slot.
abbrev pub unsigned : Option Target → Bool × ℕ → Option Target
unsigned found (true, n) = none
unsigned found (false, n) = found

selected-passes :
    (keep : VmSlot → Bool) (rows : List VmSlot) (r : VmSlot)
    → Has (selected keep rows) r
    → keep r ≡ true
unfolding selected
selected-passes keep [] r has = absurd has
selected-passes keep (q ∷ rows) r has =
    let shown = λ (b : Bool). Has (if b then q ∷ selected keep rows else selected keep rows) r in
    elim (Bool-cases (keep q)) [
      | inl pass ↦ first pass (selected-passes keep rows r) (subst shown pass has)
      | inr fail ↦ selected-passes keep rows r (subst shown fail has)
    ]
  where
    first :
        keep q ≡ true
        → (Has (selected keep rows) r → keep r ≡ true)
        → Has (q ∷ selected keep rows) r
        → keep r ≡ true
    first pass rest (inl same) = ap keep (sym same) ∙ pass
    first pass rest (inr has') = rest has'

map-Has :
    (rows : List VmSlot) (t : Target)
    → Has (map target_of rows) t
    → (r : VmSlot) × Has rows r × (target_of r ≡ t)
map-Has [] t has = absurd has
map-Has (q ∷ rows) t (inl same) = (q, inl refl, same)
map-Has (q ∷ rows) t (inr has) = let (r, has', e) = map-Has rows t has in (r, inr has', e)

in_dir-eq : (dir : Bytes) (r : VmSlot) → in_dir dir r ≡ true → r.working_dir ≡ dir
unfolding in_dir
in_dir-eq dir r h = elim (bytes_dec r.working_dir dir) [
  | yes e ↦ e
  | no ne ↦
      let no_match : false ≡ true = sym (if_neg (bytes_dec r.working_dir dir) ne true false) ∙ h in
      absurd (cc)
]

module _ (D : SlotDb) where
  and_then-ok :
      {A B : Type 0} (x : Result A × World D.State) (f : A → M D B) (b : B)
      → (and_then D x f).0 ≡ ok b
      → (a : A) × (w : World D.State) × ((f a w).0 ≡ ok b)
  and_then-ok (ok a, w) f b h = (a, w, h)
  and_then-ok (err e, w) f b h = absurd (cc)

  select-ok :
      (keep : VmSlot → Bool) (w : World D.State) (rows : List VmSlot)
      → (select D keep w).0 ≡ ok rows
      → (all : List VmSlot) × (selected keep all ≡ rows)
  unfolding select
  select-ok keep w rows h = elim (Option-cases (D.all_slots w.db)) [
    | inl none_left ↦
        let failed : err db_failed ≡ ok rows = rw (select, none_left) at h in absurd (cc)
    | inr (all, e) ↦ let h' : ok (selected keep all) ≡ ok rows = rw (select, e) at h in (all, cc)
  ]

  -- The VMs that a table holds, with what the daemon and a VM that starts answer.
  abbrev pub vms_of :
      (ℕ → Bool)
      → World D.State
      → Bool
      → (StartParams → Option (Bytes × ℕ))
      → (Bytes → ℕ → Bool)
      → Vms
  vms_of alive w up start ready = record {
    find_vm_by_slot = λ n. unsigned (answer_of target_of (find_vm_by_slot D alive n.1 w).0) n;
    find_vms_by_work_dir = λ dir. answer_of (map target_of) (find_vms_by_work_dir D alive dir w).0;
    ensure_daemon = up;
    start_vm = start;
    wait_for_ssh = ready;
  }

  answer-ok :
      (answer : Result (List VmSlot)) (targets : List Target)
      → answer_of (map target_of) answer ≡ some targets
      → (rows : List VmSlot) × (answer ≡ ok rows) × (map target_of rows ≡ targets)
  answer-ok (ok rows) targets h = (rows, refl, cc)
  answer-ok (err e) targets h = absurd (cc)

  found-placed :
      (alive : ℕ → Bool) (w : World D.State) (dir : Bytes) (rows : List VmSlot) (t : Target)
      → (find_vms_by_work_dir D alive dir w).0 ≡ ok rows
      → Has (map target_of rows) t
      → t.working_dir ≡ dir
  unfolding find_vms_by_work_dir target_of
  found-placed alive w dir rows t h has =
      let (r, has', e) = map-Has rows t has in
      let (_, w', h') = and_then-ok (prepare D alive w) _ rows h in
      let (all, e') = select-ok (in_dir dir) w' rows h' in
      sym (ap (λ u. u.working_dir) e)
      ∙ in_dir-eq dir r (selected-passes (in_dir dir) all r (subst (λ rs. Has rs r) (sym e') has'))

  vms_of-PlacesVms :
      (alive : ℕ → Bool) (w : World D.State) (up : Bool) (start : StartParams → Option (Bytes × ℕ))
      (ready : Bytes → ℕ → Bool)
      → PlacesVms (vms_of alive w up start ready)
  vms_of-PlacesVms alive w up start ready dir targets t found has =
      let (rows, answered, e) = answer-ok (find_vms_by_work_dir D alive dir w).0 targets found in
      found-placed alive w dir rows t answered (subst (λ ts. Has ts t) (sym e) has)

  -- Over any database of slots, where the guest's shell splits its input as POSIX says: if
  -- `homura vm run` goes over to ssh, a command was given, ssh has the address and the port of a
  -- VM, and the shell there reads a change to that VM's directory under /mnt/host and, behind
  -- it, the words of the command. The VM is the one that FindVMBySlot gives for a number in
  -- place of a branch, or it works in the place of the branch: the working directory under
  -- --here, else the copy, not known to be missing, of the branch given or of the repository's
  -- default branch.
  pub vm_run-placed :
      (read : Place → Bytes → List Token) (s : Site) (alive : ℕ → Bool) (w : World D.State)
      (up : Bool) (start : StartParams → Option (Bytes × ℕ)) (ready : Bytes → ℕ → Bool)
      (args program_args : List Bytes) (share_mode : Bytes) (ssh : Ssh)
      → IsPosix read
      → vm_run s (vms_of alive w up start ready) args program_args share_mode ≡ Outcome.ok ssh
      → Runs read s
          (vms_of alive w up start ready)
          ssh
          (split_run_args args program_args).0
          (split_run_args args program_args).1
  vm_run-placed read s alive w up start ready args program_args share_mode ssh posix =
      vm_run-Runs read s (vms_of alive w up start ready) args program_args share_mode ssh posix
        (vms_of-PlacesVms alive w up start ready)
