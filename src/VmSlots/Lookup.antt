-- ===== src/VmSlots/Lookup.antt =====
-- The queries of internal/vm/globalstate.go for running VMs. Each drops the rows of dead processes
-- first, and selects from the rest; the order of the rows is the database's.
use homura.Bytes.{Bytes, bytes_dec}
use homura.Prelude.{
  ℕ, ◌≡◌, refl, sym, ap, ◌∙◌, Bool, true, false, List, [], ◌∷◌, none, some, ◌==◌, ite,
  if◌then◌else◌, arith, Bool-cases, Option-cases, inl, inr, ◌⊎◌, Has,
}
use homura.VmSlots.Cleanup.{SameTable}
use homura.VmSlots.Db.{VmSlot, SlotDb, IsLawful}
use homura.VmSlots.Stale.{live, prepare-Cleans}
use homura.VmSlots.{Result, ok, err, SlotError, db_failed, not_found, World, M, and_then, prepare}

-- WHERE
unfoldable pub selected : (VmSlot → Bool) → List VmSlot → List VmSlot
selected keep [] = []
selected keep (r ∷ rows) = let rest = selected keep rows in if keep r then r ∷ rest else rest

-- QueryRow and its Scan: the first row, whose creation time is not read.
abbrev pub first_row : List VmSlot → Result VmSlot
first_row [] = err not_found
first_row (r ∷ rows) = ok (record r { created_at = 0 })

unfoldable pub in_dir : Bytes → VmSlot → Bool
unfolding bytes_dec
in_dir path r = ite (bytes_dec r.working_dir path) true false

module _ (D : SlotDb) where
  unfoldable pub select : (VmSlot → Bool) → M D (List VmSlot)
  unfolding selected
  select keep w = elim (D.all_slots w.db) [
    | none ↦ (err db_failed, w)
    | some rows ↦ (ok (selected keep rows), w)
  ]

  unfoldable pub select_row : (VmSlot → Bool) → M D VmSlot
  unfolding select
  select_row keep w = and_then D (select keep w) λ rows w'. (first_row rows, w')

  -- FindVMByWorkDir
  unfoldable pub find_vm_by_work_dir : (ℕ → Bool) → Bytes → M D VmSlot
  unfolding prepare select_row in_dir
  find_vm_by_work_dir alive path w = and_then D (prepare D alive w) λ _. select_row (in_dir path)

  -- FindVMsByWorkDir
  unfoldable pub find_vms_by_work_dir : (ℕ → Bool) → Bytes → M D (List VmSlot)
  unfolding prepare select in_dir
  find_vms_by_work_dir alive path w = and_then D (prepare D alive w) λ _. select (in_dir path)

  -- FindVMBySlot
  unfoldable pub find_vm_by_slot : (ℕ → Bool) → ℕ → M D VmSlot
  unfolding prepare select_row
  find_vm_by_slot alive n w =
      and_then D (prepare D alive w) λ _. select_row (λ r. r.slot_number == n)

  -- ListAllVMs
  unfoldable pub list_all_vms : (ℕ → Bool) → M D (List VmSlot)
  unfolding prepare select
  list_all_vms alive w = and_then D (prepare D alive w) λ _. select (λ r. true)

  -- FindVMByNinePPID
  unfoldable pub find_vm_by_ninep_pid : (ℕ → Bool) → ℕ → M D VmSlot
  unfolding prepare select_row
  find_vm_by_ninep_pid alive pid w =
      and_then D (prepare D alive w) λ _. select_row (λ r. r.ninep_pid == pid)

-- The first row that a test selects is a row that passes it; without one, no row does.
first_selected :
    (keep : VmSlot → Bool) (rows : List VmSlot)
    → ((selected keep rows ≡ []) × ((r : VmSlot) → Has rows r → keep r ≡ false))
      ⊎ ((r : VmSlot) × (rest : List VmSlot) × (selected keep rows ≡ (r ∷ rest))
          × Has rows r
          × (keep r ≡ true))
unfolding selected
first_selected keep [] = inl (refl, λ r has. absurd has)
first_selected keep (r ∷ rows) = elim (Bool-cases (keep r)) [
  | inl yes_keep ↦ inr (r, selected keep rows, rw yes_keep, inl refl, yes_keep)
  | inr no_keep ↦ elim (first_selected keep rows) [
    | inl (e, all) ↦ inl (
      rw (no_keep, e),
      λ r'. elim [ inl same ↦ ap keep (sym same) ∙ no_keep | inr has ↦ all r' has ],
    )
    | inr (r', rest, e, has, pass) ↦ inr (r', rest, rw (no_keep, e), inr has, pass)
  ]
]

module _ (D : SlotDb) (L : IsLawful D) where
  abbrev pub OnlyLive : (ℕ → Bool) → World D.State → World D.State → Type 0
  OnlyLive alive w w' = (m : ℕ) → D.table w'.db m ≡ live alive (D.table w.db m)

  abbrev pub FindFails : (ℕ → Bool) → ℕ → World D.State → Type 0
  FindFails alive n w =
      (e : SlotError) × (w' : World D.State) × (find_vm_by_slot D alive n w ≡ (err e, w'))
      × (SameTable D L w w' ⊎ OnlyLive alive w w')

  abbrev pub FindsNone : (ℕ → Bool) → ℕ → World D.State → Type 0
  FindsNone alive n w =
      (w' : World D.State) × (find_vm_by_slot D alive n w ≡ (err not_found, w'))
      × (live alive (D.table w.db n) ≡ none)
      × OnlyLive alive w w'

  abbrev pub Finds : (ℕ → Bool) → ℕ → World D.State → Type 0
  Finds alive n w =
      (r : VmSlot) × (w' : World D.State) × (find_vm_by_slot D alive n w
        ≡ (ok (record r { created_at = 0 }), w'))
      × (live alive (D.table w.db n) ≡ some r)
      × OnlyLive alive w w'

  unselected :
      (s : D.State) (rows : List VmSlot) (n : ℕ)
      → D.all_slots s ≡ some rows
      → ((r : VmSlot) → Has rows r → (r.slot_number == n) ≡ false)
      → D.table s n ≡ none
  unselected s rows n e all = elim (Option-cases (D.table s n)) [
    | inl empty ↦ empty
    | inr (r, row) ↦
        let key = L.keyed s n r row in
        let other = all r (L.all_slots_complete s rows n r e row) in absurd (ground arith)
  ]

  selected-row :
      (s : D.State) (rows : List VmSlot) (n : ℕ) (r : VmSlot)
      → D.all_slots s ≡ some rows
      → Has rows r
      → (r.slot_number == n) ≡ true
      → D.table s n ≡ some r
  selected-row s rows n r e has pass =
      let key : r.slot_number ≡ n = ground arith in
      ap (D.table s) (sym key) ∙ L.all_slots_sound s rows r e has

  -- Over any lawful database FindVMBySlot either fails, and leaves the table as it was or
  -- without the rows of dead processes, or drops these rows and then finds no VM, where the slot
  -- has no row of a live process, or that row, without its creation time.
  pub find_vm_by_slot-cases :
      (alive : ℕ → Bool) (n : ℕ) (w : World D.State)
      → FindFails alive n w ⊎ FindsNone alive n w ⊎ Finds alive n w
  unfolding find_vm_by_slot select_row select
  find_vm_by_slot-cases alive n w = elim (prepare-Cleans D L alive w) [
    | inl (e, w1, bad, same) ↦ inl (e, w1, rw (bad, find_vm_by_slot), inl same)
    | inr (w1, ready, t) ↦ elim (Option-cases (D.all_slots w1.db)) [
      | inl failed ↦
          inl (db_failed, w1, rw (ready, failed, find_vm_by_slot, select_row, select), inr t)
      | inr (rows, e) ↦ elim (first_selected (λ r. r.slot_number == n) rows) [
        | inl (nothing, all) ↦ inr (
            inl (
              w1,
              rw (ready, e, nothing, find_vm_by_slot, select_row, select),
              sym (t n) ∙ unselected w1.db rows n e all,
              t,
            ))
        | inr (r, rest, found, has, pass) ↦ inr (
            inr (
              r,
              w1,
              rw (ready, e, found, find_vm_by_slot, select_row, select),
              sym (t n) ∙ selected-row w1.db rows n r e has pass,
              t,
            ))
      ]
    ]
  ]
