-- ===== src/VmSlots/Ports.antt =====
-- The table over any operations of internal/vm/globalstate.go: every row has the address and the
-- ports of its slot, and no port belongs to two rows.
use homura.Bytes.{Bytes}
use homura.Prelude.{
  ℕ, ◌≡◌, ◌≢◌, ◌≤◌, ◌<◌, refl, sym, ap, subst, ◌∙◌, Bool, List, [], ◌∷◌, some, ◌==◌, arith,
  Bool-cases, Option-cases, inl, inr, ==→eq,
}
use homura.VmSlots.Allocate.{allocate_vm_slot-cases, IsClaimed}
use homura.VmSlots.Db.{VmSlot, SlotDb, IsLawful, Statement, remove, set_qemu, set_console, Table}
use homura.VmSlots.Stale.{cleanup_stale_slots-Cleans}
use homura.VmSlots.{
  World, and_then, done_or, init_db, execute, cleanup_stale_slots, new_slot, allocate_vm_slot,
  update_slot_qemu_pid, update_slot_console, release_vm_slot, VmSlotParams, max_vm_slots, base_port,
}
use homura.VmSlots.Rows.{
  IsRow, IsPlaced, KeepsPlace, some-eq-some, IsPlaced-live, IsPlaced-eq, IsPlaced-remove,
  IsRow-copy, IsPlaced-set_qemu, IsPlaced-set_console, slot_ip-injective,
}

-- The operations that write the table.
pub data Call : Type 0 where
  allocate : VmSlotParams → ℕ → ℕ → Call
  cleanup : Call
  update_qemu : ℕ → ℕ → Call
  update_console : ℕ → Bytes → Bytes → Call
  release : ℕ → Call

module _ (D : SlotDb) where
  unfoldable pub perform : (ℕ → Bool) → Call → World D.State → World D.State
  unfolding allocate_vm_slot cleanup_stale_slots update_slot_qemu_pid update_slot_console
      release_vm_slot
  perform alive (allocate params pid now) w = (allocate_vm_slot D alive params pid now w).1
  perform alive cleanup w = (cleanup_stale_slots D alive w).1
  perform alive (update_qemu n pid) w = (update_slot_qemu_pid D n pid w).1
  perform alive (update_console n socket log) w = (update_slot_console D n socket log w).1
  perform alive (release n) w = (release_vm_slot D n w).1

  -- Any operations, each with the processes that live then.
  unfoldable pub run : List ((ℕ → Bool) × Call) → World D.State → World D.State
  unfolding perform
  run [] w = w
  run ((alive, c) ∷ calls) w = run calls (perform alive c w)

module _ (D : SlotDb) (L : IsLawful D) where
  abbrev pub IsWell : World D.State → Type 0
  IsWell w = IsPlaced (D.table w.db)

  IsWell-execute :
      (st : Statement)
      → KeepsPlace st
      → (w : World D.State) → IsWell w
      → IsWell (and_then D (init_db D w) λ _. execute D st).1
  unfolding init_db done_or execute
  IsWell-execute st keeps w well = elim (Option-cases (D.init w.db)) [
    | inl failed ↦ rw failed well
    | inr (s, e) ↦
        let ready : IsPlaced (D.table s) = IsPlaced-eq _ _ (λ n. L.table-init w.db s n e) well in
        elim (Option-cases (D.exec s st)) [
          | inl failed ↦ rw (e, failed) ready
          | inr (s', e') ↦
              rw (e, e')
                (IsPlaced-eq _ _ (λ n. L.table-exec s s' st n e') (keeps (D.table s) ready))
        ]
  ]

  IsRow-new_slot :
      (params : VmSlotParams) (pid now k : ℕ)
      → 1 ≤ k
      → k ≤ max_vm_slots
      → IsRow k (new_slot params pid now k)
  unfolding new_slot
  IsRow-new_slot params pid now k lo hi = record {
    first = lo;
    last = hi;
    number = refl;
    address = refl;
    start = refl;
    end = omega arith;
  }

  IsRow-claimed :
      (params : VmSlotParams) (pid now : ℕ) (t t' : Table) (r : VmSlot)
      → IsClaimed D L params pid now t t' r
      → IsRow r.slot_number r
  IsRow-claimed params pid now t t' r c =
      let k = r.slot_number in
      let above = c.lowest.above in
      let below = c.lowest.below in
      IsRow-copy k (new_slot params pid now k) r (ap (λ x. x.slot_number) c.row)
        (ap (λ x. x.ip_address) c.row) (ap (λ x. x.port_start) c.row) (ap (λ x. x.port_end) c.row)
        (IsRow-new_slot params pid now k above (omega arith))

  IsPlaced-claimed :
      (params : VmSlotParams) (pid now : ℕ) (t t' : Table) (r : VmSlot)
      → IsClaimed D L params pid now t t' r
      → IsPlaced t
      → IsPlaced t'
  IsPlaced-claimed params pid now t t' r c placed n x e =
      let added = c.added n in
      elim (Bool-cases (r.slot_number == n)) [
        | inr other ↦ placed n x (sym (rw other at added) ∙ e)
        | inl same ↦
            let mine : r ≡ x = some-eq-some (sym (rw same at added) ∙ e) in
            subst (λ m. IsRow m x) (==→eq _ _ same)
              (subst (λ y. IsRow r.slot_number y) mine (IsRow-claimed params pid now t t' r c))
      ]

  IsWell-perform :
      (alive : ℕ → Bool) (c : Call) (w : World D.State) → IsWell w → IsWell (perform D alive c w)
  unfolding perform update_slot_qemu_pid update_slot_console release_vm_slot
  IsWell-perform alive (allocate params pid now) w well =
      let kept = IsPlaced-live alive (D.table w.db) well in
      elim (allocate_vm_slot-cases D L params pid now alive w) [
        | inl (e, w', bad, inl same) ↦ rw (perform, bad) (IsPlaced-eq _ _ same well)
        | inl (e, w', bad, inr lives) ↦ rw (perform, bad) (IsPlaced-eq _ _ lives kept)
        | inr (r, w', good, c) ↦ rw (perform, good) (IsPlaced-claimed params pid now _ _ r c kept)
      ]
  IsWell-perform alive cleanup w well = elim (cleanup_stale_slots-Cleans D L alive w) [
    | inl (e, w', bad, same) ↦ rw (perform, bad) (IsPlaced-eq _ _ same well)
    | inr (w', good, lives) ↦
        rw (perform, good) (IsPlaced-eq _ _ lives (IsPlaced-live alive (D.table w.db) well))
  ]
  IsWell-perform alive (update_qemu n pid) w well =
      IsWell-execute (set_qemu n pid) (IsPlaced-set_qemu n pid) w well
  IsWell-perform alive (update_console n socket log) w well =
      IsWell-execute (set_console n socket log) (IsPlaced-set_console n socket log) w well
  IsWell-perform alive (release n) w well = IsWell-execute (remove n) (IsPlaced-remove n) w well

  pub IsWell-run :
      (calls : List ((ℕ → Bool) × Call)) (w : World D.State) → IsWell w → IsWell (run D calls w)
  unfolding run
  IsWell-run [] w well = well
  IsWell-run ((alive, c) ∷ calls) w well =
      IsWell-run calls (perform D alive c w) (IsWell-perform alive c w well)

  -- Over any lawful database, from a table in which each row stands under its slot number, from
  -- 1 to 254, with the address and the ports of that slot, any sequence of AllocateVMSlot,
  -- CleanupStaleSlots, the two updates and ReleaseVMSlot, failures included, leaves two rows of
  -- different slots with different addresses and ranges of ports that do not meet, between 10000
  -- and 12539.
  pub run-apart :
      (calls : List ((ℕ → Bool) × Call)) (w : World D.State) (m n : ℕ) (r x : VmSlot)
      → IsWell w
      → m < n
      → D.table (run D calls w).db m ≡ some r
      → D.table (run D calls w).db n ≡ some x
      → (base_port ≤ r.port_start)
        × (r.port_end < x.port_start)
        × (x.port_end ≤ 12539)
        × (r.ip_address ≢ x.ip_address)
  run-apart calls w m n r x well less here there =
      let h = IsWell-run calls w well m r here in
      let k = IsWell-run calls w well n x there in
      (
        omega (arith, h.first, h.last, h.start, h.end, k.first, k.last, k.start, k.end),
        omega (arith, h.first, h.last, h.start, h.end, k.first, k.last, k.start, k.end),
        omega (arith, h.first, h.last, h.start, h.end, k.first, k.last, k.start, k.end),
        λ e. let same = slot_ip-injective m n (sym h.address ∙ (e ∙ k.address)) in omega arith,
      )
