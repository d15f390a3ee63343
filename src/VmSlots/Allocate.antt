-- ===== src/VmSlots/Allocate.antt =====
-- AllocateVMSlot claims the lowest free slot, or leaves the table with the live rows at least.
use homura.Prelude.{
  ℕ, zero, suc, ◌+◌, ◌≡◌, ◌≢◌, ◌≤◌, ◌<◌, refl, sym, ap, ◌∙◌, Bool, none, some, ◌==◌, if◌then◌else◌,
  arith, Bool-cases, Option-cases, inl, inr, ◌⊎◌, dec_lt,
}
use homura.VmSlots.Cleanup.{Outcome-cases, Keeps, SameTable, execute-Keeps, in_transaction-cases}
use homura.VmSlots.Db.{VmSlot, SlotDb, IsLawful, insert, Table, effect}
use homura.VmSlots.Stale.{live, prepare-Cleans, execute-Yields, ok_or_err, same_world}
use homura.VmSlots.{
  Result, ok, err, SlotError, db_failed, no_slots, World, execute, next_slot, claim, new_slot,
  allocate_vm_slot, max_vm_slots, VmSlotParams,
}

module _ (D : SlotDb) (L : IsLawful D) where
  -- The first slot from `n` on that has no row, among as many as are left.
  pub record IsNext (t : Table) (n left k : ℕ) : Type 0 where
    pub above : n ≤ k
    pub below : k < n + left
    pub free : t k ≡ none
    pub lower_taken : (j : ℕ) → n ≤ j → j < k → t j ≢ none

  IsNext-here : (t : Table) (n left : ℕ) → t n ≡ none → IsNext t n (suc left) n
  IsNext-here t n left h = record {
    above = omega arith;
    below = omega arith;
    free = h;
    lower_taken = λ j lo hi. absurd (omega arith);
  }

  IsNext-later :
      (t : Table) (n left k : ℕ) → t n ≢ none → IsNext t (suc n) left k → IsNext t n (suc left) k
  IsNext-later t n left k taken v = record {
    above = omega (arith, v.above);
    below = omega (arith, v.below);
    free = v.free;
    lower_taken = λ j lo hi. elim (dec_lt n j) [
      | yes more ↦ v.lower_taken j (omega arith) hi
      | no same ↦ let e : j ≡ n = omega arith in rw e taken
    ];
  }

  next_slot-cases :
      (s : D.State) (n left : ℕ)
      → ((e : SlotError) × (next_slot D s n left ≡ err e))
        ⊎ ((k : ℕ) × (next_slot D s n left ≡ ok k) × IsNext (D.table s) n left k)
  unfolding next_slot
  next_slot-cases s n zero = inl (no_slots, refl)
  next_slot-cases s n (suc left) = elim (Option-cases (D.count s n)) [
    | inl failed ↦ inl (db_failed, rw (failed, next_slot))
    | inr (c, e) ↦ elim (Bool-cases (c == 0)) [
      | inl empty ↦ inr (
        n,
        rw (e, empty, next_slot),
        IsNext-here (D.table s) n left ((L.count_lem s n c e).0 (ground arith)),
      )
      | inr taken ↦
          let no_row : D.table s n ≢ none =
            λ h. let zero_rows = (L.count_lem s n c e).1 h in ground arith in
          elim (next_slot-cases s (suc n) left) [
            | inl (x, bad) ↦ inl (x, rw (e, taken, bad, next_slot))
            | inr (k, good, v) ↦
                inr (k, rw (e, taken, good, next_slot), IsNext-later (D.table s) n left k no_row v)
          ]
    ]
  ]

  module _ (params : VmSlotParams) (pid now : ℕ) where
    claim-Keeps : Keeps D L (claim D params pid now)
    unfolding claim
    claim-Keeps w n = elim (next_slot-cases w.db 1 max_vm_slots) [
      | inl (x, bad) ↦ rw (bad, claim)
      | inr (k, good, v) ↦
          let one = execute-Keeps D L (insert (new_slot params pid now k)) w n in
          elim (Outcome-cases D L (execute D (insert (new_slot params pid now k)) w)) [
            | inr (x, w1, bad) ↦ rw (good, bad, claim) (rw bad at one)
            | inl (_, w1, done) ↦ rw (good, done, claim) (rw done at one)
          ]
    ]

    -- What a claim does: the row of the lowest free slot is added.
    pub record IsClaimed (t t' : Table) (r : VmSlot) : Type 0 where
      pub lowest : IsNext t 1 max_vm_slots r.slot_number
      pub row : r ≡ new_slot params pid now r.slot_number
      pub added : (n : ℕ) → t' n ≡ (if r.slot_number == n then some r else t n)

    claim-cases :
        (w : World D.State)
        → ((e : SlotError) × (w' : World D.State) × (claim D params pid now w ≡ (err e, w')))
          ⊎ ((r : VmSlot) × (w' : World D.State) × (claim D params pid now w ≡ (ok r, w'))
              × IsClaimed (D.table w.db) (D.table w'.db) r)
    unfolding claim effect
    claim-cases w = elim (next_slot-cases w.db 1 max_vm_slots) [
      | inl (x, bad) ↦ inl (x, w, rw (bad, claim))
      | inr (k, good, v) ↦ elim (execute-Yields D L (insert (new_slot params pid now k)) w) [
        | inl (x, w1, bad) ↦ inl (x, w1, rw (good, bad, claim))
        | inr (w1, done, t) ↦ inr (
          new_slot params pid now k,
          w1,
          rw (good, done, claim),
          record { lowest = v; row = refl; added = t },
        )
      ]
    ]

    -- The table that AllocateVMSlot starts from.
    abbrev pub live_table : (ℕ → Bool) → World D.State → Table
    live_table alive w n = live alive (D.table w.db n)

    IsClaimed-from :
        (t u t' u' : Table) (r : VmSlot)
        → ((n : ℕ) → t n ≡ u n)
        → ((n : ℕ) → u' n ≡ t' n)
        → IsClaimed t t' r
        → IsClaimed u u' r
    IsClaimed-from t u t' u' r start end c = record {
      lowest = record {
        above = c.lowest.above;
        below = c.lowest.below;
        free = sym (start r.slot_number) ∙ c.lowest.free;
        lower_taken = λ j lo hi e. c.lowest.lower_taken j lo hi (start j ∙ e);
      };
      row = c.row;
      added =
          λ n. end n ∙ (c.added n ∙ ap (λ x. if r.slot_number == n then some r else x) (start n));
    }

    -- The outcomes of AllocateVMSlot.
    abbrev pub Fails : (ℕ → Bool) → World D.State → Type 0
    Fails alive w =
        (e : SlotError) × (w' : World D.State) × (allocate_vm_slot D alive params pid now w
          ≡ (err e, w'))
        × (SameTable D L w w' ⊎ ((n : ℕ) → D.table w'.db n ≡ live_table alive w n))

    abbrev pub Claims : (ℕ → Bool) → World D.State → Type 0
    Claims alive w =
        (r : VmSlot) × (w' : World D.State) × (allocate_vm_slot D alive params pid now w
          ≡ (ok r, w'))
        × IsClaimed (live_table alive w) (D.table w'.db) r

    same_value :
        {A : Type 0} {r : Result A × World D.State} {a a' : A} {w w' : World D.State}
        → r ≡ (ok a, w)
        → r ≡ (ok a', w')
        → a ≡ a'
    same_value p q = cc

    -- Over any lawful database AllocateVMSlot either fails, and leaves the table as it was or
    -- without the rows of dead processes, or returns the new row of the lowest slot that has no
    -- row once those are gone, and adds just this row to the rest.
    pub allocate_vm_slot-cases :
        (alive : ℕ → Bool) (w : World D.State) → Fails alive w ⊎ Claims alive w
    unfolding allocate_vm_slot
    allocate_vm_slot-cases alive w = elim (prepare-Cleans D L alive w) [
      | inl (e, w1, bad, same) ↦ inl (e, w1, rw (bad, allocate_vm_slot), inl same)
      | inr (w1, ready, start) ↦
          elim (in_transaction-cases D L (claim D params pid now) claim-Keeps w1) [
            | inl (e, w2, bad, same) ↦
                inl (e, w2, rw (ready, bad, allocate_vm_slot), inr (λ n. same n ∙ start n))
            | inr (r, w0, w2, w3, body, done, first, last) ↦ elim (claim-cases w0) [
              | inl (e, w', bad) ↦ absurd (ok_or_err D L body bad)
              | inr (r', w', good, c) ↦ inr (
                r,
                w3,
                rw (ready, done, allocate_vm_slot),
                IsClaimed-from (D.table w0.db) (live_table alive w) (D.table w'.db) (D.table w3.db)
                    r (λ n. first n ∙ start n)
                    (λ n. last n ∙ ap (λ x. D.table x.db n) (same_world D L body good))
                    (rw (same_value body good) c),
              )
            ]
          ]
    ]
