-- ===== src/VmSlots/Cleanup.antt =====
-- What CleanupStaleSlots leaves in the table, and what a transaction does.
use homura.Bytes.{Bytes}
use homura.Prelude.{ℕ, ◌≡◌, refl, ◌∙◌, List, [], ◌∷◌, some, Option-cases, inl, inr, ◌⊎◌}
use homura.VmSlots.Db.{SlotDb, IsLawful, Statement, remove}
use homura.VmSlots.{
  Result, ok, err, SlotError, db_failed, World, M, done_or, execute, delete_slots, in_transaction,
}

module _ (D : SlotDb) (L : IsLawful D) where
  -- The outcome of a computation, by whether it has failed.
  pub Outcome-cases :
      {A : Type 0} (r : Result A × World D.State)
      → ((a : A) × (w : World D.State) × (r ≡ (ok a, w)))
        ⊎ ((e : SlotError) × (w : World D.State) × (r ≡ (err e, w)))
  Outcome-cases (ok a, w) = inl (a, w, refl)
  Outcome-cases (err e, w) = inr (e, w, refl)

  -- A body that leaves the committed table alone.
  abbrev pub Keeps : {A : Type 0} → M D A → Type 0
  Keeps body = (w : World D.State) (n : ℕ) → D.committed (body w).1.db n ≡ D.committed w.db n

  pub execute-Keeps : (st : Statement) → Keeps (execute D st)
  unfolding execute done_or
  execute-Keeps st w n = elim (Option-cases (D.exec w.db st)) [
    | inl failed ↦ rw failed
    | inr (s, e) ↦ rw e (L.committed-exec w.db s st n e)
  ]

  pub delete_slots-Keeps : (stale : List (ℕ × Bytes)) → Keeps (delete_slots D stale)
  unfolding delete_slots
  delete_slots-Keeps [] w n = refl
  delete_slots-Keeps ((k, path) ∷ stale) w n =
      let one = execute-Keeps (remove k) w n in
      elim (Outcome-cases (execute D (remove k) w)) [
        | inr (e, w1, bad) ↦ rw bad (rw bad at one)
        | inl (_, w1, good) ↦ rw good (delete_slots-Keeps stale w1 n ∙ (rw good at one))
      ]

  -- Two states with the same table.
  abbrev pub SameTable : World D.State → World D.State → Type 0
  SameTable w w' = (n : ℕ) → D.table w'.db n ≡ D.table w.db n

  -- A transaction fails and leaves the table as it was, or its body has succeeded and the table is
  -- the body's.
  abbrev pub Committed : {A : Type 0} → M D A → World D.State → Type 0
  Committed {A} body w =
      (a : A) × (w0 : World D.State) × (w1 : World D.State) × (w2 : World D.State) × (body w0
        ≡ (ok a, w1))
      × (in_transaction D body w ≡ (ok a, w2))
      × SameTable w w0
      × SameTable w1 w2

  abbrev pub RolledBack : {A : Type 0} → M D A → World D.State → Type 0
  RolledBack body w =
      (e : SlotError) × (w' : World D.State) × (in_transaction D body w ≡ (err e, w'))
      × SameTable w w'

  module _ {A : Type 0} (body : M D A) (keeps : Keeps body) where
    begun :
        (w : World D.State) (s : D.State)
        → D.begin w.db ≡ some s
        → RolledBack body w ⊎ Committed body w
    unfolding in_transaction done_or
    begun w s b =
        let w0 = record w { db = s } in
        let same : SameTable w w0 = λ n. L.table-begin w.db s n b in
        let back : (w1 : World D.State)
            → ((n : ℕ) → D.committed w1.db n ≡ D.committed s n)
            → SameTable w (record w1 { db = D.rollback w1.db }) =
          λ w1 kept n. L.table-rollback w1.db n ∙ kept n ∙ L.committed-begin w.db s n b in
        let kept = keeps w0 in
        elim (Outcome-cases (body w0)) [
          | inr (e, w1, bad) ↦
              inl (e, record w1 { db = D.rollback w1.db }, rw (b, bad), back w1 (rw bad at kept))
          | inl (a, w1, good) ↦ elim (Option-cases (D.commit w1.db)) [
            | inl failed ↦ inl (
              db_failed,
              record w1 { db = D.rollback w1.db },
              rw (b, good, failed),
              back w1 (rw good at kept),
            )
            | inr (s2, c) ↦ inr (
              a,
              w0,
              w1,
              record w1 { db = s2 },
              good,
              rw (b, good, c),
              same,
              λ n. L.table-commit w1.db s2 n c,
            )
          ]
        ]

    pub in_transaction-cases : (w : World D.State) → RolledBack body w ⊎ Committed body w
    unfolding in_transaction done_or
    in_transaction-cases w = elim (Option-cases (D.begin w.db)) [
      | inl failed ↦ inl (db_failed, w, rw failed, λ n. refl)
      | inr (s, b) ↦ begun w s b
    ]
