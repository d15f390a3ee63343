-- ===== src/VmSlots/Stale.antt =====
-- CleanupStaleSlots and what the other operations start with: the rows of dead processes are gone.
use homura.Bytes.{Bytes}
use homura.Prelude.{
  ℕ, ◌≡◌, refl, ap, ◌∙◌, Bool, true, false, List, [], ◌∷◌, ◌++◌, Option, none, some, ◌==◌,
  if◌then◌else◌, arith, Bool-cases, Option-cases, inl, inr, ◌⊎◌, Has,
}
use homura.VmSlots.Cleanup.{SameTable, delete_slots-Keeps, in_transaction-cases}
use homura.VmSlots.Db.{VmSlot, SlotDb, IsLawful, Statement, remove, Table, effect}
use homura.VmSlots.{
  Result, ok, err, SlotError, db_failed, World, M, and_then, done_or, init_db, execute,
  delete_slots, drop_stale, cleanup_after_init, cleanup_stale_slots, prepare, stale_slots,
  removed_dirs,
}

-- A row without the slots of the list.
abbrev dropped : List (ℕ × Bytes) → ℕ → Option VmSlot → Option VmSlot
dropped [] n row = row
dropped ((k, path) ∷ stale) n row = dropped stale n (if k == n then none else row)

-- A row, if its process is alive.
abbrev pub live : (ℕ → Bool) → Option VmSlot → Option VmSlot
live alive none = none
live alive (some r) = if alive r.vm_pid then some r else none

dropped-none : (stale : List (ℕ × Bytes)) (n : ℕ) → dropped stale n none ≡ none
dropped-none [] n = refl
dropped-none ((k, path) ∷ stale) n = elim (Bool-cases (k == n)) [
  | inl e ↦ rw e (dropped-none stale n)
  | inr e ↦ rw e (dropped-none stale n)
]

module _ (alive : ℕ → Bool) where
  dropped_cons :
      (r : VmSlot) (rows : List VmSlot) (n : ℕ) (row : Option VmSlot)
      → dropped (stale_slots alive (r ∷ rows)) n row
        ≡ dropped
            (stale_slots alive rows)
            n
            (if alive r.vm_pid then row else if r.slot_number == n then none else row)
  unfolding stale_slots
  dropped_cons r rows n row = elim (Bool-cases (alive r.vm_pid)) [ inl e ↦ rw e | inr e ↦ rw e ]

  dropped_alive :
      (rows : List VmSlot) (n : ℕ) (row : Option VmSlot)
      → ((r : VmSlot) → Has rows r → r.slot_number ≡ n → alive r.vm_pid ≡ true)
      → dropped (stale_slots alive rows) n row ≡ row
  unfolding stale_slots
  dropped_alive [] n row h = refl
  dropped_alive (r ∷ rows) n row h =
      let here = h r (inl refl) in
      let kept : (if alive r.vm_pid then row else if r.slot_number == n then none else row) ≡ row =
        elim (Bool-cases (r.slot_number == n)) [
          | inl same ↦ let up = here (ground arith) in rw up
          | inr other ↦ rw other (ground arith)
        ] in
      dropped_cons r rows n row
      ∙ (ap (dropped (stale_slots alive rows) n) kept
          ∙ dropped_alive rows n row (λ r' has e. h r' (inr has) e))

  dropped_dead :
      (rows : List VmSlot) (n : ℕ) (row : Option VmSlot) (r : VmSlot)
      → Has rows r
      → r.slot_number ≡ n
      → alive r.vm_pid ≡ false
      → dropped (stale_slots alive rows) n row ≡ none
  dropped_dead [] n row r has e down = absurd has
  dropped_dead (r' ∷ rows) n row r (inl same) e down =
      let down' : alive r'.vm_pid ≡ false = ap (λ x. alive x.vm_pid) same ∙ down in
      let e' : r'.slot_number ≡ n = ap (λ x. x.slot_number) same ∙ e in
      let gone : (if alive r'.vm_pid then row else if r'.slot_number == n then none else row)
          ≡ none =
        rw down' (ground (arith, e')) in
      dropped_cons r' rows n row
      ∙ (ap (dropped (stale_slots alive rows) n) gone ∙ dropped-none (stale_slots alive rows) n)
  dropped_dead (r' ∷ rows) n row r (inr has) e down =
      dropped_cons r' rows n row ∙ dropped_dead rows n _ r has e down

module _ (D : SlotDb) (L : IsLawful D) where
  -- A computation fails, or it succeeds and changes the table as said.
  abbrev pub Yields : M D (Unit {0}) → World D.State → Table → Type 0
  Yields body w t =
      ((e : SlotError) × (w' : World D.State) × (body w ≡ (err e, w')))
      ⊎ ((w' : World D.State) × (body w ≡ (ok tt, w')) × ((n : ℕ) → D.table w'.db n ≡ t n))

  pub execute-Yields :
      (st : Statement) (w : World D.State) → Yields (execute D st) w (effect st (D.table w.db))
  unfolding execute done_or
  execute-Yields st w = elim (Option-cases (D.exec w.db st)) [
    | inl failed ↦ inl (db_failed, w, rw failed)
    | inr (s, e) ↦ inr (record w { db = s }, rw e, λ n. L.table-exec w.db s st n e)
  ]

  delete_slots-Yields :
      (stale : List (ℕ × Bytes)) (w : World D.State)
      → Yields (delete_slots D stale) w (λ n. dropped stale n (D.table w.db n))
  unfolding delete_slots effect
  delete_slots-Yields [] w = inr (w, refl, λ n. refl)
  delete_slots-Yields ((k, path) ∷ stale) w = elim (execute-Yields (remove k) w) [
    | inl (e, w1, bad) ↦ inl (e, w1, rw bad)
    | inr (w1, good, t1) ↦ elim (delete_slots-Yields stale w1) [
      | inl (e, w2, bad) ↦ inl (e, w2, rw (good, bad))
      | inr (w2, good2, t2) ↦ inr (w2, rw (good, good2), λ n. t2 n ∙ ap (dropped stale n) (t1 n))
    ]
  ]

  -- CleanupStaleSlots fails and leaves the table as it was, or it drops the rows of dead processes.
  abbrev pub Cleans : (ℕ → Bool) → M D (Unit {0}) → World D.State → Type 0
  Cleans alive body w =
      ((e : SlotError) × (w' : World D.State) × (body w ≡ (err e, w')) × SameTable D L w w')
      ⊎ ((w' : World D.State) × (body w ≡ (ok tt, w'))
          × ((n : ℕ) → D.table w'.db n ≡ live alive (D.table w.db n)))

  all_slots-row :
      (s : D.State) (rows : List VmSlot) (n : ℕ) (r r' : VmSlot)
      → D.all_slots s ≡ some rows
      → D.table s n ≡ some r
      → Has rows r'
      → r'.slot_number ≡ n
      → r' ≡ r
  all_slots-row s rows n r r' h e has same =
      let found = L.all_slots_sound s rows r' h has in let here = ap (D.table s) same in cc

  dropped-live :
      (alive : ℕ → Bool) (s : D.State) (rows : List VmSlot) (n : ℕ)
      → D.all_slots s ≡ some rows
      → dropped (stale_slots alive rows) n (D.table s n) ≡ live alive (D.table s n)
  dropped-live alive s rows n h = elim (Option-cases (D.table s n)) [
    | inl empty ↦ rw empty (dropped-none (stale_slots alive rows) n)
    | inr (r, e) ↦ elim (Bool-cases (alive r.vm_pid)) [
      | inl up ↦
          rw (e, up)
            (dropped_alive alive rows n (some r) (λ r' has same.
              ap (λ x. alive x.vm_pid) (all_slots-row s rows n r r' h e has same) ∙ up))
      | inr down ↦
          rw (e, down)
            (dropped_dead alive rows n (some r) r (L.all_slots_complete s rows n r h e)
              (L.keyed s n r e) down)
    ]
  ]

  pub ok_or_err :
      {A : Type 0} {r : Result A × World D.State} {a : A} {e : SlotError} {w w' : World D.State}
      → r ≡ (ok a, w)
      → r ≡ (err e, w')
      → ⊥
  ok_or_err p q = cc

  pub same_world :
      {A : Type 0} {r : Result A × World D.State} {a a' : A} {w w' : World D.State}
      → r ≡ (ok a, w)
      → r ≡ (ok a', w')
      → w ≡ w'
  same_world p q = cc

  drop_stale-cases :
      (alive : ℕ → Bool) (stale : List (ℕ × Bytes)) (w : World D.State)
      → ((n : ℕ) → dropped stale n (D.table w.db n) ≡ live alive (D.table w.db n))
      → Cleans alive (drop_stale D stale) w
  unfolding drop_stale
  drop_stale-cases alive [] w h = inr (w, refl, h)
  drop_stale-cases alive (e ∷ stale) w h =
      let w0 = record w { removed = w.removed ++ removed_dirs (e ∷ stale) } in
      elim (in_transaction-cases D L (delete_slots D (e ∷ stale))
        (delete_slots-Keeps D L (e ∷ stale)) w0) [
          | inl (x, w', bad, same) ↦ inl (x, w', bad, same)
          | inr (_, w1, w2, w3, good, done, first, last) ↦
              elim (delete_slots-Yields (e ∷ stale) w1) [
                | inl (x, w', bad) ↦ absurd (ok_or_err good bad)
                | inr (w', good', t) ↦ inr (
                  w3,
                  done,
                  λ n.
                      last n
                      ∙ (ap (λ x. D.table x.db n) (same_world good good')
                          ∙ (t n ∙ (ap (dropped (e ∷ stale) n) (first n) ∙ h n))),
                )
              ]
        ]

  after_init-Cleans :
      (alive : ℕ → Bool) (body : M D (Unit {0}))
      → ((w : World D.State) → Cleans alive body w)
      → (w : World D.State) → Cleans alive (λ w'. and_then D (init_db D w') λ _. body) w
  unfolding init_db done_or
  after_init-Cleans alive body h w = elim (Option-cases (D.init w.db)) [
    | inl failed ↦ inl (db_failed, w, rw failed, λ n. refl)
    | inr (s, e) ↦
        let same = λ (n : ℕ). L.table-init w.db s n e in
        elim (h (record w { db = s })) [
          | inl (x, w', bad, t) ↦ inl (x, w', rw (e, bad), λ n. t n ∙ same n)
          | inr (w', good, t) ↦ inr (w', rw (e, good), λ n. t n ∙ ap (live alive) (same n))
        ]
  ]

  cleanup_after_init-Cleans :
      (alive : ℕ → Bool) (w : World D.State) → Cleans alive (cleanup_after_init D alive) w
  unfolding cleanup_after_init
  cleanup_after_init-Cleans alive w = elim (Option-cases (D.all_slots w.db)) [
    | inl failed ↦ inl (db_failed, w, rw (failed, cleanup_after_init), λ n. refl)
    | inr (rows, e) ↦
        rw (cleanup_after_init, e)
          (drop_stale-cases alive (stale_slots alive rows) w
            (λ n. dropped-live alive w.db rows n e))
  ]

  pub cleanup_stale_slots-Cleans :
      (alive : ℕ → Bool) (w : World D.State) → Cleans alive (cleanup_stale_slots D alive) w
  unfolding cleanup_stale_slots
  cleanup_stale_slots-Cleans alive w = after_init-Cleans alive _ (cleanup_after_init-Cleans alive) w

  pub prepare-Cleans : (alive : ℕ → Bool) (w : World D.State) → Cleans alive (prepare D alive) w
  unfolding prepare
  prepare-Cleans alive w = after_init-Cleans alive _ (cleanup_stale_slots-Cleans alive) w
