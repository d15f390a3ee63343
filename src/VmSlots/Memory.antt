-- ===== src/VmSlots/Memory.antt =====
-- A database that keeps its table in memory, for slots below 300, and keeps its laws: it shows that the
-- laws of VmSlots.Db can hold, and the tests run on it.
use homura.Prelude.{
  ℕ, zero, suc, ◌≡◌, ◌<◌, ◌↔◌, refl, sym, ap, ◌∙◌, Bool, true, ◌&&◌, List, [], ◌∷◌, Option, none,
  some, ◌==◌, ltb, if◌then◌else◌, arith, Bool-cases, inl, inr, ◌⊎◌, Has, dec_lt, some-ne-none,
}
use homura.VmSlots.Db.{
  VmSlot, SlotDb, IsLawful, Statement, insert, remove, set_qemu, set_console, Table, effect, change,
}

pub record Memory : Type 0 where
  pub rows : Table
  pub saved : Table

-- A row counts where it stands under its number, below the bound.
unfoldable pub checked : ℕ → Option VmSlot → Option VmSlot
checked n none = none
checked n (some r) = if (r.slot_number == n) && ltb n 300 then some r else none

abbrev row : Table → ℕ → Option VmSlot
row t n = checked n (t n)

abbrev added : Option VmSlot → List VmSlot → List VmSlot
added none rows = rows
added (some r) rows = r ∷ rows

-- The rows of the slots below k.
unfoldable pub collect : ℕ → Table → List VmSlot
unfolding checked
collect zero t = []
collect (suc k) t = added (row t k) (collect k t)

-- An INSERT outside the bound fails.
unfoldable pub fits : Statement → Bool
fits (insert r) = ltb r.slot_number 300
fits st = true

unfoldable pub exec : Memory → Statement → Option Memory
unfolding fits effect
exec s st = if fits st then some (record s { rows = effect st s.rows }) else none

unfoldable pub count_rows : Option VmSlot → ℕ
count_rows none = 0
count_rows (some r) = 1

abbrev pub memory_db : SlotDb
memory_db = record {
  State = Memory;
  table = λ s. row s.rows;
  committed = λ s. row s.saved;
  init = some;
  begin = λ s. some (record s { saved = s.rows });
  commit = some;
  rollback = λ s. record s { rows = s.saved };
  exec = exec;
  count = λ s n. some (count_rows (row s.rows n));
  all_slots = λ s. some (collect 300 s.rows);
}

some-eq-some : {A : Type 0} {r r' : A} → some r ≡ some r' → r ≡ r'
some-eq-some e = cc

-- What is read is the row stored, under its number.
checked-some :
    (n : ℕ) (o : Option VmSlot) (r : VmSlot)
    → checked n o ≡ some r
    → (r.slot_number ≡ n) × (n < 300) × (o ≡ some r)
unfolding checked
checked-some n none r e = absurd (some-ne-none r (sym e))
checked-some n (some r') r e = elim (Bool-cases ((r'.slot_number == n) && ltb n 300)) [
  | inl good ↦
      let mine : r' ≡ r = some-eq-some (rw good at e) in
      let key : (r'.slot_number ≡ n) × (n < 300) = ground (arith, good) in
      (ap (λ x. x.slot_number) (sym mine) ∙ key.0, key.1, ap some mine)
  | inr bad ↦ absurd (some-ne-none r (sym (rw bad at e)))
]

Has-added :
    (o : Option VmSlot) (rows : List VmSlot) (r : VmSlot)
    → Has (added o rows) r
    → (o ≡ some r) ⊎ Has rows r
Has-added none rows r has = inr has
Has-added (some r') rows r (inl same) = inl (ap some same)
Has-added (some r') rows r (inr has) = inr has

Has-added_row :
    (o : Option VmSlot) (rows : List VmSlot) (r : VmSlot) → o ≡ some r → Has (added o rows) r
Has-added_row none rows r e = absurd (some-ne-none r (sym e))
Has-added_row (some r') rows r e = inl (some-eq-some e)

Has-added_rest :
    (o : Option VmSlot) (rows : List VmSlot) (r : VmSlot) → Has rows r → Has (added o rows) r
Has-added_rest none rows r has = has
Has-added_rest (some r') rows r has = inr has

collect_sound :
    (k : ℕ) (t : Table) (r : VmSlot) → Has (collect k t) r → row t r.slot_number ≡ some r
unfolding collect
collect_sound zero t r has = absurd has
collect_sound (suc k) t r has = elim (Has-added (row t k) (collect k t) r has) [
  | inr has' ↦ collect_sound k t r has'
  | inl e ↦ ap (row t) (checked-some k (t k) r e).0 ∙ e
]

collect_complete :
    (k : ℕ) (t : Table) (n : ℕ) (r : VmSlot) → n < k → row t n ≡ some r → Has (collect k t) r
unfolding collect
collect_complete zero t n r h e = absurd (omega arith)
collect_complete (suc k) t n r h e = elim (dec_lt n k) [
  | yes less ↦ Has-added_rest (row t k) (collect k t) r (collect_complete k t n r less e)
  | no more ↦
      let same : k ≡ n = omega arith in
      Has-added_row (row t k) (collect k t) r (ap (row t) same ∙ e)
]

exec-some :
    (s s' : Memory) (st : Statement)
    → exec s st ≡ some s'
    → (fits st ≡ true) × (s' ≡ record s { rows = effect st s.rows })
unfolding exec
exec-some s s' st e = elim (Bool-cases (fits st)) [
  | inl good ↦ (good, sym (some-eq-some (rw good at e)))
  | inr bad ↦ absurd (some-ne-none s' (sym (rw bad at e)))
]

checked-change :
    (f : VmSlot → VmSlot) (n : ℕ) (o : Option VmSlot)
    → ((r : VmSlot) → (f r).slot_number ≡ r.slot_number)
    → checked n (change f o) ≡ change f (checked n o)
unfolding checked
checked-change f n none keeps = refl
checked-change f n (some r) keeps =
    let key = ap (λ m. (m == n) && ltb n 300) (keeps r) in
    elim (Bool-cases ((r.slot_number == n) && ltb n 300)) [
      | inl good ↦ rw (key ∙ good, good)
      | inr bad ↦ rw (key ∙ bad, bad)
    ]

row-effect :
    (st : Statement) (t : Table) (n : ℕ)
    → fits st ≡ true
    → row (effect st t) n ≡ effect st (row t) n
unfolding checked effect fits
row-effect (insert r) t n h = elim (Bool-cases (r.slot_number == n)) [
  | inl same ↦
      let counts : ((r.slot_number == n) && ltb n 300) ≡ true = ground (arith, h, same) in
      rw (same, counts, checked)
  | inr other ↦ rw other
]
row-effect (remove k) t n h = elim (Bool-cases (k == n)) [
  | inl same ↦ rw same
  | inr other ↦ rw other
]
row-effect (set_qemu k pid) t n h = elim (Bool-cases (k == n)) [
  | inl same ↦ rw same (checked-change (λ r. record r { qemu_pid = pid }) n (t n) (λ r. refl))
  | inr other ↦ rw other
]
row-effect (set_console k socket log) t n h = elim (Bool-cases (k == n)) [
  | inl same ↦ rw same (
      checked-change (λ r. record r { console_socket = socket; console_log = log }) n (t n)
        (λ r. refl))
  | inr other ↦ rw other
]

count_rows-eq-zero :
    (o : Option VmSlot) (c : ℕ) → some (count_rows o) ≡ some c → (c ≡ 0) ↔ (o ≡ none)
unfolding count_rows
count_rows-eq-zero none c e = (λ h. refl, λ h. sym (some-eq-some e))
count_rows-eq-zero (some r) c e =
    let one : 1 ≡ c = some-eq-some e in (λ h. absurd (omega arith), λ h. absurd (some-ne-none r h))

pub memory_db-IsLawful : IsLawful memory_db
memory_db-IsLawful = record {
  table-init = λ s s' n e. ap (λ x. row x.rows n) (sym (some-eq-some e));
  table-begin = λ s s' n e. ap (λ x. row x.rows n) (sym (some-eq-some e));
  committed-begin = λ s s' n e. ap (λ x. row x.saved n) (sym (some-eq-some e));
  table-commit = λ s s' n e. ap (λ x. row x.rows n) (sym (some-eq-some e));
  table-rollback = λ s n. refl;
  table-exec = λ s s' st n e.
      let h = exec-some s s' st e in ap (λ x. row x.rows n) h.1 ∙ row-effect st s.rows n h.0;
  committed-exec = λ s s' st n e. ap (λ x. row x.saved n) (exec-some s s' st e).1;
  count_lem = λ s n c e. count_rows-eq-zero (row s.rows n) c e;
  all_slots_sound = λ s rows r e. rw (← (some-eq-some e)) (collect_sound 300 s.rows r);
  all_slots_complete = λ s rows n r e h.
      rw (← (some-eq-some e)) (collect_complete 300 s.rows n r (checked-some n (s.rows n) r h).1 h);
  keyed = λ s n r e. (checked-some n (s.rows n) r e).0;
}
