-- ===== src/Vm/Left/Outcomes.antt =====
-- How a step ends: its value and state have one property where it succeeds, its state another where it
-- fails.
use homura.Prelude.{◌≡◌, refl, sym, subst, Bool, true, false, Option, none, some}
use homura.Vm.{VmError, Result, ok, err, Action, and_then, need, check}

pub data Ends {S A : Type 0} (good : A → S → Type 0) (bad : S → Type 0)
    : Result A × S → Type 0 where
  good_end : (a : A) (s : S) → good a s → Ends good bad (ok a, s)
  bad_end : (e : VmError) (s : S) → bad s → Ends good bad (err e, s)

-- A step that leaves the state alone where it succeeds.
abbrev pub Stays : {S A : Type 0} → (S → Type 0) → Action S A → S → Type 0
Stays bad m s = Ends (λ a s'. s' ≡ s) bad (m s)

module _ {S : Type 0} {bad : S → Type 0} where
  pub bind-Ends :
      {A B : Type 0} {good : A → S → Type 0} {good' : B → S → Type 0} {r : Result A × S}
      (f : A → Action S B)
      → Ends good bad r
      → ((a : A) (s : S) → good a s → Ends good' bad (f a s))
      → Ends good' bad (and_then r f)
  unfolding and_then
  bind-Ends f (good_end a s h) next = next a s h
  bind-Ends f (bad_end e s h) next = bad_end e s h

  pub bind-Stays :
      {A B : Type 0} {good' : B → S → Type 0} {r : Result A × S} {s : S} (f : A → Action S B)
      → Ends (λ a s'. s' ≡ s) bad r
      → ((a : A) → Ends good' bad (f a s))
      → Ends good' bad (and_then r f)
  unfolding and_then
  bind-Stays {good' = good'} f (good_end a s' e) next =
      subst (λ x. Ends good' bad (f a x)) (sym e) (next a)
  bind-Stays f (bad_end e s' h) next = bad_end e s' h

  pub bind-ok :
      {A B : Type 0} {good : B → S → Type 0} {a : A} {s : S} (f : A → Action S B)
      → Ends good bad (f a s)
      → Ends good bad (and_then (ok a, s) f)
  unfolding and_then
  bind-ok f h = h

  pub need-Stays :
      {A : Type 0} (undo : S → S) (e : VmError) (o : Option A) (s : S)
      → bad (undo s)
      → Ends (λ a s'. s' ≡ s) bad (need undo e o s)
  unfolding need
  need-Stays undo e none s h = bad_end e (undo s) h
  need-Stays undo e (some a) s h = good_end a s refl

  pub check-Stays :
      (undo : S → S) (e : VmError) (b : Bool) (s : S)
      → bad (undo s)
      → Ends (λ a s'. s' ≡ s) bad (check undo e b s)
  unfolding check
  check-Stays undo e false s h = bad_end e (undo s) h
  check-Stays undo e true s h = good_end tt s refl

  -- The value is the answer, where there is one.
  pub need-Same :
      {A : Type 0} (undo : S → S) (e : VmError) (o : Option A) (s : S)
      → bad (undo s)
      → Ends (λ a s'. (s' ≡ s) × (o ≡ some a)) bad (need undo e o s)
  unfolding need
  need-Same undo e none s h = bad_end e (undo s) h
  need-Same undo e (some a) s h = good_end a s (refl, refl)
