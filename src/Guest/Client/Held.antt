-- ===== src/Guest/Client/Held.antt =====
-- The handles of the 9p client that are open: those of the table of files, and those that Walk hands
-- out.
pub mod Changes
use homura.Guest.Client.Owned.{Falls, IsOwned, handle_of}
use homura.Guest.Client.{Client, shut, without_fid, get_file}
use homura.Prelude.{
  ℕ, ◌≤◌, ◌<◌, ◌≡◌, refl, sym, ap, ◌∙◌, subst, true, false, List, [], ◌∷◌, Option, none, some,
  arith, ◌==◌, map, if◌then◌else◌, Bool-cases, inl, inr,
}

-- The open handles, the latest first, each with its identifier in the table, or with none where it is
-- the caller's.
abbrev pub Holding : Type 0
Holding = List (Option ℕ × ℕ)

abbrev pub registered : Holding → List (ℕ × ℕ)
registered [] = []
registered ((none, h) ∷ held) = registered held
registered ((some f, h) ∷ held) = (f, h) ∷ registered held

abbrev pub handed : Holding → List ℕ
handed [] = []
handed ((none, h) ∷ held) = h ∷ handed held
handed ((some f, h) ∷ held) = handed held

abbrev pub held_handle : Option ℕ × ℕ → ℕ
held_handle (f, h) = h

-- Identifiers and handles fall, below those given.
abbrev pub Falling : ℕ → ℕ → Holding → Type 0
Falling fid handle [] = Unit
Falling fid handle ((none, h) ∷ held) = (h < handle) × Falling fid h held
Falling fid handle ((some f, h) ∷ held) = (f < fid) × (h < handle) × Falling f h held

-- The handles that are open are those of the table, each under an identifier of its own, and those
-- handed out; at most n - 1 identifiers have been given.
pub record IsHeld (n : ℕ) (out : List ℕ) (c : Client) : Type 0 where
  pub held : Holding
  pub falls : Falling c.next_fid c.next_handle held
  pub opened : c.opened ≡ map held_handle held
  pub table : c.files ≡ registered held
  pub handed_out : handed held ≡ out
  pub bounded : c.next_fid ≤ n

unfoldable pub without : ℕ → Holding → Holding
without fid [] = []
without fid ((none, h) ∷ held) = (none, h) ∷ without fid held
without fid ((some f, h) ∷ held) =
    let rest = without fid held in if f == fid then rest else (some f, h) ∷ rest

pub Falling-mono :
    (f h f' h' : ℕ) (held : Holding) → f ≤ f' → h ≤ h' → Falling f h held → Falling f' h' held
Falling-mono f h f' h' [] a b e = tt
Falling-mono f h f' h' ((none, k) ∷ held) a b (under, rest) =
    (omega arith, Falling-mono f k f' k held a (omega arith) rest)
Falling-mono f h f' h' ((some g, k) ∷ held) a b (below, under, rest) =
    (omega arith, omega arith, rest)

pub registered-without :
    (fid : ℕ) (held : Holding) → registered (without fid held) ≡ without_fid fid (registered held)
unfolding without without_fid
registered-without fid [] = refl
registered-without fid ((none, h) ∷ held) = registered-without fid held
registered-without fid ((some f, h) ∷ held) = elim (Bool-cases (f == fid)) [
  | inl same ↦ rw same (registered-without fid held)
  | inr other ↦ rw other (ap (λ x. (f, h) ∷ x) (registered-without fid held))
]

pub handed-without : (fid : ℕ) (held : Holding) → handed (without fid held) ≡ handed held
unfolding without
handed-without fid [] = refl
handed-without fid ((none, h) ∷ held) = ap (λ x. h ∷ x) (handed-without fid held)
handed-without fid ((some f, h) ∷ held) = elim (Bool-cases (f == fid)) [
  | inl same ↦ rw same (handed-without fid held)
  | inr other ↦ rw other (handed-without fid held)
]

pub without_fid-new :
    (f h fid : ℕ) (held : Holding)
    → f ≤ fid
    → Falling f h held
    → without_fid fid (registered held) ≡ registered held
unfolding without_fid
without_fid-new f h fid [] a e = refl
without_fid-new f h fid ((none, k) ∷ held) a (under, rest) = without_fid-new f k fid held a rest
without_fid-new f h fid ((some g, k) ∷ held) a (below, under, rest) =
    let later = without_fid-new g k fid held (omega arith) rest in ground (arith, later)

without-new : (f h fid : ℕ) (held : Holding) → f ≤ fid → Falling f h held → without fid held ≡ held
unfolding without
without-new f h fid [] a e = refl
without-new f h fid ((none, k) ∷ held) a (under, rest) =
    ap (λ x. (none, k) ∷ x) (without-new f k fid held a rest)
without-new f h fid ((some g, k) ∷ held) a (below, under, rest) =
    let later = without-new g k fid held (omega arith) rest in ground (arith, later)

pub without-Falling :
    (f h fid : ℕ) (held : Holding) → Falling f h held → Falling f h (without fid held)
unfolding without
without-Falling f h fid [] e = tt
without-Falling f h fid ((none, k) ∷ held) (under, rest) =
    (under, without-Falling f k fid held rest)
without-Falling f h fid ((some g, k) ∷ held) (below, under, rest) = elim (Bool-cases (g == fid)) [
  | inl same ↦
      rw same
        (Falling-mono g k f h _ (omega arith) (omega arith) (without-Falling g k fid held rest))
  | inr other ↦ rw other (below, under, without-Falling g k fid held rest)
]

registered-below :
    (f h fid handle : ℕ) (held : Holding)
    → Falling f h held
    → get_file fid (registered held) ≡ some handle
    → handle < h
unfolding get_file
registered-below f h fid handle [] e found = cc
registered-below f h fid handle ((none, k) ∷ held) (under, rest) found =
    let later = registered-below f k fid handle held rest found in omega (arith, later)
registered-below f h fid handle ((some g, k) ∷ held) (below, under, rest) found =
    let later = registered-below g k fid handle held rest in ground (arith, later)

-- The handle of a file goes with its entry.
pub shut-without :
    (f h fid handle : ℕ) (held : Holding)
    → Falling f h held
    → get_file fid (registered held) ≡ some handle
    → shut handle (map held_handle held) ≡ map held_handle (without fid held)
unfolding get_file shut without
shut-without f h fid handle [] e found = cc
shut-without f h fid handle ((none, k) ∷ held) (under, rest) found =
    let under' = registered-below f k fid handle held rest found in
    let later = shut-without f k fid handle held rest found in ground (arith, later, under')
shut-without f h fid handle ((some g, k) ∷ held) (below, under, rest) found =
    elim (Bool-cases (g == fid)) [
      | inl same ↦
          let gone : without fid held ≡ held = without-new g k fid held (ground arith) rest in
          ground (arith, gone)
      | inr other ↦
          let found' : get_file fid (registered held) ≡ some handle = ground arith in
          let under' = registered-below g k fid handle held rest found' in
          let later = shut-without g k fid handle held rest found' in ground (arith, later, under')
    ]

-- What the loop of Close shuts.
unfoldable pub shut_each : List (ℕ × ℕ) → List ℕ → List ℕ
unfolding shut
shut_each [] xs = xs
shut_each ((f, h) ∷ files) xs = shut_each files (shut h xs)

shut_each-above :
    (f k h : ℕ) (held : Holding) (xs : List ℕ)
    → k ≤ h
    → Falling f k held
    → shut_each (registered held) (h ∷ xs) ≡ h ∷ shut_each (registered held) xs
unfolding shut_each shut
shut_each-above f k h [] xs a e = refl
shut_each-above f k h ((none, j) ∷ held) xs a (under, rest) =
    shut_each-above f j h held xs (omega arith) rest
shut_each-above f k h ((some g, j) ∷ held) xs a (below, under, rest) =
    let other : (h == j) ≡ false = ground arith in
    ap (λ b. shut_each (registered held) (if b then xs else h ∷ shut j xs)) other
    ∙ shut_each-above g j h held (shut j xs) (omega arith) rest

pub shut_each-registered :
    (f k : ℕ) (held : Holding)
    → Falling f k held
    → shut_each (registered held) (map held_handle held) ≡ handed held
unfolding shut_each shut
shut_each-registered f k [] e = refl
shut_each-registered f k ((none, h) ∷ held) (under, rest) =
    shut_each-above f h h held (map held_handle held) (omega arith) rest
    ∙ ap (λ x. h ∷ x) (shut_each-registered f h held rest)
shut_each-registered f k ((some g, h) ∷ held) (below, under, rest) =
    let same : (h == h) ≡ true = ground arith in
    ap
      (λ b.
        shut_each (registered held)
          (if b then map held_handle held else h ∷ shut h (map held_handle held)))
      same
    ∙ shut_each-registered g h held rest

-- What the callers hold, without the table.
abbrev pub callers : Holding → Holding
callers [] = []
callers ((none, h) ∷ held) = (none, h) ∷ callers held
callers ((some f, h) ∷ held) = callers held

pub callers-registered : (held : Holding) → registered (callers held) ≡ []
callers-registered [] = refl
callers-registered ((none, h) ∷ held) = callers-registered held
callers-registered ((some f, h) ∷ held) = callers-registered held

pub callers-handed : (held : Holding) → handed (callers held) ≡ handed held
callers-handed [] = refl
callers-handed ((none, h) ∷ held) = ap (λ x. h ∷ x) (callers-handed held)
callers-handed ((some f, h) ∷ held) = callers-handed held

pub callers-handles : (held : Holding) → map held_handle (callers held) ≡ handed held
callers-handles [] = refl
callers-handles ((none, h) ∷ held) = ap (λ x. h ∷ x) (callers-handles held)
callers-handles ((some f, h) ∷ held) = callers-handles held

pub callers-Falling : (f k : ℕ) (held : Holding) → Falling f k held → Falling f k (callers held)
callers-Falling f k [] e = tt
callers-Falling f k ((none, h) ∷ held) (under, rest) = (under, callers-Falling f h held rest)
callers-Falling f k ((some g, h) ∷ held) (below, under, rest) =
    Falling-mono g h f k (callers held) (omega arith) (omega arith) (callers-Falling g h held rest)

-- Without files that callers hold, the table has all handles.
registered-Falls :
    (f h : ℕ) (held : Holding) → handed held ≡ [] → Falling f h held → Falls f h (registered held)
registered-Falls f h [] none_out e = tt
registered-Falls f h ((none, k) ∷ held) none_out e = absurd (cc)
registered-Falls f h ((some g, k) ∷ held) none_out (below, under, rest) =
    (below, under, registered-Falls g k held none_out rest)

registered-handles :
    (held : Holding) → handed held ≡ [] → map held_handle held ≡ map handle_of (registered held)
registered-handles [] none_out = refl
registered-handles ((none, k) ∷ held) none_out = absurd (cc)
registered-handles ((some g, k) ∷ held) none_out =
    ap (λ x. k ∷ x) (registered-handles held none_out)

pub IsHeld-IsOwned : (n : ℕ) (c : Client) → IsHeld n [] c → IsOwned n c
IsHeld-IsOwned n c h = record {
  falls =
      subst (Falls c.next_fid c.next_handle) (sym h.table)
        (registered-Falls c.next_fid c.next_handle h.held h.handed_out h.falls);
  handles = h.opened ∙ (registered-handles h.held h.handed_out ∙ ap (map handle_of) (sym h.table));
  bounded = h.bounded;
}
