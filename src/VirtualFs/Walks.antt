-- ===== src/VirtualFs/Walks.antt =====
-- What a Walk lets the guest see.
use mathlib.Core.List.{foldl}
use homura.Bytes.{Bytes}
use homura.Prelude.{◌≡◌, ◌≢◌, refl, List, [], ◌∷◌, none, arith, inl, inr, ◌⊎◌, length}
use homura.Registry.{
  PathRegistry, PathVisibility, exposed, virtual_ancestor, not_visible, check_path,
}
use homura.VirtualFs.Lookup.{walk_name, visible_qid, walk_from, walk}
use homura.VirtualFs.{Errno, Result, ok, err, OsCall, lstat, Log, Os, Qid, VirtualFile}

-- Each name of the walk leads to a path that is visible.
abbrev pub WalksVisible : PathRegistry → Bytes → List Bytes → Type 0
WalksVisible pr path [] = Unit {0}
WalksVisible pr path (name ∷ rest) =
    (check_path pr (walk_name path name) ≢ not_visible) × WalksVisible pr (walk_name path name) rest

-- A log of calls that only stat exposed paths.
abbrev pub IsLook : PathRegistry → OsCall → Type 0
IsLook pr (lstat path) = check_path pr path ≡ exposed
IsLook pr other = ⊥

abbrev pub OnlyLooks : PathRegistry → Log → Type 0
OnlyLooks pr [] = Unit {0}
OnlyLooks pr (c ∷ log) = IsLook pr c × OnlyLooks pr log

module _ (os : Os) (pr : PathRegistry) where
  visible_qid-visible :
      (path : Bytes) (log log' : Log) (qid : Qid)
      → visible_qid os pr path log ≡ (ok qid, log')
      → check_path pr path ≢ not_visible
  unfolding visible_qid
  visible_qid-visible path log log' qid h = ground arith

  visible_qid-log :
      (path : Bytes) (log : Log)
      → ((visible_qid os pr path log).1 ≡ log)
        ⊎ (check_path pr path ≡ exposed) × ((visible_qid os pr path log).1 ≡ lstat path ∷ log)
  unfolding visible_qid
  visible_qid-log path log = go (check_path pr path) refl
    where
      go :
          (v : PathVisibility)
          → check_path pr path ≡ v
          → ((visible_qid os pr path log).1 ≡ log)
            ⊎ (check_path pr path ≡ exposed) × ((visible_qid os pr path log).1 ≡ lstat path ∷ log)
      go not_visible s = inl (ground arith)
      go virtual_ancestor s = inl (ground arith)
      go exposed s = inr (s, ground arith)

  visible_qid-OnlyLooks :
      (path : Bytes) (log : Log) → OnlyLooks pr log → OnlyLooks pr (visible_qid os pr path log).1
  visible_qid-OnlyLooks path log h = elim (visible_qid-log path log) [
    | inl same ↦ rw same h
    | inr (s, one) ↦ rw one (s, h)
  ]

  Result-cases :
      {A : Type 0} (r : Result A × Log)
      → ((a : A) × (log : Log) × (r ≡ (ok a, log)))
        ⊎ ((e : Errno) × (log : Log) × (r ≡ (err e, log)))
  Result-cases (ok a, log) = inl (a, log, refl)
  Result-cases (err e, log) = inr (e, log, refl)

  walk_from_sound :
      (path : Bytes) (names : List Bytes) (log log' : Log) (qids : List Qid) (last : Bytes)
      → walk_from os pr path names log ≡ (ok (qids, last), log')
      → WalksVisible pr path names
        × (last ≡ foldl walk_name path names)
        × (length qids ≡ length names)
  unfolding walk_from
  walk_from_sound path [] log log' qids last h = ground arith
  walk_from_sound path (name ∷ rest) log log' qids last h =
      elim (Result-cases (visible_qid os pr (walk_name path name) log)) [
        | inr (e, l1, bad) ↦ absurd (ground arith)
        | inl (qid, l1, good) ↦
            elim (Result-cases (walk_from os pr (walk_name path name) rest l1)) [
              | inr (e, l2, bad) ↦ absurd (ground arith)
              | inl ((qs, last'), l2, more) ↦
                  let (vis, end, count) =
                    walk_from_sound (walk_name path name) rest l1 l2 qs last' more in
                  (
                    (visible_qid-visible (walk_name path name) log l1 qid good, vis),
                    ground (arith, end),
                    ground (arith, count),
                  )
            ]
      ]

  walk_from-OnlyLooks :
      (path : Bytes) (names : List Bytes) (log : Log)
      → OnlyLooks pr log
      → OnlyLooks pr (walk_from os pr path names log).1
  unfolding walk_from
  walk_from-OnlyLooks path [] log h = h
  walk_from-OnlyLooks path (name ∷ rest) log h =
      let first = visible_qid-OnlyLooks (walk_name path name) log h in
      elim (Result-cases (visible_qid os pr (walk_name path name) log)) [
        | inr (e, l1, bad) ↦ rw bad (rw bad at first)
        | inl (qid, l1, good) ↦
            let later = walk_from-OnlyLooks (walk_name path name) rest l1 (rw good at first) in
            elim (Result-cases (walk_from os pr (walk_name path name) rest l1)) [
              | inr (e, l2, bad) ↦ rw (good, bad) (rw bad at later)
              | inl (r, l2, more) ↦ rw (good, more) (rw more at later)
            ]
      ]

  -- Where Walk succeeds, every name of it leads to a path that is visible, the new file has the
  -- path that the names lead to and no handle, and there is one QID for each name.
  pub walk-visible :
      (vf vf' : VirtualFile) (names : List Bytes) (log log' : Log) (qids : List Qid)
      → walk os pr vf names log ≡ (ok (qids, vf'), log')
      → WalksVisible pr vf.path names
        × (vf'.path ≡ foldl walk_name vf.path names)
        × (vf'.real_file ≡ none)
        × (length qids ≡ length names)
  unfolding walk
  walk-visible vf vf' names log log' qids h =
      elim (Result-cases (walk_from os pr vf.path names log)) [
        | inr (e, l1, bad) ↦ absurd (ground arith)
        | inl ((qs, last), l1, good) ↦
            let (vis, end, count) = walk_from_sound vf.path names log l1 qs last good in
            (vis, ground (arith, end), ground arith, ground (arith, count))
      ]

  -- Where all host calls so far are Lstat of exposed paths, they still are after Walk, whether
  -- it succeeds or fails.
  pub walk-OnlyLooks :
      (vf : VirtualFile) (names : List Bytes) (log : Log)
      → OnlyLooks pr log
      → OnlyLooks pr (walk os pr vf names log).1
  unfolding walk
  walk-OnlyLooks vf names log h =
      let all = walk_from-OnlyLooks vf.path names log h in
      elim (Result-cases (walk_from os pr vf.path names log)) [
        | inr (e, l1, bad) ↦ rw bad (rw bad at all)
        | inl (r, l1, good) ↦ rw good (rw good at all)
      ]
