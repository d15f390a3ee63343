-- ===== src/VirtualFs/Pages.antt =====
-- Readdir's pages, against the list of all entries.
use homura.Bytes.{Bytes}
use homura.Paths.{join_paths}
use homura.Prelude.{
  ℕ, zero, suc, ◌+◌, ◌≡◌, ◌≤◌, refl, ap, List, [], ◌∷◌, Option, none, some, take, drop, sym, subst,
  ◌∙◌, arith, Bool-cases, inl, inr, ◌⊎◌, Has, ltb,
}
use homura.Registry.{PathRegistry, virtual_ancestor, check_path, get_exposed_children}
use homura.VirtualFs.Directory.{Dirent, entry_of, is_full, page, child_entry, virtual_page, readdir}
use homura.VirtualFs.{FileInfo, Log, Os, Result, ok, VirtualFile}

-- The entries of all files, from an index on.
abbrev pub all_entries : ℕ → List (Bytes × FileInfo) → List Dirent
all_entries i [] = []
all_entries i (e ∷ es) = entry_of i e ∷ all_entries (suc i) es

-- As many entries as a request asks for, where 0 asks for all.
abbrev pub limit : ℕ → List Dirent → List Dirent
limit zero ds = ds
limit (suc n) ds = take (suc n) ds

page-unlimited :
    (offset i made : ℕ) (es : List (Bytes × FileInfo))
    → offset ≤ i
    → page offset 0 i made es ≡ all_entries i es
unfolding page is_full
page-unlimited offset i made [] h = refl
page-unlimited offset i made (e ∷ es) h =
    let later = page-unlimited offset (suc i) (suc made) es (omega arith) in ground (arith, later)

page-take :
    (offset count i made n : ℕ) (es : List (Bytes × FileInfo))
    → offset ≤ i
    → count ≡ suc made + n
    → page offset count i (suc made) es ≡ take n (all_entries i es)
unfolding page is_full
page-take offset count i made zero [] h c = refl
page-take offset count i made (suc n) [] h c = refl
page-take offset count i made zero (e ∷ es) h c = ground arith
page-take offset count i made (suc n) (e ∷ es) h c =
    let later = page-take offset count (suc i) (suc made) n es (omega arith) (omega arith) in
    ground (arith, later)

page-limit :
    (offset count i : ℕ) (es : List (Bytes × FileInfo))
    → offset ≤ i
    → page offset count i 0 es ≡ limit count (all_entries i es)
unfolding page is_full
page-limit offset zero i es h = page-unlimited offset i 0 es h
page-limit offset (suc n) i [] h = refl
page-limit offset (suc n) i (e ∷ es) h =
    let later = page-take offset (suc n) (suc i) 0 n es (omega arith) (omega arith) in
    ground (arith, later)

page-skip :
    (offset count i k : ℕ) (es : List (Bytes × FileInfo))
    → offset ≡ i + k
    → page offset count i 0 es ≡ limit count (drop k (all_entries i es))
unfolding page
page-skip offset count i zero es h = page-limit offset count i es (omega arith)
page-skip offset zero i (suc k) [] h = refl
page-skip offset (suc n) i (suc k) [] h = refl
page-skip offset count i (suc k) (e ∷ es) h =
    let later = page-skip offset count (suc i) k es (omega arith) in ground (arith, later)

-- Readdir's loop over the files of an exposed directory returns the list of all entries,
-- numbered from 1, without the first offset many and cut to the count, where a count of 0 cuts
-- nothing.
pub page-drop :
    (offset count : ℕ) (es : List (Bytes × FileInfo))
    → page offset count 0 0 es ≡ limit count (drop offset (all_entries 0 es))
page-drop offset count es = page-skip offset count 0 offset es (omega arith)

ok_entries :
    (xs ys : List Dirent) (l l' : Log)
    → Path (Result (List Dirent) × Log) (ok xs, l) (ok ys, l')
    → xs ≡ ys
ok_entries xs ys l l' e = cc

module _ (os : Os) (pr : PathRegistry) where
  child_entry-name :
      (i : ℕ) (path name : Bytes) (log l : Log) (d : Dirent)
      → child_entry os pr i path name log ≡ (some d, l)
      → d.name ≡ name
  unfolding child_entry
  child_entry-name i path name log l d h = ground arith

  entry-cases :
      (r : Option Dirent × Log)
      → ((l : Log) × (r ≡ (none, l))) ⊎ ((d : Dirent) × (l : Log) × (r ≡ (some d, l)))
  entry-cases (none, l) = inl (l, refl)
  entry-cases (some d, l) = inr (d, l, refl)

  virtual_page-Has :
      (path : Bytes) (offset count i made : ℕ) (names : List Bytes) (log : Log) (d : Dirent)
      → Has (virtual_page os pr path offset count i made names log).0 d
      → Has names d.name
  unfolding virtual_page
  virtual_page-Has path offset count i made [] log d h = h
  virtual_page-Has path offset count i made (name ∷ names) log d h =
      elim (Bool-cases (ltb i offset)) [
        | inl skip ↦ inr (
            virtual_page-Has path offset count (suc i) made names log d
              (rw (skip, Has, virtual_page) at h))
        | inr here ↦ elim (Bool-cases (is_full count made)) [
          | inl full ↦ absurd (rw (here, full, Has, virtual_page) at h)
          | inr more ↦ elim (entry-cases (child_entry os pr i (join_paths path name) name log)) [
            | inl (l, e) ↦ inr (
                virtual_page-Has path offset count (suc i) made names
                  (child_entry os pr i (join_paths path name) name log).1 d
                  (rw (here, more, e, Has, virtual_page) at h))
            | inr (d', l, e) ↦
                let named = child_entry-name i (join_paths path name) name log l d' e in
                elim (rw (here, more, e, Has, virtual_page) at h) [
                  | inl same ↦ inl (sym (ap (λ x. x.name) (sym same) ∙ named))
                  | inr later ↦ inr (
                      virtual_page-Has path offset count (suc i) (suc made) names
                        (child_entry os pr i (join_paths path name) name log).1 d later)
                ]
          ]
        ]
      ]

  -- Where Readdir of a virtual directory succeeds, every entry has the name of an exposed child
  -- of that directory.
  pub readdir-children :
      (vf : VirtualFile) (offset count : ℕ) (log log' : Log) (ds : List Dirent) (d : Dirent)
      → check_path pr vf.path ≡ virtual_ancestor
      → readdir os pr vf offset count log ≡ (ok ds, log')
      → Has ds d
      → Has (get_exposed_children pr vf.path) d.name
  unfolding readdir
  readdir-children vf offset count log log' ds d s h has =
      virtual_page-Has vf.path offset count 0 0 (get_exposed_children pr vf.path) log d
        (subst (λ xs. Has xs d) (ok_entries ds _ log' _ (sym h ∙ readdir_virtual)) has)
    where
      readdir_virtual : readdir os pr vf offset count log ≡ (
        ok (virtual_page os pr vf.path offset count 0 0 (get_exposed_children pr vf.path) log).0,
        (virtual_page os pr vf.path offset count 0 0 (get_exposed_children pr vf.path) log).1,
      )
      readdir_virtual = rw (s, readdir)
