-- ===== src/VirtualFs/Xattrs.antt =====
-- That ListXattrs reads the list of names that the host writes.
use homura.Bytes.{Bytes}
use homura.Prelude.{
  zero, suc, ◌≡◌, ◌≢◌, refl, ap, List, [], ◌∷◌, ◌++◌, append-nil, append_assoc, length,
}
use homura.Registry.{PathRegistry, exposed, check_path}
use homura.VirtualFs.Directory.{fill, end_name, parse_names, names_of, list_xattrs}
use homura.VirtualFs.{ok, listxattr, Log, Os, VirtualFile, guard_exposed}

-- A name without a zero byte.
abbrev pub ZeroFree : Bytes → Type 0
ZeroFree [] = Unit {0}
ZeroFree (b ∷ name) = (b ≢ 0) × ZeroFree name

-- Names as the host has them: not empty, and without zero bytes.
abbrev pub AreNames : List Bytes → Type 0
AreNames [] = Unit {0}
AreNames (name ∷ names) = (name ≢ []) × ZeroFree name × AreNames names

-- The host's form of a list of names: each is followed by a zero byte.
abbrev pub terminated : List Bytes → Bytes
terminated [] = []
terminated (name ∷ names) = name ++ (0 ∷ terminated names)

parse_names-append :
    (seen name rest : Bytes)
    → ZeroFree name
    → parse_names seen (name ++ rest) ≡ parse_names (seen ++ name) rest
unfolding parse_names
parse_names-append seen [] rest h = rw append-nil
parse_names-append seen (zero ∷ name) rest (nz, h) = absurd (nz refl)
parse_names-append seen (suc b ∷ name) rest (nz, h) =
    rw (parse_names-append (seen ++ (suc b ∷ [])) name rest h, append_assoc)

end_name-cons : (name : Bytes) (rest : List Bytes) → name ≢ [] → end_name 0 name rest ≡ name ∷ rest
unfolding end_name
end_name-cons [] rest h = absurd (h refl)
end_name-cons (c ∷ name) rest h = refl

parse_names-terminated :
    (names : List Bytes) → AreNames names → parse_names [] (terminated names) ≡ names
unfolding parse_names
parse_names-terminated [] h = refl
parse_names-terminated (name ∷ names) (ne, zf, h) = rw (
  parse_names-append [] name (0 ∷ terminated names) zf,
  end_name-cons name (parse_names [] (terminated names)) ne,
  parse_names-terminated names h,
)

fill-length : (content : Bytes) → fill (length content) content ≡ content
unfolding fill
fill-length [] = refl
fill-length (b ∷ content) = ap (◌∷◌ b) (fill-length content)

names_of-parse_names :
    (os : Os) (pr : PathRegistry) (path content : Bytes) (log : Log)
    → os.bytes log (listxattr path (length content)) ≡ ok content
    → (names_of os pr path (length content) log).0 ≡ ok (parse_names [] content)
unfolding names_of parse_names
names_of-parse_names os pr path [] log h = refl
names_of-parse_names os pr path (b ∷ content) log h = rw (h, fill-length content)

module _ (os : Os) (pr : PathRegistry) (vf : VirtualFile) (log : Log) where
  -- On an exposed path, where the host first answers the length of a list of names each followed
  -- by a zero byte, and then that list, ListXattrs returns the names; they are not empty and
  -- hold no zero byte.
  pub list_xattrs-terminated :
      (names : List Bytes)
      → check_path pr vf.path ≡ exposed
      → AreNames names
      → os.handle log (listxattr vf.path 0) ≡ ok (length (terminated names))
      → os.bytes (listxattr vf.path 0 ∷ log) (listxattr vf.path (length (terminated names)))
        ≡ ok (terminated names)
      → (list_xattrs os pr vf log).0 ≡ ok names
  unfolding list_xattrs guard_exposed
  list_xattrs-terminated names s h size content = rw (
    s,
    guard_exposed,
    size,
    names_of-parse_names os pr vf.path (terminated names) (listxattr vf.path 0 ∷ log) content,
    parse_names-terminated names h,
  )
