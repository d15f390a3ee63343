-- ===== src/Guest/Client/Names.antt =====
-- parsePath and flagsToP9Create in guest/9pfuse/client.go.
use homura.Bytes.{Bytes}
use homura.Guest.Client.{OpenFlags, read_only, write_only, read_write}
use homura.Paths.{slash}
use homura.Prelude.{ℕ, ◌+◌, ◌/◌, ◌%◌, true, false, List, [], ◌∷◌, ◌++◌, ltb, ◌==◌, if◌then◌else◌}

-- `string(b)` of a byte: the UTF-8 of the character with that number.
unfoldable pub byte_string : ℕ → Bytes
byte_string b = if ltb b 128 then b ∷ [] else (192 + b / 64) ∷ (128 + b % 64) ∷ []

-- A part is kept where it is not empty.
abbrev pub kept : Bytes → List Bytes → List Bytes
kept [] parts = parts
kept (c ∷ s) parts = (c ∷ s) ∷ parts

-- The loop of parsePath.
unfoldable pub parts : Bytes → Bytes → List Bytes
unfolding byte_string
parts current [] = kept current []
parts current (c ∷ s) = elim (c == slash) [
  | true ↦ kept current (parts [] s)
  | false ↦ parts (current ++ byte_string c) s
]

unfoldable pub trim_slash : Bytes → Bytes
trim_slash [] = []
trim_slash (c ∷ []) = if c == slash then [] else c ∷ []
trim_slash (c ∷ d ∷ s) = c ∷ trim_slash (d ∷ s)

-- parsePath, which drops the first byte
unfoldable pub parse_path : Bytes → List Bytes
unfolding parts trim_slash
parse_path [] = []
parse_path (c ∷ s) = parts [] (trim_slash s)

-- flagsToP9Create: the access mode is the last two bits.
unfoldable pub flags_to_p9_create : ℕ → OpenFlags
flags_to_p9_create flags =
    if flags == 0
    then read_write
    else if flags % 4 == 0
    then read_only
    else if flags % 4 == 1
    then write_only
    else read_write
