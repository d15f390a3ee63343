-- ===== src/Daemon/Events.antt =====
-- The eventWriter of internal/daemon/server.go, which turns what a build prints into log events, one for
-- each line. The frame of an event is its line, and an event that cannot be sent is forgotten.
pub mod Lines
use homura.Bytes.{Bytes}
use homura.Prelude.{
  ℕ, zero, suc, List, [], ◌∷◌, ◌++◌, Option, none, some, ◌==◌, if◌then◌else◌, length, take, drop,
}

pub record EventWriter : Type 0 where
  pub buf : Bytes
  pub lines : List Bytes

abbrev pub new_event_writer : EventWriter
new_event_writer = record { buf = []; lines = [] }

abbrev pub newline : ℕ
newline = 10

-- bytes.IndexByte
unfoldable pub index_byte : Bytes → ℕ → Option ℕ
index_byte [] c = none
index_byte (b ∷ s) c =
    let later = index_byte s c in
    if b == c then some 0 else elim later [ none ↦ none | some i ↦ some (suc i) ]

unfoldable pub emit : Bytes → EventWriter → EventWriter
emit line w = record w { lines = w.lines ++ line ∷ [] }

-- The loop of Write, with fuel.
unfoldable pub emit_lines : ℕ → EventWriter → Option EventWriter
unfolding index_byte emit
emit_lines zero w = none
emit_lines (suc fuel) w = elim (index_byte w.buf newline) [
  | none ↦ some w
  | some i ↦ emit_lines fuel (record (emit (take i w.buf) w) { buf = drop (suc i) w.buf })
]

-- Write
unfoldable pub write : Bytes → EventWriter → Option EventWriter
unfolding emit_lines
write p w = emit_lines (suc (length (w.buf ++ p))) (record w { buf = w.buf ++ p })

-- Flush
unfoldable pub flush : EventWriter → EventWriter
unfolding emit
flush w = if length w.buf == 0 then w else record (emit w.buf w) { buf = [] }

-- All that is printed, in the pieces in which it is printed.
unfoldable pub write_all : List Bytes → EventWriter → Option EventWriter
unfolding write
write_all [] w = some w
write_all (p ∷ pieces) w = elim (write p w) [ none ↦ none | some w' ↦ write_all pieces w' ]
