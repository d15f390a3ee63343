-- ===== src/Daemon/Events/Lines.antt =====
-- The events are the lines of the whole text, however it is cut into pieces.
use homura.Bytes.{Bytes}
use homura.Daemon.Events.{
  EventWriter, new_event_writer, newline, index_byte, emit, emit_lines, write, flush, write_all,
}
use homura.Prelude.{
  ℕ, zero, suc, ◌≡◌, ◌<◌, refl, sym, ap, ◌∙◌, false, List, [], ◌∷◌, ◌++◌, append-nil, append_assoc,
  Option, none, some, ◌==◌, if◌then◌else◌, length, take, drop, arith, Bool-cases, inl, inr, ◌⊎◌,
}

-- The lines of a text, and what follows the last newline.
pub record Text : Type 0 where
  pub whole : List Bytes
  pub rest : Bytes

abbrev longer : ℕ → Text → Text
longer c t = record {
  whole = elim t.whole [ [] ↦ [] | l ∷ ls ↦ (c ∷ l) ∷ ls ];
  rest = elim t.whole [ [] ↦ c ∷ t.rest | l ∷ ls ↦ t.rest ];
}

unfoldable pub text : Bytes → Text
text [] = record { whole = []; rest = [] }
text (c ∷ s) =
    let t = text s in if c == newline then record t { whole = [] ∷ t.whole } else longer c t

-- A line at the front of a text.
abbrev after_line : Bytes → Text → Text
after_line l t = record t { whole = l ∷ t.whole }

-- Where the first newline stands, and the text after it.
text-cases :
    (s : Bytes)
    → ((index_byte s newline ≡ none) × (text s ≡ record { whole = []; rest = s }))
      ⊎ ((i : ℕ) × (index_byte s newline ≡ some i)
          × (length (drop (suc i) s) < length s)
          × (text s ≡ after_line (take i s) (text (drop (suc i) s))))
unfolding text index_byte
text-cases [] = inl (refl, refl)
text-cases (c ∷ s) = elim (Bool-cases (c == newline)) [
  | inl found ↦ inr (0, rw found, omega arith, rw found)
  | inr other ↦ elim (text-cases s) [
    | inl (e, t) ↦ inl (rw (other, e), rw other (ap (longer c) t))
    | inr (i, e, h, t) ↦ inr (suc i, rw (other, e), omega arith, rw other (ap (longer c) t))
  ]
]

-- Text that is read on.
abbrev more : Text → Bytes → Text
more t p = record {
  whole = t.whole ++ (text (t.rest ++ p)).whole;
  rest = (text (t.rest ++ p)).rest;
}

longer-more :
    (c : ℕ) (ls : List Bytes) (rest p : Bytes)
    → (c == newline) ≡ false
    → longer c (more (record { whole = ls; rest = rest }) p)
      ≡ more (longer c (record { whole = ls; rest = rest })) p
unfolding text
longer-more c [] rest p other = rw other
longer-more c (l ∷ ls) rest p other = refl

text-append : (s p : Bytes) → text (s ++ p) ≡ more (text s) p
unfolding text
text-append [] p = refl
text-append (c ∷ s) p = elim (Bool-cases (c == newline)) [
  | inl found ↦ rw found (ap (after_line []) (text-append s p))
  | inr other ↦
      rw other
        (ap (longer c) (text-append s p) ∙ longer-more c (text s).whole (text s).rest p other)
]

emit_lines-text :
    (fuel : ℕ) (w : EventWriter)
    → length w.buf < fuel
    → emit_lines fuel w
      ≡ some (record { buf = (text w.buf).rest; lines = w.lines ++ (text w.buf).whole })
unfolding emit_lines emit
emit_lines-text zero w h = absurd (omega arith)
emit_lines-text (suc fuel) w h = elim (text-cases w.buf) [
  | inl (e, t) ↦ rw (emit_lines, e, t, append-nil w.lines)
  | inr (i, e, less, t) ↦
      let w' = record (emit (take i w.buf) w) { buf = drop (suc i) w.buf } in
      rw (emit_lines, e, t)
        (emit_lines-text fuel w' (omega arith)
          ∙ ap (λ x. some (record { buf = (text (drop (suc i) w.buf)).rest; lines = x }))
              (append_assoc w.lines (take i w.buf ∷ []) (text (drop (suc i) w.buf)).whole))
]

-- The writer after a text.
abbrev of_text : Bytes → EventWriter
of_text s = record { buf = (text s).rest; lines = (text s).whole }

write-text : (s p : Bytes) → write p (of_text s) ≡ some (of_text (s ++ p))
unfolding write
write-text s p =
    emit_lines-text (suc (length ((text s).rest ++ p)))
      (record (of_text s) { buf = (text s).rest ++ p }) (omega arith)
    ∙ ap (λ t. some (record { buf = t.rest; lines = t.whole })) (sym (text-append s p))

abbrev pub concat : List Bytes → Bytes
concat [] = []
concat (p ∷ pieces) = p ++ concat pieces

write_all-text :
    (pieces : List Bytes) (s : Bytes)
    → write_all pieces (of_text s) ≡ some (of_text (s ++ concat pieces))
unfolding write_all
write_all-text [] s = ap (λ x. some (of_text x)) (sym (append-nil s))
write_all-text (p ∷ pieces) s =
    rw (write_all, write-text s p)
      (write_all-text pieces (s ++ p)
        ∙ ap (λ x. some (of_text x)) (append_assoc s p (concat pieces)))

abbrev pub last_line : Bytes → List Bytes
last_line [] = []
last_line (c ∷ s) = (c ∷ s) ∷ []

-- All lines of a text, the last one also where no newline ends it.
abbrev pub all_lines : Bytes → List Bytes
all_lines s = (text s).whole ++ last_line (text s).rest

flush-last_line :
    (b : Bytes) (ls : List Bytes)
    → flush (record { buf = b; lines = ls }) ≡ record { buf = []; lines = ls ++ last_line b }
unfolding flush emit
flush-last_line [] ls = rw (append-nil ls)
flush-last_line (c ∷ s) ls =
    let more_left : (suc (length s) == 0) ≡ false = ground arith in rw (flush, more_left)

-- What Writes of the pieces and a Flush emit.
abbrev pub printed : List Bytes → Option EventWriter
printed pieces = elim (write_all pieces new_event_writer) [ none ↦ none | some w ↦ some (flush w) ]

-- The loop of Write always ends on the fuel given, one more than the bytes held, and after
-- Writes of any pieces and a Flush the events are the lines of the whole text, however it is cut
-- into pieces, with a last line that no newline ends where it is not empty.
pub printed-all_lines :
    (pieces : List Bytes)
    → printed pieces ≡ some (record { buf = []; lines = all_lines (concat pieces) })
unfolding text
printed-all_lines pieces =
    let read : write_all pieces new_event_writer ≡ some (of_text (concat pieces)) =
      write_all-text pieces [] in
    rw (printed, read)
      (ap some (flush-last_line (text (concat pieces)).rest (text (concat pieces)).whole))
