-- ===== src/Wire/Tests.antt =====
-- Runs of the message frames, and their theorems at concrete messages.
use homura.Bytes.{Bytes, codes}
use homura.Prelude.{◌+◌, ◌^◌, ◌≤◌, ◌≡◌, ◌↔◌, refl, [], ◌∷◌, ◌++◌, replicate, arith}
use homura.Buffers.{slice}
use homura.Outcome
use homura.Outcome.{panic}
use homura.Wire.Codec.{MmapWriteRequest, word_at, decode_write_request}
use homura.Wire.Panics.{decode_write_request-panic}
use homura.Wire.RoundTrip.{write, reread, reread_lem}
use homura.Wire.Frame.{read_message-write_message}
use homura.Wire.Words.{put_le, le}
use homura.Wire.{ok, err, no_length, no_type, no_content, too_large, read_message, write_message}

program : Unit {0}
unfolding read_message write_message put_le le word_at slice
program = tt

reads :
    (write_message 200 (codes "ab") ≡ 3 ∷ 0 ∷ 0 ∷ 0 ∷ 200 ∷ codes "ab")
    × (read_message (2 ∷ 0 ∷ 0 ∷ []) ≡ err no_length [])
    × (read_message (2 ∷ 0 ∷ 0 ∷ 0 ∷ []) ≡ err no_type [])
    × (read_message (3 ∷ 0 ∷ 0 ∷ 0 ∷ 200 ∷ 1 ∷ []) ≡ err no_content [])
    × (read_message (1 ∷ 0 ∷ 0 ∷ 1 ∷ 7 ∷ []) ≡ err too_large (7 ∷ []))
unfolding program
reads = (refl, refl, refl, refl, refl)

read_message-write_message_example :
    read_message (write_message 200 (codes "ab") ++ codes "rest")
    ≡ ok (record { type = 200; content = codes "ab" }) (codes "rest")
read_message-write_message_example =
    read_message-write_message 200 (codes "ab") (codes "rest") (omega arith) (omega arith)

-- A write of two bytes, and the same message with a length that wraps around.
abbrev two_bytes : MmapWriteRequest
two_bytes = record { mmap_id = 1; offset = 300; content = codes "ab" }

reread_lem_example : reread (write two_bytes) ≡ Outcome.ok (write two_bytes)
reread_lem_example = reread_lem (write two_bytes) (omega arith, omega arith, omega arith)

-- Sixteen zeros and the length 2^32 - 1.
abbrev hostile : Bytes
hostile = replicate 16 0 ++ (255 ∷ 255 ∷ 255 ∷ 255 ∷ [])

decode_write_request-panic_example :
    (decode_write_request hostile ≡ panic) ↔ (2 ^ 32 ≤ 20 + 4294967295)
unfolding program
decode_write_request-panic_example =
    decode_write_request-panic hostile 4294967295 (omega arith) (omega arith) refl (omega arith)
