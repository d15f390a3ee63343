-- ===== src/Guest/Mmap/Tests.antt =====
-- Runs of the guest's manager of mapped files against answers of a host.
use homura.Buffers.{overwrite, slice, copy_to, put_word}
use homura.Bytes.{Bytes, codes, bytes_dec}
use homura.Guest.Mmap.Served.{bulk_read-served}
use homura.Guest.Mmap.{
  Conn, MmapFailure, cannot_send, unexpected_type, register_mmap, bulk_read, write, unregister_mmap,
  encode_unregister_by_shifts, info_of,
}
use homura.Outcome.{ok, err, panic}
use homura.Prelude.Dict.{get, put, delete}
use homura.Prelude.{◌≡◌, refl, true, false, [], ◌∷◌, ◌++◌, none, arith, ℕ_discrete}
use homura.Wire.Codec.{
  word_at, encode_register_request, decode_register_response, encode_bulk_read_request,
  decode_bulk_read_request, encode_bulk_read_response, decode_bulk_read_response,
  encode_write_request, decode_write_response, decode_error_response, decode_unregister_request,
}
use homura.Wire.Words.{put_le, le}
use homura.Wire.{read_message, write_message}

program : Unit {0}
unfolding register_mmap bulk_read write unregister_mmap info_of overwrite slice copy_to put_word
    word_at encode_register_request decode_register_response encode_bulk_read_request
    decode_bulk_read_request encode_bulk_read_response decode_bulk_read_response
    encode_write_request decode_write_response decode_error_response decode_unregister_request
    put_le le read_message write_message bytes_dec ℕ_discrete get put delete
program = tt

-- A connection on which the host has answered with these bytes.
abbrev answering : Bytes → Conn
answering s = record { incoming = s; sent = []; writable = true }

-- The answer "hi" to a bulk read.
abbrev hi_body : Bytes
hi_body = 2 ∷ 0 ∷ 0 ∷ 0 ∷ codes "hi"

abbrev hi_conn : Conn
hi_conn = answering (write_message 250 hi_body ++ codes "later")

answers :
    ((bulk_read hi_conn 1 0 2).0 ≡ ok (codes "hi"))
    × ((bulk_read (answering (write_message 250 [])) 1 0 2).0 ≡ err MmapFailure.cannot_decode)
    × ((bulk_read (answering (write_message 7 [])) 1 0 2).0 ≡ err (unexpected_type 7))
    × ((bulk_read (answering (write_message 251 [])) 1 0 2).0 ≡ panic)
    × ((bulk_read (record { incoming = []; sent = []; writable = false }) 1 0 2).0
        ≡ err cannot_send)
    × (decode_unregister_request (encode_unregister_by_shifts 70000)
        ≡ ok (record { mmap_id = 70000 }))
unfolding program
answers = (refl, refl, refl, refl, refl, refl)

registers :
    ((register_mmap [] (answering (write_message 250 (put_le 8 5))) (codes "/f") 9).0
      ≡ (codes "/f", record { mmap_id = 5; path = codes "/f"; size = 9 }) ∷ [])
    × (info_of [] (codes "/f") ≡ none)
unfolding program
registers = (refl, refl)

bulk_read-served_example :
    (asked : Bytes) × (bulk_read hi_conn 1 0 2 ≡ (
      ok (codes "hi"),
      record { incoming = codes "later"; sent = write_message 201 asked; writable = true },
    ))
    × (decode_bulk_read_request asked ≡ ok (record { mmap_id = 1; offset = 0; count = 2 }))
unfolding program
bulk_read-served_example =
    bulk_read-served hi_conn 1 0 2 (codes "hi") hi_body (codes "later") (omega arith) (omega arith)
      (omega arith) (omega arith) refl refl refl
