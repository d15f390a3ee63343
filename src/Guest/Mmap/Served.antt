-- ===== src/Guest/Mmap/Served.antt =====
-- A bulk read of the guest that the host answers.
use homura.Bytes.{Bytes}
use homura.Outcome.{ok}
use homura.Guest.Mmap.{
  Conn, response_type, bulk_read_type, answer_data, receive_answer, send_request, call, decoded,
  bulk_read,
}
use homura.Prelude.{ℕ, ◌+◌, ◌-◌, ◌^◌, ◌≡◌, ◌<◌, ap, sym, ◌∙◌, true, ◌++◌, length, arith}
use homura.Wire.Codec.{
  Coded, encode_bulk_read_request, decode_bulk_read_request, encode_bulk_read_response,
  decode_bulk_read_response,
}
use homura.Wire.Content.{answered, encode_answer, decode_answer, length-answered}
use homura.Wire.Frame.{read_message-write_message}
use homura.Wire.RoundTrip.{three, fill_three, first_word, second_word, third_word, three_long}
use homura.Wire.{read_message, write_message}

encode_three :
    (id offset count : ℕ)
    → encode_bulk_read_request (record { mmap_id = id; offset = offset; count = count })
      ≡ ok (three id offset count)
unfolding encode_bulk_read_request
encode_three id offset count = fill_three id offset count

decode_three :
    (id offset count : ℕ)
    → id < 2 ^ 64
    → offset < 2 ^ 64
    → count < 2 ^ 64
    → decode_bulk_read_request (three id offset count)
      ≡ ok (record { mmap_id = id; offset = offset; count = count })
unfolding decode_bulk_read_request
decode_three id offset count hi ho hc = rw (
  three_long id offset count,
  first_word id offset count hi,
  second_word id offset count ho,
  third_word id offset count hc,
)

receive_answered :
    (conn : Conn) (body rest : Bytes)
    → conn.incoming ≡ write_message response_type body ++ rest
    → length body < 2 ^ 24
    → receive_answer conn ≡ (ok body, record conn { incoming = rest })
unfolding receive_answer answer_data
receive_answered conn body rest h small =
    let read =
      ap read_message h ∙ read_message-write_message response_type body rest (omega arith) small in
    rw (read, receive_answer)

send_writable :
    (conn : Conn) (type : ℕ) (body : Bytes)
    → conn.writable ≡ true
    → send_request conn type (ok body)
      ≡ (ok tt, record conn { sent = conn.sent ++ write_message type body })
unfolding send_request
send_writable conn type body can = ground arith

call_answered :
    (conn : Conn) (type : ℕ) (request body rest : Bytes)
    → conn.writable ≡ true
    → conn.incoming ≡ write_message response_type body ++ rest
    → length body < 2 ^ 24
    → call conn type (ok request)
      ≡ (ok body, record conn { incoming = rest; sent = conn.sent ++ write_message type request })
unfolding call
call_answered conn type request body rest can h small = rw (
  call,
  send_writable conn type request can,
  send_writable conn type request can,
  receive_answered (record conn { sent = conn.sent ++ write_message type request }) body rest h
      small,
)

ok_inj : (a b : Bytes) → Path (Coded Bytes) (ok a) (ok b) → a ≡ b
ok_inj a b h = cc

said_bytes :
    (c body : Bytes) (small : length c < 2 ^ 32 - 4)
    → encode_bulk_read_response (record { content = c }) ≡ ok body
    → answered c small ≡ body
said_bytes c body small said = ok_inj (answered c small) body (sym (encode_answer c small) ∙ said)

decode_said :
    (c body : Bytes)
    → length c < 2 ^ 32 - 4
    → encode_bulk_read_response (record { content = c }) ≡ ok body
    → (decode_bulk_read_response body ≡ ok (record { content = c })) × (length body ≡ 4 + length c)
decode_said c body small said =
    let same : answered c small ≡ body = said_bytes c body small said in
    (rw (← same) (decode_answer c small), rw (← same) (length-answered c small))

-- BulkRead with 64-bit numbers over a connection that can be written, on which the host's answer
-- comes next, the encoding of fewer than 2^24 - 4 bytes, returns these bytes, leaves what
-- follows the answer, and has sent one message of its type that the host decodes to the numbers
-- asked for.
pub bulk_read-served :
    (conn : Conn) (id offset count : ℕ) (c body rest : Bytes)
    → id < 2 ^ 64
    → offset < 2 ^ 64
    → count < 2 ^ 64
    → length c < 2 ^ 24 - 4
    → conn.writable ≡ true
    → encode_bulk_read_response (record { content = c }) ≡ ok body
    → conn.incoming ≡ write_message response_type body ++ rest
    → (asked : Bytes) × (bulk_read conn id offset count ≡ (
      ok c,
      record conn { incoming = rest; sent = conn.sent ++ write_message bulk_read_type asked },
    ))
      × (decode_bulk_read_request asked
          ≡ ok (record { mmap_id = id; offset = offset; count = count }))
unfolding bulk_read decoded
bulk_read-served conn id offset count c body rest hi ho hc small can said incoming = (
  three id offset count,
  rw (
    encode_three id offset count,
    call_answered conn bulk_read_type (three id offset count) body rest can incoming
        (omega (arith, (decode_said c body (omega arith) said).1)),
    (decode_said c body (omega arith) said).0,
  ),
  decode_three id offset count hi ho hc,
)
