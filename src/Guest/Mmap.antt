-- ===== src/Guest/Mmap.antt =====
-- guest/9pfuse/mmap.go: MmapManager over a connection to the host, and its own encoder. The guest's
-- encoders and decoders in guest/9pfuse/protocol.go have the text of the host's, those of Wire.Codec.
pub mod Served
mod Tests
use homura.Bytes.{Bytes, bytes_dec}
use homura.Outcome.{Outcome, ok, err, panic, ◌>>=◌}
use homura.Prelude.Dict.{get, put, delete}
use homura.Prelude.{
  ℕ, ◌/◌, ◌%◌, ◌^◌, Bool, List, [], ◌∷◌, ◌++◌, Option, none, some, if◌then◌else◌, ◌==◌, not,
}
use homura.Wire
use homura.Wire.Codec.{
  Coded, DecodeError, too_short, encode_register_request, decode_register_response,
  encode_bulk_read_request, decode_bulk_read_response, encode_write_request, decode_write_response,
  decode_error_response,
}
use homura.Wire.{Message, ReadError, read_message, write_message}

-- What the host still sends, what has been sent to it, and whether the guest can write.
pub record Conn : Type 0 where
  pub incoming : Bytes
  pub sent : Bytes
  pub writable : Bool

pub record MmapInfo : Type 0 where
  pub mmap_id : ℕ
  pub path : Bytes
  pub size : ℕ

pub data MmapFailure : Type 0 where
  cannot_send : MmapFailure
  cannot_read : ReadError → MmapFailure
  host_error : Bytes → MmapFailure
  unexpected_type : ℕ → MmapFailure
  cannot_decode : MmapFailure

abbrev pub Regions : Type 0
Regions = List (Bytes × MmapInfo)

abbrev pub register_type : ℕ
register_type = 200

abbrev pub bulk_read_type : ℕ
bulk_read_type = 201

abbrev pub write_type : ℕ
write_type = 202

abbrev pub unregister_type : ℕ
unregister_type = 204

abbrev pub response_type : ℕ
response_type = 250

abbrev pub error_type : ℕ
error_type = 251

-- An answer of the host that holds an error; its text is that of a nil response, and so a panic,
-- where it cannot be decoded.
unfoldable pub host_failure : {A : Type 0} → Coded A → (A → Bytes) → Outcome MmapFailure Bytes
host_failure (ok a) text = err (host_error (text a))
host_failure (err e) text = panic
host_failure panic text = panic

-- The data of an answer, by the type of its message.
unfoldable pub answer_data : Message → Outcome MmapFailure Bytes
unfolding host_failure
answer_data msg =
    if msg.type == error_type
    then host_failure (decode_error_response msg.content) (λ r. r.message)
    else if not (msg.type == response_type)
    then err (unexpected_type msg.type)
    else ok msg.content

-- The answer that is read next.
unfoldable pub receive_answer : Conn → Outcome MmapFailure Bytes × Conn
unfolding answer_data
receive_answer conn = elim (read_message conn.incoming) [
  | Wire.err e rest ↦ (err (cannot_read e), record conn { incoming = rest })
  | Wire.ok msg rest ↦ (answer_data msg, record conn { incoming = rest })
]

-- A request that cannot be encoded panics; else it is written.
unfoldable pub send_request : Conn → ℕ → Coded Bytes → Outcome MmapFailure (Unit {0}) × Conn
send_request conn type (ok body) =
    if conn.writable
    then (ok tt, record conn { sent = conn.sent ++ write_message type body })
    else (err cannot_send, conn)
send_request conn type (err e) = (panic, conn)
send_request conn type panic = (panic, conn)

-- A request and its answer, as in RegisterMmap, BulkRead and Write.
unfoldable pub call : Conn → ℕ → Coded Bytes → Outcome MmapFailure Bytes × Conn
unfolding send_request receive_answer
call conn type body =
    let (sent, conn') = send_request conn type body in
    elim sent [ ok _ ↦ receive_answer conn' | err e ↦ (err e, conn') | panic ↦ (panic, conn') ]

-- A decoded answer.
unfoldable pub decoded : {A : Type 0} → Coded A → Outcome MmapFailure A
decoded (ok a) = ok a
decoded (err e) = err cannot_decode
decoded panic = panic

-- RegisterMmap; the flags are those of MAP_SHARED.
unfoldable pub register_mmap :
    Regions → Conn → Bytes → ℕ → Regions × (Outcome MmapFailure MmapInfo × Conn)
unfolding call decoded
register_mmap regions conn path size = elim (get bytes_dec regions path) [
  | some info ↦ (regions, (ok info, conn))
  | none ↦
      let (answer, conn') =
        call conn register_type
          (encode_register_request (record { file_path = path; length_asked = size; flags = 1 })) in
      elim (answer >>= λ body. decoded (decode_register_response body)) [
        | ok resp ↦
            let info : MmapInfo = record { mmap_id = resp.mmap_id; path = path; size = size } in
            (put bytes_dec regions path info, (ok info, conn'))
        | err e ↦ (regions, (err e, conn'))
        | panic ↦ (regions, (panic, conn'))
      ]
]

-- BulkRead
unfoldable pub bulk_read : Conn → ℕ → ℕ → ℕ → Outcome MmapFailure Bytes × Conn
unfolding call decoded
bulk_read conn id offset count =
    let (answer, conn') =
      call conn bulk_read_type
        (encode_bulk_read_request (record { mmap_id = id; offset = offset; count = count })) in
    (answer >>= λ body. decoded (decode_bulk_read_response body) >>= λ r. ok r.content, conn')

-- Write
unfoldable pub write : Conn → ℕ → ℕ → Bytes → Outcome MmapFailure ℕ × Conn
unfolding call decoded
write conn id offset content =
    let (answer, conn') =
      call conn write_type
        (encode_write_request (record { mmap_id = id; offset = offset; content = content })) in
    (answer >>= λ body. decoded (decode_write_response body) >>= λ r. ok r.bytes_written, conn')

-- EncodeMmapUnregisterRequest of mmap.go, by shifts.
unfoldable pub encode_unregister_by_shifts : ℕ → Bytes
encode_unregister_by_shifts id =
    (id % 256)
    ∷ (id / 2 ^ 8 % 256)
    ∷ (id / 2 ^ 16 % 256)
    ∷ (id / 2 ^ 24 % 256)
    ∷ (id / 2 ^ 32 % 256)
    ∷ (id / 2 ^ 40 % 256)
    ∷ (id / 2 ^ 48 % 256)
    ∷ (id / 2 ^ 56 % 256)
    ∷ []

-- Unregister
unfoldable pub unregister_mmap :
    Regions → Conn → Bytes → Regions × (Outcome MmapFailure (Unit {0}) × Conn)
unfolding send_request encode_unregister_by_shifts
unregister_mmap regions conn path = elim (get bytes_dec regions path) [
  | none ↦ (regions, (ok tt, conn))
  | some info ↦ (
    delete bytes_dec regions path,
    send_request conn unregister_type (ok (encode_unregister_by_shifts info.mmap_id)),
  )
]

-- GetInfo
unfoldable pub info_of : Regions → Bytes → Option MmapInfo
info_of regions path = get bytes_dec regions path
