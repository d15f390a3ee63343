-- ===== src/Wire/Codec.antt =====
-- The message bodies of 9passthrough/protocol.go: their types, encoders and decoders. A text is the
-- list of its bytes. uint32(len(…)) and the sums of 32-bit lengths wrap around.
use homura.Buffers.{slice, copy_to, put_word}
use homura.Bytes.{Bytes}
use homura.Outcome.{Outcome, ok, err, ◌>>=◌}
use homura.Prelude.{ℕ, ◌+◌, ◌%◌, ◌^◌, length, ltb, replicate, if◌then◌else◌}
use homura.Wire.Words.{le}

pub record MmapRegisterRequest : Type 0 where
  pub file_path : Bytes
  pub length_asked : ℕ
  pub flags : ℕ

pub record MmapRegisterResponse : Type 0 where
  pub mmap_id : ℕ

pub record MmapBulkReadRequest : Type 0 where
  pub mmap_id : ℕ
  pub offset : ℕ
  pub count : ℕ

pub record MmapBulkReadResponse : Type 0 where
  pub content : Bytes

pub record MmapWriteRequest : Type 0 where
  pub mmap_id : ℕ
  pub offset : ℕ
  pub content : Bytes

pub record MmapWriteResponse : Type 0 where
  pub bytes_written : ℕ

pub record MmapNotifyMessage : Type 0 where
  pub mmap_id : ℕ
  pub offset : ℕ
  pub count : ℕ

pub record MmapUnregisterRequest : Type 0 where
  pub mmap_id : ℕ

pub record ErrorResponse : Type 0 where
  pub code : ℕ
  pub message : Bytes

pub data DecodeError : Type 0 where
  too_short : DecodeError

abbrev pub Coded : Type 0 → Type 0
Coded A = Outcome DecodeError A

-- A sum of 32-bit numbers.
abbrev pub u32 : ℕ → ℕ
u32 n = n % 2 ^ 32

-- `binary.LittleEndian.Uint32(s)` and Uint64, which read the first bytes.
unfoldable pub word_at : Bytes → ℕ → ℕ → Coded ℕ
unfolding slice le
word_at s lo hi = do word ← slice s lo hi; ok (le word)

-- EncodeMmapRegisterRequest
unfoldable pub encode_register_request : MmapRegisterRequest → Coded Bytes
encode_register_request req = do
  let n = u32 (length req.file_path)
  let buf = replicate (u32 (u32 (u32 (4 + n) + 8) + 4)) 0
  buf ← put_word 4 0 4 n buf
  buf ← copy_to 4 (u32 (4 + n)) req.file_path buf
  buf ← put_word 8 (u32 (4 + n)) (u32 (u32 (4 + n) + 8)) req.length_asked buf
  put_word 4 (u32 (u32 (4 + n) + 8)) (length buf) req.flags buf

-- DecodeMmapRegisterRequest
unfoldable pub decode_register_request : Bytes → Coded MmapRegisterRequest
decode_register_request s = if ltb (length s) 4 then err too_short else do
  n ← word_at s 0 4
  if ltb (length s) (u32 (u32 (u32 (4 + n) + 8) + 4)) then err too_short else do
    path ← slice s 4 (u32 (4 + n))
    asked ← word_at s (u32 (4 + n)) (u32 (u32 (4 + n) + 8))
    flags ← word_at s (u32 (u32 (4 + n) + 8)) (u32 (u32 (4 + n) + 8) + 4)
    ok (record { file_path = path; length_asked = asked; flags = flags })

-- EncodeMmapRegisterResponse
unfoldable pub encode_register_response : MmapRegisterResponse → Coded Bytes
encode_register_response resp = put_word 8 0 8 resp.mmap_id (replicate 8 0)

-- DecodeMmapRegisterResponse
unfoldable pub decode_register_response : Bytes → Coded MmapRegisterResponse
decode_register_response s =
    if ltb (length s) 8 then err too_short else do id ← word_at s 0 8; ok (record { mmap_id = id })

-- EncodeMmapBulkReadRequest
unfoldable pub encode_bulk_read_request : MmapBulkReadRequest → Coded Bytes
encode_bulk_read_request req = do
  buf ← put_word 8 0 8 req.mmap_id (replicate 24 0)
  buf ← put_word 8 8 16 req.offset buf
  put_word 8 16 24 req.count buf

-- DecodeMmapBulkReadRequest
unfoldable pub decode_bulk_read_request : Bytes → Coded MmapBulkReadRequest
decode_bulk_read_request s = if ltb (length s) 24 then err too_short else do
  id ← word_at s 0 8
  offset ← word_at s 8 16
  count ← word_at s 16 24
  ok (record { mmap_id = id; offset = offset; count = count })

-- EncodeMmapBulkReadResponse
unfoldable pub encode_bulk_read_response : MmapBulkReadResponse → Coded Bytes
encode_bulk_read_response resp = do
  let n = u32 (length resp.content)
  buf ← put_word 4 0 4 n (replicate (u32 (4 + n)) 0)
  copy_to 4 (length buf) resp.content buf

-- DecodeMmapBulkReadResponse
unfoldable pub decode_bulk_read_response : Bytes → Coded MmapBulkReadResponse
decode_bulk_read_response s = if ltb (length s) 4 then err too_short else do
  n ← word_at s 0 4
  if ltb (length s) (u32 (4 + n))
      then err too_short
      else do content ← slice s 4 (u32 (4 + n)); ok (record { content = content })

-- EncodeMmapWriteRequest
unfoldable pub encode_write_request : MmapWriteRequest → Coded Bytes
encode_write_request req = do
  let n = u32 (length req.content)
  buf ← put_word 8 0 8 req.mmap_id (replicate (u32 (20 + n)) 0)
  buf ← put_word 8 8 16 req.offset buf
  buf ← put_word 4 16 20 n buf
  copy_to 20 (length buf) req.content buf

-- DecodeMmapWriteRequest
unfoldable pub decode_write_request : Bytes → Coded MmapWriteRequest
decode_write_request s = if ltb (length s) 20 then err too_short else do
  n ← word_at s 16 20
  if ltb (length s) (u32 (20 + n)) then err too_short else do
    id ← word_at s 0 8
    offset ← word_at s 8 16
    content ← slice s 20 (u32 (20 + n))
    ok (record { mmap_id = id; offset = offset; content = content })

-- EncodeMmapWriteResponse
unfoldable pub encode_write_response : MmapWriteResponse → Coded Bytes
encode_write_response resp = put_word 8 0 8 resp.bytes_written (replicate 8 0)

-- DecodeMmapWriteResponse
unfoldable pub decode_write_response : Bytes → Coded MmapWriteResponse
decode_write_response s =
    if ltb (length s) 8
    then err too_short
    else do n ← word_at s 0 8; ok (record { bytes_written = n })

-- EncodeMmapNotifyMessage
unfoldable pub encode_notify_message : MmapNotifyMessage → Coded Bytes
encode_notify_message msg = do
  buf ← put_word 8 0 8 msg.mmap_id (replicate 24 0)
  buf ← put_word 8 8 16 msg.offset buf
  put_word 8 16 24 msg.count buf

-- DecodeMmapNotifyMessage
unfoldable pub decode_notify_message : Bytes → Coded MmapNotifyMessage
decode_notify_message s = if ltb (length s) 24 then err too_short else do
  id ← word_at s 0 8
  offset ← word_at s 8 16
  count ← word_at s 16 24
  ok (record { mmap_id = id; offset = offset; count = count })

-- EncodeMmapUnregisterRequest
unfoldable pub encode_unregister_request : MmapUnregisterRequest → Coded Bytes
encode_unregister_request req = put_word 8 0 8 req.mmap_id (replicate 8 0)

-- DecodeMmapUnregisterRequest
unfoldable pub decode_unregister_request : Bytes → Coded MmapUnregisterRequest
decode_unregister_request s =
    if ltb (length s) 8 then err too_short else do id ← word_at s 0 8; ok (record { mmap_id = id })

-- EncodeErrorResponse
unfoldable pub encode_error_response : ErrorResponse → Coded Bytes
encode_error_response resp = do
  let n = u32 (length resp.message)
  buf ← put_word 4 0 4 resp.code (replicate (u32 (8 + n)) 0)
  buf ← put_word 4 4 8 n buf
  copy_to 8 (length buf) resp.message buf

-- DecodeErrorResponse
unfoldable pub decode_error_response : Bytes → Coded ErrorResponse
decode_error_response s = if ltb (length s) 8 then err too_short else do
  n ← word_at s 4 8
  if ltb (length s) (u32 (8 + n)) then err too_short else do
    code ← word_at s 0 4
    message ← slice s 8 (u32 (8 + n))
    ok (record { code = code; message = message })
