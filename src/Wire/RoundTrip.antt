-- ===== src/Wire/RoundTrip.antt =====
-- That each decoder reads what the encoder of its message writes.
use homura.Buffers.{overwrite, put_word}
use homura.Bytes.{Bytes}
use homura.Outcome.{ok, ◌>>=◌}
use homura.Prelude.{ℕ, ◌-◌, ◌^◌, ◌≡◌, ◌<◌, refl, [], ◌++◌, length, replicate, false, arith, ltb}
use homura.Wire.Content
use homura.Wire.Codec.{
  Coded, DecodeError, word_at, MmapRegisterRequest, MmapRegisterResponse, MmapBulkReadRequest,
  MmapBulkReadResponse, MmapWriteRequest, MmapWriteResponse, MmapNotifyMessage,
  MmapUnregisterRequest, ErrorResponse, encode_register_request, decode_register_request,
  encode_register_response, decode_register_response, encode_bulk_read_request,
  decode_bulk_read_request, encode_bulk_read_response, decode_bulk_read_response,
  encode_write_request, decode_write_request, encode_write_response, decode_write_response,
  encode_notify_message, decode_notify_message, encode_unregister_request,
  decode_unregister_request, encode_error_response, decode_error_response,
}
use homura.Wire.Fields.{word_at-append}
use homura.Wire.Words.{put_le}

-- Messages of one and of three 64-bit words.
module _ (n : ℕ) (small : n < 2 ^ 64) where
  one_word : word_at (put_le 8 n) 0 8 ≡ ok n
  unfolding put_le
  one_word = word_at-append [] 0 8 8 n [] refl refl (omega arith)

module _ (a b c : ℕ) where
  pub three : Bytes
  three = put_le 8 a ++ (put_le 8 b ++ put_le 8 c)

  pub fill_three :
      (put_word {E = DecodeError} 8 0 8 a (replicate 24 0) >>= λ s.
      put_word 8 8 16 b s >>= λ s'. put_word 8 16 24 c s')
      ≡ ok three
  unfolding put_word put_le three overwrite
  fill_three = refl

  pub first_word : a < 2 ^ 64 → word_at three 0 8 ≡ ok a
  unfolding three put_le
  first_word h = word_at-append [] 0 8 8 a (put_le 8 b ++ put_le 8 c) refl refl (omega arith)

  pub second_word : b < 2 ^ 64 → word_at three 8 16 ≡ ok b
  unfolding three put_le
  second_word h = word_at-append (put_le 8 a) 8 16 8 b (put_le 8 c) refl refl (omega arith)

  pub third_word : c < 2 ^ 64 → word_at three 16 24 ≡ ok c
  unfolding three put_le
  third_word h = word_at-append (put_le 8 a ++ put_le 8 b) 16 24 8 c [] refl refl (omega arith)

  length-three : length three ≡ 24
  unfolding three put_le
  length-three = refl

-- A message body of one of the nine kinds.
pub data Body : Type 0 where
  register : MmapRegisterRequest → Body
  registered_as : MmapRegisterResponse → Body
  bulk_read : MmapBulkReadRequest → Body
  bulk_answer : MmapBulkReadResponse → Body
  write : MmapWriteRequest → Body
  write_answer : MmapWriteResponse → Body
  notify : MmapNotifyMessage → Body
  unregister : MmapUnregisterRequest → Body
  failure : ErrorResponse → Body

-- Numbers fit in their words, and the length of the whole message in 32 bits.
abbrev pub Fits : Body → Type 0
Fits (register r) =
    (length r.file_path < 2 ^ 32 - 16) × (r.length_asked < 2 ^ 64) × (r.flags < 2 ^ 32)
Fits (registered_as r) = r.mmap_id < 2 ^ 64
Fits (bulk_read r) = (r.mmap_id < 2 ^ 64) × (r.offset < 2 ^ 64) × (r.count < 2 ^ 64)
Fits (bulk_answer r) = length r.content < 2 ^ 32 - 4
Fits (write r) = (length r.content < 2 ^ 32 - 20) × (r.mmap_id < 2 ^ 64) × (r.offset < 2 ^ 64)
Fits (write_answer r) = r.bytes_written < 2 ^ 64
Fits (notify r) = (r.mmap_id < 2 ^ 64) × (r.offset < 2 ^ 64) × (r.count < 2 ^ 64)
Fits (unregister r) = r.mmap_id < 2 ^ 64
Fits (failure r) = (length r.message < 2 ^ 32 - 8) × (r.code < 2 ^ 32)

abbrev map_ok : {A B : Type 0} → (A → B) → Coded A → Coded B
map_ok f m = m >>= λ a. ok (f a)

-- The bytes of a body, read again as a body of that kind.
unfoldable pub reread : Body → Coded Body
reread (register r) = encode_register_request r >>= λ s. map_ok register (decode_register_request s)
reread (registered_as r) =
    encode_register_response r >>= λ s. map_ok registered_as (decode_register_response s)
reread (bulk_read r) =
    encode_bulk_read_request r >>= λ s. map_ok bulk_read (decode_bulk_read_request s)
reread (bulk_answer r) =
    encode_bulk_read_response r >>= λ s. map_ok bulk_answer (decode_bulk_read_response s)
reread (write r) = encode_write_request r >>= λ s. map_ok write (decode_write_request s)
reread (write_answer r) =
    encode_write_response r >>= λ s. map_ok write_answer (decode_write_response s)
reread (notify r) = encode_notify_message r >>= λ s. map_ok notify (decode_notify_message s)
reread (unregister r) =
    encode_unregister_request r >>= λ s. map_ok unregister (decode_unregister_request s)
reread (failure r) = encode_error_response r >>= λ s. map_ok failure (decode_error_response s)

fill_one : (n : ℕ) → put_word {E = DecodeError} 8 0 8 n (replicate 8 0) ≡ ok (put_le 8 n)
unfolding put_word put_le overwrite
fill_one n = refl

length-one : (n : ℕ) → ltb (length (put_le 8 n)) 8 ≡ false
unfolding put_le
length-one n = refl

pub three_long : (a b c : ℕ) → ltb (length (three a b c)) 24 ≡ false
unfolding three put_le
three_long a b c = refl

-- Each of the nine kinds of message of the mmap protocol, with numbers that fit the widths of
-- their fields and contents so short that the length of the buffer fits 32 bits, encodes without
-- a panic to a buffer that decodes to the same message.
pub reread_lem : (b : Body) → Fits b → reread b ≡ ok b
unfolding reread encode_register_response decode_register_response encode_bulk_read_request
    decode_bulk_read_request encode_write_response decode_write_response encode_notify_message
    decode_notify_message encode_unregister_request decode_unregister_request
reread_lem (register r) (hl, ha, hf) = rw (
  Content.encode_register r.file_path r.length_asked r.flags hl,
  Content.decode_register r.file_path r.length_asked r.flags hl ha hf,
)
reread_lem (registered_as r) h = rw (fill_one r.mmap_id, length-one r.mmap_id, one_word r.mmap_id h)
reread_lem (bulk_read r) (hi, ho, hc) = rw (
  fill_three r.mmap_id r.offset r.count,
  three_long r.mmap_id r.offset r.count,
  first_word r.mmap_id r.offset r.count hi,
  second_word r.mmap_id r.offset r.count ho,
  third_word r.mmap_id r.offset r.count hc,
)
reread_lem (bulk_answer r) h =
    rw (Content.encode_answer r.content h, Content.decode_answer r.content h)
reread_lem (write r) (hl, hi, ho) = rw (
  Content.encode_write r.mmap_id r.offset r.content hl,
  Content.decode_write r.mmap_id r.offset r.content hl hi ho,
)
reread_lem (write_answer r) h =
    rw (fill_one r.bytes_written, length-one r.bytes_written, one_word r.bytes_written h)
reread_lem (notify r) (hi, ho, hc) = rw (
  fill_three r.mmap_id r.offset r.count,
  three_long r.mmap_id r.offset r.count,
  first_word r.mmap_id r.offset r.count hi,
  second_word r.mmap_id r.offset r.count ho,
  third_word r.mmap_id r.offset r.count hc,
)
reread_lem (unregister r) h = rw (fill_one r.mmap_id, length-one r.mmap_id, one_word r.mmap_id h)
reread_lem (failure r) (hl, hc) =
    rw (Content.encode_failure r.code r.message hl, Content.decode_failure r.code r.message hl hc)
