-- ===== src/Wire/Content.antt =====
-- The messages with a text or bytes of any length: what the encoder writes, and that the decoder
-- reads it.
use homura.Bytes.{Bytes}
use homura.Outcome.{ok}
use homura.Prelude.{
  ℕ, ◌+◌, ◌-◌, ◌^◌, ◌≡◌, ◌<◌, refl, [], ◌++◌, length, replicate, length-append, append-nil, false,
  arith, ltb, ge→ltb,
}
use homura.Wire.Codec.{
  DecodeError, u32, encode_register_request, decode_register_request, encode_bulk_read_response,
  decode_bulk_read_response, encode_write_request, decode_write_request, encode_error_response,
  decode_error_response,
}
use homura.Wire.Fields.{
  put_word-fill_behind, word_at-append_behind, length-zeros, put_word-fill, copy_to-fill,
  slice-append, slice-end, word_at-append,
}
use homura.Wire.Words.{put_le}

module _ (id offset : ℕ) (c : Bytes) (small : length c < 2 ^ 32 - 20) where
  pub written : Bytes
  written = put_le 8 id ++ (put_le 8 offset ++ (put_le 4 (length c) ++ c))

  pub encode_write :
      encode_write_request (record { mmap_id = id; offset = offset; content = c }) ≡ ok written
  unfolding encode_write_request written put_le
  encode_write =
      let whole : u32 (length c) ≡ length c = omega arith in
      let size : u32 (20 + length c) ≡ 8 + (8 + (4 + (length c + 0))) = omega arith in
      let head = put_le 8 id ++ (put_le 8 offset ++ put_le 4 (length c)) in
      let end : length (head ++ replicate (length c + 0) 0) ≡ 20 + length c =
        omega (arith, length-zeros (length c + 0)) in
      rw (
        whole,
        size,
        put_word-fill {E = DecodeError} [] 0 8 refl 8 id (8 + (4 + (length c + 0))) refl,
        put_word-fill {E = DecodeError} (put_le 8 id) 8 16 refl 8 offset (4 + (length c + 0)) refl,
        put_word-fill {E = DecodeError} (put_le 8 id ++ put_le 8 offset) 16 20 refl 4 (length c)
            (length c + 0) refl,
        copy_to-fill {E = DecodeError} head 20 (length (head ++ replicate (length c + 0) 0)) refl c
            0 end,
        append-nil,
      )

  pub decode_write :
      id < 2 ^ 64
      → offset < 2 ^ 64
      → decode_write_request written ≡ ok (record { mmap_id = id; offset = offset; content = c })
  unfolding decode_write_request written put_le
  decode_write hi ho =
      let size : u32 (20 + length c) ≡ 20 + length c = omega arith in
      let long : ltb (length written) 20 ≡ false = ge→ltb (length written) 20 (omega arith) in
      let fits : ltb (length written) (20 + length c) ≡ false =
        ge→ltb (length written) (20 + length c) (omega arith) in
      rw (
        long,
        word_at-append (put_le 8 id ++ put_le 8 offset) 16 20 4 (length c) c refl refl
            (omega arith),
        size,
        fits,
        word_at-append [] 0 8 8 id (put_le 8 offset ++ (put_le 4 (length c) ++ c)) refl refl
            (omega arith),
        word_at-append (put_le 8 id) 8 16 8 offset (put_le 4 (length c) ++ c) refl refl
            (omega arith),
        slice-end {E = DecodeError} (put_le 8 id ++ (put_le 8 offset ++ put_le 4 (length c))) 20
            (20 + length c) refl c refl,
      )

module _ (c : Bytes) (small : length c < 2 ^ 32 - 4) where
  pub answered : Bytes
  answered = put_le 4 (length c) ++ c

  pub length-answered : length answered ≡ 4 + length c
  unfolding answered put_le
  length-answered = omega arith

  pub encode_answer : encode_bulk_read_response (record { content = c }) ≡ ok answered
  unfolding encode_bulk_read_response answered put_le
  encode_answer =
      let whole : u32 (length c) ≡ length c = omega arith in
      let size : u32 (4 + length c) ≡ 4 + (length c + 0) = omega arith in
      let head = put_le 4 (length c) in
      let end : length (head ++ replicate (length c + 0) 0) ≡ 4 + length c =
        omega (arith, length-zeros (length c + 0)) in
      rw (
        whole,
        size,
        put_word-fill {E = DecodeError} [] 0 4 refl 4 (length c) (length c + 0) refl,
        copy_to-fill {E = DecodeError} head 4 (length (head ++ replicate (length c + 0) 0)) refl c 0
            end,
        append-nil,
      )

  pub decode_answer : decode_bulk_read_response answered ≡ ok (record { content = c })
  unfolding decode_bulk_read_response answered put_le
  decode_answer =
      let size : u32 (4 + length c) ≡ 4 + length c = omega arith in
      let long : ltb (length answered) 4 ≡ false = ge→ltb (length answered) 4 (omega arith) in
      let fits : ltb (length answered) (4 + length c) ≡ false =
        ge→ltb (length answered) (4 + length c) (omega arith) in
      rw (
        long,
        word_at-append [] 0 4 4 (length c) c refl refl (omega arith),
        size,
        fits,
        slice-end {E = DecodeError} (put_le 4 (length c)) 4 (4 + length c) refl c refl,
      )

module _ (code : ℕ) (c : Bytes) (small : length c < 2 ^ 32 - 8) where
  pub failed : Bytes
  failed = put_le 4 code ++ (put_le 4 (length c) ++ c)

  pub encode_failure : encode_error_response (record { code = code; message = c }) ≡ ok failed
  unfolding encode_error_response failed put_le
  encode_failure =
      let whole : u32 (length c) ≡ length c = omega arith in
      let size : u32 (8 + length c) ≡ 4 + (4 + (length c + 0)) = omega arith in
      let head = put_le 4 code ++ put_le 4 (length c) in
      let end : length (head ++ replicate (length c + 0) 0) ≡ 8 + length c =
        omega (arith, length-zeros (length c + 0)) in
      rw (
        whole,
        size,
        put_word-fill {E = DecodeError} [] 0 4 refl 4 code (4 + (length c + 0)) refl,
        put_word-fill {E = DecodeError} (put_le 4 code) 4 8 refl 4 (length c) (length c + 0) refl,
        copy_to-fill {E = DecodeError} head 8 (length (head ++ replicate (length c + 0) 0)) refl c 0
            end,
        append-nil,
      )

  pub decode_failure :
      code < 2 ^ 32 → decode_error_response failed ≡ ok (record { code = code; message = c })
  unfolding decode_error_response failed put_le
  decode_failure hc =
      let size : u32 (8 + length c) ≡ 8 + length c = omega arith in
      let long : ltb (length failed) 8 ≡ false = ge→ltb (length failed) 8 (omega arith) in
      let fits : ltb (length failed) (8 + length c) ≡ false =
        ge→ltb (length failed) (8 + length c) (omega arith) in
      rw (
        long,
        word_at-append (put_le 4 code) 4 8 4 (length c) c refl refl (omega arith),
        size,
        fits,
        word_at-append [] 0 4 4 code (put_le 4 (length c) ++ c) refl refl (omega arith),
        slice-end {E = DecodeError} (put_le 4 code ++ put_le 4 (length c)) 8 (8 + length c) refl c
            refl,
      )

module _ (path : Bytes) (asked flags : ℕ) (small : length path < 2 ^ 32 - 16) where
  pub registered : Bytes
  registered = put_le 4 (length path) ++ (path ++ (put_le 8 asked ++ put_le 4 flags))

  pub encode_register :
      encode_register_request (record { file_path = path; length_asked = asked; flags = flags })
      ≡ ok registered
  unfolding encode_register_request registered put_le
  encode_register =
      let whole : u32 (length path) ≡ length path = omega arith in
      let path_end : u32 (4 + length path) ≡ 4 + length path = omega arith in
      let asked_end : u32 (4 + length path + 8) ≡ 4 + length path + 8 = omega arith in
      let size : u32 (4 + length path + 8 + 4) ≡ 4 + (length path + (8 + (4 + 0))) = omega arith in
      let prefix = put_le 4 (length path) in
      let filled = prefix ++ (path ++ (put_le 8 asked ++ replicate (4 + 0) 0)) in
      let end : length filled ≡ 4 + length path + 8 + 4 =
        omega (arith, length-append path (put_le 8 asked ++ replicate (4 + 0) 0)) in
      rw (
        whole,
        path_end,
        asked_end,
        size,
        put_word-fill {E = DecodeError} [] 0 4 refl 4 (length path) (length path + (8 + (4 + 0)))
            refl,
        copy_to-fill {E = DecodeError} prefix 4 (4 + length path) refl path (8 + (4 + 0)) refl,
        put_word-fill_behind prefix path (4 + length path) (4 + length path + 8) refl
            {E = DecodeError} 8 asked (4 + 0) refl,
        put_word-fill_behind (prefix ++ path) (put_le 8 asked) (4 + length path + 8) (length filled)
            (omega arith) {E = DecodeError} 4 flags 0 end,
      )

  pub decode_register :
      asked < 2 ^ 64
      → flags < 2 ^ 32
      → decode_register_request registered
        ≡ ok (record { file_path = path; length_asked = asked; flags = flags })
  unfolding decode_register_request registered put_le
  decode_register ha hf =
      let prefix = put_le 4 (length path) in
      let path_end : u32 (4 + length path) ≡ 4 + length path = omega arith in
      let asked_end : u32 (4 + length path + 8) ≡ 4 + length path + 8 = omega arith in
      let size : u32 (4 + length path + 8 + 4) ≡ 4 + length path + 8 + 4 = omega arith in
      let whole : length registered ≡ 4 + length path + 8 + 4 =
        omega (arith, length-append path (put_le 8 asked ++ put_le 4 flags)) in
      let long : ltb (length registered) 4 ≡ false = ge→ltb (length registered) 4 (omega arith) in
      let fits : ltb (length registered) (4 + length path + 8 + 4) ≡ false =
        ge→ltb (length registered) (4 + length path + 8 + 4) (omega arith) in
      rw (
        long,
        word_at-append [] 0 4 4 (length path) (path ++ (put_le 8 asked ++ put_le 4 flags)) refl refl
            (omega arith),
        path_end,
        asked_end,
        size,
        fits,
        slice-append {E = DecodeError} prefix 4 (4 + length path) refl path
            (put_le 8 asked ++ put_le 4 flags) refl,
        word_at-append_behind prefix path (4 + length path) (4 + length path + 8) refl 8 asked
            (put_le 4 flags) refl (omega arith),
        word_at-append_behind (prefix ++ path) (put_le 8 asked) (4 + length path + 8)
            (4 + length path + 8 + 4) (omega arith) 4 flags [] refl (omega arith),
      )
