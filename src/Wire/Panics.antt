-- ===== src/Wire/Panics.antt =====
-- When the decoder of a write request panics on the bytes of a message.
use homura.Buffers.{slice}
use homura.Bytes.{Bytes}
use homura.Outcome.{ok, err, panic}
use homura.Prelude.{
  ℕ, ◌+◌, ◌-◌, ◌^◌, ◌≡◌, ◌≤◌, ◌<◌, ◌↔◌, ◌⊎◌, inl, inr, false, length, take, drop, ltb, ge→ltb,
  lt→ltb, dec_lt, arith,
}
use homura.Wire.Codec.{DecodeError, too_short, u32, word_at, MmapWriteRequest, decode_write_request}
use homura.Wire.Words.{le}

module _ (s : Bytes) where
  slice-inside :
      (lo hi : ℕ)
      → lo ≤ hi
      → hi ≤ length s
      → slice {E = DecodeError} s lo hi ≡ ok (take (hi - lo) (drop lo s))
  unfolding slice
  slice-inside lo hi h h' = ground arith

  slice-backwards : (lo hi : ℕ) → hi < lo → slice {E = DecodeError} s lo hi ≡ panic
  unfolding slice
  slice-backwards lo hi h = ground arith

  word_at-inside :
      (lo hi : ℕ) → lo ≤ hi → hi ≤ length s → word_at s lo hi ≡ ok (le (take (hi - lo) (drop lo s)))
  unfolding word_at
  word_at-inside lo hi h h' = rw (slice-inside lo hi h h', word_at)

  module _ (n : ℕ) (header : 20 ≤ length s) (small : length s < 2 ^ 32)
      (said : word_at s 16 20 ≡ ok n) where
    wrapped : n < 2 ^ 32 → 2 ^ 32 ≤ 20 + n → decode_write_request s ≡ panic
    unfolding decode_write_request
    wrapped hn h =
        let long = ge→ltb (length s) 20 header in
        let fits : ltb (length s) (u32 (20 + n)) ≡ false =
          ge→ltb (length s) (u32 (20 + n)) (omega arith) in
        rw (
          long,
          said,
          fits,
          word_at-inside 0 8 (omega arith) (omega arith),
          word_at-inside 8 16 (omega arith) (omega arith),
          slice-backwards 20 (u32 (20 + n)) (omega arith),
        )

    not_wrapped :
        20 + n < 2 ^ 32
        → (decode_write_request s ≡ err too_short)
          ⊎ ((r : MmapWriteRequest) × (decode_write_request s ≡ ok r))
    unfolding decode_write_request
    not_wrapped h =
        let long = ge→ltb (length s) 20 header in
        let whole : u32 (20 + n) ≡ 20 + n = omega arith in
        elim (dec_lt (length s) (20 + n)) [
          | yes short ↦ inl (rw (long, said, whole, lt→ltb (length s) (20 + n) short))
          | no enough ↦ inr (
            record {
              mmap_id = le (take (8 - 0) (drop 0 s));
              offset = le (take (16 - 8) (drop 8 s));
              content = take (20 + n - 20) (drop 20 s);
            },
            rw (
              long,
              said,
              whole,
              ge→ltb (length s) (20 + n) (omega arith),
              word_at-inside 0 8 (omega arith) (omega arith),
              word_at-inside 8 16 (omega arith) (omega arith),
              slice-inside 20 (20 + n) (omega arith) (omega arith),
            ),
          )
        ]

    -- On data of at least 20 and fewer than 2^32 bytes, of which bytes 16 to 20 are read as a
    -- 32-bit length n, DecodeMmapWriteRequest panics just where 20 + n is 2^32 or more.
    pub decode_write_request-panic :
        n < 2 ^ 32 → (decode_write_request s ≡ panic) ↔ (2 ^ 32 ≤ 20 + n)
    decode_write_request-panic hn = elim (dec_lt (20 + n) (2 ^ 32)) [
      | no wraps ↦ ((λ h. omega arith), (λ h. wrapped hn h))
      | yes fits ↦ elim (not_wrapped fits) [
        | inl short ↦ ((λ h. absurd (cc)), (λ h. absurd (omega arith)))
        | inr (r, read) ↦ ((λ h. absurd (cc)), (λ h. absurd (omega arith)))
      ]
    ]
