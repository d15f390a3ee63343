-- ===== src/Wire/Frame.antt =====
-- That ReadMessage reads what WriteMessage writes, up to the largest message.
use homura.Bytes.{Bytes}
use homura.Prelude.{
  ℕ, suc, ◌+◌, ◌-◌, ◌%◌, ◌^◌, ◌≡◌, ◌≤◌, ◌<◌, refl, [], ◌∷◌, ◌++◌, some, ltb, lt→ltb, ge→ltb, length,
  arith, if◌then◌else◌, subst,
}
use homura.Wire.Words.{put_le, length-put_le, le-put_le}
use homura.Wire.{ok, err, too_large, max_length, read_full, read_body, read_message, write_message}

read_full-append : (xs rest : Bytes) → read_full (length xs) (xs ++ rest) ≡ some (xs, rest)
unfolding read_full
read_full-append [] rest = refl
read_full-append (x ∷ xs) rest = rw (read_full-append xs rest)

-- A word that has been written, as many bytes as it has.
read_full-put_le :
    (k n : ℕ) (rest : Bytes) → read_full k (put_le k n ++ rest) ≡ some (put_le k n, rest)
read_full-put_le k n rest =
    subst (λ j. read_full j (put_le k n ++ rest) ≡ some (put_le k n, rest)) (length-put_le k n)
      (read_full-append (put_le k n) rest)

read_body-append :
    (type : ℕ) (content rest : Bytes)
    → type < 2 ^ 8
    → length content < 2 ^ 24
    → read_body (suc (length content)) (put_le 1 type ++ (content ++ rest))
      ≡ ok (record { type = type; content = content }) rest
unfolding read_body
read_body-append type content rest ht hc =
    let count : (suc (length content) + (2 ^ 32 - 1)) % 2 ^ 32 ≡ length content = omega arith in
    rw (
      read_body,
      read_full-put_le 1 type (content ++ rest),
      count,
      read_full-append content rest,
      le-put_le 1 type (omega arith),
    )

read_message-put_le :
    (n : ℕ) (s : Bytes)
    → n < 2 ^ 32
    → read_message (put_le 4 n ++ s) ≡ (if ltb max_length n then err too_large s else read_body n s)
unfolding read_message
read_message-put_le n s h = rw (read_message, read_full-put_le 4 n s, le-put_le 4 n h)

-- What is read of a written message, by its length.
read_message-length :
    (type : ℕ) (content rest : Bytes)
    → length content < 2 ^ 32 - 1
    → read_message (write_message type content ++ rest) ≡ (
        if ltb max_length (suc (length content))
        then err too_large (put_le 1 type ++ (content ++ rest))
        else read_body (suc (length content)) (put_le 1 type ++ (content ++ rest)))
unfolding write_message
read_message-length type content rest h =
    let whole : (1 + length content) % 2 ^ 32 ≡ suc (length content) = omega arith in
    let after = put_le 1 type ++ (content ++ rest) in
    subst
      (λ n.
        read_message (put_le 4 ((1 + length content) % 2 ^ 32) ++ after)
        ≡ (if ltb max_length n then err too_large after else read_body n after))
      whole (read_message-put_le ((1 + length content) % 2 ^ 32) after (omega arith))

-- ReadMessage on a stream that starts with what WriteMessage writes for a type byte and less
-- than 16 MB of data returns the type and the data, and leaves the rest of the stream.
pub read_message-write_message :
    (type : ℕ) (content rest : Bytes)
    → type < 2 ^ 8
    → length content < 2 ^ 24
    → read_message (write_message type content ++ rest)
      ≡ ok (record { type = type; content = content }) rest
read_message-write_message type content rest ht hc =
    let fits = ge→ltb max_length (suc (length content)) (omega arith) in
    rw (read_message-length type content rest (omega arith), fits)
      (read_body-append type content rest ht hc)

-- A message with 16 MB of data or more, and less than 2^32 - 1 bytes, which WriteMessage writes,
-- is refused by ReadMessage as too large, and its type and data are left in the stream with what
-- follows.
pub read_message-too_large :
    (type : ℕ) (content rest : Bytes)
    → 2 ^ 24 ≤ length content
    → length content < 2 ^ 32 - 1
    → read_message (write_message type content ++ rest)
      ≡ err too_large (put_le 1 type ++ (content ++ rest))
read_message-too_large type content rest lo hi =
    let large = lt→ltb max_length (suc (length content)) (omega arith) in
    rw (read_message-length type content rest hi, large)
