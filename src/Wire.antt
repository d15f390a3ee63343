-- ===== src/Wire.antt =====
-- The messages of 9passthrough/protocol.go: ReadMessage and WriteMessage on a stream of bytes. What a
-- read fails on is a stream that ends; a writer that fails is left out.
pub mod Words
pub mod Frame
pub mod Codec
mod Fields
pub mod Content
pub mod RoundTrip
pub mod Panics
mod Tests
use homura.Bytes.{Bytes}
use homura.Prelude.{
  ℕ, zero, suc, ◌+◌, ◌*◌, ◌-◌, ◌%◌, ◌^◌, [], ◌∷◌, ◌++◌, Option, none, some, ltb, length,
  if◌then◌else◌,
}
use homura.Wire.Words.{put_le, le}

pub record Message : Type 0 where
  pub type : ℕ
  pub content : Bytes

pub data ReadError : Type 0 where
  no_length too_large no_type no_content : ReadError

-- A message, or an error, and the rest of the stream; nothing is left of one that ends too early.
pub data ReadResult : Type 0 where
  ok : Message → Bytes → ReadResult
  err : ReadError → Bytes → ReadResult

-- 16 MB
abbrev pub max_length : ℕ
max_length = 16 * 1024 * 1024

-- io.ReadFull: so many bytes, and the rest.
unfoldable pub read_full : ℕ → Bytes → Option (Bytes × Bytes)
read_full zero s = some ([], s)
read_full (suc n) [] = none
read_full (suc n) (b ∷ s) = elim (read_full n s) [
  | none ↦ none
  | some (content, rest) ↦ some (b ∷ content, rest)
]

-- ReadMessage from the type on, after the length.
unfoldable pub read_body : ℕ → Bytes → ReadResult
unfolding read_full le
read_body count s = elim (read_full 1 s) [
  | none ↦ err no_type []
  | some (type, s1) ↦ elim (read_full ((count + (2 ^ 32 - 1)) % 2 ^ 32) s1) [
    | none ↦ err no_content []
    | some (content, rest) ↦ ok (record { type = le type; content = content }) rest
  ]
]

-- ReadMessage
unfoldable pub read_message : Bytes → ReadResult
unfolding read_body
read_message s = elim (read_full 4 s) [
  | none ↦ err no_length []
  | some (word, s1) ↦ if ltb max_length (le word) then err too_large s1 else read_body (le word) s1
]

-- The bytes that WriteMessage writes.
unfoldable pub write_message : ℕ → Bytes → Bytes
unfolding put_le
write_message type content = put_le 4 ((1 + length content) % 2 ^ 32) ++ (put_le 1 type ++ content)
