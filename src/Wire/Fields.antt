-- ===== src/Wire/Fields.antt =====
-- The fields of an encoded message: a buffer of zeros is filled from the left, and a field is read at
-- the place where it has been written.
use homura.Buffers.{overwrite, slice, copy_to, put_word}
use homura.Bytes.{Bytes}
use homura.Outcome.{ok}
use homura.Prelude.{
  ℕ, zero, suc, ◌+◌, ◌-◌, ◌^◌, ◌≡◌, ◌≤◌, ◌<◌, refl, ap, subst, ◌||◌, false, [], ◌∷◌, ◌++◌, length,
  take, drop, replicate, length-append, take-length-append, drop-length-append, take-length,
  append_assoc, append-nil, arith, ltb,
}
use homura.Wire.Codec.{DecodeError, word_at}
use homura.Wire.Words.{put_le, length-put_le, le-put_le}

pub length-zeros : (n : ℕ) → length (replicate n (zero)) ≡ n
length-zeros zero = refl
length-zeros (suc n) = ap suc (length-zeros n)

overwrite_none : (xs : Bytes) → overwrite 0 xs [] ≡ xs
unfolding overwrite
overwrite_none [] = refl
overwrite_none (x ∷ xs) = refl

overwrite-fill :
    (a c : Bytes) (n : ℕ)
    → overwrite (length a) (a ++ replicate (length c + n) 0) c ≡ a ++ (c ++ replicate n 0)
unfolding overwrite
overwrite-fill [] [] n = let e : 0 + n ≡ n = omega arith in rw e (overwrite_none (replicate n 0))
overwrite-fill [] (x ∷ c) n =
    let e : suc (length c) + n ≡ suc (length c + n) = omega arith in
    rw e (ap (◌∷◌ x) (overwrite-fill [] c n))
overwrite-fill (x ∷ a) c n = ap (◌∷◌ x) (overwrite-fill a c n)

-- The tests of a slice that lies inside.
in_bounds : (lo hi size : ℕ) → lo ≤ hi → hi ≤ size → (ltb hi lo || ltb size hi) ≡ false
in_bounds lo hi size h h' = ground arith

take_part :
    (a c rest : Bytes)
    → take (length a + length c - length a) (drop (length a) (a ++ (c ++ rest))) ≡ c
take_part a c rest =
    let e : length a + length c - length a ≡ length c = omega arith in
    rw (e, drop-length-append a (c ++ rest)) (take-length-append c rest)

module _ {E : Type 0} (a c : Bytes) where
  slice_part :
      (rest : Bytes) → slice {E = E} (a ++ (c ++ rest)) (length a) (length a + length c) ≡ ok c
  unfolding slice
  slice_part rest = rw (
    in_bounds (length a) (length a + length c) (length (a ++ (c ++ rest))) (omega arith)
        (omega (arith, length-append a (c ++ rest), length-append c rest)),
    take_part a c rest,
  )

  copy_part :
      (n : ℕ)
      → copy_to {E = E} (length a) (length a + length c) c (a ++ replicate (length c + n) 0)
        ≡ ok (a ++ (c ++ replicate n 0))
  unfolding copy_to
  copy_part n =
      let e : length a + length c - length a ≡ length c = omega arith in
      rw (
        in_bounds (length a) (length a + length c) (length (a ++ replicate (length c + n) 0))
            (omega arith)
            (omega
              (arith, length-append a (replicate (length c + n) 0), length-zeros (length c + n))),
        e,
        take-length c,
        overwrite-fill a c n,
      )

module _ {E : Type 0} (a : Bytes) where
  put_part :
      (k v n : ℕ)
      → put_word {E = E} k (length a) (length a + k) v (a ++ replicate (k + n) 0)
        ≡ ok (a ++ (put_le k v ++ replicate n 0))
  unfolding put_word
  put_part k v n =
      let size = length-put_le k v in
      let enough : ltb (length a + k - length a) k ≡ false = ground arith in
      let filled = overwrite-fill a (put_le k v) n in
      rw
        (
          in_bounds (length a) (length a + k) (length (a ++ replicate (k + n) 0)) (omega arith)
              (omega (arith, length-append a (replicate (k + n) 0), length-zeros (k + n))),
          enough,
        )
        (ap ok (rw size at filled))

-- A field of a message, at its bounds.
module _ {E : Type 0} (a : Bytes) (lo hi : ℕ) (start : lo ≡ length a) where
  pub put_word-fill :
      (k v n : ℕ)
      → hi ≡ lo + k
      → put_word {E = E} k lo hi v (a ++ replicate (k + n) 0)
        ≡ ok (a ++ (put_le k v ++ replicate n 0))
  put_word-fill k v n stop = rw (stop, start) (put_part a k v n)

  pub copy_to-fill :
      (c : Bytes) (n : ℕ)
      → hi ≡ lo + length c
      → copy_to {E = E} lo hi c (a ++ replicate (length c + n) 0) ≡ ok (a ++ (c ++ replicate n 0))
  copy_to-fill c n stop = rw (stop, start) (copy_part a c n)

  pub slice-append :
      (c rest : Bytes) → hi ≡ lo + length c → slice {E = E} (a ++ (c ++ rest)) lo hi ≡ ok c
  slice-append c rest stop = rw (stop, start) (slice_part a c rest)

  -- The last field.
  pub slice-end : (c : Bytes) → hi ≡ lo + length c → slice {E = E} (a ++ c) lo hi ≡ ok c
  slice-end c stop =
      subst (λ t. slice {E = E} (a ++ t) lo hi ≡ ok c) (append-nil c) (slice-append c [] stop)

pub word_at-append :
    (a : Bytes) (lo hi k v : ℕ) (rest : Bytes)
    → lo ≡ length a
    → hi ≡ lo + k
    → v < 256 ^ k
    → word_at (a ++ (put_le k v ++ rest)) lo hi ≡ ok v
unfolding word_at
word_at-append a lo hi k v rest start stop small =
    let size = length-put_le k v in
    rw (
      slice-append {E = DecodeError} a lo hi start (put_le k v) rest (omega arith),
      word_at,
      le-put_le k v small,
    )

-- The same behind two parts.
module _ (a b : Bytes) (lo hi : ℕ) (start : lo ≡ length a + length b) where
  behind : lo ≡ length (a ++ b)
  behind = omega (arith, length-append a b)

  pub put_word-fill_behind :
      {E : Type 0} (k v n : ℕ)
      → hi ≡ lo + k
      → put_word {E = E} k lo hi v (a ++ (b ++ replicate (k + n) 0))
        ≡ ok (a ++ (b ++ (put_le k v ++ replicate n 0)))
  put_word-fill_behind {E} k v n stop =
      let one = put_word-fill {E = E} (a ++ b) lo hi behind k v n stop in
      rw (append_assoc a b (replicate (k + n) 0), append_assoc a b (put_le k v ++ replicate n 0)) at
        one

  pub word_at-append_behind :
      (k v : ℕ) (rest : Bytes)
      → hi ≡ lo + k
      → v < 256 ^ k
      → word_at (a ++ (b ++ (put_le k v ++ rest))) lo hi ≡ ok v
  word_at-append_behind k v rest stop small =
      let one = word_at-append (a ++ b) lo hi k v rest behind stop small in
      rw (append_assoc a b (put_le k v ++ rest)) at one
