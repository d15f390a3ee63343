-- ===== src/Buffers.antt =====
-- Go byte slices that are written in place: slice expressions, copy, and the little-endian Put
-- functions, which panic out of bounds. A slice's capacity is its length, as after make.
use homura.Bytes.{Bytes}
use homura.Outcome.{Outcome, ok, panic}
use homura.Prelude.{
  ℕ, zero, suc, ◌+◌, ◌-◌, ◌≡◌, ◌≤◌, refl, ap, ◌||◌, [], ◌∷◌, ltb, length, take, drop, arith,
  if◌then◌else◌,
}
use homura.Wire.Words.{put_le}

-- `copy(xs[offset:], content)`
unfoldable pub overwrite : ℕ → Bytes → Bytes → Bytes
overwrite offset [] content = []
overwrite zero (x ∷ xs) [] = x ∷ xs
overwrite zero (x ∷ xs) (c ∷ content) = c ∷ overwrite zero xs content
overwrite (suc offset) (x ∷ xs) content = x ∷ overwrite offset xs content

-- `xs[lo:hi]`
unfoldable pub slice : {E : Type 0} → Bytes → ℕ → ℕ → Outcome E Bytes
slice xs lo hi = if ltb hi lo || ltb (length xs) hi then panic else ok (take (hi - lo) (drop lo xs))

-- `copy(xs[lo:hi], content)`
unfoldable pub copy_to : {E : Type 0} → ℕ → ℕ → Bytes → Bytes → Outcome E Bytes
unfolding overwrite
copy_to lo hi content xs =
    if ltb hi lo || ltb (length xs) hi then panic else ok (overwrite lo xs (take (hi - lo) content))

-- `binary.LittleEndian.PutUint32(xs[lo:hi], v)` at k = 4, and PutUint64 at k = 8
unfoldable pub put_word : {E : Type 0} → ℕ → ℕ → ℕ → ℕ → Bytes → Outcome E Bytes
unfolding overwrite put_le
put_word k lo hi v xs =
    if ltb hi lo || ltb (length xs) hi || ltb (hi - lo) k
    then panic
    else ok (overwrite lo xs (put_le k v))

pub length-overwrite :
    (offset : ℕ) (xs content : Bytes) → length (overwrite offset xs content) ≡ length xs
unfolding overwrite
length-overwrite offset [] content = refl
length-overwrite zero (x ∷ xs) [] = refl
length-overwrite zero (x ∷ xs) (c ∷ content) = ap suc (length-overwrite zero xs content)
length-overwrite (suc offset) (x ∷ xs) content = ap suc (length-overwrite offset xs content)

pub take-overwrite :
    (offset : ℕ) (xs content : Bytes)
    → offset + length content ≤ length xs
    → take (length content) (drop offset (overwrite offset xs content)) ≡ content
unfolding overwrite
take-overwrite zero [] [] h = refl
take-overwrite zero [] (c ∷ content) h = absurd (omega arith)
take-overwrite (suc offset) [] content h = absurd (omega arith)
take-overwrite zero (x ∷ xs) [] h = refl
take-overwrite zero (x ∷ xs) (c ∷ content) h =
    ap (◌∷◌ c) (take-overwrite zero xs content (omega arith))
take-overwrite (suc offset) (x ∷ xs) content h = take-overwrite offset xs content (omega arith)
