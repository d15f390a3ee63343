-- ===== src/Wire/Words.antt =====
-- encoding/binary's little-endian words: `put_le k` writes the low k bytes of a number, as PutUint32
-- and PutUint64 do at 4 and 8, and `le` reads bytes back.
use native.Mathlib.Nat.{pow-suc}
use homura.Bytes.{Bytes}
use homura.Prelude.{
  ℕ, zero, suc, ◌+◌, ◌*◌, ◌/◌, ◌%◌, ◌^◌, ◌<◌, ◌≡◌, refl, ap, [], ◌∷◌, length, arith,
}

unfoldable pub put_le : ℕ → ℕ → Bytes
put_le zero n = []
put_le (suc k) n = (n % 256) ∷ put_le k (n / 256)

unfoldable pub le : Bytes → ℕ
le [] = 0
le (b ∷ bs) = b + 256 * le bs

pub length-put_le : (k n : ℕ) → length (put_le k n) ≡ k
unfolding put_le
length-put_le zero n = refl
length-put_le (suc k) n = ap suc (length-put_le k (n / 256))

-- A number that fits in the bytes is read back.
pub le-put_le : (k n : ℕ) → n < 256 ^ k → le (put_le k n) ≡ n
unfolding put_le le
le-put_le zero n h = omega arith
le-put_le (suc k) n h =
    let smaller : n / 256 < 256 ^ k = omega (arith, pow-suc 256 k) in
    omega (arith, le-put_le k (n / 256) smaller)
