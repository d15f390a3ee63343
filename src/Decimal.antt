-- ===== src/Decimal.antt =====
-- `fmt.Sprintf("%d", n)` for a number that is not negative, and its inverse.
use homura.Bytes.{Bytes}
use homura.Prelude.{
  ℕ, zero, suc, ◌+◌, ◌-◌, ◌*◌, ◌/◌, ◌%◌, ◌<◌, ◌≡◌, refl, [], ◌∷◌, ◌++◌, ltb, if◌then◌else◌, arith,
  Bool-cases, inl, inr, ap, ◌∙◌, sym,
}

-- The digits, the last in front of the rest of the work; the fuel is above the number.
unfoldable pub digits_from : ℕ → ℕ → Bytes
digits_from zero n = []
digits_from (suc fuel) n =
    let rest = digits_from fuel (n / 10) ++ (b'0' + n % 10) ∷ [] in
    if ltb n 10 then (b'0' + n) ∷ [] else rest

unfoldable pub decimal : ℕ → Bytes
unfolding digits_from
decimal n = digits_from (suc n) n

-- The number that digits spell, read from the left.
value_from : ℕ → Bytes → ℕ
value_from acc [] = acc
value_from acc (d ∷ ds) = value_from (10 * acc + (d - b'0')) ds

value_from-append :
    (acc : ℕ) (ds es : Bytes) → value_from acc (ds ++ es) ≡ value_from (value_from acc ds) es
unfolding value_from
value_from-append acc [] es = refl
value_from-append acc (d ∷ ds) es = value_from-append (10 * acc + (d - b'0')) ds es

value_from-digits_from : (fuel n : ℕ) → n < fuel → value_from 0 (digits_from fuel n) ≡ n
unfolding digits_from value_from
value_from-digits_from zero n h = absurd (omega arith)
value_from-digits_from (suc fuel) n h = elim (Bool-cases (ltb n 10)) [
  | inl small ↦ rw small (omega arith)
  | inr large ↦
      let smaller : n / 10 < fuel = ground arith in
      rw large (
        value_from-append 0 (digits_from fuel (n / 10)) ((b'0' + n % 10) ∷ [])
        ∙ omega (arith, value_from-digits_from fuel (n / 10) smaller))
]

-- Numbers that print alike are equal.
pub decimal-injective : (m n : ℕ) → decimal m ≡ decimal n → m ≡ n
unfolding decimal
decimal-injective m n e =
    sym (value_from-digits_from (suc m) m (omega arith))
    ∙ ap (value_from 0) e
    ∙ value_from-digits_from (suc n) n (omega arith)
