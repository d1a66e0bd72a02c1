-- ===== src/Common/Bytes/Decimal.antt =====
-- What `std::to_string` prints of an unsigned number.
use webrtc_snippets.Common.{
  ℕ, zero, suc, ◌+◌, ◌*◌, ◌/◌, ◌%◌, ◌≤◌, ◌<◌, ◌≡◌, inl, inr, refl, sym, ap, ◌∙◌, arith, true, [],
  ◌∷◌, ◌++◌, length, ltb, All, Bool-cases, ltb→lt, lt→ltb,
}
use webrtc_snippets.Common.Bytes.{Bytes}
use webrtc_snippets.Common.Bytes.Digits.{is_digit, read_digits, decimal_digits, to_decimal}

abbrev pub AreDigits : Bytes → Type 0
AreDigits = All (λ c. is_digit c ≡ true)

read_digits-digit :
    (acc count d : ℕ) (after : Bytes)
    → d < 10
    → read_digits acc count ((b'0' + d) ∷ after) ≡ read_digits (acc * 10 + d) (count + 1) after
unfolding read_digits
read_digits-digit acc count d after p = ground (arith, d)

same_place : {v w c d : ℕ} (s : Bytes) → v ≡ w → c ≡ d → read_digits v c s ≡ read_digits w d s
same_place s e f = rw (e, f) refl

read_digits-decimal_digits :
    (fuel n count : ℕ) (after : Bytes)
    → n < fuel
    → (k : ℕ) × (read_digits 0 count (decimal_digits fuel n after)
        ≡ read_digits n (count + 1 + k) after)
unfolding decimal_digits
read_digits-decimal_digits zero n count after p = absurd (omega arith)
read_digits-decimal_digits (suc fuel) n count after p = elim (Bool-cases (ltb n 10)) [
  | inl small ↦ (
    0,
    rw small (
        read_digits-digit 0 count n after (ltb→lt n 10 small)
        ∙ same_place after (omega arith) (omega arith)),
  )
  | inr big ↦
      let (k, e) =
        read_digits-decimal_digits fuel (n / 10) count ((b'0' + n % 10) ∷ after)
          (ground (arith, lt→ltb n 10)) in
      (
        k + 1,
        rw big (
            e
            ∙ read_digits-digit (n / 10) (count + 1 + k) (n % 10) after (omega arith)
            ∙ same_place after (omega arith) (omega arith)),
      )
]

-- The digits are read back as the number.
pub read_digits-to_decimal : (n : ℕ) → (k : ℕ) × (read_digits 0 0 (to_decimal n) ≡ (n, k, []))
unfolding to_decimal read_digits
read_digits-to_decimal n =
    let (k, e) = read_digits-decimal_digits (suc n) n 0 [] (omega arith) in (1 + k, e)

decimal_digits-append :
    (fuel n : ℕ) (a b : Bytes) → decimal_digits fuel n (a ++ b) ≡ decimal_digits fuel n a ++ b
unfolding decimal_digits
decimal_digits-append zero n a b = refl
decimal_digits-append (suc fuel) n a b = elim (Bool-cases (ltb n 10)) [
  | inl small ↦ rw small refl
  | inr big ↦ rw big (decimal_digits-append fuel (n / 10) ((b'0' + n % 10) ∷ a) b)
]

-- The digits are read back in front of whatever follows them.
pub read_digits-to_decimal_append :
    (n count : ℕ) (after : Bytes)
    → (k : ℕ) × (read_digits 0 count (to_decimal n ++ after) ≡ read_digits n (count + 1 + k) after)
unfolding to_decimal
read_digits-to_decimal_append n count after =
    let (k, e) = read_digits-decimal_digits (suc n) n count after (omega arith) in
    (k, ap (read_digits 0 count) (sym (decimal_digits-append (suc n) n [] after)) ∙ e)

decimal_digits-AreDigits :
    (fuel n : ℕ) (after : Bytes)
    → n < fuel
    → AreDigits after
    → AreDigits (decimal_digits fuel n after)
unfolding decimal_digits
decimal_digits-AreDigits zero n after p v = v
decimal_digits-AreDigits (suc fuel) n after p v = elim (Bool-cases (ltb n 10)) [
  | inl small ↦ rw small (ground (arith, ltb→lt n 10), v)
  | inr big ↦ rw big (
      decimal_digits-AreDigits fuel (n / 10) ((b'0' + n % 10) ∷ after) (ground (arith, lt→ltb n 10))
        (ground arith, v))
]

pub to_decimal-AreDigits : (n : ℕ) → AreDigits (to_decimal n)
unfolding to_decimal
to_decimal-AreDigits n = decimal_digits-AreDigits (suc n) n [] (omega arith) tt

-- A power of ten.
abbrev pub tens : ℕ → ℕ
tens zero = 1
tens (suc k) = 10 * tens k

length-decimal_digits :
    (k fuel n : ℕ) (after : Bytes)
    → n < tens k
    → 0 < k
    → length (decimal_digits fuel n after) ≤ k + length after
unfolding decimal_digits
length-decimal_digits zero fuel n after p q = absurd (omega arith)
length-decimal_digits (suc k) zero n after p q = omega arith
length-decimal_digits (suc k) (suc fuel) n after p q = elim (Bool-cases (ltb n 10)) [
  | inl small ↦ rw small (omega arith)
  | inr big ↦ rw big (
      let more : 0 < k = positive k (ground (arith, big)) in
      let rest =
        length-decimal_digits k fuel (n / 10) ((b'0' + n % 10) ∷ after) (omega arith) more in
      omega arith)
]
  where
    positive : (k : ℕ) → 1 < tens k → 0 < k
    positive zero less = absurd (omega arith)
    positive (suc k) less = omega arith

-- A number below a power of ten has at most so many digits.
pub length-to_decimal : (k n : ℕ) → n < tens k → 0 < k → length (to_decimal n) ≤ k
unfolding to_decimal
length-to_decimal k n p q = let size = length-decimal_digits k (suc n) n [] p q in omega arith
