-- ===== src/Practice/Words/Days.antt =====
-- Days as they are printed and read.
use webrtc_snippets.Common.{
  ℕ, ◌+◌, ◌-◌, ◌≤◌, ◌≡◌, inl, inr, refl, ap, ◌∙◌, arith, Bool, true, false, Option, none, some,
  ◌==◌, Option-cases, every, every-lt,
}
use webrtc_snippets.Common.Bytes.Digits.{from_chars, to_decimal, decimal_digits, read_digits}
use webrtc_snippets.Practice.Words.{parse_day, two_digit}

abbrev reads_back : ℕ → Option ℕ → Bool
reads_back day none = false
reads_back day (some value) = value == day

days_read_back : every 30 (λ k. reads_back (k + 1) (parse_day (two_digit (k + 1)))) ≡ true
unfolding parse_day two_digit to_decimal decimal_digits from_chars read_digits
days_read_back = refl

-- A day from 1 to 30, written in two digits, is read back.
pub parse_day-two_digit : (day : ℕ) → 1 ≤ day → day ≤ 30 → parse_day (two_digit day) ≡ some day
parse_day-two_digit day p q =
    ap (λ k. parse_day (two_digit k)) {y = day - 1 + 1} (omega arith)
    ∙ elim (Option-cases (parse_day (two_digit (day - 1 + 1)))) [
      | inl miss ↦ absurd (ground (arith, miss, back))
      | inr (value, hit) ↦ hit ∙ ap some (ground (arith, hit, back))
    ]
  where
    back : reads_back (day - 1 + 1) (parse_day (two_digit (day - 1 + 1))) ≡ true
    back =
        every-lt 30 (λ k. reads_back (k + 1) (parse_day (two_digit (k + 1)))) (day - 1)
          days_read_back (omega arith)
