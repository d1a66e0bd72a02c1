-- ===== src/Practice/TestRunner/Plans.antt =====
-- What the plan of a day says of the day.
use webrtc_snippets.Common.{
  ℕ, ◌≤◌, ◌≡◌, inl, inr, refl, sym, ap, ◌∙◌, arith, not, ◌||◌, some, ◌++◌, ltb, is_empty, get_elem?,
  drop, Bool-cases, along_some,
}
use webrtc_snippets.Common.Bytes.{Bytes, codes}
use webrtc_snippets.Common.Bytes.Digits.{read_digits, to_decimal}
use webrtc_snippets.Common.Bytes.Decimal.{read_digits-to_decimal_append}
use webrtc_snippets.Practice.TestRunner.{RunPlan, TestRunner, plan_for, day_pattern, is_valid_day}

abbrev day_in : Bytes → ℕ
day_in pattern = (read_digits 0 0 (drop 4 pattern)).0

abbrev pattern_end : Bytes
pattern_end = codes "\\."

read_pattern : (day count : ℕ) → (read_digits 0 count (to_decimal day ++ pattern_end)).0 ≡ day
unfolding read_digits
read_pattern day count =
    let (k, e) = read_digits-to_decimal_append day count pattern_end in ap (λ x. x.0) e

day_in-day_pattern : (day : ℕ) → day_in (day_pattern day) ≡ day
unfolding day_pattern read_digits
day_in-day_pattern day = elim (Bool-cases (ltb day 10)) [
  | inl one_digit ↦ rw one_digit (read_pattern day 1)
  | inr two_digits ↦ rw two_digits (read_pattern day 0)
]

plan_for-pattern :
    (r : TestRunner) (day : ℕ) (plan : RunPlan)
    → plan_for r day ≡ some plan
    → (get_elem? plan.test.arguments 4 ≡ some (day_pattern day)) × (1 ≤ day) × (day ≤ 30)
unfolding plan_for is_valid_day
plan_for-pattern r day plan e =
    elim (Bool-cases (
      not (is_valid_day day)
      || is_empty r.build_directory
      || is_empty r.cmake_command
      || is_empty r.ctest_command)) [
        | inl refused ↦ absurd (ground (arith, rw (refused, plan_for) at e))
        | inr fine ↦ (
          along_some (λ x. get_elem? x.test.arguments 4 ≡ some (day_pattern day))
              (rw (fine, plan_for) at e) refl,
          ground (arith, fine),
          ground (arith, fine),
        )
      ]

-- A plan is made only for the days from 1 to 30, and the plans of two days are different: what the
-- tests are filtered by tells which day it is.
pub plan_for-injective :
    (r : TestRunner) (day other : ℕ) (plan : RunPlan)
    → plan_for r day ≡ some plan
    → plan_for r other ≡ some plan
    → (day ≡ other) × (1 ≤ day) × (day ≤ 30)
plan_for-injective r day other plan e f =
    let (p, low, high) = plan_for-pattern r day plan e in
    let (q, _, _) = plan_for-pattern r other plan f in
    (
      sym (day_in-day_pattern day)
          ∙ along_some (λ x. day_in x ≡ other) (sym q ∙ p) (day_in-day_pattern other),
      low,
      high,
    )
