-- ===== src/Practice/Runner/Returns.antt =====
-- The exit code of the loop of commands of basic/src/runner.cpp.
use webrtc_snippets.Common.{
  ℕ, ◌+◌, ◌≡◌, inl, inr, refl, arith, false, Option, some, List, [], ◌∷◌, ◌==◌, ltb, All,
  Bool-cases, Option-cases, guard, >>=-eq-some, along_some, is_none,
}
use webrtc_snippets.Common.Bytes.{Bytes}
use mathlib.Core.Option
use webrtc_snippets.Practice.Words.{parse_day, tokenize, normalized_command}
use webrtc_snippets.Practice.Catalog.{
  CheckState, passed, failed, not_implemented, Exercise, lower_bound, find, is_invalid, any_invalid,
  validate,
}
use webrtc_snippets.Practice.Runner.{
  Printed, count_state, run_progress, run_exercise, run_day, run_args, answer, tui_loop, run_tui,
}

abbrev IsSome : {A : Type 0} → Option A → Type 0
IsSome o = is_none o ≡ false

record IsCallable (e : Exercise) : Type 0 where
  runs : IsSome e.run
  checks : IsSome e.check

any_invalid-IsCallable :
    (es : List Exercise) (index : ℕ) → any_invalid index es ≡ false → All IsCallable es
unfolding any_invalid is_invalid
any_invalid-IsCallable [] index v = tt
any_invalid-IsCallable (e ∷ es) index v = (
  record { runs = ground (arith, v); checks = ground (arith, v) },
  any_invalid-IsCallable es (index + 1) (ground (arith, v)),
)

count_state-IsSome :
    (state : CheckState) (es : List Exercise) → All IsCallable es → IsSome (count_state state es)
unfolding count_state
count_state-IsSome state [] v = refl
count_state-IsSome state (e ∷ es) v = ground (arith, v.0.checks, count_state-IsSome state es v.1)

run_progress-IsSome : (es : List Exercise) → All IsCallable es → IsSome (run_progress es)
unfolding run_progress
run_progress-IsSome es v = ground (
  arith,
  count_state-IsSome passed es v,
  count_state-IsSome not_implemented es v,
  count_state-IsSome failed es v,
)

run_exercise-IsSome :
    (command : Bytes) (e : Exercise) → IsCallable e → IsSome (run_exercise command e)
unfolding run_exercise
run_exercise-IsSome command e v = ground (arith, v.runs, v.checks)

lower_bound-All :
    (es : List Exercise) (day : ℕ) (e : Exercise)
    → All IsCallable es
    → lower_bound es day ≡ some e
    → IsCallable e
unfolding lower_bound
lower_bound-All [] day e v f = absurd (ground arith)
lower_bound-All (x ∷ es) day e v f = elim (Bool-cases (ltb x.day day)) [
  | inl later ↦ lower_bound-All es day e v.1 (rw (later, lower_bound) at f)
  | inr here ↦ along_some IsCallable (rw (here, lower_bound) at f) v.0
]

find-All :
    (es : List Exercise) (day : ℕ) (e : Exercise)
    → All IsCallable es
    → find es day ≡ some e
    → IsCallable e
unfolding find
find-All es day e v f =
    let (x, hit, f1) = >>=-eq-some (lower_bound es day) _ f in
    let (_, _, f2) = >>=-eq-some (guard (x.day == day)) _ f1 in
    along_some IsCallable f2 (lower_bound-All es day x v hit)

run_day-IsSome :
    (es : List Exercise) (command : Bytes) (others : List Bytes)
    → All IsCallable es
    → IsSome (run_day es command others)
unfolding run_day
run_day-IsSome es command [] v = refl
run_day-IsSome es command (a ∷ b ∷ more) v = refl
run_day-IsSome es command (text ∷ []) v = elim (Option-cases (parse_day text)) [
  | inl miss ↦ rw (miss, run_day) refl
  | inr (day, hit) ↦ elim (Option-cases (find es day)) [
    | inl absent ↦ rw (hit, absent, run_day) refl
    | inr (e, found) ↦
        rw (hit, found, run_day) (run_exercise-IsSome command e (find-All es day e v found))
  ]
]

run_args-IsSome :
    (es : List Exercise) (first : Bytes) (others : List Bytes)
    → All IsCallable es
    → IsSome (run_args es first others)
unfolding run_args
run_args-IsSome es first others v =
    ground (arith, run_progress-IsSome es v, run_day-IsSome es (normalized_command first) others v)

-- What the loop prints of a line, where it goes on.
answer-IsSome :
    (es : List Exercise) (line : Bytes) (printed : Option Printed)
    → All IsCallable es
    → answer es line ≡ some printed
    → IsSome printed
unfolding answer
answer-IsSome es line printed v a = elim (Option-cases (tokenize line)) [
  | inl miss ↦ ground (arith, rw (miss, answer) at a)
  | inr ([], hit) ↦ absurd (ground (arith, rw (hit, answer) at a))
  | inr (first ∷ others, hit) ↦
      ground (arith, rw (hit, answer) at a, run_args-IsSome es first others v)
]

abbrev pub code_of : Option Printed → Option ℕ
code_of o = Option.map (λ p. p.code) o

tui_loop-code :
    (es : List Exercise) (lines : List Bytes)
    → All IsCallable es
    → code_of (tui_loop es lines) ≡ some 0
unfolding tui_loop
tui_loop-code es [] v = refl
tui_loop-code es (line ∷ lines) v = elim (Option-cases (answer es line)) [
  | inl leave ↦ rw (leave, tui_loop) refl
  | inr (printed, go) ↦
      rw (go, tui_loop)
        (ground (arith, answer-IsSome es line printed v go, tui_loop-code es lines v))
]

-- With a valid catalog the loop of commands returns the exit code 0 on every input, whatever the
-- lines are and whichever of them fail: no command throws for an empty function.
pub run_tui-code :
    (exercises : List Exercise) (lines : List Bytes)
    → validate exercises ≡ []
    → code_of (run_tui exercises lines) ≡ some 0
unfolding run_tui validate
run_tui-code exercises lines v =
    ground (arith, tui_loop-code exercises lines (any_invalid-IsCallable exercises 0 fine))
  where
    fine : any_invalid 0 exercises ≡ false
    fine = ground (arith, v)
