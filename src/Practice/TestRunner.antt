-- ===== src/Practice/TestRunner.antt =====
-- basic/src/test_runner.cpp: what a run of an exercise's tests, or of its solution, reports. What
-- the process of each command does is a parameter. The lock that makes runs follow one another is
-- not modelled.
pub mod Verdict
pub mod Plans
mod Tests
use webrtc_snippets.Common.{
  ℕ, zero, suc, ◌+◌, ◌-◌, ◌*◌, ◌/◌, ◌%◌, ◌^◌, ◌≤◌, ◌<◌, ◌≡◌, ◌≢◌, ◌↔◌, ◌⊎◌, inl, inr, refl, sym, ap,
  ◌∙◌, subst, arith, tests, Bool, true, false, not, ◌&&◌, ◌||◌, Option, none, some, List, [], ◌∷◌,
  ◌++◌, map, append-nil, append_assoc, ◌==◌, ltb, leb, if◌then◌else◌, is_empty, length, get_elem?,
  drop, take, All, Bool-cases, Option-cases, guard, ◌>>=◌, ◌>>◌, >>=-eq-some, along_some, if_cases,
  ==_refl, ==_ne, ==_iff, length-append, take-append-drop, take-length, drop-length,
  drop-length_next, drop-add, drop-length-add, is_empty-append, is_empty-append_cons, take_all,
  All-append, length-take, length-drop, ltb→lt, lt→ltb, leb→le, replicate, is_none,
}
use webrtc_snippets.Common.Bytes.{
  Bytes, codes, Avoids, find_byte, find_byte_from, find_text, starts_with, substr, equal, equal_iff,
  equal_refl,
}
use webrtc_snippets.Common.Bytes.Find.{
  find_byte-append, find_byte-Avoids, find_byte_cases, find_byte_from-append, find_text-Avoids,
  find_text-none,
}
use webrtc_snippets.Common.Bytes.Digits.{to_decimal}
use webrtc_snippets.Practice.Capture.{
  TestState, passed, failed, skipped, build_error, timed_out, ExitCode, exited, no_code,
  TestRunResult, Process, run_command, failure,
}

pub record Command : Type 0 where
  pub executable : Bytes
  pub arguments : List Bytes

pub record RunPlan : Type 0 where
  pub build : Command
  pub test : Command

pub record TestRunner : Type 0 where
  pub build_directory : Bytes
  pub cmake_command : Bytes
  pub ctest_command : Bytes

unfoldable pub is_valid_day : ℕ → Bool
is_valid_day day = leb 1 day && leb day 30

unfoldable pub day_name : ℕ → Bytes
day_name day = if ltb day 10 then b'0' ∷ to_decimal day else to_decimal day

unfoldable pub day_pattern : ℕ → Bytes
day_pattern day =
    codes "^Day" ++ (if ltb day 10 then codes "0" else []) ++ to_decimal day ++ codes "\\."

-- A day that `int` has below zero is not valid; here it is 0.
unfoldable pub plan_for : TestRunner → ℕ → Option RunPlan
unfolding is_valid_day day_pattern
plan_for r day =
    if not (is_valid_day day)
      || is_empty r.build_directory
      || is_empty r.cmake_command
      || is_empty r.ctest_command
    then none
    else some (record {
      build = record {
        executable = r.cmake_command;
        arguments =
            codes "--build"
            ∷ r.build_directory
            ∷ codes "--target"
            ∷ codes "practice_acceptance_test"
            ∷ [];
      };
      test = record {
        executable = r.ctest_command;
        arguments =
            codes "--test-dir"
            ∷ r.build_directory
            ∷ codes "--output-on-failure"
            ∷ codes "-R"
            ∷ day_pattern day
            ∷ [];
      };
    })

abbrev pub is_success : ExitCode → Bool
is_success (exited code) = code == 0
is_success no_code = false

abbrev pub is_timed_out : TestState → Bool
is_timed_out timed_out = true
is_timed_out _ = false

-- `tolower` in the C locale.
abbrev pub to_lower : ℕ → ℕ
to_lower c = if leb b'A' c && leb c b'Z' then c + 32 else c

unfoldable pub contains_skipped : Bytes → Bool
unfolding find_text
contains_skipped output = not (is_none (find_text (codes "skipped") (map to_lower output)))

abbrev pub put_before : Bytes → TestRunResult → TestRunResult
put_before text r = record r { output = text ++ r.output }

abbrev pub line : Bytes → Bytes
line text = text ++ 10 ∷ []

abbrev pub invalid : TestRunResult
invalid = failure (codes "Invalid exercise day or server configuration.")

-- What both kinds of run do with the result of the build: it stops them, or they go on.
unfoldable pub stops : TestRunResult → Option TestRunResult
stops r =
    if is_timed_out r.state
    then some (put_before (line (codes "Build timed out.")) r)
    else if is_success r.exit_code
    then none
    else some (put_before (line (codes "Build failed.")) (record r { state = build_error }))

abbrev pub tests_heading : Bytes
tests_heading = line (codes "Build succeeded.") ++ 10 ∷ line (codes "Test output:")

unfoldable pub test_verdict : TestRunResult → TestRunResult → TestRunResult
test_verdict build result =
    let shown = record (put_before tests_heading result) {
      elapsed = result.elapsed + build.elapsed;
    } in
    if is_timed_out result.state
    then put_before (line (codes "Test timed out.")) shown
    else if not (is_success result.exit_code)
    then record shown { state = failed }
    else record shown { state = if contains_skipped shown.output then skipped else passed }

abbrev pub solution_heading : Bytes
solution_heading = line (codes "Build succeeded.") ++ 10 ∷ line (codes "run() output:")

unfoldable pub solution_verdict : TestRunResult → TestRunResult → TestRunResult
solution_verdict build result =
    let shown = record (put_before solution_heading result) {
      elapsed = result.elapsed + build.elapsed;
    } in
    if is_timed_out result.state
    then put_before (line (codes "run() timed out.")) shown
    else record shown { state = if is_success result.exit_code then passed else failed }

-- `run`, with what the process of each command does; `none` while a process still runs.
unfoldable pub run : TestRunner → (Command → Process) → ℕ → Option TestRunResult
run r processes day = elim (plan_for r day) [
  | none ↦ some invalid
  | some plan ↦ do
    build ← run_command (processes plan.build)
    elim (stops build) [
      | some stopped ↦ some stopped
      | none ↦ (do result ← run_command (processes plan.test); some (test_verdict build result))
    ]
]

-- `build_directory_ / target`, where the target is a relative name.
abbrev pub join_path : Bytes → Bytes → Bytes
join_path directory name = elim (get_elem? directory (length directory - 1)) [
  | none ↦ name
  | some c ↦ if c == b'/' then directory ++ name else directory ++ b'/' ∷ name
]

unfoldable pub run_solution : TestRunner → (Command → Process) → ℕ → Option TestRunResult
unfolding is_valid_day day_name
run_solution r processes day =
    if not (is_valid_day day) || is_empty r.build_directory || is_empty r.cmake_command
    then some invalid
    else (do
      let target = codes "practice_" ++ day_name day
      build ← run_command (
          processes (record {
            executable = r.cmake_command;
            arguments = codes "--build" ∷ r.build_directory ∷ codes "--target" ∷ target ∷ [];
          }))
      elim (stops build) [
        | some stopped ↦ some stopped
        | none ↦ (do
          result ← run_command (
              processes
                (record { executable = join_path r.build_directory target; arguments = [] }))
          some (solution_verdict build result))
      ])

unfoldable pub test_state_name : TestState → Bytes
test_state_name passed = codes "passed"
test_state_name failed = codes "failed"
test_state_name skipped = codes "skipped"
test_state_name build_error = codes "build_error"
test_state_name timed_out = codes "timed_out"
