-- ===== src/Practice/TestRunner/Tests.antt =====
-- Runs of the test runner on concrete processes, and its theorems at such runs.
use webrtc_snippets.Common.{map, if◌then◌else◌, ◌≡◌, refl, true, false, some, List, [], ◌∷◌, ◌++◌}
use webrtc_snippets.Common.Bytes.{Bytes, concat, codes, find_text, starts_with}
use webrtc_snippets.Common.Bytes.Digits.{to_decimal, decimal_digits}
use webrtc_snippets.Practice.Capture.Resources.{
  Effect, opened, closed, initialized, destroyed, spawned, killed, reaped, System, reset,
  loop_effects, run_in,
}
use webrtc_snippets.Practice.Capture.Resources.Released.{Releases, run_in-Releases}
use webrtc_snippets.Practice.Capture.{
  passed, timed_out, exited, no_code, TestRunResult, maximum_output_bytes, append_output,
  read_available, running, interrupted, finished, Poll, Captured, ended, poll_loop, mark_truncated,
  finish_run, Process, started, run_command,
}
use webrtc_snippets.Practice.Capture.Exact.{keep, written, run_command_output}
use webrtc_snippets.Practice.TestRunner.{
  RunPlan, TestRunner, plan_for, day_pattern, is_valid_day, contains_skipped, stops, test_verdict,
  tests_heading, test_state_name, run,
}
use webrtc_snippets.Practice.WebServer.{Json, check_route, result_response}
use webrtc_snippets.Practice.WebServer.Routes.{check_route-HasPassed}
use webrtc_snippets.Practice.TestRunner.Verdict.{HasPassed, run_passed}

abbrev lab : TestRunner
lab = record {
  build_directory = codes "build";
  cmake_command = codes "cmake";
  ctest_command = codes "ctest";
}

abbrev polls : List Poll
polls =
    record { chunks = codes "one " ∷ []; waited = running; overdue = false }
    ∷ record { chunks = []; waited = interrupted; overdue = false }
    ∷ record { chunks = codes "two" ∷ []; waited = finished (exited 0); overdue = false }
    ∷ []

abbrev ended_well : Captured
ended_well = record { finish = some (exited 0); captured = codes "one two" }

poll_loop-polls : poll_loop polls [] ≡ ended ended_well
unfolding poll_loop read_available append_output maximum_output_bytes
poll_loop-polls = refl

abbrev process : Process
process = started polls (codes "." ∷ []) 7

abbrev result : TestRunResult
result = record { state = passed; exit_code = exited 0; elapsed = 7; output = codes "one two." }

run_command-process : run_command process ≡ some result
unfolding run_command finish_run poll_loop read_available append_output maximum_output_bytes
run_command-process = refl

run_command_output_example :
    codes "one two." ≡ mark_truncated (keep (written polls ++ concat (codes "." ∷ [])))
run_command_output_example =
    run_command_output polls (codes "." ∷ []) 7 ended_well result poll_loop-polls
      run_command-process

-- A child that is over its time.
run_command-late :
    run_command (started (record { chunks = []; waited = running; overdue = true } ∷ []) [] 9)
    ≡ some (record { state = timed_out; exit_code = no_code; elapsed = 9; output = [] })
unfolding run_command finish_run poll_loop read_available append_output maximum_output_bytes
run_command-late = refl

abbrev run_result : TestRunResult
run_result = record {
  state = passed;
  exit_code = exited 0;
  elapsed = 14;
  output = tests_heading ++ codes "one two.";
}

run-lab : run lab (λ c. process) 3 ≡ some run_result
unfolding run plan_for is_valid_day day_pattern to_decimal decimal_digits stops test_verdict
    contains_skipped find_text starts_with run_command finish_run poll_loop read_available
    append_output maximum_output_bytes
run-lab = refl

run_passed_example : HasPassed lab (λ c. process) 3 run_result
run_passed_example = run_passed lab (λ c. process) 3 run-lab refl

-- JSON as text, with the names of fields left out.
abbrev plain_json : Json
plain_json = record {
  Wvalue = Bytes;
  object = λ fields. concat (map (λ f. f.1) fields);
  array = concat;
  text = λ s. s;
  number = to_decimal;
  code = λ c. codes "code";
  truth = λ b. if b then codes "true" else codes "false";
  dump = λ s. s;
}

check_route-lab :
    check_route plain_json lab (λ c. process) 3 ≡ some (result_response plain_json 3 run_result)
unfolding check_route is_valid_day
check_route-lab = rw run-lab refl

check_route-HasPassed_example :
    (result : TestRunResult) × (run lab (λ c. process) 3 ≡ some result)
    × (result_response plain_json 3 run_result ≡ result_response plain_json 3 result)
    × (test_state_name result.state ≡ codes "passed" → HasPassed lab (λ c. process) 3 result)
check_route-HasPassed_example =
    check_route-HasPassed plain_json lab (λ c. process) 3 check_route-lab refl

abbrev third_plan : RunPlan
third_plan = record {
  build = record {
    executable = codes "cmake";
    arguments =
        codes "--build" ∷ codes "build" ∷ codes "--target" ∷ codes "practice_acceptance_test" ∷ [];
  };
  test = record {
    executable = codes "ctest";
    arguments =
        codes "--test-dir"
        ∷ codes "build"
        ∷ codes "--output-on-failure"
        ∷ codes "-R"
        ∷ codes "^Day03\\."
        ∷ [];
  };
}

plan_for-third : plan_for lab 3 ≡ some third_plan
unfolding plan_for is_valid_day day_pattern to_decimal decimal_digits
plan_for-third = refl

-- A child that is over its time in the first round.
abbrev slow_system : System
slow_system = record {
  pipe = some (3, 4);
  flags_read = true;
  flags_set = true;
  actions_valid = true;
  output_added = true;
  error_added = true;
  read_closed = true;
  write_closed = true;
  child_spawned = true;
  polls = record { chunks = []; waited = running; overdue = true } ∷ [];
  child_waited = true;
  rest = [];
  elapsed = 30000;
}

abbrev slow_answer : TestRunResult × List Effect
slow_answer = (
  record { state = timed_out; exit_code = no_code; elapsed = 30000; output = [] },
  opened 3
      ∷ opened 4
      ∷ initialized
      ∷ spawned
      ∷ closed 4
      ∷ killed
      ∷ reaped
      ∷ destroyed
      ∷ closed 3
      ∷ [],
)

slow_run : run_in slow_system ≡ some slow_answer
unfolding run_in reset loop_effects poll_loop read_available finish_run maximum_output_bytes
slow_run = refl

run_in-Releases_example : Releases slow_system slow_answer
run_in-Releases_example = run_in-Releases slow_system slow_answer slow_run
