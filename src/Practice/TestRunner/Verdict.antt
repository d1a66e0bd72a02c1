-- ===== src/Practice/TestRunner/Verdict.antt =====
-- What a run's verdict says of the two processes.
use webrtc_snippets.Common.{
  ℕ, ◌+◌, ◌≡◌, ◌≢◌, inl, inr, ap, ◌∙◌, arith, true, false, Option, none, some, ◌++◌, Bool-cases,
  Option-cases, ◌>>=◌, >>=-eq-some, along_some,
}
use webrtc_snippets.Practice.Capture.{
  TestState, passed, failed, TestRunResult, Process, run_command,
}
use webrtc_snippets.Practice.TestRunner.{
  RunPlan, TestRunner, Command, plan_for, is_success, is_timed_out, contains_skipped, stops,
  test_verdict, tests_heading, run,
}

-- Both processes of the plan ended with exit code 0, and the output of the tests, under its
-- heading, does not say "skipped".
pub record HasPassed (r : TestRunner) (processes : Command → Process) (day : ℕ)
    (result : TestRunResult) : Type 0 where
  pub plan : RunPlan
  pub build : TestRunResult
  pub test : TestRunResult
  pub planned : plan_for r day ≡ some plan
  pub build_ran : run_command (processes plan.build) ≡ some build
  pub build_code : is_success build.exit_code ≡ true
  pub test_ran : run_command (processes plan.test) ≡ some test
  pub test_code : is_success test.exit_code ≡ true
  pub none_skipped : contains_skipped (tests_heading ++ test.output) ≡ false
  pub result_output : result.output ≡ tests_heading ++ test.output
  pub time : result.elapsed ≡ test.elapsed + build.elapsed

abbrev state_of : Option TestRunResult → TestState
state_of none = failed
state_of (some r) = r.state

stopped_not_passed : (b s : TestRunResult) → stops b ≡ some s → s.state ≢ passed
unfolding stops
stopped_not_passed b s e p = elim (Bool-cases (is_timed_out b.state)) [
  | inl over ↦ ground (arith, over)
  | inr not_over ↦ ground (arith, not_over)
]

goes_on-success : (b : TestRunResult) → stops b ≡ none → is_success b.exit_code ≡ true
unfolding stops
goes_on-success b e = ground arith

verdict_passed :
    (b t : TestRunResult)
    → (test_verdict b t).state ≡ passed
    → (is_success t.exit_code ≡ true)
      × (contains_skipped (tests_heading ++ t.output) ≡ false)
      × ((test_verdict b t).output ≡ tests_heading ++ t.output)
      × ((test_verdict b t).elapsed ≡ t.elapsed + b.elapsed)
unfolding test_verdict
verdict_passed b t e = ground arith

module _ (r : TestRunner) (processes : Command → Process) (day : ℕ) (plan : RunPlan) where
  tested :
      (build : TestRunResult) {result : TestRunResult}
      → plan_for r day ≡ some plan
      → run_command (processes plan.build) ≡ some build
      → stops build ≡ none
      → (do test ← run_command (processes plan.test); some (test_verdict build test)) ≡ some result
      → result.state ≡ passed
      → HasPassed r processes day result
  tested build planned build_ran stop e p =
      let (test, test_ran, e1) = >>=-eq-some (run_command (processes plan.test)) _ e in
      let (code, none_skipped, output, time) =
        verdict_passed build test (ap (λ o. state_of o) e1 ∙ p) in
      record {
        plan = plan;
        build = build;
        test = test;
        planned = planned;
        build_ran = build_ran;
        build_code = goes_on-success build stop;
        test_ran = test_ran;
        test_code = code;
        none_skipped = none_skipped;
        result_output = along_some (λ x. x.output ≡ tests_heading ++ test.output) e1 output;
        time = along_some (λ x. x.elapsed ≡ test.elapsed + build.elapsed) e1 time;
      }

-- A run that reports `passed` has built and tested: a plan is made for the day, both commands of
-- the plan ended with exit code 0, the output of the tests under its heading does not say "skipped",
-- and the result has that output and the time of both.
pub run_passed :
    (r : TestRunner) (processes : Command → Process) (day : ℕ) {result : TestRunResult}
    → run r processes day ≡ some result
    → result.state ≡ passed
    → HasPassed r processes day result
unfolding run
run_passed r processes day e p = elim (Option-cases (plan_for r day)) [
  | inl invalid_day ↦ absurd (ground (arith, rw (invalid_day, run) at e))
  | inr (plan, planned) ↦
      let (build, build_ran, e1) =
        >>=-eq-some (run_command (processes plan.build)) _ (rw (planned, run) at e) in
      elim (Option-cases (stops build)) [
        | inl goes_on ↦
            tested r processes day plan build planned build_ran goes_on (rw goes_on at e1) p
        | inr (stopped, stop) ↦
            absurd (stopped_not_passed build stopped stop (ap state_of (rw stop at e1) ∙ p))
      ]
]
