-- ===== src/Practice/WebServer/Routes.antt =====
-- What the answers of the web front end say.
use webrtc_snippets.Common.{
  ℕ, ◌≡◌, inl, inr, refl, ap, arith, some, List, length, Bool-cases, Option-cases, >>=-eq-some,
  along_some,
}
use webrtc_snippets.Common.Bytes.{Bytes, codes, equal_iff}
use webrtc_snippets.Practice.Catalog.{Exercise}
use webrtc_snippets.Practice.Capture
use webrtc_snippets.Practice.Capture.{TestState, ExitCode, TestRunResult, Process}
use webrtc_snippets.Practice.TestRunner.{TestRunner, Command, is_valid_day, test_state_name, run}
use webrtc_snippets.Practice.TestRunner.Verdict.{HasPassed, run_passed}
use webrtc_snippets.Practice.Repository.{FileSystem, ExerciseDetail, detail}
use webrtc_snippets.Practice.Repository.Allowed.{IsShown, detail-IsShown}
use webrtc_snippets.Practice.WebServer.{
  Json, Response, json_response, detail_to_json, exercise_route, result_response, check_route,
}

-- No other state has the name of `passed`.
named_passed : (state : TestState) → test_state_name state ≡ codes "passed" → state ≡ Capture.passed
unfolding test_state_name
named_passed Capture.passed e = refl
named_passed Capture.failed e =
    absurd (ground (arith, ap length e, (equal_iff (codes "failed") (codes "passed")).1 e))
named_passed Capture.skipped e = absurd (ground (arith, ap length e))
named_passed Capture.build_error e = absurd (ground (arith, ap length e))
named_passed Capture.timed_out e = absurd (ground (arith, ap length e))

module _ (j : Json) where
  -- An answer 200 of the route that checks an exercise gives the result of the run for that day,
  -- under its name; and where the name given is "passed", the run has built and tested: both commands ended
  -- with exit code 0 and no test was skipped.
  pub check_route-HasPassed :
      (r : TestRunner) (processes : Command → Process) (day : ℕ) {answer : Response}
      → check_route j r processes day ≡ some answer
      → answer.status ≡ 200
      → (result : TestRunResult) × (run r processes day ≡ some result)
        × (answer ≡ result_response j day result)
        × (test_state_name result.state ≡ codes "passed" → HasPassed r processes day result)
  unfolding check_route
  check_route-HasPassed r processes day e ok = elim (Bool-cases (is_valid_day day)) [
    | inl valid ↦
        let (result, ran, e1) =
          >>=-eq-some (run r processes day) _ (rw (valid, check_route) at e) in
        (
          result,
          ran,
          along_some (λ a. a ≡ result_response j day result) e1 refl,
          λ named. run_passed r processes day ran (named_passed result.state named),
        )
    | inr invalid ↦
        absurd (
          ground
            (arith, ok, along_some (λ a. a.status ≡ 404) (rw (invalid, check_route) at e) refl))
  ]

  -- An answer 200 of the route that shows an exercise gives texts that the repository may show.
  pub exercise_route-IsShown :
      (fs : FileSystem) (exercises : List Exercise) (root : List Bytes) (day : ℕ)
      → (exercise_route j fs exercises root day).status ≡ 200
      → (d : ExerciseDetail) × (exercise_route j fs exercises root day
          ≡ json_response j 200 (detail_to_json j d))
        × IsShown fs root day d
  unfolding exercise_route
  exercise_route-IsShown fs exercises root day ok =
      elim (Option-cases (detail fs exercises root day)) [
        | inl missing ↦ absurd (ground (arith, rw (missing, exercise_route) at ok))
        | inr (d, found) ↦
            (d, rw (found, exercise_route) refl, detail-IsShown fs exercises root day d found)
      ]
