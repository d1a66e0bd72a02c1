-- ===== src/Practice/Capture.antt =====
-- basic/src/test_runner.cpp: how the output of a child process is captured and its result made. The
-- child, the clock and the pipe are parameters: what each round of the polling loop sees. The
-- descriptors are in Resources.
pub mod Exact
pub mod Resources
use webrtc_snippets.Common.{
  ℕ, zero, suc, ◌+◌, ◌-◌, ◌*◌, ◌/◌, ◌%◌, ◌^◌, ◌≤◌, ◌<◌, ◌≡◌, ◌≢◌, ◌↔◌, ◌⊎◌, inl, inr, refl, sym, ap,
  ◌∙◌, subst, arith, tests, Bool, true, false, not, ◌&&◌, ◌||◌, Option, none, some, List, [], ◌∷◌,
  ◌++◌, map, append-nil, append_assoc, ◌==◌, ltb, leb, if◌then◌else◌, is_empty, length, get_elem?,
  drop, take, All, Bool-cases, Option-cases, guard, ◌>>=◌, ◌>>◌, >>=-eq-some, along_some, if_cases,
  ==_refl, ==_ne, ==_iff, length-append, take-append-drop, take-length, drop-length,
  drop-length_next, drop-add, drop-length-add, is_empty-append, is_empty-append_cons, take_all,
  All-append, length-take, length-drop, ltb→lt, lt→ltb, leb→le, replicate, is_none,
}
use webrtc_snippets.Common.Bytes.{
  Bytes, codes, Avoids, find_byte, find_byte_from, find_text, starts_with, substr, equal, equal_iff,
  equal_refl,
}
use webrtc_snippets.Common.Bytes.Find.{
  find_byte-append, find_byte-Avoids, find_byte_cases, find_byte_from-append, find_text-Avoids,
  find_text-none,
}

pub data TestState : Type 0 where
  passed failed skipped build_error timed_out : TestState

-- An exit code is a byte, or -1 where there is none.
pub data ExitCode : Type 0 where
  exited : ℕ → ExitCode
  no_code : ExitCode

-- Time is in milliseconds.
pub record TestRunResult : Type 0 where
  pub state : TestState
  pub exit_code : ExitCode
  pub elapsed : ℕ
  pub output : Bytes

unfoldable pub maximum_output_bytes : ℕ
maximum_output_bytes = 64 * 1024

unfoldable pub append_output : Bytes → Bytes → Bytes
append_output output chunk =
    if leb maximum_output_bytes (length output)
    then output
    else output ++ take (maximum_output_bytes - length output) chunk

-- The chunks that `read` returns before it finds nothing to read.
unfoldable pub read_available : List Bytes → Bytes → Bytes
read_available [] output = output
read_available (chunk ∷ chunks) output = read_available chunks (append_output output chunk)

-- What `waitpid` says of the child.
pub data Waited : Type 0 where
  running interrupted lost : Waited
  finished : ExitCode → Waited

-- A round of the loop: what was read, what `waitpid` said, and whether the time is over.
pub record Poll : Type 0 where
  pub chunks : List Bytes
  pub waited : Waited
  pub overdue : Bool

-- How the loop ends: the child's exit code, or `none` where it was killed for its time.
pub record Captured : Type 0 where
  pub finish : Option ExitCode
  pub captured : Bytes

pub data LoopResult : Type 0 where
  ended : Captured → LoopResult
  child_lost still_running : LoopResult

-- The polling loop, over the rounds that it makes; `still_running` if it makes more than these.
unfoldable pub poll_loop : List Poll → Bytes → LoopResult
unfolding read_available
poll_loop [] output = still_running
poll_loop (poll ∷ polls) output =
    let read = read_available poll.chunks output in
    let later = poll_loop polls read in
    elim poll.waited [
      | finished code ↦ ended (record { finish = some code; captured = read })
      | interrupted ↦ later
      | lost ↦ child_lost
      | running ↦ if poll.overdue then ended (record { finish = none; captured = read }) else later
    ]

abbrev pub failure : Bytes → TestRunResult
failure output = record { state = failed; exit_code = no_code; elapsed = 0; output = output }

abbrev pub truncation_note : Bytes
truncation_note = 10 ∷ codes "[output truncated]"

abbrev pub mark_truncated : Bytes → Bytes
mark_truncated output =
    if length output == maximum_output_bytes then output ++ truncation_note else output

abbrev pub state_of_code : ExitCode → TestState
state_of_code (exited code) = if code == 0 then passed else failed
state_of_code no_code = failed

-- The end of `run_command`: what is left in the pipe is read, and the result is made.
unfoldable pub finish_run : LoopResult → List Bytes → ℕ → Option TestRunResult
finish_run still_running rest elapsed = none
finish_run child_lost rest elapsed =
    some (failure (codes "Unable to collect the local test process."))
finish_run (ended c) rest elapsed =
    let output = mark_truncated (read_available rest c.captured) in
    elim c.finish [
      | none ↦
          some
            (record { state = timed_out; exit_code = no_code; elapsed = elapsed; output = output })
      | some code ↦ some (record {
        state = state_of_code code;
        exit_code = code;
        elapsed = elapsed;
        output = output;
      })
    ]

-- What the system does for one command: a step that fails before the child runs, with its message,
-- or the rounds of the loop, what the pipe holds at the end, and the time it took.
pub data Process : Type 0 where
  not_started : Bytes → Process
  started : List Poll → List Bytes → ℕ → Process

unfoldable pub run_command : Process → Option TestRunResult
run_command (not_started message) = some (failure message)
run_command (started polls rest elapsed) = finish_run (poll_loop polls []) rest elapsed
