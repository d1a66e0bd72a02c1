-- ===== src/Practice/Capture/Resources.antt =====
-- basic/src/test_runner.cpp, `run_command` with its calls of the system: the two ends of the pipe,
-- the actions for the child, and the child itself. What the calls answer is a parameter; a call
-- that takes or gives back a resource is an effect. Destructors run in the reverse order of the
-- declarations when `run_command` returns.
pub mod Released
use webrtc_snippets.Common.{
  ℕ, zero, suc, ◌+◌, ◌-◌, ◌*◌, ◌/◌, ◌%◌, ◌^◌, ◌≤◌, ◌<◌, ◌≡◌, ◌≢◌, ◌↔◌, ◌⊎◌, inl, inr, refl, sym, ap,
  ◌∙◌, subst, arith, tests, Bool, true, false, not, ◌&&◌, ◌||◌, Option, none, some, List, [], ◌∷◌,
  ◌++◌, map, append-nil, append_assoc, ◌==◌, ltb, leb, if◌then◌else◌, is_empty, length, get_elem?,
  drop, take, All, Bool-cases, Option-cases, guard, ◌>>=◌, ◌>>◌, >>=-eq-some, along_some, along_if,
  if_true, if_cases, ==_refl, ==_ne, ==_iff, length-append, take-append-drop, take-length,
  drop-length, drop-length_next, drop-add, drop-length-add, get_elem?-append, get_elem?-front,
  All-take, All-drop, is_empty-append, is_empty-append_cons, take_all, All-append, length-take,
  length-drop, ltb→lt, lt→ltb, leb→le, replicate, is_none, every, every-lt,
}
use webrtc_snippets.Common.Bytes.{
  Bytes, concat, overwrite, codes, Avoids, find_byte, find_byte_from, find_text, starts_with,
  substr, equal, equal_iff, equal_refl,
}
use webrtc_snippets.Common.Bytes.Find.{
  find_byte-append, find_byte-Avoids, find_byte_cases, find_byte_from-append, find_text-Avoids,
  find_text-none,
}
use webrtc_snippets.Practice.Capture.{
  Poll, Captured, LoopResult, ended, child_lost, still_running, poll_loop, TestRunResult, failure,
  finish_run, Process, not_started, started, run_command, ExitCode,
}

-- `reaped` is a `waitpid` that returns the child.
pub data Effect : Type 0 where
  opened closed : ℕ → Effect
  initialized destroyed spawned killed reaped : Effect

-- A `ScopedFd`, with `none` for -1.
abbrev pub ScopedFd : Type 0
ScopedFd = Option ℕ

-- `ScopedFd::reset`, which is also its destructor.
unfoldable pub reset : ScopedFd → List Effect × ScopedFd
reset none = ([], none)
reset (some descriptor) = (closed descriptor ∷ [], none)

-- What the calls answer, in their order, and the rounds of the loop if they come to it. `child_waited`
-- is whether the `waitpid` behind a `kill` ends the child; `run_command` does not look at its answer,
-- which can be an error (EINTR, ECHILD).
pub record System : Type 0 where
  pub pipe : Option (ℕ × ℕ)
  pub flags_read : Bool
  pub flags_set : Bool
  pub actions_valid : Bool
  pub output_added : Bool
  pub error_added : Bool
  pub read_closed : Bool
  pub write_closed : Bool
  pub child_spawned : Bool
  pub polls : List Poll
  pub child_waited : Bool
  pub rest : List Bytes
  pub elapsed : ℕ

-- The destructor of `SpawnActions`.
abbrev pub destroy : Bool → List Effect
destroy true = destroyed ∷ []
destroy false = []

-- The end of the scope of the two ends of the pipe.
abbrev pub close_ends : ScopedFd → ScopedFd → List Effect
close_ends read_end write_end = (reset write_end).0 ++ (reset read_end).0

-- A child that is killed, and waited for if the `waitpid` does not fail.
abbrev pub kill_child : Bool → List Effect
kill_child true = killed ∷ reaped ∷ []
kill_child false = killed ∷ []

-- What the loop does to the child.
unfoldable pub loop_effects : Bool → LoopResult → List Effect
loop_effects waited still_running = []
loop_effects waited child_lost = kill_child waited
loop_effects waited (ended c) = elim c.finish [ none ↦ kill_child waited | some code ↦ reaped ∷ [] ]

-- From the loop on: `write_end` was reset by then.
abbrev pub collect_child : System → ScopedFd → List Effect → Option (TestRunResult × List Effect)
collect_child sys read_end effects = do
  result ← finish_run (poll_loop sys.polls []) sys.rest sys.elapsed
  some (
    result,
    effects
        ++ loop_effects sys.child_waited (poll_loop sys.polls [])
        ++ destroyed ∷ []
        ++ close_ends read_end none,
  )

abbrev pub spawn_child :
    System → ScopedFd → ScopedFd → List Effect → Option (TestRunResult × List Effect)
spawn_child sys read_end write_end effects =
    let (shut, write_end') = reset write_end in
    if sys.child_spawned
    then collect_child sys read_end (effects ++ spawned ∷ [] ++ shut)
    else some (
      failure (codes "Unable to start the local CMake/CTest command."),
      effects ++ shut ++ destroyed ∷ [] ++ close_ends read_end write_end',
    )

-- The four calls that add to the actions, made until one fails.
abbrev pub all_added : System → Bool
all_added sys =
    sys.actions_valid && sys.output_added && sys.error_added && sys.read_closed && sys.write_closed

abbrev pub prepare_actions :
    System → ScopedFd → ScopedFd → List Effect → Option (TestRunResult × List Effect)
prepare_actions sys read_end write_end effects =
    if all_added sys
    then spawn_child sys read_end write_end (effects ++ initialized ∷ [])
    else some (
      failure (codes "Unable to prepare the local test process."),
      effects
          ++ (if sys.actions_valid then initialized ∷ [] else [])
          ++ destroy sys.actions_valid
          ++ close_ends read_end write_end,
    )

abbrev pub prepare_pipe : System → ℕ → ℕ → Option (TestRunResult × List Effect)
prepare_pipe sys r w =
    let effects = opened r ∷ opened w ∷ [] in
    if sys.flags_read && sys.flags_set
    then prepare_actions sys (some r) (some w) effects
    else some (
      failure (codes "Unable to prepare local test-output capture."),
      effects ++ close_ends (some r) (some w),
    )

-- `run_command`; `none` where the loop makes more rounds than there are.
unfoldable pub run_in : System → Option (TestRunResult × List Effect)
run_in sys = elim sys.pipe [
  | none ↦ some (failure (codes "Unable to create the local test-output pipe."), [])
  | some (r, w) ↦ prepare_pipe sys r w
]
