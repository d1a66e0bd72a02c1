-- ===== src/Practice/Capture/Resources/Released.antt =====
-- basic/src/test_runner.cpp: the resources that `run_command` holds, followed over its effects.
use webrtc_snippets.Common.{
  ℕ, ◌≡◌, ◌⊎◌, inl, inr, refl, Bool, true, false, ◌&&◌, Option, none, some, List, [], ◌∷◌, ◌++◌,
  ◌==◌, if◌then◌else◌, Bool-cases, Option-cases, ◌>>=◌, >>=-eq-some, along_some, ==_refl,
}
use webrtc_snippets.Common.Bytes.{codes}
use webrtc_snippets.Practice.Capture.{
  LoopResult, ended, child_lost, still_running, poll_loop, TestRunResult, finish_run, Process,
  not_started, started,
}
use webrtc_snippets.Practice.Capture.Resources.{
  Effect, opened, closed, initialized, destroyed, spawned, killed, reaped, reset, System,
  close_ends, kill_child, loop_effects, spawn_child, all_added, prepare_actions, prepare_pipe,
  run_in,
}

-- What is held: the open descriptors, the actions, and a child that nobody has waited for.
pub record Held : Type 0 where
  pub descriptors : List ℕ
  pub has_actions : Bool
  pub has_child : Bool

abbrev pub nothing_held : Held
nothing_held = record { descriptors = []; has_actions = false; has_child = false }

-- A descriptor that is closed is taken out, if it is open.
unfoldable pub remove : ℕ → List ℕ → Option (List ℕ)
remove d [] = none
remove d (e ∷ open_ones) =
    let later = remove d open_ones in
    if d == e then some open_ones else (later >>= λ others. some (e ∷ others))

-- One effect; `none` for a resource that is given back but not held, or taken twice.
unfoldable pub after : Held → Effect → Option Held
unfolding remove
after h (opened d) = some (record h { descriptors = d ∷ h.descriptors })
after h (closed d) = remove d h.descriptors >>= λ others. some (record h { descriptors = others })
after h initialized = if h.has_actions then none else some (record h { has_actions = true })
after h destroyed = if h.has_actions then some (record h { has_actions = false }) else none
after h spawned = if h.has_child then none else some (record h { has_child = true })
after h killed = if h.has_child then some h else none
after h reaped = if h.has_child then some (record h { has_child = false }) else none

unfoldable pub replay : Held → List Effect → Option Held
unfolding after
replay h [] = some h
replay h (e ∷ effects) = after h e >>= λ i. replay i effects

abbrev pub kills : List Effect → Bool
kills [] = false
kills (e ∷ effects) = elim e [ killed ↦ true | _ ↦ kills effects ]

-- What is held at the end: nothing, but for a child that was killed and whose `waitpid` behind the
-- `kill` has failed.
abbrev pub Releases : System → TestRunResult × List Effect → Type 0
Releases sys answer =
    (held : Held) × (replay nothing_held answer.1 ≡ some held)
    × (held.descriptors ≡ [])
    × (held.has_actions ≡ false)
    × ((held.has_child ≡ false) ⊎ ((sys.child_waited ≡ false) × (kills answer.1 ≡ true)))

abbrev Answers : System → Option (TestRunResult × List Effect) → Type 0
Answers sys outcome =
    (answer : TestRunResult × List Effect) → outcome ≡ some answer → Releases sys answer

module _ (sys : System) (r w : ℕ) where
  abbrev whole_run : LoopResult → List Effect
  whole_run res =
      opened r ∷ opened w ∷ []
      ++ initialized ∷ []
      ++ (spawned ∷ [] ++ closed w ∷ [])
      ++ loop_effects sys.child_waited res
      ++ destroyed ∷ []
      ++ close_ends (some r) none

  -- A child that had to be killed.
  killed-Releases :
      (result : TestRunResult) (res : LoopResult)
      → loop_effects sys.child_waited res ≡ kill_child sys.child_waited
      → Releases sys (result, whole_run res)
  unfolding replay after remove reset
  killed-Releases result res e = elim (Bool-cases sys.child_waited) [
    | inl waited ↦ (nothing_held, rw (e, waited, ==_refl w, ==_refl r) refl, refl, refl, inl refl)
    | inr failed ↦ (
      record nothing_held { has_child = true },
      rw (e, failed, ==_refl w, ==_refl r) refl,
      refl,
      refl,
      inr (failed, rw (e, failed) refl),
    )
  ]

  loop-Releases :
      (res : LoopResult) (result : TestRunResult)
      → finish_run res sys.rest sys.elapsed ≡ some result
      → Releases sys (result, whole_run res)
  unfolding replay after remove loop_effects reset finish_run
  loop-Releases still_running result e = absurd (cc)
  loop-Releases child_lost result e = killed-Releases result child_lost refl
  loop-Releases (ended c) result e = elim (Option-cases c.finish) [
    | inl overdue ↦ killed-Releases result (ended c) (rw overdue refl)
    | inr (code, done) ↦ (nothing_held, rw (done, ==_refl w, ==_refl r) refl, refl, refl, inl refl)
  ]

  spawn_child-Releases :
      Answers sys (spawn_child sys (some r) (some w) (opened r ∷ opened w ∷ [] ++ initialized ∷ []))
  unfolding replay after remove reset
  spawn_child-Releases answer eq = elim (Bool-cases sys.child_spawned) [
    | inr failed ↦
        along_some (Releases sys) (rw failed at eq)
          (nothing_held, rw (==_refl w, ==_refl r) refl, refl, refl, inl refl)
    | inl there ↦
        let (result, finished, e) =
          >>=-eq-some (finish_run (poll_loop sys.polls []) sys.rest sys.elapsed) _
            (rw there at eq) in
        along_some (Releases sys) e (loop-Releases (poll_loop sys.polls []) result finished)
  ]

  prepare_actions-Releases :
      Answers sys (prepare_actions sys (some r) (some w) (opened r ∷ opened w ∷ []))
  unfolding replay after remove reset
  prepare_actions-Releases answer eq = elim (Bool-cases (all_added sys)) [
    | inl added ↦ spawn_child-Releases answer (rw added at eq)
    | inr failed ↦ along_some (Releases sys) (rw failed at eq) (
      nothing_held,
      elim (Bool-cases sys.actions_valid) [
        | inl valid ↦ rw (valid, ==_refl w, ==_refl r) refl
        | inr invalid ↦ rw (invalid, ==_refl w, ==_refl r) refl
      ],
      refl,
      refl,
      inl refl,
    )
  ]

  prepare_pipe-Releases : Answers sys (prepare_pipe sys r w)
  unfolding replay after remove reset
  prepare_pipe-Releases answer eq = elim (Bool-cases (sys.flags_read && sys.flags_set)) [
    | inr unset ↦
        along_some (Releases sys) (rw unset at eq)
          (nothing_held, rw (==_refl w, ==_refl r) refl, refl, refl, inl refl)
    | inl set ↦ prepare_actions-Releases answer (rw set at eq)
  ]

-- However the calls of the system answer: when `run_command` returns, both ends of the pipe are
-- closed and the actions destroyed, nothing was given back twice, and a child that was started has
-- been waited for, unless it was killed and the `waitpid` behind the `kill` has failed.
pub run_in-Releases :
    (sys : System) (answer : TestRunResult × List Effect)
    → run_in sys ≡ some answer
    → Releases sys answer
unfolding replay run_in
run_in-Releases sys answer eq = elim (Option-cases sys.pipe) [
  | inl no_pipe ↦
      along_some (Releases sys) (rw no_pipe at eq) (nothing_held, refl, refl, refl, inl refl)
  | inr ((r, w), made) ↦ prepare_pipe-Releases sys r w answer (rw made at eq)
]

-- What `run_command` sees of the system, without its resources.
abbrev pub process_of : System → Process
process_of sys = elim sys.pipe [
  | none ↦ not_started (codes "Unable to create the local test-output pipe.")
  | some ends ↦
      if sys.flags_read && sys.flags_set
      then if all_added sys
        then if sys.child_spawned
          then started sys.polls sys.rest sys.elapsed
          else not_started (codes "Unable to start the local CMake/CTest command.")
        else not_started (codes "Unable to prepare the local test process.")
      else not_started (codes "Unable to prepare local test-output capture.")
]

abbrev pub result_of : Option (TestRunResult × List Effect) → Option TestRunResult
result_of none = none
result_of (some (result, effects)) = some result
