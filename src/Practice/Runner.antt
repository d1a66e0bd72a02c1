-- ===== src/Practice/Runner.antt =====
-- basic/src/runner.cpp: the commands of the practice lab. What is printed to the two streams is the
-- text of each, and `none` stands for the exception of a call of an empty `std::function`.
pub mod Registered
pub mod Returns
mod Tests
use webrtc_snippets.Common.{
  ℕ, zero, suc, ◌+◌, ◌-◌, ◌*◌, ◌/◌, ◌%◌, ◌^◌, ◌≤◌, ◌<◌, ◌≡◌, ◌≢◌, ◌↔◌, ◌⊎◌, inl, inr, refl, sym, ap,
  ◌∙◌, subst, arith, tests, Bool, true, false, not, ◌&&◌, ◌||◌, Option, none, some, List, [], ◌∷◌,
  ◌++◌, map, append-nil, append_assoc, ◌==◌, ltb, leb, if◌then◌else◌, is_empty, length, get_elem?,
  drop, take, All, Bool-cases, Option-cases, guard, ◌>>=◌, ◌>>◌, >>=-eq-some, along_some, if_cases,
  ==_refl, ==_ne, ==_iff, length-append, take-append-drop, take-length, drop-length,
  drop-length_next, drop-add, drop-length-add, is_empty-append, is_empty-append_cons, take_all,
  All-append, length-take, length-drop, ltb→lt, lt→ltb, leb→le, replicate, is_none,
}
use webrtc_snippets.Common.Bytes.{
  Bytes, codes, Avoids, find_byte, find_byte_from, find_text, starts_with, substr, equal, equal_iff,
  equal_refl,
}
use webrtc_snippets.Common.Bytes.Find.{
  find_byte-append, find_byte-Avoids, find_byte_cases, find_byte_from-append, find_text-Avoids,
  find_text-none,
}
use webrtc_snippets.Common.Bytes.Digits.{to_decimal}
use webrtc_snippets.Practice.Words.{parse_day, two_digit, tokenize, normalized_command}
use webrtc_snippets.Practice.Catalog.{
  CheckState, not_implemented, failed, passed, CheckResult, Run, Exercise, find, print_check_result,
}

-- What a command prints on the two streams, and its exit code.
pub record Printed : Type 0 where
  pub out : Bytes
  pub err : Bytes
  pub code : ℕ

abbrev pub newline : Bytes
newline = 10 ∷ []

abbrev pub says : Bytes → ℕ → Printed
says out code = record { out = out; err = []; code = code }

abbrev pub refuses : Bytes → Printed
refuses err = record { out = []; err = err ++ newline; code = 1 }

abbrev pub help : Bytes
help =
    codes "Commands: list | info <01-30> | run <01-30> | check <01-30> | progress | help | quit"
    ++ newline
    ++ codes "Non-interactive aliases: --list, --info, --run, --check, --help"
    ++ newline

-- The dash between a number and a title, in UTF-8.
abbrev pub dash : Bytes
dash = b' ' ∷ 0xE2 ∷ 0x80 ∷ 0x94 ∷ b' ' ∷ []

unfoldable pub print_exercise : Exercise → Bytes
print_exercise e =
    two_digit e.day
    ++ dash
    ++ e.title
    ++ codes " ["
    ++ e.difficulty
    ++ codes ", "
    ++ e.estimate
    ++ codes "]"
    ++ newline
    ++ codes "C++: "
    ++ e.cpp_topics
    ++ newline
    ++ codes "RTC: "
    ++ e.rtc_topics
    ++ newline
    ++ e.summary
    ++ newline

unfoldable pub list_exercises : List Exercise → Bytes
list_exercises [] = []
list_exercises (e ∷ es) =
    two_digit e.day ++ codes "  " ++ e.title ++ dash ++ e.cpp_topics ++ newline ++ list_exercises es

abbrev pub is_state : CheckState → CheckState → Bool
is_state passed passed = true
is_state failed failed = true
is_state not_implemented not_implemented = true
is_state _ _ = false

-- How many checks end in a state; `none` where one of the functions is empty.
unfoldable pub count_state : CheckState → List Exercise → Option ℕ
count_state state [] = some 0
count_state state (e ∷ es) = do
  result ← e.check
  n ← count_state state es
  some (if is_state result.state state then suc n else n)

unfoldable pub run_progress : List Exercise → Option Bytes
run_progress es = do
  done ← count_state passed es
  unfinished ← count_state not_implemented es
  wrong ← count_state failed es
  some (
      codes "Progress: "
      ++ to_decimal done
      ++ codes "/30 passed, "
      ++ to_decimal unfinished
      ++ codes " not implemented, "
      ++ to_decimal wrong
      ++ codes " failed"
      ++ newline)

abbrev pub check_code : CheckState → ℕ
check_code passed = 0
check_code not_implemented = 2
check_code failed = 1

abbrev pub usage_error : Printed
usage_error = refuses (codes "Usage error.")

-- `info`, `run` and `check` of an exercise.
unfoldable pub run_exercise : Bytes → Exercise → Option Printed
run_exercise command e =
    if equal command (codes "info")
    then some (says (print_exercise e) 0)
    else if equal command (codes "run")
    then (do
      r ← e.run
      some (
          says
            (print_exercise e
              ++ r.printed
              ++ codes "--- Exercise returned "
              ++ to_decimal r.returned
              ++ codes " ---"
              ++ newline)
            r.returned))
    else (do result ← e.check; some (says (print_check_result result) (check_code result.state)))

unfoldable pub takes_day : Bytes → Bool
takes_day command =
    equal command (codes "info") || equal command (codes "run") || equal command (codes "check")

unfoldable pub run_day : List Exercise → Bytes → List Bytes → Option Printed
run_day exercises command [] =
    some (refuses (codes "Usage error. Use " ++ command ++ codes " <01-30>."))
run_day exercises command (a ∷ b ∷ more) =
    some (refuses (codes "Usage error. Use " ++ command ++ codes " <01-30>."))
run_day exercises command (text ∷ []) = elim (parse_day text) [
  | none ↦ some (refuses (codes "Exercise id must be a number from 01 to 30."))
  | some day ↦ elim (find exercises day) [
    | none ↦ some (refuses (codes "Exercise is not registered."))
    | some e ↦ run_exercise command e
  ]
]

-- `run_cli` where there are arguments: the first of them, and the others.
unfoldable pub run_args : List Exercise → Bytes → List Bytes → Option Printed
unfolding normalized_command
run_args exercises first others =
    let command = normalized_command first in
    if equal command (codes "help")
    then some (if is_empty others then says help 0 else usage_error)
    else if equal command (codes "list")
    then some (if is_empty others then says (list_exercises exercises) 0 else usage_error)
    else if equal command (codes "progress")
    then (if is_empty others
        then (do out ← run_progress exercises; some (says out 0))
        else some usage_error)
    else if takes_day command
    then run_day exercises command others
    else some (refuses (codes "Unknown command. Use help for valid commands."))

abbrev pub prompt : Bytes
prompt = codes "practice> "

abbrev pub and_then : Printed → Printed → Printed
and_then a b = record { out = a.out ++ b.out; err = a.err ++ b.err; code = b.code }

abbrev pub leaves : Bytes → Bool
leaves command = equal command (codes "quit") || equal command (codes "exit")

-- What a line makes the loop print, or `none` where it leaves the loop.
unfoldable pub answer : List Exercise → Bytes → Option (Option Printed)
answer exercises line = elim (tokenize line) [
  | none ↦ some (
      some (record {
        out = [];
        err = codes "Invalid command. Use help for valid commands." ++ newline;
        code = 0;
      }))
  | some tokens ↦ elim tokens [
    | [] ↦ none
    | first ∷ others ↦
        if leaves (normalized_command first)
        then none
        else if equal (normalized_command first) (codes "help")
        then some (some (if is_empty others then says help 0 else usage_error))
        else some (run_args exercises first others)
  ]
]

-- The loop of `run_tui` over the lines of the input.
unfoldable pub tui_loop : List Exercise → List Bytes → Option Printed
tui_loop exercises [] = some (says (prompt ++ newline ++ codes "Goodbye." ++ newline) 0)
tui_loop exercises (line ∷ lines) = elim (answer exercises line) [
  | none ↦ some (says (prompt ++ codes "Goodbye." ++ newline) 0)
  | some printed ↦ do
    p ← printed
    rest ← tui_loop exercises lines
    some (and_then (says prompt 0) (and_then p rest))
]

unfoldable pub run_tui : List Exercise → List Bytes → Option Printed
run_tui exercises lines = do
  rest ← tui_loop exercises lines
  some (and_then (says (codes "C++ SIP/WebRTC Practice Lab" ++ newline ++ help) 0) rest)

unfoldable pub run_cli : List Exercise → List Bytes → List Bytes → Option Printed
run_cli exercises [] lines = run_tui exercises lines
run_cli exercises (first ∷ others) lines = run_args exercises first others
