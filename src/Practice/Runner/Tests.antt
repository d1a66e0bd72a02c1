-- ===== src/Practice/Runner/Tests.antt =====
-- Runs of the console on the catalog of the lab, and its theorems there.
use webrtc_snippets.Common.{ℕ, ◌+◌, ◌≡◌, refl, arith, none, some, List, [], ◌∷◌, drop}
use webrtc_snippets.Common.Bytes.{Bytes, codes}
use webrtc_snippets.Practice.Words.{split_token, skip_blanks, tokens_of, tokenize, two_digit}
use webrtc_snippets.Practice.Catalog.{Exercise, Run, is_invalid, any_invalid, validate}
use webrtc_snippets.Practice.Catalog.Entries.{catalog}
use webrtc_snippets.Practice.Runner.{run_exercise, run_day, run_tui}
use webrtc_snippets.Practice.Runner.Registered.{run_day-two_digit}
use webrtc_snippets.Practice.Runner.Returns.{code_of, run_tui-code}

abbrev solution : ℕ → Run
solution day = record { printed = []; returned = day }

abbrev lab : List Exercise
lab = catalog solution

validate-lab : validate lab ≡ []
unfolding validate any_invalid is_invalid
validate-lab = refl

abbrev words : List Bytes
words = codes "run" ∷ codes "03" ∷ []

tokenize-words : tokenize (codes "  run   03 ") ≡ some words
unfolding tokenize tokens_of split_token skip_blanks
tokenize-words = refl

tokenize-many : tokenize (codes "run 03 04") ≡ none
unfolding tokenize tokens_of split_token skip_blanks
tokenize-many = refl

abbrev no_exercise : Exercise
no_exercise = record {
  day = 0;
  slug = [];
  title = [];
  difficulty = [];
  estimate = [];
  cpp_topics = [];
  rtc_topics = [];
  summary = [];
  run = none;
  check = none;
}

run_tui-code_example :
    code_of (run_tui lab (codes "run 03" ∷ codes "nonsense" ∷ codes "quit" ∷ [])) ≡ some 0
run_tui-code_example =
    run_tui-code lab (codes "run 03" ∷ codes "nonsense" ∷ codes "quit" ∷ []) validate-lab

abbrev first_of : List Exercise → Exercise
first_of [] = no_exercise
first_of (e ∷ es) = e

run_day-two_digit_example :
    run_day lab (codes "run") (two_digit (2 + 1) ∷ [])
    ≡ run_exercise (codes "run") (first_of (drop 2 lab))
run_day-two_digit_example =
    run_day-two_digit lab (codes "run") 2 (first_of (drop 2 lab)) validate-lab refl (omega arith)
