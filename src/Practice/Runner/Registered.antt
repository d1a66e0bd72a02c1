-- ===== src/Practice/Runner/Registered.antt =====
-- What the runner does with a day of a valid catalog.
use webrtc_snippets.Common.{ℕ, ◌+◌, ◌<◌, ◌≡◌, refl, arith, some, List, [], ◌∷◌, get_elem?}
use webrtc_snippets.Common.Bytes.{Bytes}
use webrtc_snippets.Practice.Words.{two_digit}
use webrtc_snippets.Practice.Words.Days.{parse_day-two_digit}
use webrtc_snippets.Practice.Catalog.{Exercise, validate}
use webrtc_snippets.Practice.Catalog.Complete.{find-validate}
use webrtc_snippets.Practice.Runner.{run_exercise, run_day}

-- In a catalog that is valid, `info`, `run` and `check` of a day from 1 to 30, written as the lab
-- prints it, are about the exercise that is listed at that place.
pub run_day-two_digit :
    (exercises : List Exercise) (command : Bytes) (place : ℕ) (e : Exercise)
    → validate exercises ≡ []
    → get_elem? exercises place ≡ some e
    → place < 30
    → run_day exercises command (two_digit (place + 1) ∷ []) ≡ run_exercise command e
unfolding run_day
run_day-two_digit exercises command place e v g p =
    let (_, _, found) = find-validate exercises place v in
    rw (parse_day-two_digit (place + 1) (omega arith) (omega arith), found, g, run_day) refl
