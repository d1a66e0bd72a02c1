-- ===== src/Practice/Repository/Tests.antt =====
-- The exercise repository on a small file system.
use webrtc_snippets.Common.{◌≡◌, refl, Bool, true, false, none, some, List, [], ◌∷◌, if◌then◌else◌}
use webrtc_snippets.Common.Bytes.{Bytes, codes, starts_with, equal}
use webrtc_snippets.Common.Bytes.Digits.{to_decimal, decimal_digits}
use webrtc_snippets.Practice.Catalog.{Exercise, find, lower_bound}
use webrtc_snippets.Practice.TestRunner.{is_valid_day}
use webrtc_snippets.Practice.Repository.{
  FileSystem, ExerciseDetail, day_prefix, is_within, summary_of, take_entry, find_entry,
  exercise_directory, read_allowed_file, detail,
}
use webrtc_snippets.Practice.Repository.Allowed.{IsShown, detail-IsShown}

abbrev first : Exercise
first = record {
  day = 1;
  slug = codes "one";
  title = codes "One";
  difficulty = codes "easy";
  estimate = codes "1h";
  cpp_topics = [];
  rtc_topics = [];
  summary = [];
  run = none;
  check = none;
}

abbrev root : List Bytes
root = codes "/" ∷ codes "lab" ∷ []

is_link : List Bytes → Bool
unfolding equal
is_link [] = false
is_link (name ∷ path) =
    let rest = is_link path in if equal name (codes "01_link") then true else rest

-- Every path is canonical but `01_link`, a link out of the root; every file holds three bytes.
abbrev disk : List Bytes → FileSystem
disk names = record {
  weakly_canonical = λ p. if is_link p then some (codes "/" ∷ codes "etc" ∷ []) else some p;
  entries = λ p. some names;
  is_directory = λ p. true;
  is_regular_file = λ p. true;
  file_size = λ p. some 3;
  read = λ p. some (codes "abc");
}

abbrev shown : ExerciseDetail
shown = record {
  summary = summary_of first;
  readme = codes "abc";
  header = codes "abc";
  source = codes "abc";
  source_path = codes "exercises/01_one/starter.cpp";
}

abbrev names : List Bytes
names = codes "02_two" ∷ codes "01_one" ∷ []

detail_one : detail (disk (codes "01_link" ∷ names)) (first ∷ []) root 1 ≡ some shown
unfolding detail exercise_directory find_entry take_entry read_allowed_file is_within equal
    starts_with is_valid_day day_prefix find lower_bound to_decimal decimal_digits is_link
detail_one = refl

detail_link : detail (disk (codes "01_link" ∷ [])) (first ∷ []) root 1 ≡ none
unfolding detail exercise_directory find_entry take_entry read_allowed_file is_within equal
    starts_with is_valid_day day_prefix find lower_bound to_decimal decimal_digits is_link
detail_link = refl

detail-IsShown_example : IsShown (disk (codes "01_link" ∷ names)) root 1 shown
detail-IsShown_example =
    detail-IsShown (disk (codes "01_link" ∷ names)) (first ∷ []) root 1 shown detail_one
