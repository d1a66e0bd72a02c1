-- ===== src/Practice/Repository.antt =====
-- basic/src/exercise_repository.cpp. The file system is a parameter, in one state: what
-- `std::filesystem` and `std::ifstream` answer for a path, `none` standing for an error. A path is
-- the list of its components. A day that `int` has below zero is not valid; here it is 0.
pub mod Allowed
mod Tests
use webrtc_snippets.Common.{
  ℕ, zero, suc, ◌+◌, ◌-◌, ◌*◌, ◌/◌, ◌%◌, ◌^◌, ◌≤◌, ◌<◌, ◌≡◌, ◌≢◌, ◌↔◌, ◌⊎◌, inl, inr, refl, sym, ap,
  ◌∙◌, subst, arith, tests, Bool, true, false, not, ◌&&◌, ◌||◌, Option, none, some, List, [], ◌∷◌,
  ◌++◌, map, append-nil, append_assoc, ◌==◌, ltb, leb, if◌then◌else◌, is_empty, length, get_elem?,
  drop, take, All, Bool-cases, Option-cases, guard, ◌>>=◌, ◌>>◌, >>=-eq-some, along_some, along_if,
  if_true, if_cases, ==_refl, ==_ne, ==_iff, length-append, take-append-drop, take-length,
  drop-length, drop-length_next, drop-add, drop-length-add, is_empty-append, is_empty-append_cons,
  take_all, All-append, length-take, length-drop, ltb→lt, lt→ltb, leb→le, replicate, is_none, every,
  every-lt,
}
use webrtc_snippets.Common.Bytes.{
  Bytes, concat, codes, Avoids, find_byte, find_byte_from, find_text, starts_with, substr, equal,
  equal_iff, equal_refl,
}
use webrtc_snippets.Common.Bytes.Find.{
  find_byte-append, find_byte-Avoids, find_byte_cases, find_byte_from-append, find_text-Avoids,
  find_text-none,
}
use webrtc_snippets.Common.Bytes.Digits.{to_decimal}
use webrtc_snippets.Practice.Catalog.{Exercise, find}
use webrtc_snippets.Practice.TestRunner.{is_valid_day}

-- `entries` are the names that an iterator over a directory comes to before an error or its end, and
-- `none` where there is no such iterator.
pub record FileSystem : Type 0 where
  pub weakly_canonical : List Bytes → Option (List Bytes)
  pub entries : List Bytes → Option (List Bytes)
  pub is_directory : List Bytes → Bool
  pub is_regular_file : List Bytes → Bool
  pub file_size : List Bytes → Option ℕ
  pub read : List Bytes → Option Bytes

pub record ExerciseSummary : Type 0 where
  pub day : ℕ
  pub title : Bytes
  pub cpp_topics : Bytes
  pub rtc_topics : Bytes
  pub summary : Bytes

pub record ExerciseDetail : Type 0 where
  pub summary : ExerciseSummary
  pub readme : Bytes
  pub header : Bytes
  pub source : Bytes
  pub source_path : Bytes

abbrev pub maximum_file_bytes : ℕ
maximum_file_bytes = 1024 * 1024

unfoldable pub day_prefix : ℕ → Bytes
day_prefix day = if ltb day 10 then codes "0" ++ to_decimal day else to_decimal day

-- The loop stops at the end of either path, or where they differ.
unfoldable pub is_within : List Bytes → List Bytes → Bool
unfolding equal
is_within [] candidate = true
is_within (b ∷ base) [] = false
is_within (b ∷ base) (c ∷ candidate) =
    let rest = is_within base candidate in if equal b c then rest else false

abbrev pub summary_of : Exercise → ExerciseSummary
summary_of e = record {
  day = e.day;
  title = e.title;
  cpp_topics = e.cpp_topics;
  rtc_topics = e.rtc_topics;
  summary = e.summary;
}

-- `list`.
abbrev pub list : List Exercise → List ExerciseSummary
list exercises = map summary_of exercises

-- `path::filename`.
abbrev pub filename : List Bytes → Bytes
filename [] = []
filename (name ∷ []) = name
filename (name ∷ next ∷ path) = filename (next ∷ path)

abbrev pub read_of : Option ℕ → Option Bytes → Option Bytes
read_of size content = do n ← size; if ltb maximum_file_bytes n then none else content

module _ (fs : FileSystem) where
  -- The constructor.
  unfoldable pub exercises_root_of : List Bytes → List Bytes
  exercises_root_of exercises_root = elim (fs.weakly_canonical exercises_root) [
    | none ↦ []
    | some path ↦ path
  ]

  -- Whether one entry of the directory is taken, and as which path.
  unfoldable pub take_entry : List Bytes → Bytes → Bytes → Option (List Bytes)
  unfolding starts_with is_within
  take_entry root prefix name =
      if starts_with prefix name && fs.is_directory (root ++ name ∷ [])
      then (do
        canonical ← fs.weakly_canonical (root ++ name ∷ [])
        guard (is_within root canonical)
        some canonical)
      else none

  -- The loop of `exercise_directory`.
  unfoldable pub find_entry : List Bytes → Bytes → List Bytes → Option (List Bytes)
  unfolding take_entry
  find_entry root prefix [] = none
  find_entry root prefix (name ∷ names) =
      let rest = find_entry root prefix names in
      elim (take_entry root prefix name) [ none ↦ rest | some path ↦ some path ]

  unfoldable pub exercise_directory : List Bytes → ℕ → Option (List Bytes)
  unfolding find_entry is_valid_day day_prefix
  exercise_directory root day =
      if not (is_valid_day day) || is_empty root
      then none
      else (do names ← fs.entries root; find_entry root (day_prefix day ++ codes "_") names)

  unfoldable pub read_allowed_file : List Bytes → Bytes → Option Bytes
  unfolding is_within
  read_allowed_file directory name = do
    file ← fs.weakly_canonical (directory ++ name ∷ [])
    guard (is_within directory file)
    guard (fs.is_regular_file file)
    read_of (fs.file_size file) (fs.read file)

  unfoldable pub detail : List Exercise → List Bytes → ℕ → Option ExerciseDetail
  unfolding read_allowed_file exercise_directory find
  detail exercises root day = do
    exercise ← find exercises day
    directory ← exercise_directory root day
    readme ← read_allowed_file directory (codes "README.md")
    header ← read_allowed_file directory (codes "starter.hpp")
    source ← read_allowed_file directory (codes "starter.cpp")
    some (record {
      summary = summary_of exercise;
      readme = readme;
      header = header;
      source = source;
      source_path = codes "exercises/" ++ filename directory ++ codes "/starter.cpp";
    })
