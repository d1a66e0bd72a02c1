-- ===== src/Practice/Catalog.antt =====
-- basic/include/practice/exercise.hpp and basic/src/catalog.cpp. A catalog is its sorted list of
-- exercises; the sort of its constructor, which keeps a list that is in order, is not modelled.
pub mod Entries
pub mod Complete
use webrtc_snippets.Common.{
  ℕ, zero, suc, ◌+◌, ◌-◌, ◌*◌, ◌/◌, ◌%◌, ◌^◌, ◌≤◌, ◌<◌, ◌≡◌, ◌≢◌, ◌↔◌, ◌⊎◌, inl, inr, refl, sym, ap,
  ◌∙◌, subst, arith, tests, Bool, true, false, not, ◌&&◌, ◌||◌, Option, none, some, List, [], ◌∷◌,
  ◌++◌, map, append-nil, append_assoc, ◌==◌, ltb, leb, if◌then◌else◌, is_empty, length, get_elem?,
  drop, take, All, Bool-cases, Option-cases, guard, ◌>>=◌, ◌>>◌, >>=-eq-some, along_some, if_cases,
  ==_refl, ==_ne, ==_iff, length-append, take-append-drop, take-length, drop-length,
  drop-length_next, drop-add, drop-length-add, is_empty-append, is_empty-append_cons, take_all,
  All-append, length-take, length-drop, ltb→lt, lt→ltb, leb→le, replicate, is_none,
}
use webrtc_snippets.Common.Bytes.{
  Bytes, codes, Avoids, find_byte, find_byte_from, find_text, starts_with, substr, equal, equal_iff,
  equal_refl,
}
use webrtc_snippets.Common.Bytes.Find.{
  find_byte-append, find_byte-Avoids, find_byte_cases, find_byte_from-append, find_text-Avoids,
  find_text-none,
}

pub data CheckState : Type 0 where
  not_implemented failed passed : CheckState

pub record CheckResult : Type 0 where
  pub state : CheckState
  pub detail : Bytes

-- What an exercise prints and returns; none of them returns a negative number.
pub record Run : Type 0 where
  pub printed : Bytes
  pub returned : ℕ

-- An empty `std::function` is `none`.
pub record Exercise : Type 0 where
  pub day : ℕ
  pub slug : Bytes
  pub title : Bytes
  pub difficulty : Bytes
  pub estimate : Bytes
  pub cpp_topics : Bytes
  pub rtc_topics : Bytes
  pub summary : Bytes
  pub run : Option Run
  pub check : Option CheckResult

-- `std::lower_bound` on exercises in order of their days.
unfoldable pub lower_bound : List Exercise → ℕ → Option Exercise
lower_bound [] day = none
lower_bound (e ∷ es) day = if ltb e.day day then lower_bound es day else some e

unfoldable pub find : List Exercise → ℕ → Option Exercise
find exercises day = do e ← lower_bound exercises day; guard (e.day == day); some e

unfoldable pub is_invalid : ℕ → Exercise → Bool
is_invalid index e =
    not (e.day == index + 1)
    || is_empty e.slug
    || is_empty e.title
    || is_none e.run
    || is_none e.check

-- The loop of `validate`.
unfoldable pub any_invalid : ℕ → List Exercise → Bool
any_invalid index [] = false
any_invalid index (e ∷ es) =
    let rest = any_invalid (index + 1) es in if is_invalid index e then true else rest

unfoldable pub validate : List Exercise → Bytes
validate exercises =
    if not (length exercises == 30)
    then codes "catalog must contain exactly 30 exercises"
    else if any_invalid 0 exercises
    then codes "catalog contains an invalid or non-contiguous exercise"
    else []

unfoldable pub check_state_name : CheckState → Bytes
check_state_name not_implemented = codes "not_implemented"
check_state_name failed = codes "failed"
check_state_name passed = codes "passed"

abbrev pub print_check_result : CheckResult → Bytes
print_check_result r = codes "Check: " ++ check_state_name r.state ++ 10 ∷ (r.detail ++ 10 ∷ [])
