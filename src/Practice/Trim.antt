-- ===== src/Practice/Trim.antt =====
-- `trim` of basic/src/sip_message.cpp, and `trim` of basic/include/practice/starter_support.hpp,
-- which basic/exercises/02_sip_headers/starter.cpp repeats.
pub mod Agree
use webrtc_snippets.Common.{
  ℕ, suc, ◌+◌, ◌-◌, Bool, ◌||◌, Option, none, some, [], ◌∷◌, ◌==◌, if◌then◌else◌,
}
use webrtc_snippets.Common.Bytes.{Bytes, substr}
use mathlib.Core.List.{reverse}
use mathlib.Core.Option

abbrev pub is_blank : ℕ → Bool
is_blank c = c == b' ' || c == b'\t'

-- The first loop of `trim`, which removes from the front.
unfoldable pub drop_blanks : Bytes → Bytes
drop_blanks [] = []
drop_blanks (c ∷ s) = if is_blank c then drop_blanks s else c ∷ s

-- The second loop removes from the back: from the front of the reversed text.
unfoldable pub trim : Bytes → Bytes
unfolding drop_blanks
trim s = reverse (drop_blanks (reverse (drop_blanks s)))

-- `find_first_not_of(" \t")` and `find_last_not_of(" \t")`.
unfoldable pub find_first_not_blank : Bytes → Option ℕ
find_first_not_blank [] = none
find_first_not_blank (c ∷ s) =
    if is_blank c then Option.map suc (find_first_not_blank s) else some 0

unfoldable pub find_last_not_blank : Bytes → Option ℕ
find_last_not_blank [] = none
find_last_not_blank (c ∷ s) = elim (find_last_not_blank s) [
  | some i ↦ some (suc i)
  | none ↦ if is_blank c then none else some 0
]

abbrev cut : Bytes → ℕ → Option ℕ → Bytes
cut text first none = []
cut text first (some last) = substr text first (last - first + 1)

unfoldable pub support_trim : Bytes → Bytes
unfolding find_first_not_blank find_last_not_blank
support_trim text = elim (find_first_not_blank text) [
  | none ↦ []
  | some first ↦ cut text first (find_last_not_blank text)
]
