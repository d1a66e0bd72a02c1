-- ===== src/Practice/Words.antt =====
-- basic/src/runner.cpp: the words of a command line.
pub mod Tokens
pub mod Days
use webrtc_snippets.Common.{
  ℕ, zero, suc, ◌+◌, ◌-◌, ◌*◌, ◌/◌, ◌%◌, ◌^◌, ◌≤◌, ◌<◌, ◌≡◌, ◌≢◌, ◌↔◌, ◌⊎◌, inl, inr, refl, sym, ap,
  ◌∙◌, subst, arith, tests, Bool, true, false, not, ◌&&◌, ◌||◌, Option, none, some, List, [], ◌∷◌,
  ◌++◌, map, append-nil, append_assoc, ◌==◌, ltb, leb, if◌then◌else◌, is_empty, length, get_elem?,
  drop, take, All, Bool-cases, Option-cases, guard, ◌>>=◌, ◌>>◌, >>=-eq-some, along_some, if_cases,
  ==_refl, ==_ne, ==_iff, length-append, take-append-drop, take-length, drop-length,
  drop-length_next, drop-add, drop-length-add, is_empty-append, is_empty-append_cons, take_all,
  All-append, length-take, length-drop, ltb→lt, lt→ltb, leb→le, replicate, is_none,
}
use webrtc_snippets.Common.Bytes.{
  Bytes, codes, Avoids, find_byte, find_byte_from, find_text, starts_with, substr, equal, equal_iff,
  equal_refl,
}
use webrtc_snippets.Common.Bytes.Find.{
  find_byte-append, find_byte-Avoids, find_byte_cases, find_byte_from-append, find_text-Avoids,
  find_text-none,
}
use webrtc_snippets.Common.Bytes.Digits.{from_chars, to_decimal}

abbrev pub max_command_length : ℕ
max_command_length = 256

-- A minus sign is read by `from_chars` into an `int`, and no number with one is a day.
unfoldable pub parse_day : Bytes → Option ℕ
parse_day text = do
  guard (not (is_empty text || ltb 2 (length text)))
  (value, rest) ← from_chars 0x80000000 text
  guard (is_empty rest && leb 1 value && leb value 30)
  some value

unfoldable pub two_digit : ℕ → Bytes
two_digit day = if ltb day 10 then b'0' ∷ to_decimal day else to_decimal day

-- The token at the front, up to a space, and what follows it.
unfoldable pub split_token : Bytes → Bytes × Bytes
split_token [] = ([], [])
split_token (c ∷ s) =
    let (token, rest) = split_token s in if c == b' ' then ([], c ∷ s) else (c ∷ token, rest)

unfoldable pub skip_blanks : Bytes → Bytes
skip_blanks [] = []
skip_blanks (c ∷ s) = let rest = skip_blanks s in if c == b' ' then rest else c ∷ s

-- The outer loop of `tokenize`, on fuel; the line is what the cursor has before it.
unfoldable pub tokens_of : ℕ → Bytes → List Bytes → Option (List Bytes)
unfolding split_token skip_blanks
tokens_of zero line tokens = none
tokens_of (suc fuel) line tokens =
    let (token, rest) = split_token (skip_blanks line) in
    let tokens = (if is_empty token then tokens else tokens ++ token ∷ []) in
    let later = tokens_of fuel rest tokens in
    if is_empty line then some tokens else if ltb 2 (length tokens) then none else later

unfoldable pub tokenize : Bytes → Option (List Bytes)
tokenize line = do
  guard (not (is_empty line || ltb max_command_length (length line)))
  tokens ← tokens_of (suc (length line)) line []
  guard (not (is_empty tokens))
  some tokens

unfoldable pub normalized_command : Bytes → Bytes
unfolding starts_with
normalized_command command = if starts_with (codes "--") command then drop 2 command else command
