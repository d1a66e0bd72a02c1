-- ===== src/SignalServer/RequestHandler.antt =====
-- signal_server/request_handler.cpp. The file system is a parameter: what a path that is opened
-- holds, or `none` where it cannot be opened.
pub mod Decode
pub mod Inside
pub mod Framed
pub mod Extension
mod Tests
use webrtc_snippets.Common.{
  ℕ, zero, suc, ◌+◌, ◌-◌, ◌*◌, ◌/◌, ◌%◌, ◌^◌, ◌≤◌, ◌<◌, ◌≡◌, ◌≢◌, ◌↔◌, ◌⊎◌, inl, inr, refl, sym, ap,
  ◌∙◌, subst, arith, tests, Bool, true, false, not, ◌&&◌, ◌||◌, Option, none, some, List, [], ◌∷◌,
  ◌++◌, map, append-nil, append_assoc, ◌==◌, ltb, leb, if◌then◌else◌, is_empty, length, get_elem?,
  drop, take, All, Bool-cases, Option-cases, guard, ◌>>=◌, ◌>>◌, >>=-eq-some, along_some, if_cases,
  ==_refl, ==_ne, ==_iff, length-append, take-append-drop, take-length, drop-length,
  drop-length_next, drop-add, drop-length-add, is_empty-append, is_empty-append_cons, take_all,
  All-append, length-take, length-drop, ltb→lt, lt→ltb, leb→le, replicate, is_none,
}
use webrtc_snippets.Common.Bytes.{
  Bytes, codes, Avoids, find_byte, find_byte_from, find_text, starts_with, substr, equal, equal_iff,
  equal_refl,
}
use webrtc_snippets.Common.Bytes.Find.{
  find_byte-append, find_byte-Avoids, find_byte_cases, find_byte_from-append, find_text-Avoids,
  find_text-none,
}
use webrtc_snippets.Common.Bytes.CString.{skip_spaces, c_str}
use webrtc_snippets.SignalServer.RequestParser.{Request}
use webrtc_snippets.SignalServer.Reply.{
  Reply, bad_request, not_found, ok, stock_reply, content_headers,
}
use webrtc_snippets.SignalServer.MimeTypes.{extension_to_type}

-- The value of a hexadecimal digit.
unfoldable pub hex_value : ℕ → Option ℕ
hex_value c =
    if leb b'0' c && leb c b'9'
    then some (c - b'0')
    else if leb b'a' c && leb c b'f'
    then some (c - b'a' + 10)
    else if leb b'A' c && leb c b'F'
    then some (c - b'A' + 10)
    else none

-- The digits at the front, added to a value; whatever follows them stays unread.
unfoldable pub hex_digits : ℕ → Bytes → ℕ
hex_digits v [] = v
hex_digits v (c ∷ s) = elim (hex_value c) [ none ↦ v | some d ↦ hex_digits (v * 16 + d) s ]

unfoldable pub strip_0x : Bytes → Bytes
strip_0x [] = []
strip_0x (c ∷ []) = c ∷ []
strip_0x (c ∷ x ∷ s) = if c == b'0' && (x == b'x' || x == b'X') then s else c ∷ x ∷ s

-- A number has at least one digit.
unfoldable pub number_at : Bytes → Option ℕ
unfolding hex_value hex_digits
number_at [] = none
number_at (c ∷ s) = do d ← hex_value c; some (hex_digits d s)

-- `is >> std::hex >> value`, with the value cast to `char`; the text has two bytes, so the value
-- is in the range of `int`.
unfoldable pub read_hex : Bytes → Option ℕ
unfolding skip_spaces strip_0x number_at
read_hex text = elim (skip_spaces text) [
  | [] ↦ none
  | c ∷ s ↦
      if c == b'+'
      then number_at (strip_0x s)
      else if c == b'-'
      then (do v ← number_at (strip_0x s); some ((0x100 - v % 0x100) % 0x100))
      else number_at (strip_0x (c ∷ s))
]

unfoldable pub url_decode : Bytes → Option Bytes
unfolding read_hex
url_decode [] = some []
url_decode (c ∷ []) =
    if c == b'%' then none else if c == b'+' then some (b' ' ∷ []) else some (c ∷ [])
url_decode (c ∷ d ∷ []) =
    let rest = url_decode (d ∷ []) in
    if c == b'%' then none else (do out ← rest; some ((if c == b'+' then b' ' else c) ∷ out))
url_decode (c ∷ d ∷ e ∷ s) =
    let after = url_decode s in
    let rest = url_decode (d ∷ e ∷ s) in
    if c == b'%'
    then (do value ← read_hex (d ∷ e ∷ []); out ← after; some (value ∷ out))
    else (do out ← rest; some ((if c == b'+' then b' ' else c) ∷ out))

-- `find_last_of` of one byte.
unfoldable pub find_last : ℕ → Bytes → Option ℕ
find_last c [] = none
find_last c (x ∷ s) = elim (find_last c s) [
  | some i ↦ some (suc i)
  | none ↦ if x == c then some 0 else none
]

unfoldable pub extension_of : Bytes → Bytes
unfolding find_last
extension_of path = elim (find_last b'.' path) [
  | none ↦ []
  | some dot ↦ elim (find_last b'/' path) [
    | none ↦ []
    | some slash ↦ if ltb slash dot then drop (dot + 1) path else []
  ]
]

-- `request_path[request_path.size() - 1] == '/'`.
unfoldable pub ends_in_slash : Bytes → Bool
ends_in_slash [] = false
ends_in_slash (c ∷ []) = c == b'/'
ends_in_slash (c ∷ d ∷ s) = ends_in_slash (d ∷ s)

-- The path that is asked for, or `none` where the handler answers `bad_request`.
unfoldable pub request_path : Bytes → Option Bytes
unfolding starts_with
request_path uri = do
  path ← url_decode uri
  guard (starts_with (b'/' ∷ []) path)
  guard (is_none (find_text (b'.' ∷ b'.' ∷ []) path))
  some (if ends_in_slash path then path ++ codes "index.html" else path)

unfoldable pub handle_request : Bytes → (Bytes → Option Bytes) → Request → Reply → Reply
handle_request doc_root files req rep = elim (request_path req.uri) [
  | none ↦ stock_reply bad_request
  | some path ↦ elim (files (c_str (doc_root ++ path))) [
    | none ↦ stock_reply not_found
    | some file ↦ record {
      status = ok;
      headers = content_headers (rep.content ++ file) (extension_to_type (extension_of path));
      content = rep.content ++ file;
    }
  ]
]
