-- ===== src/Practice/Message.antt =====
-- basic/include/practice/sip_message.hpp and basic/src/sip_message.cpp: the parser of a series of
-- SIP messages. Views into the trace are values here: no view outlives its text.
pub mod Lines
pub mod RoundTrip
pub mod Sound
pub mod Fuel
pub mod Lookup
use webrtc_snippets.Common.{
  ℕ, zero, suc, ◌+◌, ◌-◌, ◌*◌, ◌/◌, ◌%◌, ◌^◌, ◌≤◌, ◌<◌, ◌≡◌, ◌≢◌, ◌↔◌, ◌⊎◌, inl, inr, refl, sym, ap,
  ◌∙◌, subst, arith, tests, Bool, true, false, not, ◌&&◌, ◌||◌, Option, none, some, List, [], ◌∷◌,
  ◌++◌, map, append-nil, append_assoc, ◌==◌, ltb, leb, if◌then◌else◌, is_empty, length, get_elem?,
  drop, take, All, Bool-cases, Option-cases, guard, ◌>>=◌, ◌>>◌, >>=-eq-some, ==_refl, ==_ne,
  ==_iff, length-append, take-append-drop, take-length, drop-length, drop-length_next, drop-add,
  take_all, All-append, length-take, length-drop, ltb→lt, lt→ltb, leb→le, replicate,
}
use webrtc_snippets.Common.Bytes.{
  Bytes, codes, Avoids, find_byte, find_byte_from, find_text, starts_with, substr, equal, equal_iff,
  equal_refl,
}
use webrtc_snippets.Common.Bytes.Find.{
  find_byte-append, find_byte-Avoids, find_byte_cases, find_byte_from-append,
}
use webrtc_snippets.Common.Bytes.Digits.{from_chars, u32}
use webrtc_snippets.Practice.Trim.{trim}
pub use webrtc_snippets.Common.Bytes.Lines.{cr, lf, crlf, separator}
use webrtc_snippets.Practice.RequestLine.{Fields, split_space, sip_version}

pub record SipHeader : Type 0 where
  pub name : Bytes
  pub value : Bytes

pub data Kind : Type 0 where
  request response : Kind

pub record SipMessage : Type 0 where
  pub kind : Kind
  pub method : Bytes
  pub request_uri : Bytes
  pub status_code : ℕ
  pub headers : List SipHeader

abbrev starts_lf : Bytes → Bool
starts_lf [] = false
starts_lf (c ∷ s) = c == lf

-- The loop that wants every line break to be CRLF; the flag is `segment[i - 1] == '\r'`.
unfoldable pub breaks_paired : Bool → Bytes → Bool
breaks_paired after_cr [] = true
breaks_paired after_cr (c ∷ s) =
    not (c == cr && not (starts_lf s)) && not (c == lf && not after_cr) && breaks_paired (c == cr) s

-- The text up to the first CRLF, and what follows it; all of it where there is none.
abbrev line_at : Bytes → Option ℕ → Bytes × Bytes
line_at s none = (s, [])
line_at s (some i) = (take i s, drop (i + 2) s)

unfoldable pub next_line : Bytes → Bytes × Bytes
unfolding find_text
next_line s = line_at s (find_text crlf s)

abbrev pub response_start : Bytes
response_start = codes "SIP/2.0 "

abbrev code_of : Option (ℕ × Bytes) → Option ℕ
code_of none = none
code_of (some (code, [])) = if ltb code 100 || ltb 699 code then none else some code
code_of (some (code, c ∷ rest)) = none

abbrev phrase_follows : Bytes → Bool
phrase_follows [] = true
phrase_follows (c ∷ s) = c == b' '

-- A status line, `SIP/2.0 ` taken off.
unfoldable pub parse_status : Bytes → Option ℕ
unfolding from_chars
parse_status after_version = do
  guard (not (ltb (length after_version) 3))
  code ← code_of (from_chars u32 (take 3 after_version))
  guard (phrase_follows (drop 3 after_version))
  some code

-- The message of a start line, with no headers yet.
unfoldable pub parse_start : Bytes → Option SipMessage
parse_start start_line =
    if starts_with response_start start_line
    then (do
      code ← parse_status (drop 8 start_line)
      some (record {
        kind = response;
        method = [];
        request_uri = [];
        status_code = code;
        headers = [];
      }))
    else (do
      f ← split_space start_line
      guard (equal f.version sip_version)
      some (record {
        kind = request;
        method = f.method;
        request_uri = f.uri;
        status_code = 0;
        headers = [];
      }))

unfoldable pub parse_header : Bytes → Option SipHeader
parse_header line = do
  colon ← find_byte b':' line
  let name = trim (substr line 0 colon)
  guard (not (is_empty name))
  some (record { name = name; value = trim (drop (colon + 1) line) })

-- The loop over the header lines, on fuel; `none` also when the fuel runs out.
unfoldable pub parse_headers : ℕ → Bytes → List SipHeader → Option (List SipHeader)
parse_headers zero rest headers = none
parse_headers (suc fuel) rest headers =
    let (line, rest') = next_line rest in
    let more = (do h ← parse_header line; parse_headers fuel rest' (headers ++ h ∷ [])) in
    if is_empty rest
    then some headers
    else if is_empty line
    then (if is_empty rest' then some headers else none)
    else more

unfoldable pub parse_one_message : Bytes → Option SipMessage
parse_one_message segment = do
  guard (not (is_empty segment))
  guard (breaks_paired false segment)
  let (start_line, rest) = next_line segment
  guard (not (is_empty start_line))
  msg ← parse_start start_line
  headers ← parse_headers (suc (length rest)) rest []
  some (record msg { headers = headers })

-- The loop over the trace, on fuel: what is left of it, and the messages so far.
unfoldable pub parse_series : ℕ → Bytes → List SipMessage → Option (List SipMessage)
parse_series zero trace messages = none
parse_series (suc fuel) trace messages = elim (is_empty trace) [
  | true ↦ some messages
  | false ↦ elim (find_text separator trace) [
    | none ↦ do msg ← parse_one_message trace; some (messages ++ msg ∷ [])
    | some sep ↦ do
      guard (not (sep == 0))
      msg ← parse_one_message (take sep trace)
      parse_series fuel (drop (sep + 4) trace) (messages ++ msg ∷ [])
  ]
]

unfoldable pub parse_message_series : Bytes → Option (List SipMessage)
parse_message_series trace = do
  guard (not (is_empty trace))
  messages ← parse_series (suc (length trace)) trace []
  guard (not (is_empty messages))
  some messages

unfoldable pub find_header_in : List SipHeader → Bytes → Option SipHeader
unfolding equal
find_header_in [] name = none
find_header_in (h ∷ hs) name = if equal h.name name then some h else find_header_in hs name

abbrev pub find_header : SipMessage → Bytes → Option SipHeader
find_header m name = find_header_in m.headers name

abbrev up_to_tag : Bytes → Option ℕ → Bytes
up_to_tag value none = value
up_to_tag value (some tag_pos) = substr value 0 tag_pos

unfoldable pub get_address : SipHeader → Option Bytes
unfolding find_byte find_byte_from find_text
get_address h = elim (is_empty h.value) [
  | true ↦ none
  | false ↦ elim (find_byte b'<' h.value) [
    | none ↦ some (up_to_tag h.value (find_text (codes ";tag=") h.value))
    | some address_pos ↦ do
      address_end ← find_byte_from b'>' h.value (address_pos + 1)
      guard (not (address_pos + 1 == address_end))
      some (substr h.value (address_pos + 1) (address_end - address_pos - 1))
  ]
]
