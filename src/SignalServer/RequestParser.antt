-- ===== src/SignalServer/RequestParser.antt =====
-- signal_server/request.hpp, header.hpp, request_parser.hpp and request_parser.cpp. A byte stands
-- for the `char` of its bit pattern, so a byte from 128 is negative where `char` is signed. The two
-- version numbers are `int` in the source; past its range the model wraps their bit pattern.
pub mod Chunks
pub mod Safe
pub mod Runs
pub mod RoundTrip
use webrtc_snippets.Common.{
  ℕ, zero, suc, ◌+◌, ◌-◌, ◌*◌, ◌/◌, ◌%◌, ◌^◌, ◌≤◌, ◌<◌, ◌≡◌, ◌≢◌, ◌↔◌, ◌⊎◌, inl, inr, refl, sym, ap,
  ◌∙◌, subst, arith, tests, Bool, true, false, not, ◌&&◌, ◌||◌, Option, none, some, List, [], ◌∷◌,
  ◌++◌, map, append-nil, append_assoc, ◌==◌, ltb, leb, if◌then◌else◌, is_empty, length, get_elem?,
  drop, take, All, Bool-cases, Option-cases, guard, ◌>>=◌, ◌>>◌, >>=-eq-some, along_some, ==_refl,
  ==_ne, ==_iff, length-append, take-append-drop, take-length, drop-length, drop-length_next,
  drop-add, drop-length-add, is_empty-append, is_empty-append_cons, take_all, All-append,
  length-take, length-drop, ltb→lt, lt→ltb, leb→le, replicate,
}
use webrtc_snippets.Common.Bytes.{
  Bytes, codes, Avoids, find_byte, find_byte_from, find_text, starts_with, substr, equal, equal_iff,
  equal_refl,
}
use webrtc_snippets.Common.Bytes.Find.{
  find_byte-append, find_byte-Avoids, find_byte_cases, find_byte_from-append, find_text-Avoids,
  find_text-none,
}

pub record Header : Type 0 where
  pub name : Bytes
  pub value : Bytes

pub record Request : Type 0 where
  pub method : Bytes
  pub uri : Bytes
  pub http_version_major : ℕ
  pub http_version_minor : ℕ
  pub headers : List Header

pub data ResultType : Type 0 where
  good bad indeterminate : ResultType

pub data ParserState : Type 0 where
  method_start in_method in_uri : ParserState
  http_version_h http_version_t_1 http_version_t_2 http_version_p http_version_slash : ParserState
  http_version_major_start http_version_major http_version_minor_start http_version_minor :
      ParserState
  expecting_newline_1 header_line_start header_lws header_name space_before_header_value :
      ParserState
  header_value expecting_newline_2 expecting_newline_3 : ParserState

-- Both signs of `char` give these two values: a byte from 128 is no character and no control.
unfoldable pub is_char : ℕ → Bool
is_char c = leb c 127

unfoldable pub is_ctl : ℕ → Bool
is_ctl c = leb c 31 || c == 127

abbrev pub one_of : ℕ → Bytes → Bool
one_of c [] = false
one_of c (x ∷ s) = c == x || one_of c s

unfoldable pub is_tspecial : ℕ → Bool
is_tspecial c = one_of c (codes "()<>@,;:\\\"/[]?={} \t")

unfoldable pub is_digit : ℕ → Bool
is_digit c = leb b'0' c && leb c b'9'

-- What the parser lets into a method or a header name.
unfoldable pub is_token : ℕ → Bool
unfolding is_char is_ctl is_tspecial
is_token c = not (not (is_char c) || is_ctl c || is_tspecial c)

pub record Step : Type 0 where
  pub state : ParserState
  pub request : Request
  pub result : ResultType

abbrev pub go : ParserState → Request → Step
go s r = record { state = s; request = r; result = indeterminate }

abbrev pub stop : ResultType → ParserState → Request → Step
stop v s r = record { state = s; request = r; result = v }

-- `headers.back()` of no header is undefined; here it changes nothing.
abbrev pub on_last : (Header → Header) → List Header → List Header
on_last f [] = []
on_last f (h ∷ []) = f h ∷ []
on_last f (h ∷ k ∷ hs) = h ∷ on_last f (k ∷ hs)

abbrev pub push_name : ℕ → Header → Header
push_name c h = record h { name = h.name ++ c ∷ [] }

abbrev pub push_value : ℕ → Header → Header
push_value c h = record h { value = h.value ++ c ∷ [] }

abbrev pub push_digit : ℕ → ℕ → ℕ
push_digit v c = (v * 10 + c - b'0') % 0x100000000

-- A state that wants one byte and nothing else.
expect : ℕ → ParserState → ParserState → Request → ℕ → Step
expect wanted next s r c = if c == wanted then go next r else stop bad s r

-- `case method_start`, `case method` and `case uri`.
consume_method_start : Request → ℕ → Step
consume_method_start r c =
    if is_token c
    then go in_method (record r { method = r.method ++ c ∷ [] })
    else stop bad method_start r

consume_method : Request → ℕ → Step
consume_method r c =
    if c == b' '
    then go in_uri r
    else if is_token c
    then go in_method (record r { method = r.method ++ c ∷ [] })
    else stop bad in_method r

consume_uri : Request → ℕ → Step
consume_uri r c =
    if c == b' '
    then go http_version_h r
    else if is_ctl c
    then stop bad in_uri r
    else go in_uri (record r { uri = r.uri ++ c ∷ [] })

-- `case http_version_slash` and the cases of the version numbers.
consume_slash : Request → ℕ → Step
consume_slash r c =
    if c == b'/'
    then go http_version_major_start (record r { http_version_major = 0; http_version_minor = 0 })
    else stop bad http_version_slash r

consume_major : Bool → Request → ℕ → Step
consume_major started r c =
    if started && c == b'.'
    then go http_version_minor_start r
    else if is_digit c
    then go http_version_major (record r { http_version_major = push_digit r.http_version_major c })
    else stop bad (if started then http_version_major else http_version_major_start) r

consume_minor : Bool → Request → ℕ → Step
consume_minor started r c =
    if started && c == b'\r'
    then go expecting_newline_1 r
    else if is_digit c
    then go http_version_minor (record r { http_version_minor = push_digit r.http_version_minor c })
    else stop bad (if started then http_version_minor else http_version_minor_start) r

-- `case header_line_start` to `case header_value`.
consume_line_start : Request → ℕ → Step
consume_line_start r c =
    if c == b'\r'
    then go expecting_newline_3 r
    else if not (is_empty r.headers) && (c == b' ' || c == b'\t')
    then go header_lws r
    else if is_token c
    then go header_name
        (record r { headers = r.headers ++ record { name = c ∷ []; value = [] } ∷ [] })
    else stop bad header_line_start r

consume_lws : Request → ℕ → Step
consume_lws r c =
    if c == b'\r'
    then go expecting_newline_2 r
    else if c == b' ' || c == b'\t'
    then go header_lws r
    else if is_ctl c
    then stop bad header_lws r
    else go header_value (record r { headers = on_last (push_value c) r.headers })

consume_name : Request → ℕ → Step
consume_name r c =
    if c == b':'
    then go space_before_header_value r
    else if is_token c
    then go header_name (record r { headers = on_last (push_name c) r.headers })
    else stop bad header_name r

consume_value : Request → ℕ → Step
consume_value r c =
    if c == b'\r'
    then go expecting_newline_2 r
    else if is_ctl c
    then stop bad header_value r
    else go header_value (record r { headers = on_last (push_value c) r.headers })

unfoldable pub consume : ParserState → Request → ℕ → Step
unfolding expect consume_method_start consume_method consume_uri consume_slash consume_major
    consume_minor consume_line_start consume_lws consume_name consume_value
consume method_start r c = consume_method_start r c
consume in_method r c = consume_method r c
consume in_uri r c = consume_uri r c
consume http_version_h r c = expect b'H' http_version_t_1 http_version_h r c
consume http_version_t_1 r c = expect b'T' http_version_t_2 http_version_t_1 r c
consume http_version_t_2 r c = expect b'T' http_version_p http_version_t_2 r c
consume http_version_p r c = expect b'P' http_version_slash http_version_p r c
consume http_version_slash r c = consume_slash r c
consume http_version_major_start r c = consume_major false r c
consume http_version_major r c = consume_major true r c
consume http_version_minor_start r c = consume_minor false r c
consume http_version_minor r c = consume_minor true r c
consume expecting_newline_1 r c = expect b'\n' header_line_start expecting_newline_1 r c
consume header_line_start r c = consume_line_start r c
consume header_lws r c = consume_lws r c
consume header_name r c = consume_name r c
consume space_before_header_value r c = expect b' ' header_value space_before_header_value r c
consume header_value r c = consume_value r c
consume expecting_newline_2 r c = expect b'\n' header_line_start expecting_newline_2 r c
consume expecting_newline_3 r c = stop (if c == b'\n' then good else bad) expecting_newline_3 r

-- A parser in mid-request: its state, the request so far, the last result, and the input left.
pub record Parsed : Type 0 where
  pub step : Step
  pub rest : Bytes

-- The loop of `parse`; the iterator is the input left.
unfoldable pub parse : ParserState → Request → Bytes → Parsed
parse s r [] = record { step = go s r; rest = [] }
parse s r (c ∷ input) =
    let q = consume s r c in
    elim q.result [
      | indeterminate ↦ parse q.state q.request input
      | good ↦ record { step = q; rest = input }
      | bad ↦ record { step = q; rest = input }
    ]

abbrev pub empty_request : Request
empty_request = record {
  method = [];
  uri = [];
  http_version_major = 0;
  http_version_minor = 0;
  headers = [];
}

-- The constructor and `reset` leave the parser at `method_start`.
abbrev pub initial_state : ParserState
initial_state = method_start
