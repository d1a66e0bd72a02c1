-- ===== src/SignalServer/RequestParser/Safe.antt =====
-- What a request holds at every point of the parse.
use webrtc_snippets.Common.{
  ℕ, ◌<◌, ◌≡◌, ◌≢◌, refl, arith, true, false, ◌||◌, List, [], ◌∷◌, ◌++◌, ◌==◌, All, if_cases,
  is_empty-append_cons, All-append,
}
use webrtc_snippets.Common.Bytes.{Bytes, Avoids}
use webrtc_snippets.SignalServer.RequestParser.{
  Header, Request, ResultType, good, bad, indeterminate, ParserState, Step, go, consume, Parsed,
  parse, is_token, is_ctl, on_last, push_name, push_value, empty_request, method_start, in_method,
  in_uri, http_version_slash, http_version_major_start, header_line_start, header_lws, header_name,
  space_before_header_value, header_value, expecting_newline_2,
}

abbrev pub IsToken : Bytes → Type 0
IsToken = All (λ c. is_token c ≡ true)

-- No control byte, so no line break.
abbrev pub IsText : Bytes → Type 0
IsText = All (λ c. is_ctl c ≡ false)

pub record IsHeader (h : Header) : Type 0 where
  pub name_some : h.name ≢ []
  pub name_token : IsToken h.name
  pub value_text : IsText h.value

pub record IsClean (r : Request) : Type 0 where
  pub method_token : IsToken r.method
  pub uri_text : IsText r.uri
  pub uri_plain : Avoids b' ' r.uri
  pub headers_clean : All IsHeader r.headers
  pub major_range : r.http_version_major < 0x100000000
  pub minor_range : r.http_version_minor < 0x100000000

-- What else each state knows: the method has begun, or a last header is there.
abbrev pub Knows : ParserState → Request → Type 0
Knows method_start r = Unit
Knows header_lws r = (r.method ≢ []) × (r.headers ≢ [])
Knows header_name r = (r.method ≢ []) × (r.headers ≢ [])
Knows space_before_header_value r = (r.method ≢ []) × (r.headers ≢ [])
Knows header_value r = (r.method ≢ []) × (r.headers ≢ [])
Knows expecting_newline_2 r = (r.method ≢ []) × (r.headers ≢ [])
Knows _ r = r.method ≢ []

IsToken-append : (s : Bytes) (c : ℕ) → IsToken s → is_token c ≡ true → IsToken (s ++ c ∷ [])
IsToken-append s c t h = All-append _ s (c ∷ []) t (h, tt)

append_some : (s : Bytes) (c : ℕ) → s ++ c ∷ [] ≢ []
append_some s c e = ground (arith, is_empty-append_cons s c [])

on_last-clean :
    (f : Header → Header) (hs : List Header)
    → ((h : Header) → IsHeader h → IsHeader (f h))
    → All IsHeader hs
    → All IsHeader (on_last f hs)
on_last-clean f [] k v = tt
on_last-clean f (h ∷ []) k v = (k h v.0, tt)
on_last-clean f (h ∷ x ∷ hs) k v = (v.0, on_last-clean f (x ∷ hs) k v.1)

on_last-some : (f : Header → Header) (hs : List Header) → hs ≢ [] → on_last f hs ≢ []
on_last-some f [] n e = n refl
on_last-some f (h ∷ []) n e = cc
on_last-some f (h ∷ x ∷ hs) n e = cc

push_name-IsHeader :
    (c : ℕ) (h : Header) → is_token c ≡ true → IsHeader h → IsHeader (push_name c h)
push_name-IsHeader c h t v = record {
  name_some = append_some h.name c;
  name_token = IsToken-append h.name c v.name_token t;
  value_text = v.value_text;
}

push_value-IsHeader :
    (c : ℕ) (h : Header) → is_ctl c ≡ false → IsHeader h → IsHeader (push_value c h)
push_value-IsHeader c h t v = record {
  name_some = v.name_some;
  name_token = v.name_token;
  value_text = All-append _ h.value (c ∷ []) v.value_text (t, tt);
}

abbrev pub IsGood : Step → Type 0
IsGood q = IsClean q.request × Knows q.state q.request

module _ (r : Request) (c : ℕ) (v : IsClean r) where
  append-IsHeader :
      is_token c ≡ true → All IsHeader (r.headers ++ record { name = c ∷ []; value = [] } ∷ [])
  append-IsHeader t =
      All-append IsHeader r.headers _ v.headers_clean
        (record { name_some = λ e. cc; name_token = (t, tt); value_text = tt }, tt)

  replace_headers : (hs : List Header) → All IsHeader hs → IsClean (record r { headers = hs })
  replace_headers hs w = record {
    method_token = v.method_token;
    uri_text = v.uri_text;
    uri_plain = v.uri_plain;
    headers_clean = w;
    major_range = v.major_range;
    minor_range = v.minor_range;
  }

  module _ (k : (r.method ≢ []) × (r.headers ≢ [])) where
    push_value-IsGood :
        is_ctl c ≡ false
        → IsGood (go header_value (record r { headers = on_last (push_value c) r.headers }))
    push_value-IsGood text = (
      replace_headers _ (
          on_last-clean (push_value c) r.headers (λ h. push_value-IsHeader c h text)
            v.headers_clean),
      (k.0, on_last-some (push_value c) r.headers k.1),
    )

    push_name-IsGood :
        is_token c ≡ true
        → IsGood (go header_name (record r { headers = on_last (push_name c) r.headers }))
    push_name-IsGood token = (
      replace_headers _ (
          on_last-clean (push_name c) r.headers (λ h. push_name-IsHeader c h token)
            v.headers_clean),
      (k.0, on_last-some (push_name c) r.headers k.1),
    )

append_header_some :
    (r : Request) (c : ℕ) → r.headers ++ record { name = c ∷ []; value = [] } ∷ [] ≢ []
append_header_some r c e =
    ground (arith, is_empty-append_cons r.headers (record { name = c ∷ []; value = [] }) [])

consume-IsGood :
    (s : ParserState) (r : Request) (c : ℕ) → IsClean r → Knows s r → IsGood (consume s r c)
unfolding consume
consume-IsGood method_start r c v k =
    ground (arith, IsToken-append r.method c v.method_token, append_some r.method c)
consume-IsGood in_method r c v k =
    ground (arith, IsToken-append r.method c v.method_token, append_some r.method c)
consume-IsGood in_uri r c v k =
    if_cases IsGood (c == b' ') (λ _. (v, k))
      λ other.
        if_cases IsGood (is_ctl c) (λ _. (v, k))
          λ text. (
            record {
              method_token = v.method_token;
              uri_text = All-append _ r.uri (c ∷ []) v.uri_text (text, tt);
              uri_plain = All-append _ r.uri (c ∷ []) v.uri_plain (ground arith, tt);
              headers_clean = v.headers_clean;
              major_range = v.major_range;
              minor_range = v.minor_range;
            },
            k,
          )
consume-IsGood http_version_slash r c v k = ground arith
consume-IsGood http_version_major_start r c v k = ground arith
consume-IsGood header_line_start r c v k =
    ground (arith, append-IsHeader r c v, append_header_some r c)
consume-IsGood header_lws r c v k =
    if_cases IsGood (c == b'\r') (λ _. (v, k))
      λ _.
        if_cases IsGood (c == b' ' || c == b'\t') (λ _. (v, k))
          λ _. if_cases IsGood (is_ctl c) (λ _. (v, k)) λ text. push_value-IsGood r c v k text
consume-IsGood header_name r c v k =
    if_cases IsGood (c == b':') (λ _. (v, k))
      λ _. if_cases IsGood (is_token c) (λ token. push_name-IsGood r c v k token) (λ _. (v, k))
consume-IsGood header_value r c v k =
    if_cases IsGood (c == b'\r') (λ _. (v, k))
      λ _. if_cases IsGood (is_ctl c) (λ _. (v, k)) λ text. push_value-IsGood r c v k text
consume-IsGood _ r c v k = ground arith

parse-IsGood :
    (s : ParserState) (r : Request) (input : Bytes)
    → IsClean r
    → Knows s r
    → IsGood (parse s r input).step
unfolding parse
parse-IsGood s r [] v k = (v, k)
parse-IsGood s r (c ∷ input) v k =
    let (v', k') = consume-IsGood s r c v k in
    by_result (consume s r c).result (v', k')
      (parse-IsGood (consume s r c).state (consume s r c).request input v' k')
  where
    by_result :
        (t : ResultType)
        → IsGood (consume s r c)
        → IsGood (parse (consume s r c).state (consume s r c).request input).step
        → IsGood
            (elim t as (λ x. Parsed) [
              | indeterminate ↦ parse (consume s r c).state (consume s r c).request input
              | good ↦ record { step = consume s r c; rest = input }
              | bad ↦ record { step = consume s r c; rest = input }
            ]).step
    by_result indeterminate here later = later
    by_result good here later = here
    by_result bad here later = here

-- However much input a new parser has read, and whatever its result, the request so far is clean:
-- the method is a token; the URI has no space and no control byte; each header has a name that is a
-- token and not empty, and a value with no control byte, so with no line break; the version numbers
-- fit 32 bits. In the states that write to the last header there is one.
pub parse_clean : (input : Bytes) → IsGood (parse method_start empty_request input).step
parse_clean input =
    parse-IsGood method_start empty_request input
      (record {
        method_token = tt;
        uri_text = tt;
        uri_plain = tt;
        headers_clean = tt;
        major_range = omega arith;
        minor_range = omega arith;
      })
      tt
