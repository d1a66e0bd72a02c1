-- ===== src/Practice/Message/Sound.antt =====
-- What every parsed message satisfies.
use webrtc_snippets.Common.{
  ℕ, zero, suc, ◌+◌, ◌≤◌, ◌≡◌, ◌≢◌, inl, inr, refl, subst, arith, false, not, Option, none, some,
  List, [], ◌∷◌, ◌++◌, ◌==◌, is_empty, length, drop, take, All, Bool-cases, Option-cases, guard,
  >>=-eq-some, along_some, All-append,
}
use webrtc_snippets.Common.Bytes.{Bytes, find_byte, find_text, starts_with, equal, equal_iff}
use webrtc_snippets.Practice.Trim.{trim}
use webrtc_snippets.Common.Bytes.Digits.{from_chars, u32}
use webrtc_snippets.Practice.RequestLine.{split_space, sip_version}
use webrtc_snippets.Practice.RequestLine.Exact.{AreFields, split_space_iff}
use webrtc_snippets.Practice.Message.{
  SipHeader, SipMessage, Kind, request, response, separator, breaks_paired, next_line, parse_header,
  parse_headers, parse_status, parse_start, parse_one_message, parse_series, parse_message_series,
  response_start, code_of,
}

-- What a start line leaves in each kind of message.
abbrev pub IsKind : Kind → SipMessage → Type 0
IsKind request m =
    AreFields (record { method = m.method; uri = m.request_uri; version = sip_version })
    × (m.status_code ≡ 0)
IsKind response m =
    (100 ≤ m.status_code) × (m.status_code ≤ 699) × (m.method ≡ []) × (m.request_uri ≡ [])

abbrev pub IsNamed : SipHeader → Type 0
IsNamed h = h.name ≢ []

pub record IsParsed (m : SipMessage) : Type 0 where
  pub kind_is : IsKind m.kind m
  pub named : All IsNamed m.headers

code_of_bounds : (o : Option (ℕ × Bytes)) {n : ℕ} → code_of o ≡ some n → (100 ≤ n) × (n ≤ 699)
code_of_bounds none e = cc
code_of_bounds (some (v, [])) e = ground arith
code_of_bounds (some (v, c ∷ s)) e = cc

parse_status_bounds : (s : Bytes) {n : ℕ} → parse_status s ≡ some n → (100 ≤ n) × (n ≤ 699)
unfolding parse_status
parse_status_bounds s e = ground (arith, code_of_bounds (from_chars u32 (take 3 s)))

parse_start-IsKind :
    (s : Bytes) {m : SipMessage} → parse_start s ≡ some m → IsKind m.kind m × (m.headers ≡ [])
unfolding parse_start
parse_start-IsKind s {m} e = elim (Bool-cases (starts_with response_start s)) [
  | inl b ↦
      let (n, p, q) = >>=-eq-some (parse_status (drop 8 s)) _ (rw b at e) in
      along_some (λ m. IsKind m.kind m × (m.headers ≡ [])) q
        (((parse_status_bounds _ p).0, (parse_status_bounds _ p).1, refl, refl), refl)
  | inr b ↦
      let (f, p, q) = >>=-eq-some (split_space s) _ (rw b at e) in
      let (_, g, q') = >>=-eq-some (guard (equal f.version sip_version)) _ q in
      let v : f.version ≡ sip_version = (equal_iff _ _).0 (ground arith) in
      along_some (λ m. IsKind m.kind m × (m.headers ≡ [])) q'
        (
          (
            subst (λ w. AreFields (record { method = f.method; uri = f.uri; version = w })) v
                ((split_space_iff s f).0 p).1,
            refl,
          ),
          refl,
        )
]

parse_header-IsNamed : (s : Bytes) {h : SipHeader} → parse_header s ≡ some h → IsNamed h
unfolding parse_header
parse_header-IsNamed s {h} e =
    let (colon, p, q) = >>=-eq-some (find_byte b':' s) _ e in
    let (_, g, r) = >>=-eq-some (guard (not (is_empty (trim (take colon s))))) _ q in
    along_some IsNamed r (λ e. ground arith)

parse_headers-IsNamed :
    (fuel : ℕ) (rest : Bytes) (acc : List SipHeader) {hs : List SipHeader}
    → All IsNamed acc
    → parse_headers fuel rest acc ≡ some hs
    → All IsNamed hs
unfolding parse_headers
parse_headers-IsNamed zero rest acc v e = cc
parse_headers-IsNamed (suc fuel) rest acc {hs} v e = elim (Bool-cases (is_empty rest)) [
  | inl done ↦ along_some (All IsNamed) (rw done at e) v
  | inr more ↦ elim (Bool-cases (is_empty (next_line rest).0)) [
    | inl blank ↦ elim (Bool-cases (is_empty (next_line rest).1)) [
      | inl last ↦ along_some (All IsNamed) (rw (more, blank, last) at e) v
      | inr content ↦ absurd (cc (rw (more, blank, content) at e))
    ]
    | inr header ↦
        let (h, p, q) = >>=-eq-some (parse_header (next_line rest).0) _ (rw (more, header) at e) in
        parse_headers-IsNamed fuel (next_line rest).1 (acc ++ h ∷ [])
          (All-append IsNamed acc (h ∷ []) v (parse_header-IsNamed _ p, tt)) q
  ]
]

parse_one_message-IsParsed :
    (s : Bytes) {m : SipMessage} → parse_one_message s ≡ some m → IsParsed m
unfolding parse_one_message
parse_one_message-IsParsed s {m} e =
    let (_, _, e1) = >>=-eq-some (guard (not (is_empty s))) _ e in
    let (_, _, e2) = >>=-eq-some (guard (breaks_paired false s)) _ e1 in
    let (_, _, e3) = >>=-eq-some (guard (not (is_empty (next_line s).0))) _ e2 in
    let (start, p, e4) = >>=-eq-some (parse_start (next_line s).0) _ e3 in
    let (hs, q, e5) =
      >>=-eq-some (parse_headers (suc (length (next_line s).1)) (next_line s).1 []) _ e4 in
    along_some IsParsed e5 (record {
      kind_is = IsKind-headers start hs (parse_start-IsKind _ p).0;
      named = parse_headers-IsNamed _ _ [] tt q;
    })
  where
    IsKind-headers :
        (m : SipMessage) (hs : List SipHeader)
        → IsKind m.kind m
        → IsKind m.kind (record m { headers = hs })
    IsKind-headers m hs v = by_kind m.kind m hs v
      where
        by_kind :
            (k : Kind) (m : SipMessage) (hs : List SipHeader)
            → IsKind k m
            → IsKind k (record m { headers = hs })
        by_kind request m hs v = v
        by_kind response m hs v = v

parse_series-IsParsed :
    (fuel : ℕ) (s : Bytes) (acc : List SipMessage) {ms : List SipMessage}
    → All IsParsed acc
    → parse_series fuel s acc ≡ some ms
    → All IsParsed ms
unfolding parse_series
parse_series-IsParsed zero s acc v e = cc
parse_series-IsParsed (suc fuel) s acc v e = elim (Bool-cases (is_empty s)) [
  | inl done ↦ along_some (All IsParsed) (rw (done, parse_series) at e) v
  | inr more ↦ elim (Option-cases (find_text separator s)) [
    | inl last ↦
        let (m, p, q) = >>=-eq-some (parse_one_message s) _ (rw (more, last, parse_series) at e) in
        along_some (All IsParsed) q
          (All-append IsParsed acc (m ∷ []) v (parse_one_message-IsParsed _ p, tt))
    | inr (sep, found) ↦
        let (_, _, q) =
          >>=-eq-some (guard (not (sep == 0))) _ (rw (more, found, parse_series) at e) in
        let (m, p, r) = >>=-eq-some (parse_one_message (take sep s)) _ q in
        parse_series-IsParsed fuel (drop (sep + 4) s) (acc ++ m ∷ [])
          (All-append IsParsed acc (m ∷ []) v (parse_one_message-IsParsed _ p, tt)) r
  ]
]

-- Whatever trace is parsed, there is at least one message, and in each message the header names
-- are not empty; a request has a method and a URI that are not empty and hold no space; a response
-- has a status code from 100 to 699, and neither method nor URI.
pub parse_message_series-IsParsed :
    (trace : Bytes) {ms : List SipMessage}
    → parse_message_series trace ≡ some ms
    → (ms ≢ []) × All IsParsed ms
unfolding parse_message_series
parse_message_series-IsParsed trace e =
    let (_, _, e1) = >>=-eq-some (guard (not (is_empty trace))) _ e in
    let (ms, p, e2) = >>=-eq-some (parse_series (suc (length trace)) trace []) _ e1 in
    let (_, g, e3) = >>=-eq-some (guard (not (is_empty ms))) _ e2 in
    along_some (λ ms. (ms ≢ []) × All IsParsed ms) e3
      ((λ none_left. ground arith), parse_series-IsParsed _ trace [] tt p)
