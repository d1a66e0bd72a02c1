-- ===== src/Practice/Message/RoundTrip.antt =====
-- Messages, printed and parsed.
use webrtc_snippets.Common.{
  ℕ, zero, suc, ◌+◌, ◌/◌, ◌%◌, ◌≤◌, ◌<◌, ◌≡◌, ◌≢◌, refl, sym, ap, ◌∙◌, arith, false, some, List, [],
  ◌∷◌, ◌++◌, append-nil, append_assoc, ◌==◌, is_empty, length, All, length-append, take-length,
  drop-length-add, is_empty-append, All-append,
}
use webrtc_snippets.Common.Bytes.{Bytes, Avoids, find_text, starts_with, equal}
use webrtc_snippets.Common.Bytes.Find.{find_text-Avoids}
use mathlib.Core.Option
use webrtc_snippets.Practice.RequestLine.{Fields, sip_version}
use webrtc_snippets.Practice.RequestLine.Exact.{AreFields, join, split_space_iff}
use webrtc_snippets.Practice.Message.{
  SipHeader, SipMessage, Kind, request, response, cr, lf, separator, parse_status, parse_start,
  parse_one_message, parse_series, parse_message_series, response_start,
}
use webrtc_snippets.Practice.Message.Lines.{
  IsPlain, IsHeader, tail_lines, first_lines, header_line, breaks_paired-lines, next_line-lines,
  parse_headers-lines, find_separator-lines,
}

abbrev pub three_digits : ℕ → Bytes
three_digits n = (n / 100 + b'0') ∷ (n / 10 % 10 + b'0') ∷ (n % 10 + b'0') ∷ []

abbrev pub start_of : Kind → SipMessage → Bytes
start_of request m = join m.method m.request_uri sip_version
start_of response m = response_start ++ three_digits m.status_code

abbrev pub print_message : SipMessage → Bytes
print_message m = start_of m.kind m ++ tail_lines m.headers

-- Each message with the separator behind it.
abbrev pub print_series : List SipMessage → Bytes
print_series [] = []
print_series (m ∷ ms) = print_message m ++ (separator ++ print_series ms)

-- The fields that a start line determines.
abbrev pub IsStart : Kind → SipMessage → Type 0
IsStart request m =
    AreFields (record { method = m.method; uri = m.request_uri; version = sip_version })
    × IsPlain m.method
    × IsPlain m.request_uri
    × (m.method ≢ sip_version)
    × (m.status_code ≡ 0)
IsStart response m =
    (100 ≤ m.status_code) × (m.status_code ≤ 699) × (m.method ≡ []) × (m.request_uri ≡ [])

pub record IsMessage (m : SipMessage) : Type 0 where
  pub start : IsStart m.kind m
  pub headers : All IsHeader m.headers

parse_status-digits : (n : ℕ) → 100 ≤ n → n ≤ 699 → parse_status (three_digits n) ≡ some n
unfolding parse_status
parse_status-digits n lo hi = ground arith

-- A method other than SIP/2.0 is never taken for a status line.
not_response :
    (a s : Bytes)
    → Avoids b' ' a
    → a ≢ sip_version
    → starts_with response_start (a ++ b' ' ∷ s) ≡ false
unfolding starts_with
not_response a s p ne = ground arith

start_IsPlain : (k : Kind) (m : SipMessage) → IsStart k m → IsPlain (start_of k m)
start_IsPlain request m v = (
  All-append _ m.method _ v.1.0 (omega arith, All-append _ m.request_uri _ v.2.0 (omega arith)),
  All-append _ m.method _ v.1.1 (omega arith, All-append _ m.request_uri _ v.2.1 (omega arith)),
)
start_IsPlain response m v = (omega arith, omega arith)

parse_start-start :
    (k : Kind) (m : SipMessage)
    → IsStart k m
    → parse_start (start_of k m) ≡ some (record m { kind = k; headers = [] })
unfolding parse_start equal starts_with
parse_start-start request m v =
    rw (not_response m.method (m.request_uri ++ b' ' ∷ sip_version) v.0.method_plain v.3)
      (rw ((split_space_iff (start_of request m) fields).1 (refl, v.0)) (ground (arith, v.4)))
  where
    fields : Fields
    fields = record { method = m.method; uri = m.request_uri; version = sip_version }
parse_start-start response m v =
    rw (parse_status-digits m.status_code v.0 v.1, parse_start) (ground (arith, v.2, v.3))

start_some : (k : Kind) (m : SipMessage) → is_empty (start_of k m) ≡ false
start_some request m =
    ground (arith, is_empty-append m.method (b' ' ∷ (m.request_uri ++ b' ' ∷ sip_version)))
start_some response m = refl

length-tail_lines : (hs : List SipHeader) → length hs ≤ length (tail_lines hs)
length-tail_lines [] = omega arith
length-tail_lines (h ∷ hs) =
    omega (arith, length-append {0} (header_line h) (tail_lines hs), length-tail_lines hs)

length-first_lines : (hs : List SipHeader) → length hs ≤ length (first_lines hs)
length-first_lines [] = omega arith
length-first_lines (h ∷ hs) = omega (
  arith,
  length-append {0} (header_line h) (tail_lines hs),
  length-append {0} h.name (b':' ∷ b' ' ∷ h.value),
  length-tail_lines hs,
)

parse_one_message-print :
    (m : SipMessage) → IsMessage m → parse_one_message (print_message m) ≡ some m
unfolding parse_one_message
parse_one_message-print m v =
    rw
      (
        is_empty-append (start_of m.kind m) (tail_lines m.headers),
        breaks_paired-lines (start_of m.kind m) m.headers (start_IsPlain m.kind m v.start)
            v.headers,
        next_line-lines (start_of m.kind m) m.headers (start_IsPlain m.kind m v.start).0,
      )
      (rw (
        start_some m.kind m,
        parse_start-start m.kind m v.start,
        parse_headers-lines m.headers (suc (length (first_lines m.headers))) [] v.headers
            (omega (arith, length-first_lines m.headers)),
      ))

find_separator-print :
    (m : SipMessage) (rest : Bytes)
    → IsMessage m
    → find_text separator (print_message m ++ (separator ++ rest)) ≡ some (length (print_message m))
find_separator-print m rest v =
    ap (find_text separator) (append_assoc start (tail_lines m.headers) (separator ++ rest))
    ∙ find_text-Avoids cr (lf ∷ cr ∷ lf ∷ []) start (tail_lines m.headers ++ (separator ++ rest))
        (start_IsPlain m.kind m v.start).0
    ∙ ap (Option.map (λ i. length start + i)) (find_separator-lines m.headers rest v.headers)
    ∙ ap some (sym (length-append start (tail_lines m.headers)))
  where
    start : Bytes
    start = start_of m.kind m

print_message_some : (m : SipMessage) → is_empty (print_message m) ≡ false
print_message_some m =
    rw (is_empty-append (start_of m.kind m) (tail_lines m.headers), start_some m.kind m)

length-print_message : (m : SipMessage) → (length (print_message m) == 0) ≡ false
length-print_message m = some_length (print_message m) (print_message_some m)
  where
    some_length : (s : Bytes) → is_empty s ≡ false → (length s == 0) ≡ false
    some_length s h = ground arith

parse_series-print :
    (ms : List SipMessage) (fuel : ℕ) (acc : List SipMessage)
    → All IsMessage ms
    → length ms < fuel
    → parse_series fuel (print_series ms) acc ≡ some (acc ++ ms)
unfolding parse_series
parse_series-print ms zero acc v f = absurd (omega arith)
parse_series-print [] (suc fuel) acc v f = rw append-nil
parse_series-print (m ∷ ms) (suc fuel) acc v f =
    rw
      (
        is_empty-append (print_message m) (separator ++ print_series ms),
        print_message_some m,
        parse_series,
      )
      (rw (find_separator-print m (print_series ms) v.0, parse_series)
        (rw (length-print_message m, take-length, drop-length-add, parse_one_message-print m v.0)
          (parse_series-print ms fuel (acc ++ m ∷ []) v.1 (omega arith)
            ∙ ap some (append_assoc acc (m ∷ []) ms))))

length-print_series : (ms : List SipMessage) → length ms ≤ length (print_series ms)
length-print_series [] = omega arith
length-print_series (m ∷ ms) = omega (
  arith,
  length-append {0} (print_message m) (separator ++ print_series ms),
  length-print_series ms,
)

-- A nonempty series of well-formed messages, each printed with its separator behind it, is parsed
-- back into the same messages in the same order. Well formed: a request has a method other than
-- SIP/2.0 and a URI, both with no space and no line break, and a response a status from 100 to 699;
-- each header has a trimmed name with no colon and a trimmed value, with no line break.
pub parse_message_series-print :
    (ms : List SipMessage)
    → All IsMessage ms
    → ms ≢ []
    → parse_message_series (print_series ms) ≡ some ms
unfolding parse_message_series
parse_message_series-print [] v ne = absurd (ne refl)
parse_message_series-print (m ∷ ms) v ne =
    rw (is_empty-append (print_message m) (separator ++ print_series ms), print_message_some m)
      (rw (
        parse_series-print (m ∷ ms) (suc (length (print_series (m ∷ ms)))) [] v
          (omega (arith, length-print_series (m ∷ ms)))))
