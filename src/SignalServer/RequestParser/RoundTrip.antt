-- ===== src/SignalServer/RequestParser/RoundTrip.antt =====
-- A request, printed and parsed.
use webrtc_snippets.Common.{
  ℕ, ◌≡◌, ◌≢◌, refl, ◌∙◌, arith, true, List, [], ◌∷◌, ◌++◌, append-nil, append_assoc, All,
}
use webrtc_snippets.Common.Bytes.{Bytes, Avoids}
use webrtc_snippets.SignalServer.RequestParser.{
  Header, Request, good, stop, consume, parse, is_token, is_digit, push_digit, empty_request,
  method_start, in_method, in_uri, http_version_major_start, http_version_major,
  http_version_minor_start, http_version_minor, header_line_start, header_name, header_value,
  expecting_newline_3,
}
use webrtc_snippets.SignalServer.RequestParser.Safe.{IsToken, IsText, IsHeader}
use webrtc_snippets.SignalServer.RequestParser.Runs.{
  IsDigits, digits_value, last_header, run_method, run_uri, run_major, run_minor, run_name,
  run_value,
}

abbrev pub header_line : Header → Bytes → Bytes
header_line h rest = h.name ++ b':' ∷ b' ' ∷ (h.value ++ b'\r' ∷ b'\n' ∷ rest)

abbrev pub header_lines : List Header → Bytes → Bytes
header_lines [] rest = b'\r' ∷ b'\n' ∷ rest
header_lines (h ∷ hs) rest = header_line h (header_lines hs rest)

-- A request with version `major.minor`, and what follows it in the input.
abbrev pub print_request : Request → Bytes → Bytes → Bytes → Bytes
print_request r major minor rest =
    r.method
    ++ b' '
      ∷ (r.uri
          ++ b' '
            ∷ b'H'
            ∷ b'T'
            ∷ b'T'
            ∷ b'P'
            ∷ b'/'
            ∷ (major ++ b'.' ∷ (minor ++ b'\r' ∷ b'\n' ∷ header_lines r.headers rest)))

pub record IsRequest (r : Request) : Type 0 where
  pub method_some : r.method ≢ []
  pub method_token : IsToken r.method
  pub uri_text : IsText r.uri
  pub uri_plain : Avoids b' ' r.uri
  pub headers_are : All IsHeader r.headers

start_name :
    (rest : Bytes) (r : Request) (c : ℕ)
    → is_token c ≡ true
    → parse header_line_start r (c ∷ rest)
      ≡ parse header_name (last_header r r.headers (c ∷ []) []) rest
unfolding parse consume is_token
start_name rest r c t = ground arith

colon :
    (r : Request) (rest : Bytes)
    → parse header_name r (b':' ∷ b' ' ∷ rest) ≡ parse header_value r rest
unfolding parse consume
colon r rest = refl

end_line :
    (r : Request) (rest : Bytes)
    → parse header_value r (b'\r' ∷ b'\n' ∷ rest) ≡ parse header_line_start r rest
unfolding parse consume
end_line r rest = refl

run_header :
    (h : Header) (r : Request) (rest : Bytes)
    → IsHeader h
    → parse header_line_start r (header_line h rest)
      ≡ parse header_line_start (record r { headers = r.headers ++ h ∷ [] }) rest
run_header h r rest v = by_name h.name h.value v.name_some v.name_token v.value_text
  where
    by_name :
        (n u : Bytes)
        → n ≢ []
        → IsToken n
        → IsText u
        → parse header_line_start r (n ++ b':' ∷ b' ' ∷ (u ++ b'\r' ∷ b'\n' ∷ rest))
          ≡ parse header_line_start (last_header r r.headers n u) rest
    by_name [] u ne t x = absurd (ne refl)
    by_name (c ∷ n) u ne t x =
        start_name (n ++ b':' ∷ b' ' ∷ (u ++ b'\r' ∷ b'\n' ∷ rest)) r c t.0
        ∙ run_name n r r.headers (c ∷ []) [] (b':' ∷ b' ' ∷ (u ++ b'\r' ∷ b'\n' ∷ rest)) t.1
        ∙ colon (last_header r r.headers (c ∷ n) []) (u ++ b'\r' ∷ b'\n' ∷ rest)
        ∙ run_value u r r.headers (c ∷ n) [] (b'\r' ∷ b'\n' ∷ rest) x
        ∙ end_line (last_header r r.headers (c ∷ n) u) rest

run_headers :
    (hs : List Header) (r : Request) (rest : Bytes)
    → All IsHeader hs
    → parse header_line_start r (header_lines hs rest) ≡ record {
      step = stop good expecting_newline_3 (record r { headers = r.headers ++ hs });
      rest = rest;
    }
unfolding parse consume
run_headers [] r rest v = rw append-nil
run_headers (h ∷ hs) r rest v =
    run_header h r (header_lines hs rest) v.0
    ∙ run_headers hs (record r { headers = r.headers ++ h ∷ [] }) rest v.1
    ∙ rw append_assoc

module _ (rest : Bytes) where
  first_byte :
      (c : ℕ)
      → is_token c ≡ true
      → parse method_start empty_request (c ∷ rest)
        ≡ parse in_method (record empty_request { method = c ∷ [] }) rest
  unfolding parse consume
  first_byte c t = ground arith

  first_major :
      (r : Request) (c : ℕ)
      → is_digit c ≡ true
      → parse http_version_major_start r (c ∷ rest)
        ≡ parse http_version_major
            (record r { http_version_major = push_digit r.http_version_major c })
            rest
  unfolding parse consume
  first_major r c t = ground arith

  first_minor :
      (r : Request) (c : ℕ)
      → is_digit c ≡ true
      → parse http_version_minor_start r (c ∷ rest)
        ≡ parse http_version_minor
            (record r { http_version_minor = push_digit r.http_version_minor c })
            rest
  unfolding parse consume
  first_minor r c t = ground arith

  end_method : (r : Request) → parse in_method r (b' ' ∷ rest) ≡ parse in_uri r rest
  unfolding parse consume
  end_method r = refl

  end_uri :
      (m u : Bytes)
      → parse in_uri
          (record empty_request { method = m; uri = u })
          (b' ' ∷ b'H' ∷ b'T' ∷ b'T' ∷ b'P' ∷ b'/' ∷ rest)
        ≡ parse http_version_major_start (record empty_request { method = m; uri = u }) rest
  unfolding parse consume
  end_uri m u = refl

  end_major :
      (r : Request)
      → parse http_version_major r (b'.' ∷ rest) ≡ parse http_version_minor_start r rest
  unfolding parse consume
  end_major r = refl

  end_minor :
      (r : Request)
      → parse http_version_minor r (b'\r' ∷ b'\n' ∷ rest) ≡ parse header_line_start r rest
  unfolding parse consume
  end_minor r = refl

-- The two parts of the request line.
run_target :
    (m u rest : Bytes)
    → m ≢ []
    → IsToken m
    → IsText u
    → Avoids b' ' u
    → parse method_start empty_request
        (m ++ b' ' ∷ (u ++ b' ' ∷ b'H' ∷ b'T' ∷ b'T' ∷ b'P' ∷ b'/' ∷ rest))
      ≡ parse http_version_major_start (record empty_request { method = m; uri = u }) rest
run_target [] u rest ne t x n = absurd (ne refl)
run_target (c ∷ m) u rest ne t x n =
    first_byte _ c t.0
    ∙ run_method m (record empty_request { method = c ∷ [] }) _ t.1
    ∙ end_method _ (record empty_request { method = c ∷ m })
    ∙ run_uri u (record empty_request { method = c ∷ m }) _ x n
    ∙ end_uri rest (c ∷ m) u

run_version :
    (r : Request) (major minor rest : Bytes)
    → IsDigits major
    → IsDigits minor
    → major ≢ []
    → minor ≢ []
    → parse http_version_major_start r (major ++ b'.' ∷ (minor ++ b'\r' ∷ b'\n' ∷ rest))
      ≡ parse header_line_start
          (record r {
            http_version_major = digits_value r.http_version_major major;
            http_version_minor = digits_value r.http_version_minor minor;
          })
          rest
run_version r [] minor rest d e n m = absurd (n refl)
run_version r (c ∷ major) [] rest d e n m = absurd (m refl)
run_version r (c ∷ major) (b ∷ minor) rest d e n m =
    let r1 = record r { http_version_major = digits_value r.http_version_major (c ∷ major) } in
    first_major _ r c d.0
    ∙ run_major major (record r { http_version_major = push_digit r.http_version_major c }) _ d.1
    ∙ end_major _ r1
    ∙ first_minor _ r1 b e.0
    ∙ run_minor minor (record r1 { http_version_minor = push_digit r.http_version_minor b }) _ e.1
    ∙ end_minor rest
        (record r1 { http_version_minor = digits_value r.http_version_minor (b ∷ minor) })

-- A well-formed request, printed with any decimal version and followed by any bytes, is read back:
-- the parser stops at its last byte with the result `good`, the same method, URI and headers, and
-- the version numbers modulo 2 ^ 32, and leaves the bytes that follow.
pub parse-print_request :
    (r : Request) (major minor rest : Bytes)
    → IsRequest r
    → IsDigits major
    → IsDigits minor
    → major ≢ []
    → minor ≢ []
    → parse method_start empty_request (print_request r major minor rest) ≡ record {
      step = stop good expecting_newline_3 (record r {
        http_version_major = digits_value 0 major;
        http_version_minor = digits_value 0 minor;
      });
      rest = rest;
    }
parse-print_request r major minor rest v d e n m =
    let line = record empty_request { method = r.method; uri = r.uri } in
    run_target r.method r.uri _ v.method_some v.method_token v.uri_text v.uri_plain
    ∙ run_version line major minor (header_lines r.headers rest) d e n m
    ∙ run_headers r.headers
        (record line {
          http_version_major = digits_value 0 major;
          http_version_minor = digits_value 0 minor;
        })
        rest v.headers_are
