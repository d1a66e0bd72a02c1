-- ===== src/SignalServer/Tests.antt =====
-- Runs of the signalling server's code on concrete texts, and its theorems at such texts.
use webrtc_snippets.Common.{◌≡◌, refl, arith, [], ◌∷◌, ◌++◌}
use webrtc_snippets.Common.Bytes.{Bytes, codes}
use webrtc_snippets.SignalServer.RequestParser.{
  Request, good, bad, parse, empty_request, method_start, stop, expecting_newline_3, consume,
  is_token, is_digit, is_ctl, is_char, is_tspecial,
}
use webrtc_snippets.SignalServer.RequestParser.Safe.{IsGood, parse_clean}
use webrtc_snippets.SignalServer.RequestParser.RoundTrip.{
  IsRequest, print_request, parse-print_request,
}

abbrev crlf : Bytes
crlf = b'\r' ∷ b'\n' ∷ []

abbrev get : Request
get = record {
  method = codes "GET";
  uri = codes "/a?b=c";
  http_version_major = 1;
  http_version_minor = 1;
  headers =
      record { name = codes "Host"; value = codes "me" }
      ∷ record { name = codes "X"; value = [] }
      ∷ [];
}

abbrev get_text : Bytes
get_text =
    codes "GET /a?b=c HTTP/1.1" ++ crlf ++ codes "Host: me" ++ crlf ++ codes "X: " ++ crlf ++ crlf

parse-get :
    parse method_start empty_request (get_text ++ codes "next")
    ≡ record { step = stop good expecting_newline_3 get; rest = codes "next" }
unfolding parse consume is_token is_digit is_ctl is_char is_tspecial
parse-get = refl

-- A control byte in the URI.
bad_uri : (parse method_start empty_request (codes "GET /\t HTTP/1.1")).step.result ≡ bad
unfolding parse consume is_token is_digit is_ctl is_char is_tspecial
bad_uri = refl

parse_clean_example : IsGood (parse method_start empty_request get_text).step
parse_clean_example = parse_clean get_text

get-IsRequest : IsRequest get
unfolding is_token is_ctl is_char is_tspecial
get-IsRequest = record {
  method_some = λ e. cc;
  method_token = (refl, (refl, (refl, tt)));
  uri_text = (refl, (refl, (refl, (refl, (refl, (refl, tt))))));
  uri_plain = omega arith;
  headers_are = (
    record {
      name_some = λ e. cc;
      name_token = (refl, (refl, (refl, (refl, tt))));
      value_text = (refl, (refl, tt));
    },
    (record { name_some = λ e. cc; name_token = (refl, tt); value_text = tt }, tt),
  );
}

parse-print_request_example :
    parse method_start empty_request (print_request get (codes "01") (codes "1") (codes "next"))
    ≡ record { step = stop good expecting_newline_3 get; rest = codes "next" }
unfolding is_digit
parse-print_request_example =
    parse-print_request get (codes "01") (codes "1") (codes "next") get-IsRequest (refl, (refl, tt))
      (refl, tt) (λ e. cc) (λ e. cc)
