-- ===== src/SignalServer/RequestHandler/Tests.antt =====
-- Runs of the request handler on concrete requests, and its theorems at such requests.
use webrtc_snippets.Common.{
  ℕ, ◌≡◌, refl, arith, Bool, true, ◌&&◌, Option, none, some, [], ◌∷◌, ◌++◌, leb, if◌then◌else◌,
}
use webrtc_snippets.Common.Bytes.{Bytes, codes, find_text, starts_with, equal}
use webrtc_snippets.Common.Bytes.Digits.{to_decimal, decimal_digits}
use Prim.Native.String.{String}
use webrtc_snippets.SignalServer.RequestParser.{Request, empty_request}
use webrtc_snippets.SignalServer.Reply.{Reply, ok, bad_request, stock_reply}
use webrtc_snippets.SignalServer.MimeTypes.{extension_to_type, find_type}
use webrtc_snippets.Common.Bytes.CString.{skip_spaces, c_str}
use webrtc_snippets.SignalServer.RequestHandler.{
  hex_value, hex_digits, strip_0x, number_at, read_hex, url_decode, find_last, extension_of,
  ends_in_slash, request_path, handle_request,
}
use webrtc_snippets.SignalServer.RequestHandler.Decode.{encode, url_decode-encode}
use webrtc_snippets.SignalServer.RequestHandler.Inside.{handle_request_inside}
use webrtc_snippets.SignalServer.RequestHandler.Framed.{IsFramed, handle_request-IsFramed}

abbrev is_letter : ℕ → Bool
is_letter c = leb b'a' c && leb c b'z'

url_decode-encode_example :
    url_decode (encode is_letter true (codes "a b/%")) ≡ some (codes "a b/%")
url_decode-encode_example =
    url_decode-encode is_letter true (codes "a b/%") refl refl
      (omega arith, (omega arith, (omega arith, (omega arith, (omega arith, tt)))))

-- A digit in front of what is none is accepted, and so is a sign.
malformed : url_decode (codes "%5g%-1") ≡ some (5 ∷ 255 ∷ [])
unfolding url_decode read_hex skip_spaces strip_0x number_at hex_digits hex_value
malformed = refl

-- One page, whatever other paths hold.
abbrev one_page : Bytes → Option Bytes
one_page path = if equal path (codes "/srv/index.html") then some (codes "hello") else none

abbrev or_secret : Bytes → Option Bytes
or_secret path = if starts_with (codes "/etc") path then some (codes "secret") else one_page path

abbrev asked : String → Request
asked uri = record empty_request { uri = codes uri }

abbrev no_reply : Reply
no_reply = record { status = ok; headers = []; content = [] }

get-page : handle_request (codes "/srv") one_page (asked "/") no_reply ≡ record {
  status = ok;
  headers =
      record { name = codes "Content-Length"; value = codes "5" }
      ∷ record { name = codes "Content-Type"; value = codes "text/html" }
      ∷ [];
  content = codes "hello";
}
unfolding handle_request request_path url_decode find_text starts_with ends_in_slash c_str equal
    to_decimal decimal_digits extension_to_type find_type extension_of find_last
get-page = refl

get-dots :
    (handle_request (codes "/srv") one_page (asked "/%2e%2E/etc") no_reply).status ≡ bad_request
unfolding handle_request request_path url_decode find_text starts_with read_hex skip_spaces strip_0x
    number_at hex_digits hex_value stock_reply
get-dots = refl

one_page-or_secret :
    (path : Bytes) → one_page (codes "/srv" ++ path) ≡ or_secret (codes "/srv" ++ path)
unfolding starts_with
one_page-or_secret path = refl

handle_request_inside_example :
    handle_request (codes "/srv") one_page (asked "/%2e%2e/etc/passwd") no_reply
    ≡ handle_request (codes "/srv") or_secret (asked "/%2e%2e/etc/passwd") no_reply
handle_request_inside_example =
    handle_request_inside (codes "/srv") one_page or_secret (asked "/%2e%2e/etc/passwd") no_reply
      (omega arith) (λ path v. one_page-or_secret path)

handle_request-IsFramed_example :
    IsFramed (handle_request (codes "/srv") one_page (asked "/") no_reply)
handle_request-IsFramed_example =
    handle_request-IsFramed (codes "/srv") one_page (asked "/") no_reply
