-- ===== src/SignalServer/Reply.antt =====
-- signal_server/reply.hpp and reply.cpp. The status is the enumeration, so the `default` cases,
-- which no value of it takes, are left out.

use webrtc_snippets.Common.{List, [], ◌∷◌, ◌++◌, length}
use webrtc_snippets.Common.Bytes.{Bytes, codes}
use webrtc_snippets.Common.Bytes.Lines.{crlf}
use webrtc_snippets.Common.Bytes.Digits.{to_decimal}
use webrtc_snippets.SignalServer.RequestParser.{Header}

pub data StatusType : Type 0 where
  ok created accepted no_content : StatusType
  multiple_choices moved_permanently moved_temporarily not_modified : StatusType
  bad_request unauthorized forbidden not_found : StatusType
  internal_server_error not_implemented bad_gateway service_unavailable : StatusType

pub record Reply : Type 0 where
  pub status : StatusType
  pub headers : List Header
  pub content : Bytes

-- `status_strings::to_buffer`, without the line break that each of its strings ends in.
unfoldable pub status_text : StatusType → Bytes
status_text ok = codes "HTTP/1.0 200 OK"
status_text created = codes "HTTP/1.0 201 Created"
status_text accepted = codes "HTTP/1.0 202 Accepted"
status_text no_content = codes "HTTP/1.0 204 No Content"
status_text multiple_choices = codes "HTTP/1.0 300 Multiple Choices"
status_text moved_permanently = codes "HTTP/1.0 301 Moved Permanently"
status_text moved_temporarily = codes "HTTP/1.0 302 Moved Temporarily"
status_text not_modified = codes "HTTP/1.0 304 Not Modified"
status_text bad_request = codes "HTTP/1.0 400 Bad Request"
status_text unauthorized = codes "HTTP/1.0 401 Unauthorized"
status_text forbidden = codes "HTTP/1.0 403 Forbidden"
status_text not_found = codes "HTTP/1.0 404 Not Found"
status_text internal_server_error = codes "HTTP/1.0 500 Internal Server Error"
status_text not_implemented = codes "HTTP/1.0 501 Not Implemented"
status_text bad_gateway = codes "HTTP/1.0 502 Bad Gateway"
status_text service_unavailable = codes "HTTP/1.0 503 Service Unavailable"

abbrev pub to_buffer : StatusType → Bytes
to_buffer status = status_text status ++ crlf

abbrev pub page : Bytes → Bytes → Bytes
page title heading =
    codes "<html><head><title>"
    ++ title
    ++ codes "</title></head><body><h1>"
    ++ heading
    ++ codes "</h1></body></html>"

-- `stock_replies::to_string`, whose pages differ in title and heading.
unfoldable pub to_string : StatusType → Bytes
to_string ok = []
to_string created = page (codes "Created") (codes "201 Created")
to_string accepted = page (codes "Accepted") (codes "202 Accepted")
to_string no_content = page (codes "No Content") (codes "204 Content")
to_string multiple_choices = page (codes "Multiple Choices") (codes "300 Multiple Choices")
to_string moved_permanently = page (codes "Moved Permanently") (codes "301 Moved Permanently")
to_string moved_temporarily = page (codes "Moved Temporarily") (codes "302 Moved Temporarily")
to_string not_modified = page (codes "Not Modified") (codes "304 Not Modified")
to_string bad_request = page (codes "Bad Request") (codes "400 Bad Request")
to_string unauthorized = page (codes "Unauthorized") (codes "401 Unauthorized")
to_string forbidden = page (codes "Forbidden") (codes "403 Forbidden")
to_string not_found = page (codes "Not Found") (codes "404 Not Found")
to_string internal_server_error =
    page (codes "Internal Server Error") (codes "500 Internal Server Error")
to_string not_implemented = page (codes "Not Implemented") (codes "501 Not Implemented")
to_string bad_gateway = page (codes "Bad Gateway") (codes "502 Bad Gateway")
to_string service_unavailable = page (codes "Service Unavailable") (codes "503 Service Unavailable")

abbrev pub header_buffers : List Header → List Bytes
header_buffers [] = []
header_buffers (h ∷ hs) = h.name ∷ codes ": " ∷ h.value ∷ crlf ∷ header_buffers hs

unfoldable pub to_buffers : Reply → List Bytes
to_buffers r = to_buffer r.status ∷ (header_buffers r.headers ++ crlf ∷ r.content ∷ [])

abbrev pub content_headers : Bytes → Bytes → List Header
content_headers content type =
    record { name = codes "Content-Length"; value = to_decimal (length content) }
    ∷ record { name = codes "Content-Type"; value = type }
    ∷ []

unfoldable pub stock_reply : StatusType → Reply
stock_reply status = record {
  status = status;
  headers = content_headers (to_string status) (codes "text/html");
  content = to_string status;
}
