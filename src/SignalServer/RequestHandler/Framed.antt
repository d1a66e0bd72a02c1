-- ===== src/SignalServer/RequestHandler/Framed.antt =====
-- What a client can read out of the bytes of a reply.
use webrtc_snippets.Common.{
  ℕ, ◌+◌, ◌≡◌, ◌≢◌, inl, inr, refl, ap, ◌∙◌, arith, Option, some, List, [], ◌∷◌, ◌++◌, append-nil,
  append_assoc, length, Option-cases, length-append, All-append,
}
use webrtc_snippets.Common.Bytes.{concat, Bytes, codes, Avoids, find_text, starts_with}
use webrtc_snippets.Common.Bytes.Find.{find_text-Avoids}
use webrtc_snippets.Common.Bytes.Lines.{cr, lf, crlf, separator, pass_line}
use webrtc_snippets.Common.Bytes.Digits.{read_digits, to_decimal}
use webrtc_snippets.Common.Bytes.Decimal.{AreDigits, read_digits-to_decimal, to_decimal-AreDigits}
use mathlib.Core.Option
use webrtc_snippets.SignalServer.RequestParser.{Header, Request}
use webrtc_snippets.SignalServer.Reply.{
  StatusType, Reply, status_text, to_string, to_buffers, content_headers, stock_reply, bad_request,
  not_found, ok,
}
use webrtc_snippets.SignalServer.MimeTypes.{find_type, extension_to_type}
use webrtc_snippets.Common.Bytes.CString.{c_str}
use webrtc_snippets.SignalServer.RequestHandler.{request_path, extension_of, handle_request}

abbrev pub header_text : Header → Bytes
header_text h = h.name ++ codes ": " ++ h.value

-- The bytes that are written for a reply: a client finds the content behind the first empty line,
-- and the first header is the length of the content.
pub record IsFramed (rep : Reply) : Type 0 where
  pub head : Bytes
  pub bytes : concat (to_buffers rep) ≡ head ++ (separator ++ rep.content)
  pub first_empty_line : find_text separator (concat (to_buffers rep)) ≡ some (length head)
  pub length_text : Bytes
  pub others : List Header
  pub length_first :
      rep.headers ≡ record { name = codes "Content-Length"; value = length_text } ∷ others
  pub digits : ℕ
  pub length_right : read_digits 0 0 length_text ≡ (length rep.content, digits, [])

AreDigits-plain : (s : Bytes) → AreDigits s → Avoids cr s
AreDigits-plain [] v = tt
AreDigits-plain (c ∷ s) v = (ground (arith, v.0), AreDigits-plain s v.1)

status_plain : (status : StatusType) → Avoids cr (status_text status)
unfolding status_text
status_plain status = ground arith

type_plain : (extension : Bytes) → Avoids cr (extension_to_type extension)
unfolding extension_to_type find_type
type_plain extension = ground arith

-- Three lines, and the first empty line behind them.
abbrev three_lines : Bytes → Bytes → Bytes → Bytes
three_lines a b c = a ++ (crlf ++ (b ++ (crlf ++ c)))

three_lines-append :
    (a b c s : Bytes) → three_lines a b c ++ s ≡ a ++ (crlf ++ (b ++ (crlf ++ (c ++ s))))
three_lines-append a b c s = simp append_assoc

find_separator : (rest : Bytes) → find_text separator (separator ++ rest) ≡ some 0
unfolding find_text starts_with
find_separator rest = refl

find_empty_line :
    (a b c rest : Bytes)
    → Avoids cr a
    → Avoids cr b
    → Avoids cr c
    → b ≢ []
    → c ≢ []
    → find_text separator (a ++ (crlf ++ (b ++ (crlf ++ (c ++ (separator ++ rest))))))
      ≡ some (length (three_lines a b c))
find_empty_line a b c rest p q r nb nc =
    find_text-Avoids cr (lf ∷ cr ∷ lf ∷ []) a _ p
    ∙ ap (Option.map (λ i. length a + i)) (pass_line b (crlf ++ (c ++ (separator ++ rest))) q nb)
    ∙ ap (λ o. Option.map (λ i. length a + i) (Option.map (λ i. length b + 2 + i) o))
        (pass_line c (separator ++ rest) r nc)
    ∙ rw (find_separator rest) (
        ap some (
          omega (arith, length-append a (crlf ++ (b ++ (crlf ++ c))), length-append b (crlf ++ c))))

abbrev content_reply : StatusType → Bytes → Bytes → Reply
content_reply status content type = record {
  status = status;
  headers = content_headers content type;
  content = content;
}

written_lines :
    (status : StatusType) (content type : Bytes)
    → concat (to_buffers (content_reply status content type))
      ≡ three_lines
          (status_text status)
          (codes "Content-Length: " ++ to_decimal (length content))
          (codes "Content-Type: " ++ type)
        ++ (separator ++ content)
unfolding to_buffers
written_lines status content type = simp (append_assoc, append-nil)

framed :
    (status : StatusType) (content type : Bytes)
    → Avoids cr type
    → IsFramed (content_reply status content type)
framed status content type p =
    let value = to_decimal (length content) in
    let a = status_text status in
    let b = codes "Content-Length: " ++ value in
    let c = codes "Content-Type: " ++ type in
    record {
      head = three_lines a b c;
      bytes = written_lines status content type;
      first_empty_line =
          ap (find_text separator)
            (written_lines status content type ∙ three_lines-append a b c (separator ++ content))
          ∙ find_empty_line a b c content (status_plain status)
              (All-append _ (codes "Content-Length: ") value (ground arith)
                (AreDigits-plain value (to_decimal-AreDigits (length content))))
              (All-append _ (codes "Content-Type: ") type (ground arith) p) (λ e. cc) (λ e. cc);
      length_text = value;
      others = record { name = codes "Content-Type"; value = type } ∷ [];
      length_first = refl;
      digits = (read_digits-to_decimal (length content)).0;
      length_right = (read_digits-to_decimal (length content)).1;
    }

stock_reply-IsFramed : (status : StatusType) → IsFramed (stock_reply status)
unfolding stock_reply
stock_reply-IsFramed status = framed status (to_string status) (codes "text/html") (ground arith)

-- Whatever is asked for, whatever the files hold and whatever the reply had before, in the bytes
-- that are written for the reply of `handle_request` the content starts behind the first empty
-- line, and the first header is Content-Length with the length of the content in decimal.
pub handle_request-IsFramed :
    (doc_root : Bytes) (files : Bytes → Option Bytes) (req : Request) (rep : Reply)
    → IsFramed (handle_request doc_root files req rep)
unfolding handle_request
handle_request-IsFramed doc_root files req rep = elim (Option-cases (request_path req.uri)) [
  | inl refused ↦ rw (refused, handle_request) (stock_reply-IsFramed bad_request)
  | inr (path, found) ↦ elim (Option-cases (files (c_str (doc_root ++ path)))) [
    | inl missing ↦ rw (found, missing, handle_request) (stock_reply-IsFramed not_found)
    | inr (file, there) ↦
        rw (found, there, handle_request)
          (framed ok (rep.content ++ file) (extension_to_type (extension_of path))
            (type_plain (extension_of path)))
  ]
]
