-- ===== src/Practice/Tests.antt =====
-- Runs of the practice lab's code on concrete texts, and its theorems at such texts.
use webrtc_snippets.Common.{
  ℕ, ◌≡◌, ◌≢◌, ◌↔◌, inr, refl, arith, none, some, List, [], ◌∷◌, ◌++◌, All,
}
use webrtc_snippets.Common.Bytes.{
  Bytes, codes, find_byte, find_byte_from, find_text, starts_with, equal,
}
use webrtc_snippets.Common.Bytes.Digits.{from_chars}
use Prim.Native.String.{String}
use webrtc_snippets.Practice.RequestLine.{Fields, split_space, parse_request_line}
use webrtc_snippets.Practice.RequestLine.Exact.{
  AreFields, join, request_branch, parse_request_line-split_space, split_space_iff,
}
use webrtc_snippets.Practice.Trim.{trim, support_trim}
use webrtc_snippets.Practice.Message.{
  SipHeader, SipMessage, Kind, request, response, separator, crlf, breaks_paired, next_line,
  parse_header, parse_headers, parse_status, parse_start, parse_one_message, parse_series,
  parse_message_series, find_header_in, get_address,
}
use webrtc_snippets.Practice.Message.RoundTrip.{IsMessage, print_series, parse_message_series-print}
use webrtc_snippets.Practice.Message.Sound.{IsParsed, parse_message_series-IsParsed}
use webrtc_snippets.Practice.Headers
use webrtc_snippets.Practice.Headers.RoundTrip.{print_headers, parse_headers-print}
use webrtc_snippets.Practice.Transaction.{
  Transaction, branch_of, find_branch, parse_via, find_first_blank, parse_cseq, find_header_value,
  find_group, push_index, add_to_group, has_failure_response, has_matching_invite, read_key, place,
  step, run, collect, find_transactions,
}
use webrtc_snippets.Practice.Transaction.Partition.{
  ArePartition, holds, find_transactions-ArePartition,
}
use webrtc_snippets.Practice.Transaction.Complete.{find_transactions_complete}

abbrev header : String → String → SipHeader
header name value = record { name = codes name; value = codes value }

abbrev ringing : SipMessage
ringing = record {
  kind = response;
  method = [];
  request_uri = [];
  status_code = 180;
  headers = header "To" "bob;tag=7" ∷ [];
}

abbrev call : SipMessage
call = record {
  kind = request;
  method = codes "INVITE";
  request_uri = codes "sip:b";
  status_code = 0;
  headers = header "Via" "x y" ∷ header "Via" "" ∷ [];
}

abbrev trace : Bytes
trace =
    codes "INVITE sip:b SIP/2.0"
    ++ crlf
    ++ codes "Via:  x y"
    ++ crlf
    ++ codes "Via:"
    ++ separator
    ++ codes "SIP/2.0 180 Ringing"
    ++ crlf
    ++ codes "To:bob;tag=7"

parse-trace : parse_message_series trace ≡ some (call ∷ ringing ∷ [])
unfolding parse_message_series parse_series parse_one_message parse_start parse_status parse_headers
    parse_header next_line breaks_paired split_space starts_with find_text find_byte find_byte_from
    equal from_chars trim
parse-trace = refl

leading_separator : parse_message_series (separator ++ trace) ≡ none
unfolding parse_message_series parse_series find_text
leading_separator = refl

call-IsMessage : IsMessage call
unfolding trim
call-IsMessage = record {
  start = (
    record {
      method_plain = omega arith;
      uri_plain = omega arith;
      version_plain = omega arith;
      method_some = λ e. cc;
      uri_some = λ e. cc;
      version_some = λ e. cc;
    },
    (omega arith, omega arith),
    (omega arith, omega arith),
    (λ e. ground arith),
    refl,
  );
  headers = (
    record {
      name_some = λ e. cc;
      name_plain = omega arith;
      line_plain = (omega arith, omega arith);
      name_trimmed = refl;
      value_trimmed = refl;
    },
    (
      record {
        name_some = λ e. cc;
        name_plain = omega arith;
        line_plain = (omega arith, omega arith);
        name_trimmed = refl;
        value_trimmed = refl;
      },
      tt,
    ),
  );
}

ringing-IsMessage : IsMessage ringing
unfolding trim
ringing-IsMessage = record {
  start = (omega arith, omega arith, refl, refl);
  headers = (
    record {
      name_some = λ e. cc;
      name_plain = omega arith;
      line_plain = (omega arith, omega arith);
      name_trimmed = refl;
      value_trimmed = refl;
    },
    tt,
  );
}

parse_message_series-print_example :
    parse_message_series (print_series (call ∷ ringing ∷ [])) ≡ some (call ∷ ringing ∷ [])
parse_message_series-print_example =
    parse_message_series-print (call ∷ ringing ∷ []) (call-IsMessage, (ringing-IsMessage, tt))
      (λ e. cc)

parse_message_series-IsParsed_example :
    (call ∷ ringing ∷ [] ≢ []) × All IsParsed (call ∷ ringing ∷ [])
parse_message_series-IsParsed_example = parse_message_series-IsParsed trace parse-trace

abbrev register_fields : Fields
register_fields = record {
  method = codes "REGISTER";
  uri = codes "sip:r";
  version = codes "SIP/2.0";
}

split_space_iff_example : (split_space (codes "REGISTER sip:r SIP/2.0") ≡ some register_fields) ↔ (
    (codes "REGISTER sip:r SIP/2.0"
      ≡ join register_fields.method register_fields.uri register_fields.version)
    × AreFields register_fields)
split_space_iff_example = split_space_iff (codes "REGISTER sip:r SIP/2.0") register_fields

parse_request_line-split_space_example :
    parse_request_line (codes "REGISTER  SIP/2.0") ≡ request_branch (codes "REGISTER  SIP/2.0")
parse_request_line-split_space_example = parse_request_line-split_space (codes "REGISTER  SIP/2.0")

trimmed : trim (codes " \ta b ") ≡ codes "a b"
unfolding trim
trimmed = refl

address_with_tag : get_address (header "To" "sip:b;tag=1") ≡ some (codes "sip:b")
unfolding get_address starts_with
address_with_tag = refl

call_headers_example :
    Headers.parse_headers (print_headers call.headers (codes "no colon" ++ crlf ++ codes "A: b"))
    ≡ call.headers
call_headers_example =
    parse_headers-print call.headers (codes "no colon" ++ crlf ++ codes "A: b")
      call-IsMessage.headers
      (inr (inr (codes "no colon", codes "A: b", refl, omega arith, omega arith)))

abbrev in_dialog : Kind → String → ℕ → String → SipMessage
in_dialog kind method code cseq = record {
  kind = kind;
  method = codes method;
  request_uri = codes "sip:b";
  status_code = code;
  headers = header "Via" "SIP/2.0/UDP c;branch=z1" ∷ header "CSeq" cseq ∷ [];
}

-- An INVITE, the busy response, its ACK, a second ACK of another branch's kind, and a CANCEL.
abbrev dialog : List SipMessage
dialog =
    in_dialog request "INVITE" 0 "10 INVITE"
    ∷ in_dialog response "" 486 "10 INVITE"
    ∷ in_dialog request "ACK" 0 "10 ACK"
    ∷ in_dialog request "CANCEL" 0 "11 CANCEL"
    ∷ in_dialog request "CANCEL" 0 "10 CANCEL"
    ∷ []

abbrev transaction : String → List ℕ → Transaction
transaction method indices = record {
  branch = codes "z1";
  sent_by = codes "c";
  method = codes method;
  message_indices = indices;
}

find_transactions-dialog :
    find_transactions dialog
    ≡ some (transaction "INVITE" (0 ∷ 1 ∷ 2 ∷ []) ∷ transaction "CANCEL" (4 ∷ []) ∷ [])
unfolding find_transactions run step place read_key find_header_value find_header_in parse_via
    parse_cseq find_branch branch_of find_first_blank add_to_group find_group push_index collect
    has_failure_response has_matching_invite find_byte from_chars support_trim equal
find_transactions-dialog = refl

find_transactions-ArePartition_example :
    (ts : List Transaction) × (find_transactions dialog ≡ some ts) × ArePartition dialog ts
find_transactions-ArePartition_example = find_transactions-ArePartition dialog

find_transactions_complete_example :
    (ts : List Transaction) × (find_transactions dialog ≡ some ts) × (holds 1 ts ≡ 1)
unfolding read_key find_header_value find_header_in parse_via parse_cseq find_branch branch_of
    find_first_blank find_byte from_chars support_trim equal
find_transactions_complete_example =
    find_transactions_complete dialog 1 (in_dialog response "" 486 "10 INVITE")
      (record { branch = codes "z1"; sent_by = codes "c" })
      (record { number = 10; method = codes "INVITE" }) refl refl refl refl
