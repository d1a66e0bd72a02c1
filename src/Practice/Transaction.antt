-- ===== src/Practice/Transaction.antt =====
-- basic/exercises/03_sip_transaction/starter.cpp: messages grouped into transactions. The
-- `std::map` of groups is an association list: it is searched by key and never walked in order.
pub mod Groups
pub mod Invariant
pub mod Partition
pub mod Complete
use webrtc_snippets.Common.{
  ℕ, zero, suc, ◌+◌, ◌-◌, ◌*◌, ◌/◌, ◌%◌, ◌^◌, ◌≤◌, ◌<◌, ◌≡◌, ◌≢◌, ◌↔◌, ◌⊎◌, inl, inr, refl, sym, ap,
  ◌∙◌, subst, arith, tests, Bool, true, false, not, ◌&&◌, ◌||◌, Option, none, some, List, [], ◌∷◌,
  ◌++◌, map, append-nil, append_assoc, ◌==◌, ltb, leb, if◌then◌else◌, is_empty, length, get_elem?,
  drop, take, All, Bool-cases, Option-cases, guard, ◌>>=◌, ◌>>◌, >>=-eq-some, along_some, ==_refl,
  ==_ne, ==_iff, length-append, take-append-drop, take-length, drop-length, drop-length_next,
  drop-add, drop-length-add, is_empty-append, is_empty-append_cons, take_all, All-append,
  length-take, length-drop, ltb→lt, lt→ltb, leb→le, replicate,
}
use webrtc_snippets.Common.Bytes.{
  Bytes, codes, Avoids, find_byte, find_byte_from, find_text, starts_with, substr, equal, equal_iff,
  equal_refl,
}
use webrtc_snippets.Common.Bytes.Find.{
  find_byte-append, find_byte-Avoids, find_byte_cases, find_byte_from-append, find_text-Avoids,
}
use webrtc_snippets.Common.Bytes.Digits.{from_chars, u32}
use webrtc_snippets.Practice.Trim.{support_trim, is_blank}
use webrtc_snippets.Practice.Message.{SipHeader, SipMessage, Kind, request, response, find_header}
use mathlib.Core.Option

pub record ViaParts : Type 0 where
  pub branch : Bytes
  pub sent_by : Bytes

pub record CseqParts : Type 0 where
  pub number : ℕ
  pub method : Bytes

pub record TransactionKey : Type 0 where
  pub branch : Bytes
  pub sent_by : Bytes
  pub method : Bytes

pub record Transaction : Type 0 where
  pub branch : Bytes
  pub sent_by : Bytes
  pub method : Bytes
  pub message_indices : List ℕ

abbrev pub Groups : Type 0
Groups = List (TransactionKey × List ℕ)

-- `substr(0, position)`, where `npos` takes all.
abbrev before : Bytes → Option ℕ → Bytes
before s none = s
before s (some i) = take i s

-- `substr(position + 1)`, or nothing behind `npos`.
abbrev behind : Bytes → Option ℕ → Bytes
behind s none = []
behind s (some i) = drop (i + 1) s

abbrev pub branch_name : Bytes
branch_name = codes "branch"

-- The value of one parameter, if it is a branch that is not empty.
unfoldable pub branch_of : Bytes → Option Bytes
branch_of param = do
  equal_sign ← find_byte b'=' param
  let value = support_trim (drop (equal_sign + 1) param)
  guard (equal (support_trim (substr param 0 equal_sign)) branch_name && not (is_empty value))
  some value

-- The loop over the parameters, on fuel: the first such value, or the empty text.
unfoldable pub find_branch : ℕ → Bytes → Bytes
find_branch zero params = []
find_branch (suc fuel) params = elim (is_empty params) [
  | true ↦ []
  | false ↦ elim (branch_of (support_trim (before params (find_byte b';' params)))) [
    | some value ↦ value
    | none ↦ find_branch fuel (behind params (find_byte b';' params))
  ]
]

unfoldable pub parse_via : Bytes → Option ViaParts
parse_via value = do
  space ← find_byte b' ' value
  let after_transport = support_trim (drop (space + 1) value)
  guard (not (is_empty after_transport))
  let semi = find_byte b';' after_transport
  let sent_by = support_trim (before after_transport semi)
  guard (not (is_empty sent_by))
  let params = behind after_transport semi
  let branch = find_branch (suc (length params)) params
  guard (not (is_empty branch))
  some (record { branch = branch; sent_by = sent_by })

-- `find_first_of(" \t")`.
unfoldable pub find_first_blank : Bytes → Option ℕ
find_first_blank [] = none
find_first_blank (c ∷ s) = if is_blank c then some 0 else Option.map suc (find_first_blank s)

abbrev starts_blank : Bytes → Bool
starts_blank [] = false
starts_blank (c ∷ s) = is_blank c

-- `rest.substr(token_end)`, where a further token is refused.
abbrev from_end : Bytes → Option ℕ → Bytes
from_end rest none = []
from_end rest (some token_end) = drop token_end rest

unfoldable pub parse_cseq : Bytes → Option CseqParts
parse_cseq value = do
  (number, tail) ← from_chars u32 (support_trim value)
  guard (starts_blank tail)
  let rest = support_trim tail
  guard (not (is_empty rest))
  let token_end = find_first_blank rest
  let method = before rest token_end
  guard (not (is_empty method))
  guard (is_empty (support_trim (from_end rest token_end)))
  some (record { number = number; method = method })

unfoldable pub find_header_value : SipMessage → Bytes → Option Bytes
find_header_value message name = Option.map (λ h. h.value) (find_header message name)

unfoldable pub same_key : TransactionKey → TransactionKey → Bool
unfolding equal
same_key a b = equal a.branch b.branch && equal a.sent_by b.sent_by && equal a.method b.method

unfoldable pub find_group : Groups → TransactionKey → Option (List ℕ)
unfolding same_key
find_group [] key = none
find_group ((k, indices) ∷ groups) key =
    if same_key k key then some indices else find_group groups key

-- `push_back` on the group of a key that the map has.
unfoldable pub push_index : Groups → TransactionKey → ℕ → Groups
unfolding same_key
push_index [] key index = []
push_index ((k, indices) ∷ groups) key index =
    if same_key k key
    then (k, indices ++ index ∷ []) ∷ groups
    else (k, indices) ∷ push_index groups key index

pub record State : Type 0 where
  pub groups : Groups
  pub first_seen_order : List TransactionKey

unfoldable pub add_to_group : State → TransactionKey → ℕ → State
add_to_group s key index = elim (find_group s.groups key) [
  | none ↦ record {
    groups = s.groups ++ (key, index ∷ []) ∷ [];
    first_seen_order = s.first_seen_order ++ key ∷ [];
  }
  | some indices ↦ record s { groups = push_index s.groups key index }
]

abbrev pub is_request : Kind → Bool
is_request request = true
is_request response = false

abbrev failed : Option SipMessage → Bool
failed none = false
failed (some m) = not (is_request m.kind) && leb 300 m.status_code && leb m.status_code 699

unfoldable pub has_failure_response : List ℕ → List SipMessage → Bool
has_failure_response [] messages = false
has_failure_response (i ∷ indices) messages =
    failed (get_elem? messages i) || has_failure_response indices messages

abbrev pub invite : Bytes
invite = codes "INVITE"

abbrev matches : ℕ → Option CseqParts → Bool
matches number none = false
matches number (some cseq) = cseq.number == number && equal cseq.method invite

abbrev cseq_at : Option SipMessage → Option CseqParts
cseq_at message = do m ← message; value ← find_header_value m (codes "CSeq"); parse_cseq value

unfoldable pub has_matching_invite : List ℕ → ℕ → List SipMessage → Bool
has_matching_invite [] number messages = false
has_matching_invite (i ∷ indices) number messages =
    matches number (cseq_at (get_elem? messages i)) || has_matching_invite indices number messages

-- The two headers that name a transaction, if both are there and can be read.
unfoldable pub read_key : SipMessage → Option (ViaParts × CseqParts)
read_key message = do
  via_value ← find_header_value message (codes "Via")
  cseq_value ← find_header_value message (codes "CSeq")
  via ← parse_via via_value
  cseq ← parse_cseq cseq_value
  some (via, cseq)

abbrev pub key_for : ViaParts → Bytes → TransactionKey
key_for via method = record { branch = via.branch; sent_by = via.sent_by; method = method }

-- The body of the loop behind the two parsers.
unfoldable pub place : List SipMessage → State → ℕ → SipMessage → ViaParts → CseqParts → State
place messages s index message via cseq =
    if is_request message.kind && equal cseq.method (codes "ACK")
    then elim (find_group s.groups (key_for via invite)) [
      | none ↦ s
      | some indices ↦
          if has_failure_response indices messages
          then record s { groups = push_index s.groups (key_for via invite) index }
          else s
    ]
    else if is_request message.kind && equal cseq.method (codes "CANCEL")
    then elim (find_group s.groups (key_for via invite)) [
      | none ↦ s
      | some indices ↦
          if has_matching_invite indices cseq.number messages
          then add_to_group s (key_for via cseq.method) index
          else s
    ]
    else add_to_group s (key_for via cseq.method) index

unfoldable pub step : List SipMessage → State → ℕ → SipMessage → State
step messages s index message = elim (read_key message) [
  | none ↦ s
  | some (via, cseq) ↦ place messages s index message via cseq
]

-- The loop over the messages: those not yet read, and the index of the first of them.
unfoldable pub run : List SipMessage → State → ℕ → List SipMessage → State
run messages s index [] = s
run messages s index (m ∷ rest) = run messages (step messages s index m) (index + 1) rest

abbrev pub initial : State
initial = record { groups = []; first_seen_order = [] }

-- The last loop; `none` where `groups.at(key)` throws.
unfoldable pub collect : Groups → List TransactionKey → Option (List Transaction)
collect groups [] = some []
collect groups (key ∷ keys) = do
  indices ← find_group groups key
  rest ← collect groups keys
  some (
      record {
        branch = key.branch;
        sent_by = key.sent_by;
        method = key.method;
        message_indices = indices;
      }
      ∷ rest)

unfoldable pub find_transactions : List SipMessage → Option (List Transaction)
find_transactions messages =
    let s = run messages initial 0 messages in collect s.groups s.first_seen_order
