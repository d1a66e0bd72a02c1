-- ===== src/SignalServer/Connection.antt =====
-- signal_server/connection.cpp: one connection, from its first read to its reply. The socket is a
-- parameter: an event is the completion of the operation that is outstanding. The parser's unread
-- input is dropped, as in the source.
pub mod Outcome
pub mod Serve
use webrtc_snippets.Common.{
  ℕ, zero, suc, ◌+◌, ◌-◌, ◌*◌, ◌/◌, ◌%◌, ◌^◌, ◌≤◌, ◌<◌, ◌≡◌, ◌≢◌, ◌↔◌, ◌⊎◌, inl, inr, refl, sym, ap,
  ◌∙◌, subst, arith, tests, Bool, true, false, not, ◌&&◌, ◌||◌, Option, none, some, List, [], ◌∷◌,
  ◌++◌, map, append-nil, append_assoc, ◌==◌, ltb, leb, if◌then◌else◌, is_empty, length, get_elem?,
  drop, take, All, Bool-cases, Option-cases, guard, ◌>>=◌, ◌>>◌, >>=-eq-some, along_some, if_cases,
  ==_refl, ==_ne, ==_iff, length-append, take-append-drop, take-length, drop-length,
  drop-length_next, drop-add, drop-length-add, is_empty-append, is_empty-append_cons, take_all,
  All-append, length-take, length-drop, ltb→lt, lt→ltb, leb→le, replicate, is_none,
}
use webrtc_snippets.Common.Bytes.{
  concat, Bytes, codes, Avoids, find_byte, find_byte_from, find_text, starts_with, substr, equal,
  equal_iff, equal_refl,
}
use webrtc_snippets.Common.Bytes.Find.{
  find_byte-append, find_byte-Avoids, find_byte_cases, find_byte_from-append, find_text-Avoids,
  find_text-none,
}
use webrtc_snippets.SignalServer.RequestParser.{
  Request, ParserState, Step, Parsed, ResultType, good, bad, indeterminate, parse, empty_request,
  initial_state,
}
use webrtc_snippets.SignalServer.Reply.{Reply, ok, bad_request, stock_reply, to_buffers}
use webrtc_snippets.SignalServer.RequestHandler.{handle_request}

-- The operation that is outstanding, and whether the socket was open when it was started.
pub data Pending : Type 0 where
  reading : Bool → Pending
  writing : Bool → Bytes → Pending
  nothing : Pending

pub record Connection : Type 0 where
  pub parser : ParserState
  pub request : Request
  pub reply : Reply
  pub pending : Pending
  pub is_open : Bool

pub data Event : Type 0 where
  received : Bytes → Event
  read_failed read_aborted : Event
  sent write_failed write_aborted : Event

-- `reply_` before it is filled in; its status is not set then, and is never read.
abbrev pub empty_reply : Reply
empty_reply = record { status = ok; headers = []; content = [] }

-- The constructor.
abbrev pub new_connection : Connection
new_connection = record {
  parser = initial_state;
  request = empty_request;
  reply = empty_reply;
  pending = nothing;
  is_open = true;
}

abbrev pub do_read : Connection → Connection
do_read c = record c { pending = reading c.is_open }

abbrev pub do_write : Connection → Connection
do_write c = record c { pending = writing c.is_open (concat (to_buffers c.reply)) }

abbrev pub start : Connection → Connection
start c = do_read c

abbrev pub stop : Connection → Connection
stop c = record c { is_open = false }

abbrev pub finish : Connection → Connection
finish c = record c { pending = nothing }

module _ (doc_root : Bytes) (files : Bytes → Option Bytes) where
  -- The handler of a read that got some bytes, once it has parsed them.
  abbrev pub on_parsed : Connection → Parsed → Connection
  on_parsed c p =
      let d = record c { parser = p.step.state; request = p.step.request } in
      elim p.step.result [
        | good ↦ do_write (record d { reply = handle_request doc_root files d.request d.reply })
        | bad ↦ do_write (record d { reply = stock_reply bad_request })
        | indeterminate ↦ do_read d
      ]

  unfoldable pub on_read : Connection → Bytes → Connection
  on_read c chunk = on_parsed c (parse c.parser c.request chunk)

  -- A handler, and whether it asks the manager to stop the connection. A completion of another
  -- operation than the one outstanding does not happen.
  unfoldable pub on_event : Connection → Event → Option (Connection × Bool)
  on_event c e = elim c.pending [
    | reading live ↦ elim e [
      | received chunk ↦ if live then some (on_read c chunk, false) else none
      | read_failed ↦ some (finish c, true)
      | read_aborted ↦ if c.is_open then none else some (finish c, false)
      | _ ↦ none
    ]
    | writing live bytes ↦ elim e [
      | sent ↦ if live then some (finish c, true) else none
      | write_failed ↦ some (finish c, true)
      | write_aborted ↦ if c.is_open then none else some (finish c, false)
      | _ ↦ none
    ]
    | nothing ↦ none
  ]
