-- ===== src/SignalServer/Connection/Serve.antt =====
-- What a connection answers, for its input as a whole.
use webrtc_snippets.Common.{◌≡◌, ◌≢◌, refl, sym, ap, ◌∙◌, Bool, true, Option, List, [], ◌∷◌}
use webrtc_snippets.Common.Bytes.{Bytes, concat}
use webrtc_snippets.SignalServer.RequestParser.{
  Request, ParserState, method_start, Parsed, ResultType, good, bad, indeterminate, parse,
  empty_request,
}
use webrtc_snippets.SignalServer.RequestParser.Chunks.{resume, parse-append}
use webrtc_snippets.SignalServer.RequestParser.Runs.{IsDigits, digits_value}
use webrtc_snippets.SignalServer.RequestParser.RoundTrip.{
  IsRequest, print_request, parse-print_request,
}
use webrtc_snippets.SignalServer.Reply.{Reply, bad_request, stock_reply, to_buffers}
use webrtc_snippets.SignalServer.RequestHandler.{handle_request}
use webrtc_snippets.SignalServer.Connection.{
  Pending, reading, writing, nothing, Connection, empty_reply, new_connection, do_read, start,
  on_parsed, on_read,
}

abbrev pub bytes_of : Reply → Bytes
bytes_of r = concat (to_buffers r)

module _ (doc_root : Bytes) (files : Bytes → Option Bytes) where
  -- The reads that a connection makes, as long as it reads.
  abbrev pub feed : Connection → List Bytes → Connection
  feed c [] = c
  feed c (chunk ∷ chunks) =
      let later = feed (on_read doc_root files c chunk) chunks in
      elim c.pending [ reading live ↦ later | writing live bytes ↦ c | nothing ↦ c ]

  -- What the answer to an input is: nothing as long as no request is complete, the reply of the
  -- handler to the first complete request, and `bad_request` to a malformed one.
  abbrev pub served_by : Parsed → Pending
  served_by p = elim p.step.result [
    | good ↦ writing true (bytes_of (handle_request doc_root files p.step.request empty_reply))
    | bad ↦ writing true (bytes_of (stock_reply bad_request))
    | indeterminate ↦ reading true
  ]

  abbrev pub served : Bytes → Pending
  served input = served_by (parse method_start empty_request input)

  feed-writing :
      (chunks : List Bytes) (c : Connection) (live : Bool) (bytes : Bytes)
      → c.pending ≡ writing live bytes
      → feed c chunks ≡ c
  feed-writing [] c live bytes e = refl
  feed-writing (chunk ∷ chunks) c live bytes e = rw e refl

  -- A connection that goes on reading answers as it would have from the start of its input.
  on_parsed-do_read :
      (c : Connection) (s : ParserState) (r : Request) (p : Parsed)
      → on_parsed doc_root files (do_read (record c { parser = s; request = r })) p
        ≡ on_parsed doc_root files c p
  on_parsed-do_read c s r p =
      elim p.step.result
        as (λ v.
          on_parsed doc_root files (do_read (record c { parser = s; request = r }))
            (record p { step = record p.step { result = v } })
          ≡ on_parsed doc_root files c (record p { step = record p.step { result = v } })) [
            | good ↦ refl
            | bad ↦ refl
            | indeterminate ↦ refl
          ]

  -- A chunk, and the chunks behind it.
  feed-chunk :
      (chunks : List Bytes) (c : Connection) (p : Parsed) (v : ResultType)
      → p.step.result ≡ v
      → ((d : Connection)
          → d.pending ≡ reading d.is_open
          → feed d chunks ≡ on_parsed doc_root files d (parse d.parser d.request (concat chunks)))
      → feed (on_parsed doc_root files c p) chunks
        ≡ on_parsed doc_root files c (resume p (concat chunks))
  feed-chunk chunks c p good e ih = rw e (feed-writing chunks _ c.is_open _ refl)
  feed-chunk chunks c p bad e ih = rw e (feed-writing chunks _ c.is_open _ refl)
  feed-chunk chunks c p indeterminate e ih = rw e (
      ih (do_read (record c { parser = p.step.state; request = p.step.request })) refl
      ∙ on_parsed-do_read c p.step.state p.step.request
          (parse p.step.state p.step.request (concat chunks)))

  feed-next :
      (chunk : Bytes) (chunks : List Bytes) (c : Connection)
      → c.pending ≡ reading c.is_open
      → feed c (chunk ∷ chunks)
        ≡ feed (on_parsed doc_root files c (parse c.parser c.request chunk)) chunks
  unfolding on_read
  feed-next chunk chunks c e = rw e refl

  feed-on_parsed :
      (chunks : List Bytes) (c : Connection)
      → c.pending ≡ reading c.is_open
      → feed c chunks ≡ on_parsed doc_root files c (parse c.parser c.request (concat chunks))
  unfolding parse
  feed-on_parsed [] c e = ap (λ q. record c { pending = q }) e
  feed-on_parsed (chunk ∷ chunks) c e =
      feed-next chunk chunks c e
      ∙ feed-chunk chunks c (parse c.parser c.request chunk) _ refl (feed-on_parsed chunks)
      ∙ ap (on_parsed doc_root files c)
          (sym (parse-append c.parser c.request chunk (concat chunks)))

  -- However the input of a connection is cut into reads, it answers what the input as one text is
  -- answered with.
  pub feed-served :
      (chunks : List Bytes) → (feed (start new_connection) chunks).pending ≡ served (concat chunks)
  feed-served chunks =
      ap (λ c. c.pending) (feed-on_parsed chunks (start new_connection) refl)
      ∙ one_read (parse method_start empty_request (concat chunks))
    where
      one_read :
          (p : Parsed) → (on_parsed doc_root files (start new_connection) p).pending ≡ served_by p
      one_read p =
          elim p.step.result
            as (λ v.
              let q = record p { step = record p.step { result = v } } in
              (on_parsed doc_root files (start new_connection) q).pending ≡ served_by q) [
                | good ↦ refl
                | bad ↦ refl
                | indeterminate ↦ refl
              ]

  -- A client that sends a request in any number of pieces, with other bytes behind it, is answered
  -- with what the request handler makes of that request.
  pub feed-print_request :
      (r : Request) (major minor rest : Bytes) (chunks : List Bytes)
      → IsRequest r
      → IsDigits major
      → IsDigits minor
      → major ≢ []
      → minor ≢ []
      → concat chunks ≡ print_request r major minor rest
      → (feed (start new_connection) chunks).pending
        ≡ writing true (
            bytes_of (
              handle_request doc_root files
                (record r {
                  http_version_major = digits_value 0 major;
                  http_version_minor = digits_value 0 minor;
                })
                empty_reply))
  feed-print_request r major minor rest chunks v d e n m same =
      feed-served chunks
      ∙ ap served same
      ∙ ap served_by (parse-print_request r major minor rest v d e n m)
