-- ===== src/SignalServer/Server/Tests.antt =====
-- The signalling server's connections and its loop on concrete inputs.
use webrtc_snippets.Common.{
  ◌+◌, ◌*◌, ◌≤◌, ◌≡◌, refl, arith, true, Option, none, some, List, [], ◌∷◌, ◌++◌, length,
  >>=-eq-some, along_some,
}
use webrtc_snippets.Common.Bytes.{Bytes, codes}
use webrtc_snippets.SignalServer.RequestParser.{
  Request, empty_request, consume, is_token, is_digit, is_ctl, is_char, is_tspecial, parse,
}
use webrtc_snippets.SignalServer.RequestParser.RoundTrip.{IsRequest}
use webrtc_snippets.SignalServer.RequestHandler.{handle_request}
use webrtc_snippets.SignalServer.Connection
use webrtc_snippets.SignalServer.Connection.{
  writing, received, read_failed, new_connection, empty_reply, on_read, on_event,
}
use webrtc_snippets.SignalServer.Connection.Serve.{
  bytes_of, feed, served, feed-served, feed-print_request,
}
use webrtc_snippets.SignalServer.Server.{
  Server, ServerEvent, accepted, accept_failed, signalled, completed, step, initial, Reach, start,
  later, complete, on_accept, stop_all,
}
use webrtc_snippets.SignalServer.Server.Clean.{IsServing, Reach-IsServing}
use webrtc_snippets.SignalServer.Server.Stops.{run, run-length}

-- A document root with no files.
abbrev no_files : Bytes → Option Bytes
no_files path = none

abbrev get : Request
get = record empty_request { method = codes "GET"; uri = codes "/a" }

get-IsRequest : IsRequest get
unfolding is_token is_ctl is_char is_tspecial
get-IsRequest = record {
  method_some = λ e. cc;
  method_token = (refl, (refl, (refl, tt)));
  uri_text = (refl, (refl, tt));
  uri_plain = omega arith;
  headers_are = tt;
}

abbrev crlf : Bytes
crlf = b'\r' ∷ b'\n' ∷ []

feed-served_example :
    (feed
      (codes "/srv")
      no_files
      (Connection.start new_connection)
      (codes "GET /a" ∷ codes " HTTP/1.1" ∷ [])).pending
    ≡ served (codes "/srv") no_files (codes "GET /a HTTP/1.1")
feed-served_example = feed-served (codes "/srv") no_files (codes "GET /a" ∷ codes " HTTP/1.1" ∷ [])

feed-print_request_example :
    (feed
      (codes "/srv")
      no_files
      (Connection.start new_connection)
      ((codes "GET /a HT" ∷ (codes "TP/1.0" ++ crlf ++ crlf) ∷ []))).pending
    ≡ writing true (
        bytes_of (
          handle_request
            (codes "/srv")
            no_files
            (record get { http_version_major = 1; http_version_minor = 0 })
            empty_reply))
unfolding is_digit
feed-print_request_example =
    feed-print_request (codes "/srv") no_files get (codes "1") (codes "0") []
      (codes "GET /a HT" ∷ (codes "TP/1.0" ++ crlf ++ crlf) ∷ []) get-IsRequest (refl, tt)
      (refl, tt) (λ e. cc) (λ e. cc) refl

-- Two connections; one reads a part of a request, and then the signal comes.
abbrev two_and_signal : List ServerEvent
two_and_signal = accepted ∷ accepted ∷ completed 1 (received (codes "GET")) ∷ signalled ∷ []

abbrev after_signal : Server
after_signal = elim (run (codes "/srv") no_files initial two_and_signal) [
  | none ↦ initial
  | some s ↦ s
]

run-Reach :
    (doc_root : Bytes) (files : Bytes → Option Bytes) (s t : Server) (events : List ServerEvent)
    → Reach doc_root files s
    → run doc_root files s events ≡ some t
    → Reach doc_root files t
run-Reach doc_root files s t [] r eq = along_some (Reach doc_root files) eq r
run-Reach doc_root files s t (e ∷ events) r eq =
    let (u, on, eq) = >>=-eq-some (step doc_root files s e) _ eq in
    run-Reach doc_root files u t events (later r e on) eq

after_signal-Reach : Reach (codes "/srv") no_files after_signal
unfolding step complete on_accept stop_all on_read on_event parse consume is_token is_digit is_ctl
    is_char is_tspecial
after_signal-Reach =
    run-Reach (codes "/srv") no_files initial after_signal two_and_signal start refl

Reach-IsServing_example : IsServing after_signal
Reach-IsServing_example = Reach-IsServing (codes "/srv") no_files after_signal after_signal-Reach

-- Both connections and the acceptor come to an end.
abbrev endings : List ServerEvent
endings =
    completed 1 read_failed
    ∷ accept_failed
    ∷ completed 0 (received (codes "x y"))
    ∷ completed 0 read_failed
    ∷ []

abbrev ended : Server
ended = elim (run (codes "/srv") no_files after_signal endings) [ none ↦ initial | some s ↦ s ]

run-length_example : length endings ≤ 2 * length after_signal.slots + 1
unfolding step complete on_accept stop_all on_read on_event parse consume is_token is_digit is_ctl
    is_char is_tspecial
run-length_example =
    run-length (codes "/srv") no_files after_signal ended endings after_signal-Reach refl refl
