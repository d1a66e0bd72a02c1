-- ===== src/SignalServer/Server/Stops.antt =====
-- The server after its signal: how many handlers can still run.
use webrtc_snippets.Common.{
  ℕ, zero, suc, ◌+◌, ◌*◌, ◌≤◌, ◌<◌, ◌≡◌, refl, ap, arith, Bool, true, false, Option, some, List, [],
  ◌∷◌, if◌then◌else◌, length, All, ◌>>=◌, >>=-eq-some, along_some, along_if, if_cases,
}
use webrtc_snippets.Common.Bytes.{Bytes}
use webrtc_snippets.SignalServer.Connection
use webrtc_snippets.SignalServer.Connection.{Pending, Connection, Event, finish, on_event, on_read}
use webrtc_snippets.SignalServer.RequestParser.{parse}
use webrtc_snippets.SignalServer.Connection.Outcome.{
  rank, Outcome, has_read, has_ended, has_dropped, on_parsed-live, on_event-Outcome,
}
use webrtc_snippets.SignalServer.Server.{
  Slot, Server, ServerEvent, accepted, accept_failed, signalled, completed, settle, complete,
  on_accept, step, Reach, later,
}
use webrtc_snippets.SignalServer.Server.Clean.{IsServing, Reach-IsServing}

abbrev pub ranks : List Slot → ℕ
ranks [] = 0
ranks (s ∷ slots) = rank s.connection.pending + ranks slots

abbrev pub server_rank : Server → ℕ
server_rank s = ranks s.slots + (if s.is_accepting then 1 else 0)

rank-le : (p : Pending) → rank p ≤ 2
rank-le (Connection.reading live) = if_cases (λ n. n ≤ 2) live (λ e. omega arith) (λ e. omega arith)
rank-le (Connection.writing live bytes) =
    if_cases (λ n. n ≤ 2) live (λ e. omega arith) (λ e. omega arith)
rank-le Connection.nothing = omega arith

ranks-le : (slots : List Slot) → ranks slots ≤ 2 * length slots
ranks-le [] = omega arith
ranks-le (s ∷ slots) = ground (arith, ranks-le slots, rank-le s.connection.pending)

module _ (doc_root : Bytes) (files : Bytes → Option Bytes) where
  -- The handlers that have run, one after the other.
  abbrev pub run : Server → List ServerEvent → Option Server
  run s [] = some s
  run s (e ∷ events) = do t ← step doc_root files s e; run t events

  settle-rank :
      (s : Slot) (r : Connection × Bool)
      → s.connection.is_open ≡ false
      → Outcome doc_root files s.connection r
      → rank (settle s r).connection.pending < rank s.connection.pending
  unfolding on_read
  settle-rank s r c (has_read chunk live) =
      let (same, alive, k) =
        on_parsed-live doc_root files s.connection
          (parse s.connection.parser s.connection.request chunk) _ refl in
      let one = k c in let two : rank s.connection.pending ≡ 2 = ap rank live in omega arith
  settle-rank s r c (has_ended k) = k
  settle-rank s r c (has_dropped k closed) = k

  complete-rank :
      (slots after : List Slot) (i : ℕ) (e : Event)
      → All (λ x. x.connection.is_open ≡ false) slots
      → complete doc_root files slots i e ≡ some after
      → (ranks after < ranks slots) × (length after ≡ length slots)
  unfolding complete
  complete-rank [] after i e h eq = absurd (cc)
  complete-rank (s ∷ slots) after zero e (h, hs) eq =
      let (r, on, eq) = >>=-eq-some (on_event doc_root files s.connection e) _ eq in
      let less = settle-rank s r h (on_event-Outcome doc_root files s.connection _ e r refl on) in
      along_some (λ l. (ranks l < ranks (s ∷ slots)) × (length l ≡ length (s ∷ slots))) eq
        (omega arith, refl)
  complete-rank (s ∷ slots) after (suc i) e (h, hs) eq =
      let (rest, on, eq) = >>=-eq-some (complete doc_root files slots i e) _ eq in
      let (less, same) = complete-rank slots rest i e hs on in
      along_some (λ l. (ranks l < ranks (s ∷ slots)) × (length l ≡ length (s ∷ slots))) eq
        (omega arith, ap suc same)

  abbrev Fewer : Server → Server → Type 0
  Fewer s t = (server_rank t < server_rank s) × (t.acceptor_open ≡ false)

  on_accept-Fewer :
      (s : Server) (is_ok : Bool)
      → s.acceptor_open ≡ false
      → s.is_accepting ≡ true
      → Fewer s (on_accept s is_ok)
  unfolding on_accept
  on_accept-Fewer s is_ok c a = rw (c, on_accept) (rw (a) (omega arith), refl)

  -- After the signal, every handler that runs leaves fewer to run.
  step-rank :
      (s t : Server) (e : ServerEvent)
      → IsServing s
      → s.acceptor_open ≡ false
      → step doc_root files s e ≡ some t
      → Fewer s t
  unfolding step on_accept
  step-rank s t accepted v c eq = along_if (Fewer s) _ eq (on_accept-Fewer s true c)
  step-rank s t accept_failed v c eq = along_if (Fewer s) _ eq (on_accept-Fewer s false c)
  step-rank s t signalled v c eq = along_if (Fewer s) _ eq (λ w. absurd (cc))
  step-rank s t (completed i e) v c eq =
      let (slots, on, eq) = >>=-eq-some (complete doc_root files s.slots i e) _ eq in
      let (less, same) = complete-rank s.slots slots i e (v.closed c) on in
      along_some (Fewer s) eq (omega arith, c)

  run-rank :
      (s t : Server) (events : List ServerEvent)
      → Reach doc_root files s
      → s.acceptor_open ≡ false
      → run s events ≡ some t
      → length events + server_rank t ≤ server_rank s
  run-rank s t [] r c eq = along_some (λ t. 0 + server_rank t ≤ server_rank s) eq (omega arith)
  run-rank s t (e ∷ events) r c eq =
      let (u, on, eq) = >>=-eq-some (step doc_root files s e) _ eq in
      let (less, shut) = step-rank s u e (Reach-IsServing doc_root files s r) c on in
      let rest = run-rank u t events (later r e on) shut eq in omega arith

  -- Once the signal has been handled, the server comes to an end: from any such state that it can
  -- reach, at most two handlers for each connection it has ever accepted and one for the acceptor
  -- can still run, in whatever order the completions come.
  pub run-length :
      (s t : Server) (events : List ServerEvent)
      → Reach doc_root files s
      → s.acceptor_open ≡ false
      → run s events ≡ some t
      → length events ≤ 2 * length s.slots + 1
  run-length s t events r c eq =
      let fewer = run-rank s t events r c eq in
      let most = ranks-le s.slots in
      let accepts : (if s.is_accepting then 1 else 0) ≤ 1 =
        if_cases (λ n. n ≤ 1) s.is_accepting (λ e. omega arith) (λ e. omega arith) in
      omega arith
