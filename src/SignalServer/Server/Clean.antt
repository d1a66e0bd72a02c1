-- ===== src/SignalServer/Server/Clean.antt =====
-- The connections of the server over its runs: which are open, kept by the manager and served.
use webrtc_snippets.Common.{
  ℕ, zero, suc, ◌≡◌, refl, sym, ◌∙◌, Bool, true, false, Option, some, List, [], ◌∷◌, All,
  >>=-eq-some, along_some, along_if, if_cases, All-append,
}
use webrtc_snippets.Common.Bytes.{Bytes}
use webrtc_snippets.SignalServer.Connection.{Connection, Event, on_event, on_read}
use webrtc_snippets.SignalServer.RequestParser.{parse}
use webrtc_snippets.SignalServer.Connection.Outcome.{
  is_live, Outcome, has_read, has_ended, has_dropped, on_parsed-live, on_event-Outcome,
}
use webrtc_snippets.SignalServer.Server.{
  Slot, Server, ServerEvent, accepted, accept_failed, signalled, completed, start_new, stop,
  stop_all, settle, complete, on_accept, step, Reach, start, later,
}

pub record IsClean (s : Slot) : Type 0 where
  pub kept : s.is_member ≡ s.connection.is_open
  pub served : s.connection.is_open ≡ true → is_live s.connection.pending ≡ true

pub record IsServing (s : Server) : Type 0 where
  pub slots_clean : All IsClean s.slots
  pub accepts : s.acceptor_open ≡ true → s.is_accepting ≡ true
  pub closed : s.acceptor_open ≡ false → All (λ x. x.connection.is_open ≡ false) s.slots
  pub signal : s.awaits_signal ≡ s.acceptor_open

stop-IsClean : (s : Slot) → IsClean (stop s)
stop-IsClean s = record { kept = refl; served = λ e. cc }

stop_all-IsClean : (slots : List Slot) → All IsClean slots → All IsClean (stop_all slots)
unfolding stop_all
stop_all-IsClean [] c = tt
stop_all-IsClean (s ∷ slots) (c, cs) =
    (if_cases IsClean s.is_member (λ e. stop-IsClean s) (λ e. c), stop_all-IsClean slots cs)

stop_all-IsClosed :
    (slots : List Slot)
    → All IsClean slots
    → All (λ x. x.connection.is_open ≡ false) (stop_all slots)
unfolding stop_all
stop_all-IsClosed [] c = tt
stop_all-IsClosed (s ∷ slots) (c, cs) = (
  if_cases {A = Slot} (λ x. x.connection.is_open ≡ false) s.is_member (λ e. refl)
      (λ e. sym c.kept ∙ e),
  stop_all-IsClosed slots cs,
)

start_new-IsClean : (slots : List Slot) → All IsClean slots → All IsClean (start_new slots)
start_new-IsClean slots c =
    All-append IsClean slots _ c (record { kept = refl; served = λ e. refl }, tt)

module _ (doc_root : Bytes) (files : Bytes → Option Bytes) where
  settle-IsClean :
      (s : Slot) (r : Connection × Bool)
      → IsClean s
      → Outcome doc_root files s.connection r
      → IsClean (settle s r)
  unfolding on_read
  settle-IsClean s r c (has_read chunk live) =
      let (same, live, k) =
        on_parsed-live doc_root files s.connection
          (parse s.connection.parser s.connection.request chunk) _ refl in
      record { kept = c.kept ∙ sym same; served = λ e. live ∙ sym same ∙ e }
  settle-IsClean s r c (has_ended k) = record { kept = refl; served = λ e. cc }
  settle-IsClean s r c (has_dropped k closed) = record { kept = c.kept; served = λ e. cc }

  settle-IsClosed :
      (s : Slot) (r : Connection × Bool)
      → s.connection.is_open ≡ false
      → Outcome doc_root files s.connection r
      → (settle s r).connection.is_open ≡ false
  unfolding on_read
  settle-IsClosed s r c (has_read chunk live) =
      let (same, live, k) =
        on_parsed-live doc_root files s.connection
          (parse s.connection.parser s.connection.request chunk) _ refl in
      same ∙ c
  settle-IsClosed s r c (has_ended k) = refl
  settle-IsClosed s r c (has_dropped k closed) = closed

  -- A property of a slot that every handler keeps holds of all slots after a completion.
  pub complete-All :
      (P : Slot → Type 0)
      → ((s : Slot) (r : Connection × Bool)
          → P s
          → Outcome doc_root files s.connection r
          → P (settle s r))
      → (slots after : List Slot) (i : ℕ) (e : Event) → All P slots
      → complete doc_root files slots i e ≡ some after
      → All P after
  unfolding complete
  complete-All P keeps [] after i e h eq = absurd (cc)
  complete-All P keeps (s ∷ slots) after zero e (h, hs) eq =
      let (r, on, eq) = >>=-eq-some (on_event doc_root files s.connection e) _ eq in
      along_some (All P) eq
        (keeps s r h (on_event-Outcome doc_root files s.connection _ e r refl on), hs)
  complete-All P keeps (s ∷ slots) after (suc i) e (h, hs) eq =
      let (rest, on, eq) = >>=-eq-some (complete doc_root files slots i e) _ eq in
      along_some (All P) eq (h, complete-All P keeps slots rest i e hs on)

  on_accept-IsServing : (s : Server) (is_ok : Bool) → IsServing s → IsServing (on_accept s is_ok)
  unfolding on_accept
  on_accept-IsServing s is_ok v =
      if_cases {A = Server} IsServing s.acceptor_open
        (λ o. record {
          slots_clean =
              if_cases (All IsClean) is_ok (λ k. start_new-IsClean s.slots v.slots_clean)
                (λ k. v.slots_clean);
          accepts = v.accepts;
          closed = λ c. absurd (cc);
          signal = v.signal;
        })
        (λ o. record {
          slots_clean = v.slots_clean;
          accepts = λ c. absurd (cc);
          closed = v.closed;
          signal = v.signal;
        })

  -- One handler of the server keeps the invariant.
  step-IsServing :
      (s t : Server) (e : ServerEvent)
      → IsServing s
      → step doc_root files s e ≡ some t
      → IsServing t
  unfolding step
  step-IsServing s t accepted v eq = along_if IsServing _ eq (λ a. on_accept-IsServing s true v)
  step-IsServing s t accept_failed v eq =
      along_if IsServing _ eq (λ a. on_accept-IsServing s false v)
  step-IsServing s t signalled v eq = along_if IsServing _ eq (λ a. record {
    slots_clean = stop_all-IsClean s.slots v.slots_clean;
    accepts = λ c. cc;
    closed = λ c. stop_all-IsClosed s.slots v.slots_clean;
    signal = refl;
  })
  step-IsServing s t (completed i e) v eq =
      let (slots, on, eq) = >>=-eq-some (complete doc_root files s.slots i e) _ eq in
      along_some IsServing eq (record {
        slots_clean = complete-All IsClean settle-IsClean s.slots slots i e v.slots_clean on;
        accepts = v.accepts;
        closed = λ c.
            complete-All (λ x. x.connection.is_open ≡ false) settle-IsClosed s.slots slots i e
              (v.closed c) on;
        signal = v.signal;
      })

  -- In every state the server can reach, the manager's set holds just the connections whose socket
  -- is open, each of those has a read or a write outstanding that was started on the open socket, an
  -- open acceptor has an accept outstanding, and after the signal has been handled no connection is
  -- open.
  pub Reach-IsServing : (s : Server) → Reach doc_root files s → IsServing s
  Reach-IsServing s start = record {
    slots_clean = tt;
    accepts = λ e. refl;
    closed = λ e. tt;
    signal = refl;
  }
  Reach-IsServing t (later r e eq) = step-IsServing _ t e (Reach-IsServing _ r) eq
