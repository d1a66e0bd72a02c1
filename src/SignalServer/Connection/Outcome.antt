-- ===== src/SignalServer/Connection/Outcome.antt =====
-- What the handlers of one connection can do to it.
use webrtc_snippets.Common.{
  ℕ, ◌<◌, ◌≡◌, refl, arith, Bool, true, false, Option, none, some, if◌then◌else◌, along_some,
}
use webrtc_snippets.Common.Bytes.{Bytes}
use webrtc_snippets.SignalServer.RequestParser.{Parsed, ResultType, good, bad, indeterminate}
use webrtc_snippets.SignalServer.Connection.{
  Pending, reading, writing, nothing, Connection, Event, received, read_failed, read_aborted, sent,
  write_failed, write_aborted, finish, on_event, on_parsed, on_read,
}

abbrev pub is_live : Pending → Bool
is_live (reading live) = live
is_live (writing live bytes) = live
is_live nothing = false

-- At most how many more handlers the operation can lead to once the socket is closed.
abbrev pub rank : Pending → ℕ
rank (reading live) = if live then 2 else 1
rank (writing live bytes) = if live then 2 else 1
rank nothing = 0

module _ (doc_root : Bytes) (files : Bytes → Option Bytes) where
  pub data Outcome (c : Connection) : Connection × Bool → Type 0 where
    has_read :
        (chunk : Bytes)
        → c.pending ≡ reading true
        → Outcome c (on_read doc_root files c chunk, false)
    has_ended : 0 < rank c.pending → Outcome c (finish c, true)
    has_dropped : 0 < rank c.pending → c.is_open ≡ false → Outcome c (finish c, false)

  -- After a read the connection waits for a read or a write, started on the socket as it is.
  pub on_parsed-live :
      (c : Connection) (p : Parsed) (v : ResultType)
      → p.step.result ≡ v
      → ((on_parsed doc_root files c p).is_open ≡ c.is_open)
        × (is_live (on_parsed doc_root files c p).pending ≡ c.is_open)
        × (c.is_open ≡ false → rank (on_parsed doc_root files c p).pending ≡ 1)
  on_parsed-live c p good e = rw e (refl, refl, λ f. rw f refl)
  on_parsed-live c p bad e = rw e (refl, refl, λ f. rw f refl)
  on_parsed-live c p indeterminate e = rw e (refl, refl, λ f. rw f refl)

  rank-reading : (b : Bool) → 0 < rank (reading b)
  rank-reading true = omega arith
  rank-reading false = omega arith

  impossible : (c : Connection) (r : Connection × Bool) → none ≡ some r → Outcome c r
  impossible c r e = absurd (cc)

  drop_closed :
      (c : Connection) (b : Bool) (r : Connection × Bool)
      → c.is_open ≡ b
      → 0 < rank c.pending
      → (if b then none else some (finish c, false)) ≡ some r
      → Outcome c r
  drop_closed c true r o k eq = impossible c r eq
  drop_closed c false r o k eq = along_some (Outcome c) eq (has_dropped k o)

  pub on_event-Outcome :
      (c : Connection) (v : Pending) (e : Event) (r : Connection × Bool)
      → c.pending ≡ v
      → on_event doc_root files c e ≡ some r
      → Outcome c r
  unfolding on_event on_read
  on_event-Outcome c (reading true) (received chunk) r v eq =
      along_some (Outcome c) (rw v at eq) (has_read chunk v)
  on_event-Outcome c (reading live) read_failed r v eq =
      along_some (Outcome c) (rw v at eq) (has_ended (rw v (rank-reading live)))
  on_event-Outcome c (reading live) read_aborted r v eq =
      drop_closed c c.is_open r refl (rw v (rank-reading live)) (rw v at eq)
  on_event-Outcome c (writing true bytes) sent r v eq =
      along_some (Outcome c) (rw v at eq) (has_ended (rw v (rank-reading true)))
  on_event-Outcome c (writing live bytes) write_failed r v eq =
      along_some (Outcome c) (rw v at eq) (has_ended (rw v (rank-reading live)))
  on_event-Outcome c (writing live bytes) write_aborted r v eq =
      drop_closed c c.is_open r refl (rw v (rank-reading live)) (rw v at eq)
  on_event-Outcome c (reading false) (received chunk) r v eq = impossible c r (rw v at eq)
  on_event-Outcome c (reading live) sent r v eq = impossible c r (rw v at eq)
  on_event-Outcome c (reading live) write_failed r v eq = impossible c r (rw v at eq)
  on_event-Outcome c (reading live) write_aborted r v eq = impossible c r (rw v at eq)
  on_event-Outcome c (writing false bytes) sent r v eq = impossible c r (rw v at eq)
  on_event-Outcome c (writing live bytes) (received chunk) r v eq = impossible c r (rw v at eq)
  on_event-Outcome c (writing live bytes) read_failed r v eq = impossible c r (rw v at eq)
  on_event-Outcome c (writing live bytes) read_aborted r v eq = impossible c r (rw v at eq)
  on_event-Outcome c nothing e r v eq = impossible c r (rw v at eq)
