-- ===== src/SignalServer/Server.antt =====
-- signal_server/connection_manager.cpp and server.cpp. The heap is a list of the connections made so
-- far, and a mark on each says whether it is in the manager's set. An event is one completion.
pub mod Clean
pub mod Stops
mod Tests
use webrtc_snippets.Common.{
  ℕ, zero, suc, ◌+◌, ◌-◌, ◌*◌, ◌/◌, ◌%◌, ◌^◌, ◌≤◌, ◌<◌, ◌≡◌, ◌≢◌, ◌↔◌, ◌⊎◌, inl, inr, refl, sym, ap,
  ◌∙◌, subst, arith, tests, Bool, true, false, not, ◌&&◌, ◌||◌, Option, none, some, List, [], ◌∷◌,
  ◌++◌, map, append-nil, append_assoc, ◌==◌, ltb, leb, if◌then◌else◌, is_empty, length, get_elem?,
  drop, take, All, Bool-cases, Option-cases, guard, ◌>>=◌, ◌>>◌, >>=-eq-some, along_some, if_cases,
  ==_refl, ==_ne, ==_iff, length-append, take-append-drop, take-length, drop-length,
  drop-length_next, drop-add, drop-length-add, is_empty-append, is_empty-append_cons, take_all,
  All-append, length-take, length-drop, ltb→lt, lt→ltb, leb→le, replicate, is_none,
}
use webrtc_snippets.Common.Bytes.{
  Bytes, codes, Avoids, find_byte, find_byte_from, find_text, starts_with, substr, equal, equal_iff,
  equal_refl,
}
use webrtc_snippets.Common.Bytes.Find.{
  find_byte-append, find_byte-Avoids, find_byte_cases, find_byte_from-append, find_text-Avoids,
  find_text-none,
}
use webrtc_snippets.SignalServer.Connection
use webrtc_snippets.SignalServer.Connection.{Connection, Event, new_connection, on_event}

pub record Slot : Type 0 where
  pub connection : Connection
  pub is_member : Bool

pub record Server : Type 0 where
  pub slots : List Slot
  pub is_accepting : Bool
  pub acceptor_open : Bool
  pub awaits_signal : Bool

pub data ServerEvent : Type 0 where
  accepted accept_failed signalled : ServerEvent
  completed : ℕ → Event → ServerEvent

-- `connection_manager::start`, on a new connection.
abbrev pub start_new : List Slot → List Slot
start_new slots =
    slots ++ record { connection = Connection.start new_connection; is_member = true } ∷ []

-- `connection_manager::stop` and `stop_all`.
abbrev pub stop : Slot → Slot
stop s = record { connection = Connection.stop s.connection; is_member = false }

abbrev pub stop_member : Slot → Slot
stop_member s = if s.is_member then stop s else s

unfoldable pub stop_all : List Slot → List Slot
stop_all [] = []
stop_all (s ∷ slots) = stop_member s ∷ stop_all slots

abbrev pub initial : Server
initial = record { slots = []; is_accepting = true; acceptor_open = true; awaits_signal = true }

-- The completion handler of `do_accept`.
unfoldable pub on_accept : Server → Bool → Server
on_accept s is_ok =
    if s.acceptor_open
    then record s { slots = if is_ok then start_new s.slots else s.slots }
    else record s { is_accepting = false }

-- A handler of the connection has run, and may have asked the manager to stop it.
abbrev settle : Slot → Connection × Bool → Slot
settle s (c, stops) =
    if stops then stop (record s { connection = c }) else record s { connection = c }

module _ (doc_root : Bytes) (files : Bytes → Option Bytes) where
  -- One completion of the connection at an index.
  unfoldable pub complete : List Slot → ℕ → Event → Option (List Slot)
  complete [] i e = none
  complete (s ∷ slots) zero e = do
    r ← on_event doc_root files s.connection e
    some (settle s r ∷ slots)
  complete (s ∷ slots) (suc i) e = do rest ← complete slots i e; some (s ∷ rest)

  -- One handler runs; `none` where that completion cannot happen.
  unfoldable pub step : Server → ServerEvent → Option Server
  unfolding on_accept
  step s accepted = if s.is_accepting then some (on_accept s true) else none
  step s accept_failed = if s.is_accepting then some (on_accept s false) else none
  step s signalled =
      if s.awaits_signal
      then some
          (record s { slots = stop_all s.slots; acceptor_open = false; awaits_signal = false })
      else none
  step s (completed i e) = do slots ← complete s.slots i e; some (record s { slots = slots })

  pub data Reach : Server → Type 0 where
    start : Reach initial
    later : {s t : Server} → Reach s → (e : ServerEvent) → step s e ≡ some t → Reach t
