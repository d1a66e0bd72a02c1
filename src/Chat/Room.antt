-- ===== src/Chat/Room.antt =====
-- text_chat/chat_server.cpp: the room and its sessions. The heap is a list of the sessions made so
-- far, and a mark on each says whether it is one of the room's participants. The sockets are a
-- parameter: an event is one completion. Participants are served in the order of joining, where the
-- source's set has the order of their addresses.
pub mod Follow
pub mod Fit
pub mod Steps
use webrtc_snippets.Common.{
  ℕ, zero, suc, ◌+◌, ◌-◌, ◌*◌, ◌/◌, ◌%◌, ◌^◌, ◌≤◌, ◌<◌, ◌≡◌, ◌≢◌, ◌↔◌, ◌⊎◌, inl, inr, refl, sym, ap,
  ◌∙◌, subst, arith, tests, Bool, true, false, not, ◌&&◌, ◌||◌, Option, none, some, List, [], ◌∷◌,
  ◌++◌, map, append-nil, append_assoc, ◌==◌, ltb, leb, if◌then◌else◌, is_empty, length, get_elem?,
  drop, take, All, Bool-cases, Option-cases, guard, ◌>>=◌, ◌>>◌, >>=-eq-some, along_some, along_if,
  if_cases, ==_refl, ==_ne, ==_iff, length-append, take-append-drop, take-length, drop-length,
  drop-length_next, drop-add, drop-length-add, is_empty-append, is_empty-append_cons, take_all,
  All-append, length-take, length-drop, ltb→lt, lt→ltb, leb→le, replicate, is_none, every, every-lt,
}
use webrtc_snippets.Common.Bytes.{
  overwrite, Bytes, concat, codes, Avoids, find_byte, find_byte_from, find_text, starts_with,
  substr, equal, equal_iff, equal_refl,
}
use webrtc_snippets.Common.Bytes.Find.{
  find_byte-append, find_byte-Avoids, find_byte_cases, find_byte_from-append, find_text-Avoids,
  find_text-none,
}
use webrtc_snippets.Chat.Message.{
  ChatMessage, new_message, decode_header, header_length, buffer_length,
}

-- The read that is outstanding.
pub data Reading : Type 0 where
  header body nothing : Reading

-- `written` is the list of the messages whose write has been completed.
pub record Session : Type 0 where
  pub read_msg : ChatMessage
  pub write_msgs : List ChatMessage
  pub reading : Reading
  pub is_writing : Bool
  pub is_participant : Bool
  pub written : List ChatMessage

pub record Room : Type 0 where
  pub sessions : List Session
  pub recent_msgs : List ChatMessage

abbrev pub do_write : Session → Session
do_write s = record s { is_writing = true }

unfoldable pub deliver_to : Session → ChatMessage → Session
deliver_to s msg =
    let pushed = record s { write_msgs = s.write_msgs ++ msg ∷ [] } in
    if is_empty s.write_msgs then do_write pushed else pushed

abbrev pub deliver_each : Session → List ChatMessage → Session
deliver_each s [] = s
deliver_each s (msg ∷ msgs) = deliver_each (deliver_to s msg) msgs

abbrev pub max_recent_msgs : ℕ
max_recent_msgs = 100

-- The loop that removes the oldest messages.
unfoldable pub keep_recent : List ChatMessage → List ChatMessage
keep_recent [] = []
keep_recent (msg ∷ msgs) =
    let rest = keep_recent msgs in
    if ltb max_recent_msgs (length (msg ∷ msgs)) then rest else msg ∷ msgs

abbrev pub deliver_if : ChatMessage → Session → Session
deliver_if msg s = if s.is_participant then deliver_to s msg else s

unfoldable pub deliver : Room → ChatMessage → Room
deliver r msg = record {
  recent_msgs = keep_recent (r.recent_msgs ++ msg ∷ []);
  sessions = map (deliver_if msg) r.sessions;
}

abbrev pub leave : Session → Session
leave s = record s { is_participant = false }

abbrev pub join : Room → Session → Session
join r s = deliver_each (record s { is_participant = true }) r.recent_msgs

abbrev pub do_read_header : Session → Session
do_read_header s = record s { reading = header }

abbrev pub do_read_body : Session → Session
do_read_body s = record s { reading = body }

-- A session on a new socket; `garbage` is what its buffer happens to hold.
abbrev pub new_session : Bytes → Session
new_session garbage = record {
  read_msg = new_message garbage;
  write_msgs = [];
  reading = nothing;
  is_writing = false;
  is_participant = false;
  written = [];
}

-- `start`.
unfoldable pub start : Room → Bytes → Room
start r garbage = record r {
  sessions = r.sessions ++ do_read_header (join r (new_session garbage)) ∷ [];
}

pub data Event : Type 0 where
  received : Bytes → Event
  read_failed sent write_failed : Event

-- The handler of a read of the header, on the four bytes.
abbrev pub on_decoded : Session → ChatMessage × Bool → Session
on_decoded s (msg, accepted) =
    let read = record s { read_msg = msg; reading = nothing } in
    if accepted then do_read_body read else leave read

unfoldable pub on_header : Session → Bytes → Session
on_header s bytes =
    on_decoded s
      (decode_header (record s.read_msg { buffer = overwrite 0 bytes s.read_msg.buffer }))

-- The body is in the buffer.
unfoldable pub on_body : Session → Bytes → Session
on_body s bytes = do_read_header (record s {
  read_msg = record s.read_msg { buffer = overwrite header_length bytes s.read_msg.buffer };
})

-- The handler of a write that succeeded.
unfoldable pub on_sent : Session → Session
on_sent s = elim s.write_msgs [
  | [] ↦ s
  | msg ∷ msgs ↦
      let popped = record s {
        write_msgs = msgs;
        is_writing = false;
        written = s.written ++ msg ∷ [];
      } in
      if is_empty msgs then popped else do_write popped
]

-- What a completion makes of its session, and the message that it delivers to the room, if any. An
-- `async_read` completes with just as many bytes as it was asked for.
unfoldable pub on_event : Session → Event → Option (Session × Option ChatMessage)
on_event s (received bytes) = elim s.reading [
  | header ↦ if length bytes == header_length then some (on_header s bytes, none) else none
  | body ↦
      if length bytes == s.read_msg.body_length
      then some (on_body s bytes, some (on_body s bytes).read_msg)
      else none
  | nothing ↦ none
]
on_event s read_failed = elim s.reading [
  | nothing ↦ none
  | _ ↦ some (leave (record s { reading = nothing }), none)
]
on_event s sent = if s.is_writing then some (on_sent s, none) else none
on_event s write_failed =
    if s.is_writing then some (leave (record s { is_writing = false }), none) else none

-- The completion of the session at an index.
unfoldable pub complete : List Session → ℕ → Event → Option (List Session × Option ChatMessage)
complete [] i e = none
complete (s ∷ sessions) zero e = do (after, msg) ← on_event s e; some (after ∷ sessions, msg)
complete (s ∷ sessions) (suc i) e = do (rest, msg) ← complete sessions i e; some (s ∷ rest, msg)

abbrev pub deliver_any : Room → Option ChatMessage → Room
deliver_any r none = r
deliver_any r (some msg) = deliver r msg

pub data RoomEvent : Type 0 where
  accepted : Bytes → RoomEvent
  accept_failed : RoomEvent
  completed : ℕ → Event → RoomEvent

-- One handler runs: the room after it, and the message that it has delivered.
unfoldable pub step : Room → RoomEvent → Option (Room × Option ChatMessage)
step r (accepted garbage) =
    if length garbage == buffer_length then some (start r garbage, none) else none
step r accept_failed = some (r, none)
step r (completed i e) = do
  (sessions, msg) ← complete r.sessions i e
  some (deliver_any (record r { sessions = sessions }) msg, msg)

abbrev pub initial : Room
initial = record { sessions = []; recent_msgs = [] }

abbrev pub as_list : Option ChatMessage → List ChatMessage
as_list none = []
as_list (some msg) = msg ∷ []

-- A room that can be reached, with all the messages that have been delivered to it.
pub data Reach : Room → List ChatMessage → Type 0 where
  empty : Reach initial []
  later :
      {r t : Room} {log : List ChatMessage} {msg : Option ChatMessage}
      → Reach r log
      → (e : RoomEvent) → step r e ≡ some (t, msg)
      → Reach t (log ++ as_list msg)
