-- ===== src/Chat/Client.antt =====
-- text_chat/chat_client.cpp: the client, with its socket, its terminal and the thread that reads
-- lines as parameters: an event is a completion, or a handler that the thread has posted. A write
-- succeeds on a connected socket only, and no operation does on a closed one: a completion that is
-- still queued when the socket is closed counts as one before the close, which has the same effect.
pub mod Queue
pub mod Relay
pub mod Wire
use webrtc_snippets.Common.{
  ℕ, zero, suc, ◌+◌, ◌-◌, ◌*◌, ◌/◌, ◌%◌, ◌^◌, ◌≤◌, ◌<◌, ◌≡◌, ◌≢◌, ◌↔◌, ◌⊎◌, inl, inr, refl, sym, ap,
  ◌∙◌, subst, arith, tests, Bool, true, false, not, ◌&&◌, ◌||◌, Option, none, some, List, [], ◌∷◌,
  ◌++◌, map, append-nil, append_assoc, ◌==◌, ltb, leb, if◌then◌else◌, is_empty, length, get_elem?,
  drop, take, All, Bool-cases, Option-cases, guard, ◌>>=◌, ◌>>◌, >>=-eq-some, along_some, along_if,
  if_cases, ==_refl, ==_ne, ==_iff, length-append, take-append-drop, take-length, drop-length,
  drop-length_next, drop-add, drop-length-add, is_empty-append, is_empty-append_cons, take_all,
  All-append, length-take, length-drop, ltb→lt, lt→ltb, leb→le, replicate, is_none, every, every-lt,
}
use webrtc_snippets.Common.Bytes.{
  overwrite, Bytes, concat, codes, Avoids, find_byte, find_byte_from, find_text, starts_with,
  substr, equal, equal_iff, equal_refl,
}
use webrtc_snippets.Common.Bytes.Find.{
  find_byte-append, find_byte-Avoids, find_byte_cases, find_byte_from-append, find_text-Avoids,
  find_text-none,
}
use webrtc_snippets.Common.Bytes.CString.{c_str}
use webrtc_snippets.Chat.Message.{
  ChatMessage, new_message, decode_header, encode_header, set_body_length, header_length,
}
use webrtc_snippets.Chat.Message
use webrtc_snippets.Chat.Room.{Reading, header, body, nothing}

-- `written` is the list of the messages whose write has been completed, and `shown` what has been
-- printed.
pub record Client : Type 0 where
  pub read_msg : ChatMessage
  pub write_msgs : List ChatMessage
  pub is_connecting : Bool
  pub is_connected : Bool
  pub reading : Reading
  pub is_writing : Bool
  pub is_open : Bool
  pub written : List ChatMessage
  pub shown : Bytes

pub data Event : Type 0 where
  connected connect_failed : Event
  posted : ChatMessage → Event
  close_posted : Event
  received : Bytes → Event
  read_failed sent write_failed : Event

abbrev pub new_client : Bytes → Client
new_client garbage = record {
  read_msg = new_message garbage;
  write_msgs = [];
  is_connecting = true;
  is_connected = false;
  reading = nothing;
  is_writing = false;
  is_open = true;
  written = [];
  shown = [];
}

-- The loop of `main`, on a line: `getline` and `strlen` see it up to its first NUL.
unfoldable pub compose : Bytes → Bytes → ChatMessage
compose garbage line =
    let msg = set_body_length (new_message garbage) (length (c_str line)) in
    encode_header (record msg {
      buffer = overwrite header_length (take msg.body_length (c_str line)) msg.buffer;
    })

abbrev pub do_write : Client → Client
do_write c = record c { is_writing = true }

-- `write`.
unfoldable pub write : Client → ChatMessage → Client
write c msg =
    let pushed = record c { write_msgs = c.write_msgs ++ msg ∷ [] } in
    if is_empty c.write_msgs then do_write pushed else pushed

abbrev pub close : Client → Client
close c = record c { is_open = false }

abbrev pub on_decoded : Client → ChatMessage × Bool → Client
on_decoded c (msg, accepted) =
    let read = record c { read_msg = msg; reading = nothing } in
    if accepted then record read { reading = body } else close read

unfoldable pub on_header : Client → Bytes → Client
on_header c bytes =
    on_decoded c
      (decode_header (record c.read_msg { buffer = overwrite 0 bytes c.read_msg.buffer }))

unfoldable pub on_body : Client → Bytes → Client
on_body c bytes =
    let msg = record c.read_msg { buffer = overwrite header_length bytes c.read_msg.buffer } in
    record c { read_msg = msg; shown = c.shown ++ Message.body msg ++ b'\n' ∷ []; reading = header }

unfoldable pub on_sent : Client → Client
on_sent c = elim c.write_msgs [
  | [] ↦ c
  | msg ∷ msgs ↦
      let popped = record c {
        write_msgs = msgs;
        is_writing = false;
        written = c.written ++ msg ∷ [];
      } in
      if is_empty msgs then popped else do_write popped
]

unfoldable pub on_event : Client → Event → Option Client
on_event c connected =
    if c.is_connecting && c.is_open
    then some (record c { is_connecting = false; is_connected = true; reading = header })
    else none
on_event c connect_failed =
    if c.is_connecting then some (record c { is_connecting = false }) else none
on_event c (posted msg) = some (write c msg)
on_event c close_posted = some (close c)
on_event c (received bytes) = elim c.reading [
  | header ↦ if c.is_open && length bytes == header_length then some (on_header c bytes) else none
  | body ↦
      if c.is_open && length bytes == c.read_msg.body_length then some (on_body c bytes) else none
  | nothing ↦ none
]
on_event c read_failed = elim c.reading [
  | nothing ↦ none
  | _ ↦ some (close (record c { reading = nothing }))
]
on_event c sent = if c.is_writing && (c.is_open && c.is_connected) then some (on_sent c) else none
on_event c write_failed =
    if c.is_writing then some (close (record c { is_writing = false })) else none
