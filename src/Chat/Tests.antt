-- ===== src/Chat/Tests.antt =====
-- The chat on concrete inputs.
use webrtc_snippets.Common.{
  ◌≡◌, inr, refl, arith, true, false, Option, none, some, List, [], ◌∷◌, ◌++◌, drop, take, ◌>>=◌,
  >>=-eq-some, along_some, replicate,
}
use webrtc_snippets.Common.Bytes.{overwrite, Bytes, codes}
use webrtc_snippets.Common.Bytes.CString.{c_str, skip_spaces}
use webrtc_snippets.Common.Bytes.Digits.{to_decimal, decimal_digits, read_digits}
use webrtc_snippets.Chat.Message.{
  ChatMessage, new_message, padded, decode_header, encode_header, atoi, atoi_signed, text,
  set_body_length,
}
use webrtc_snippets.Chat.Message.Codec.{
  with_header, decode_header-IsRefused, decode_header-encode_header,
}
use webrtc_snippets.Chat.Room
use webrtc_snippets.Chat.Room.{
  Session, Room, RoomEvent, Reach, empty, later, step, start, complete, on_event, on_header,
  on_body, on_sent, deliver, deliver_to, keep_recent, initial, new_session,
}
use webrtc_snippets.Chat.Room.Steps.{IsOrdered, Reach-IsOrdered}
use webrtc_snippets.Chat.Room.Fit.{IsSound, Reach-IsSound}
use webrtc_snippets.Chat.Client
use webrtc_snippets.Chat.Client.Queue
use webrtc_snippets.Chat.Client.Queue.{run-posts, run-closed}
use webrtc_snippets.Chat.Client.{Client, new_client, compose}
use webrtc_snippets.Chat.Client.Relay.{line_text, relay_line, show_line}

abbrev blank : Bytes
blank = replicate 516 0

abbrev hello : ChatMessage
hello = compose blank (codes "hello")

hello-text : text hello ≡ codes "   5hello"
unfolding compose encode_header overwrite padded to_decimal decimal_digits c_str set_body_length
hello-text = refl

decode_header-encode_header_example :
    decode_header
      (record (encode_header (record { buffer = blank; body_length = 512 })) { body_length = 7 })
    ≡ (encode_header (record { buffer = blank; body_length = 512 }), true)
decode_header-encode_header_example =
    decode_header-encode_header (record { buffer = blank; body_length = 512 }) 7 (omega arith)

decode_header-IsRefused_example :
    decode_header (with_header (codes "  -1") (new_message blank))
    ≡ (record (with_header (codes "  -1") (new_message blank)) { body_length = 0 }, false)
unfolding to_decimal decimal_digits
decode_header-IsRefused_example =
    decode_header-IsRefused (codes "  -1") (new_message blank)
      (inr (1, omega arith, omega arith, refl))

-- Two participants, and a message of the first.
abbrev one_message : List RoomEvent
one_message =
    Room.accepted blank
    ∷ Room.accepted blank
    ∷ Room.completed 0 (Room.received (codes "   2"))
    ∷ Room.completed 0 (Room.received (codes "hi"))
    ∷ Room.completed 1 Room.sent
    ∷ []

abbrev run : Room → List ChatMessage → List RoomEvent → Option (Room × List ChatMessage)
run r log [] = some (r, log)
run r log (e ∷ events) = do (t, msg) ← step r e; run t (log ++ Room.as_list msg) events

abbrev ran : Room × List ChatMessage
ran = elim (run initial [] one_message) [ none ↦ (initial, []) | some s ↦ s ]

run-Reach :
    (r : Room) (log : List ChatMessage) (events : List RoomEvent) (t : Room × List ChatMessage)
    → Reach r log
    → run r log events ≡ some t
    → Reach t.0 t.1
run-Reach r log [] t reached eq = along_some (λ t. Reach t.0 t.1) eq reached
run-Reach r log (e ∷ events) t reached eq =
    let (u, on, eq) = >>=-eq-some (step r e) _ eq in
    run-Reach u.0 (log ++ Room.as_list u.1) events t (later reached e on) eq

ran-Reach : Reach ran.0 ran.1
unfolding step start complete on_event on_header on_body on_sent deliver deliver_to keep_recent
    decode_header overwrite atoi atoi_signed c_str skip_spaces read_digits
ran-Reach = run-Reach initial [] one_message ran empty refl

Reach-IsOrdered_example : IsOrdered ran.1 ran.0
Reach-IsOrdered_example = Reach-IsOrdered ran.0 ran.1 ran-Reach

Reach-IsSound_example : IsSound ran.1 ran.0
Reach-IsSound_example = Reach-IsSound ran.0 ran.1 ran-Reach

abbrev reader : Session
reader = record (new_session blank) { reading = Room.header }

relay_line_example :
    (t u : Session) × (msg : ChatMessage) × (Room.on_event reader
        (Room.received (take 4 (line_text blank (codes "hello"))))
      ≡ some (t, none))
    × (Room.on_event t (Room.received (drop 4 (line_text blank (codes "hello"))))
        ≡ some (u, some msg))
    × (text msg ≡ line_text blank (codes "hello"))
    × (u.reading ≡ Room.header)
unfolding c_str
relay_line_example = relay_line blank (codes "hello") refl (omega arith) reader refl

abbrev viewer : Client
viewer = record (new_client blank) { reading = Room.header }

show_line_example :
    (d e : Client) × (Client.on_event viewer
        (Client.received (take 4 (line_text blank (codes "hello"))))
      ≡ some d)
    × (Client.on_event d (Client.received (drop 4 (line_text blank (codes "hello")))) ≡ some e)
    × (e.shown ≡ viewer.shown ++ c_str (codes "hello") ++ b'\n' ∷ [])
    × (e.reading ≡ Room.header)
unfolding c_str
show_line_example = show_line blank (codes "hello") refl (omega arith) viewer refl refl

-- A client that is connected: one of two messages is written.
abbrev two_posts : List Client.Event
two_posts =
    Client.connected
    ∷ Client.posted (compose blank (codes "first"))
    ∷ Client.posted (compose blank (codes "second"))
    ∷ Client.sent
    ∷ []

abbrev halfway : Client
halfway = record (new_client blank) {
  is_connecting = false;
  is_connected = true;
  reading = Room.header;
  write_msgs = compose blank (codes "second") ∷ [];
  is_writing = true;
  written = compose blank (codes "first") ∷ [];
}

halfway_run : Queue.run (new_client blank) two_posts ≡ some halfway
unfolding Queue.run Client.on_event Client.write Client.on_sent
halfway_run = refl

run-posts_example :
    (d : Client) × (Queue.run halfway (Client.sent ∷ []) ≡ some d)
    × (d.written ≡ compose blank (codes "first") ∷ compose blank (codes "second") ∷ [])
    × (d.write_msgs ≡ [])
run-posts_example = run-posts blank two_posts halfway halfway_run refl refl

-- The socket is closed while the second message is being written, and a third one is posted.
abbrev closing : List Client.Event
closing = two_posts ++ Client.close_posted ∷ []

abbrev leaving : List Client.Event
leaving = Client.posted (compose blank (codes "third")) ∷ Client.write_failed ∷ []

abbrev closed : Client
closed = record halfway { is_open = false }

abbrev left : Client
left = record closed {
  write_msgs = compose blank (codes "second") ∷ compose blank (codes "third") ∷ [];
  is_writing = false;
}

closed_run : Queue.run (new_client blank) closing ≡ some closed
unfolding Queue.run Client.on_event Client.write Client.on_sent
closed_run = refl

left_run : Queue.run closed leaving ≡ some left
unfolding Queue.run Client.on_event Client.write Client.on_sent
left_run = refl

run-closed_example :
    (left.is_open ≡ false)
    × (left.written ≡ closed.written)
    × (closed.written ++ left.write_msgs
        ≡ compose blank (codes "first")
          ∷ compose blank (codes "second")
          ∷ compose blank (codes "third")
          ∷ [])
run-closed_example = run-closed blank closing leaving closed left closed_run refl left_run
