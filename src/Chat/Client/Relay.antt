-- ===== src/Chat/Client/Relay.antt =====
-- A line on its way: from a client over a session of the server to a client.
use webrtc_snippets.Common.{
  ◌≤◌, ◌≡◌, refl, sym, ap, ◌∙◌, arith, true, ◌&&◌, none, some, [], ◌∷◌, ◌++◌, ◌==◌, length, drop,
  take, if_true,
}
use webrtc_snippets.Common.Bytes.{overwrite, Bytes}
use webrtc_snippets.Common.Bytes.CString.{c_str}
use webrtc_snippets.Chat.Message
use webrtc_snippets.Chat.Message.{
  ChatMessage, buffer_length, new_message, padded, atoi, text, set_body_length, decode_header,
  encode_header,
}
use webrtc_snippets.Chat.Message.Codec.{padded-read, with_header, decode_accepted}
use webrtc_snippets.Chat.Room
use webrtc_snippets.Chat.Room.{Session}
use webrtc_snippets.Chat.Client
use webrtc_snippets.Chat.Client.{Client, compose}
use webrtc_snippets.Chat.Client.Wire.{
  wire, take-both, drop-both, text-compose, take-wire, drop-wire,
}

-- The two reads of one message.
module _ (b : Bytes) (short : length b ≤ 512) where
  -- The message in the buffer after its header, and after its body.
  abbrev headed : ChatMessage → ChatMessage
  headed m = record (with_header (padded (length b)) m) { body_length = length b }

  abbrev filled : ChatMessage → ChatMessage
  filled m = record (headed m) { buffer = overwrite 4 b (headed m).buffer }

  text-filled : (m : ChatMessage) → text (filled m) ≡ wire b
  unfolding with_header
  text-filled m = take-both (padded (length b)) b m.buffer (padded-read (length b) (omega arith)).0

  body-filled : (m : ChatMessage) → Message.body (filled m) ≡ b
  unfolding with_header
  body-filled m = drop-both (padded (length b)) b m.buffer (padded-read (length b) (omega arith)).0

  session_header :
      (s : Session)
      → s.reading ≡ Room.header
      → Room.on_event s (Room.received (padded (length b)))
        ≡ some (record s { read_msg = headed s.read_msg; reading = Room.body }, none)
  unfolding Room.on_event Room.on_header with_header
  session_header s now =
      ap (λ r. Room.on_event (record s { reading = r }) (Room.received (padded (length b)))) now
      ∙ if_true (length (padded (length b)) == 4) none
          (ground (arith, (padded-read (length b) (omega arith)).0))
      ∙ ap (λ d. some (Room.on_decoded s d, none)) (decode_accepted (length b) s.read_msg short)

  session_body :
      (s : Session)
      → s.reading ≡ Room.body
      → s.read_msg.body_length ≡ length b
      → Room.on_event s (Room.received b)
        ≡ some (Room.on_body s b, some (Room.on_body s b).read_msg)
  unfolding Room.on_event Room.on_body
  session_body s now size =
      ap (λ r. Room.on_event (record s { reading = r }) (Room.received b)) now
      ∙ if_true (length b == s.read_msg.body_length) none (ground (arith, size))

  client_header :
      (c : Client)
      → c.is_open ≡ true
      → c.reading ≡ Room.header
      → Client.on_event c (Client.received (padded (length b)))
        ≡ some (record c { read_msg = headed c.read_msg; reading = Room.body })
  unfolding Client.on_event Client.on_header with_header
  client_header c opened now =
      ap (λ r. Client.on_event (record c { reading = r }) (Client.received (padded (length b)))) now
      ∙ if_true (c.is_open && length (padded (length b)) == 4) none
          (ground (arith, (padded-read (length b) (omega arith)).0, opened))
      ∙ ap (λ d. some (Client.on_decoded c d)) (decode_accepted (length b) c.read_msg short)

  client_body :
      (c : Client)
      → c.is_open ≡ true
      → c.reading ≡ Room.body
      → c.read_msg.body_length ≡ length b
      → Client.on_event c (Client.received b) ≡ some (Client.on_body c b)
  unfolding Client.on_event Client.on_body
  client_body c opened now size =
      ap (λ r. Client.on_event (record c { reading = r }) (Client.received b)) now
      ∙ if_true (c.is_open && length b == c.read_msg.body_length) none
          (ground (arith, size, opened))

-- The bytes that a client writes for a line.
abbrev pub line_text : Bytes → Bytes → Bytes
line_text garbage line = text (compose garbage line)

module _ (garbage line : Bytes) (whole : length garbage ≡ buffer_length)
    (short : length (c_str line) ≤ 512) where
  header_text : take 4 (line_text garbage line) ≡ padded (length (c_str line))
  header_text = ap (take 4) (text-compose garbage line whole short) ∙ take-wire (c_str line) short

  body_text : drop 4 (line_text garbage line) ≡ c_str line
  body_text = ap (drop 4) (text-compose garbage line whole short) ∙ drop-wire (c_str line) short

  -- A line of at most 512 bytes that a client sends, read by a session of the server in a header and
  -- a body, is delivered to the room as a message that is written with the same bytes, and the
  -- session goes on to read the next header.
  pub relay_line :
      (s : Session)
      → s.reading ≡ Room.header
      → (t u : Session) × (msg : ChatMessage) × (Room.on_event s
            (Room.received (take 4 (line_text garbage line)))
          ≡ some (t, none))
        × (Room.on_event t (Room.received (drop 4 (line_text garbage line))) ≡ some (u, some msg))
        × (text msg ≡ line_text garbage line)
        × (u.reading ≡ Room.header)
  unfolding Room.on_body
  relay_line s now =
      let b = c_str line in
      let t = record s { read_msg = headed b short s.read_msg; reading = Room.body } in
      (
        t,
        Room.on_body t b,
        filled b short s.read_msg,
        ap (λ h. Room.on_event s (Room.received h)) header_text ∙ session_header b short s now,
        ap (λ h. Room.on_event t (Room.received h)) body_text ∙ session_body b short t refl refl,
        text-filled b short s.read_msg ∙ sym (text-compose garbage line whole short),
        refl,
      )

  -- A client with an open socket that reads the bytes of a line of at most 512 bytes, in a header and a body, prints the
  -- line up to its first NUL and a line feed, and goes on to read the next header.
  pub show_line :
      (c : Client)
      → c.is_open ≡ true
      → c.reading ≡ Room.header
      → (d e : Client) × (Client.on_event c (Client.received (take 4 (line_text garbage line)))
          ≡ some d)
        × (Client.on_event d (Client.received (drop 4 (line_text garbage line))) ≡ some e)
        × (e.shown ≡ c.shown ++ c_str line ++ b'\n' ∷ [])
        × (e.reading ≡ Room.header)
  unfolding Client.on_body
  show_line c opened now =
      let b = c_str line in
      let d = record c { read_msg = headed b short c.read_msg; reading = Room.body } in
      (
        d,
        Client.on_body d b,
        ap (λ h. Client.on_event c (Client.received h)) header_text
            ∙ client_header b short c opened now,
        ap (λ h. Client.on_event d (Client.received h)) body_text
            ∙ client_body b short d opened refl refl,
        ap (λ b. c.shown ++ b ++ b'\n' ∷ []) (body-filled b short c.read_msg),
        refl,
      )
