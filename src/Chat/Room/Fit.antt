-- ===== src/Chat/Room/Fit.antt =====
-- The buffers of the chat server's messages.
use webrtc_snippets.Common.{
  ℕ, zero, suc, ◌+◌, ◌≤◌, ◌≡◌, refl, sym, ap, ◌∙◌, subst, arith, Bool, true, false, Option, none,
  some, List, [], ◌∷◌, ◌++◌, map, append-nil, ◌==◌, is_empty, length, All, >>=-eq-some, along_some,
  along_if, if_cases, All-append, length-take,
}
use webrtc_snippets.Common.Bytes.{overwrite, Bytes}
use webrtc_snippets.Common.Bytes.Overwrite.{length-overwrite}
use webrtc_snippets.Chat.Message.{
  ChatMessage, buffer_length, max_body_length, message_length, text, decode_header,
}
use webrtc_snippets.Chat.Message.Codec.{decode_header-bound}
use webrtc_snippets.Chat.Room
use webrtc_snippets.Chat.Room.{
  Session, Room, Event, received, read_failed, sent, write_failed, RoomEvent, accepted,
  accept_failed, completed, deliver_to, deliver_each, deliver_if, deliver, deliver_any, join,
  new_session, start, on_decoded, on_header, on_body, on_sent, on_event, complete, step, initial,
  as_list, Reach, empty, later,
}

pub record IsFit (m : ChatMessage) : Type 0 where
  pub whole : length m.buffer ≡ buffer_length
  pub inside : m.body_length ≤ max_body_length

-- What is written is a whole message.
pub length-text : (m : ChatMessage) → IsFit m → length (text m) ≡ message_length m
length-text m v = ground (arith, length-take (message_length m) m.buffer, v.whole, v.inside)

overwrite-IsFit :
    (at : ℕ) (new : Bytes) (m : ChatMessage)
    → at + length new ≤ buffer_length
    → IsFit m
    → IsFit (record m { buffer = overwrite at new m.buffer })
overwrite-IsFit at new m p v = record {
  whole = length-overwrite at new m.buffer (ground (arith, p, v.whole)) ∙ v.whole;
  inside = v.inside;
}

decode_header-IsFit :
    (m : ChatMessage) → length m.buffer ≡ buffer_length → IsFit (decode_header m).0
decode_header-IsFit m e =
    let (small, same, refused) = decode_header-bound m in
    record { whole = ap length same ∙ e; inside = small }

on_sent-read_msg :
    (s : Session) (msgs : List ChatMessage)
    → s.write_msgs ≡ msgs
    → (on_sent s).read_msg ≡ s.read_msg
unfolding on_sent
on_sent-read_msg s [] e = rw e refl
on_sent-read_msg s (msg ∷ msgs) e =
    rw e (
      if_cases {A = Session} (λ t. t.read_msg ≡ s.read_msg) (is_empty msgs) (λ f. refl) (λ f. refl))

on_decoded-read_msg : (s : Session) (d : ChatMessage × Bool) → (on_decoded s d).read_msg ≡ d.0
on_decoded-read_msg s (m, true) = refl
on_decoded-read_msg s (m, false) = refl

deliver_to-read_msg : (s : Session) (msg : ChatMessage) → (deliver_to s msg).read_msg ≡ s.read_msg
unfolding deliver_to
deliver_to-read_msg s msg =
    if_cases {A = Session} (λ t. t.read_msg ≡ s.read_msg) (is_empty s.write_msgs) (λ e. refl)
      (λ e. refl)

deliver_each-read_msg :
    (s : Session) (msgs : List ChatMessage) → (deliver_each s msgs).read_msg ≡ s.read_msg
deliver_each-read_msg s [] = refl
deliver_each-read_msg s (msg ∷ msgs) =
    deliver_each-read_msg (deliver_to s msg) msgs ∙ deliver_to-read_msg s msg

-- A handler's session, and what it delivers.
abbrev pub AreFit : Session × Option ChatMessage → Type 0
AreFit r = IsFit r.0.read_msg × All IsFit (as_list r.1)

on_event-AreFit :
    (s : Session) (e : Event) (read : Room.Reading) (r : Session × Option ChatMessage)
    → IsFit s.read_msg
    → s.reading ≡ read
    → on_event s e ≡ some r
    → AreFit r
unfolding on_event on_header on_body
on_event-AreFit s (received bytes) Room.header r v now eq = along_if AreFit _ (rw now at eq) (λ w.
    let d = decode_header (record s.read_msg { buffer = overwrite 0 bytes s.read_msg.buffer }) in
    let long = length-overwrite 0 bytes s.read_msg.buffer (ground (arith, w, v.whole)) ∙ v.whole in
    (
      subst IsFit (sym (on_decoded-read_msg s d)) (
          decode_header-IsFit (record s.read_msg { buffer = overwrite 0 bytes s.read_msg.buffer })
            long),
      tt,
    ))
on_event-AreFit s (received bytes) Room.body r v now eq = along_if AreFit _ (rw now at eq) (λ w.
    let fit = overwrite-IsFit 4 bytes s.read_msg (ground (arith, w, v.inside)) v in
    (fit, (fit, tt)))
on_event-AreFit s (received bytes) Room.nothing r v now eq = absurd (ground (arith, rw now at eq))
on_event-AreFit s read_failed Room.header r v now eq = along_some AreFit (rw now at eq) (v, tt)
on_event-AreFit s read_failed Room.body r v now eq = along_some AreFit (rw now at eq) (v, tt)
on_event-AreFit s read_failed Room.nothing r v now eq = absurd (ground (arith, rw now at eq))
on_event-AreFit s sent read r v now eq =
    along_if AreFit s.is_writing eq (λ w. (subst IsFit (sym (on_sent-read_msg s _ refl)) v, tt))
on_event-AreFit s write_failed read r v now eq = along_if AreFit s.is_writing eq (λ w. (v, tt))

complete-AreFit :
    (sessions : List Session) (i : ℕ) (e : Event) (r : List Session × Option ChatMessage)
    → All (λ s. IsFit s.read_msg) sessions
    → complete sessions i e ≡ some r
    → All (λ s. IsFit s.read_msg) r.0 × All IsFit (as_list r.1)
unfolding complete
complete-AreFit [] i e r h eq = absurd (ground (arith, eq))
complete-AreFit (s ∷ sessions) zero e r (h, hs) eq =
    let (d, on, eq) = >>=-eq-some (on_event s e) _ eq in
    let (a, b) = on_event-AreFit s e _ d h refl on in
    along_some (λ r. All (λ s. IsFit s.read_msg) r.0 × All IsFit (as_list r.1)) eq ((a, hs), b)
complete-AreFit (s ∷ sessions) (suc i) e r (h, hs) eq =
    let (d, on, eq) = >>=-eq-some (complete sessions i e) _ eq in
    let (a, b) = complete-AreFit sessions i e d hs on in
    along_some (λ r. All (λ s. IsFit s.read_msg) r.0 × All IsFit (as_list r.1)) eq ((h, a), b)

-- All sessions of a room, and all messages of its log.
pub record IsSound (log : List ChatMessage) (r : Room) : Type 0 where
  pub sessions_fit : All (λ s. IsFit s.read_msg) r.sessions
  pub log_fits : All IsFit log

map-IsFit :
    (msg : ChatMessage) (sessions : List Session)
    → All (λ s. IsFit s.read_msg) sessions
    → All (λ s. IsFit s.read_msg) (map (deliver_if msg) sessions)
map-IsFit msg [] h = tt
map-IsFit msg (s ∷ sessions) (h, hs) = (
  if_cases {A = Session} (λ s. IsFit s.read_msg) s.is_participant
      (λ e. subst IsFit (sym (deliver_to-read_msg s msg)) h) (λ e. h),
  map-IsFit msg sessions hs,
)

deliver_any-IsFit :
    (r : Room) (msg : Option ChatMessage)
    → All (λ s. IsFit s.read_msg) r.sessions
    → All (λ s. IsFit s.read_msg) (deliver_any r msg).sessions
unfolding deliver
deliver_any-IsFit r none h = h
deliver_any-IsFit r (some msg) h = map-IsFit msg r.sessions h

abbrev Sound : List ChatMessage → Room × Option ChatMessage → Type 0
Sound log (t, msg) = IsSound (log ++ as_list msg) t

step-Sound :
    (log : List ChatMessage) (r : Room) (e : RoomEvent) (t : Room × Option ChatMessage)
    → IsSound log r
    → step r e ≡ some t
    → Sound log t
unfolding step start
step-Sound log r (accepted garbage) t v eq =
    along_if (Sound log) (length garbage == buffer_length) eq (λ k.
      let fit =
        subst IsFit
          (sym (
            deliver_each-read_msg (record (new_session garbage) { is_participant = true })
              r.recent_msgs))
          (record { whole = ground (arith, k); inside = omega arith }) in
      record {
        sessions_fit = All-append (λ s. IsFit s.read_msg) r.sessions _ v.sessions_fit (fit, tt);
        log_fits = All-append IsFit log [] v.log_fits tt;
      })
step-Sound log r accept_failed t v eq = along_some (Sound log) eq (rw (append-nil log) v)
step-Sound log r (completed i e) t v eq =
    let (d, on, eq) = >>=-eq-some (complete r.sessions i e) _ eq in
    let (a, b) = complete-AreFit r.sessions i e d v.sessions_fit on in
    along_some (Sound log) eq (record {
      sessions_fit = deliver_any-IsFit (record r { sessions = d.0 }) d.1 a;
      log_fits = All-append IsFit log (as_list d.1) v.log_fits b;
    })

-- Whatever bytes the clients send, in every state that the chat server can reach, the buffer that a
-- session reads into and that of each message delivered to the room have their 516 bytes, and the
-- length of their bodies is at most 512.
pub Reach-IsSound : (r : Room) (log : List ChatMessage) → Reach r log → IsSound log r
Reach-IsSound r log empty = record { sessions_fit = tt; log_fits = tt }
Reach-IsSound r log (later reached e eq) = step-Sound _ _ e _ (Reach-IsSound _ _ reached) eq
