-- ===== src/Chat/Room/Steps.antt =====
-- What each handler of the chat server does to what the sessions write.
use webrtc_snippets.Common.{
  ℕ, zero, suc, ◌≡◌, refl, ap, ◌∙◌, arith, Bool, true, false, not, Option, none, some, List, [],
  ◌∷◌, ◌++◌, map, append-nil, append_assoc, ◌==◌, is_empty, length, All, >>=-eq-some, along_some,
  along_if, if_cases, All-append,
}
use webrtc_snippets.Common.Bytes.{overwrite, Bytes}
use webrtc_snippets.Chat.Message.{ChatMessage, buffer_length, decode_header}
use webrtc_snippets.Chat.Room
use webrtc_snippets.Chat.Room.{
  Session, Room, Event, received, read_failed, sent, write_failed, RoomEvent, accepted,
  accept_failed, completed, deliver_if, deliver, deliver_any, keep_recent, new_session, start,
  on_decoded, on_header, on_body, on_sent, on_event, complete, step, initial, as_list, Reach, empty,
  later,
}
use webrtc_snippets.Chat.Room.Follow.{
  Follows, IsQueue, Tracks, recent, recent-append, deliver_if-Tracks, join-Tracks,
}

module _ (log : List ChatMessage) (s : Session) (v : Follows log s) (q : IsQueue s) where
  rereading :
      (m : ChatMessage) (read : Room.Reading)
      → Tracks log (record s { read_msg = m; reading = read })
  rereading m read = (
    record { before = v.before; after = v.after; whole = v.whole; up_to_date = v.up_to_date },
    record { front = q.front; going = q.going },
  )

  left :
      (m : ChatMessage) (read : Room.Reading)
      → Tracks log (record s { read_msg = m; reading = read; is_participant = false })
  left m read = (
    record { before = v.before; after = v.after; whole = v.whole; up_to_date = λ e. absurd (cc) },
    record { front = q.front; going = λ e. absurd (cc) },
  )

  stopped : Tracks log (record s { is_writing = false; is_participant = false })
  stopped = (
    record { before = v.before; after = v.after; whole = v.whole; up_to_date = λ e. absurd (cc) },
    record { front = λ e. absurd (cc); going = λ e. absurd (cc) },
  )

  on_decoded-Tracks : (d : ChatMessage × Bool) → Tracks log (on_decoded s d)
  on_decoded-Tracks (m, true) = rereading m Room.body
  on_decoded-Tracks (m, false) = left m Room.nothing

  popped :
      (b : Bool) (msg : ChatMessage) (msgs : List ChatMessage)
      → s.write_msgs ≡ msg ∷ msgs
      → b ≡ not (is_empty msgs)
      → Tracks log (record s { write_msgs = msgs; is_writing = b; written = s.written ++ msg ∷ [] })
  popped b msg msgs e w = (
    record {
      before = v.before;
      after = v.after;
      whole = v.whole ∙ rw e (simp (append_assoc) refl);
      up_to_date = v.up_to_date;
    },
    record { front = λ f. ground (arith, w, f); going = λ f. w },
  )

  on_sent-Tracks :
      (msgs : List ChatMessage) → s.write_msgs ≡ msgs → s.is_writing ≡ true → Tracks log (on_sent s)
  unfolding on_sent
  on_sent-Tracks [] e w = absurd (ground (arith, q.front w, ap is_empty e))
  on_sent-Tracks (msg ∷ msgs) e w = rw e (
      if_cases {A = Session} (Tracks log) (is_empty msgs)
        (λ f. popped false msg msgs e (ground (arith, f)))
        (λ f. popped true msg msgs e (ground (arith, f))))

  abbrev Kept : Session × Option ChatMessage → Type 0
  Kept r = Tracks log r.0

  on_event-Tracks :
      (e : Event) (read : Room.Reading) (r : Session × Option ChatMessage)
      → s.reading ≡ read
      → on_event s e ≡ some r
      → Tracks log r.0
  unfolding on_event on_header on_body
  on_event-Tracks (received bytes) Room.header r now eq = along_if Kept _ (rw now at eq) (λ w.
      on_decoded-Tracks
        (decode_header (record s.read_msg { buffer = overwrite 0 bytes s.read_msg.buffer })))
  on_event-Tracks (received bytes) Room.body r now eq =
      along_if Kept _ (rw now at eq) (λ w. rereading _ _)
  on_event-Tracks (received bytes) Room.nothing r now eq = absurd (ground (arith, rw now at eq))
  on_event-Tracks read_failed Room.header r now eq = along_some Kept (rw now at eq) (left _ _)
  on_event-Tracks read_failed Room.body r now eq = along_some Kept (rw now at eq) (left _ _)
  on_event-Tracks read_failed Room.nothing r now eq = absurd (ground (arith, rw now at eq))
  on_event-Tracks sent read r now eq = along_if Kept s.is_writing eq (λ w. on_sent-Tracks _ refl w)
  on_event-Tracks write_failed read r now eq = along_if Kept s.is_writing eq (λ w. stopped)

complete-Tracks :
    (log : List ChatMessage) (sessions : List Session) (i : ℕ) (e : Event)
    (r : List Session × Option ChatMessage)
    → All (Tracks log) sessions
    → complete sessions i e ≡ some r
    → All (Tracks log) r.0
unfolding complete
complete-Tracks log [] i e r h eq = absurd (ground (arith, eq))
complete-Tracks log (s ∷ sessions) zero e r ((v, q), hs) eq =
    let (d, on, eq) = >>=-eq-some (on_event s e) _ eq in
    along_some (λ r. All (Tracks log) r.0) eq (on_event-Tracks log s v q e _ d refl on, hs)
complete-Tracks log (s ∷ sessions) (suc i) e r (h, hs) eq =
    let (d, on, eq) = >>=-eq-some (complete sessions i e) _ eq in
    along_some (λ r. All (Tracks log) r.0) eq (h, complete-Tracks log sessions i e d hs on)

map-Tracks :
    (log : List ChatMessage) (msg : ChatMessage) (sessions : List Session)
    → All (Tracks log) sessions
    → All (Tracks (log ++ msg ∷ [])) (map (deliver_if msg) sessions)
map-Tracks log msg [] h = tt
map-Tracks log msg (s ∷ sessions) (h, hs) =
    (deliver_if-Tracks log msg s h, map-Tracks log msg sessions hs)

-- The room against its log: the messages kept are the last hundred, and each session writes a piece
-- of the log.
pub record IsOrdered (log : List ChatMessage) (r : Room) : Type 0 where
  pub keeps : r.recent_msgs ≡ recent log
  pub tracked : All (Tracks log) r.sessions

deliver_any-IsOrdered :
    (log : List ChatMessage) (r : Room) (msg : Option ChatMessage)
    → IsOrdered log r
    → IsOrdered (log ++ as_list msg) (deliver_any r msg)
unfolding deliver
deliver_any-IsOrdered log r none v = rw (append-nil log) v
deliver_any-IsOrdered log r (some msg) v = record {
  keeps = ap (λ l. keep_recent (l ++ msg ∷ [])) v.keeps ∙ recent-append log msg;
  tracked = map-Tracks log msg r.sessions v.tracked;
}

start-IsOrdered :
    (log : List ChatMessage) (r : Room) (garbage : Bytes)
    → IsOrdered log r
    → IsOrdered log (start r garbage)
unfolding start
start-IsOrdered log r garbage v =
    let (follows, queue) = join-Tracks log r garbage v.keeps in
    record {
      keeps = v.keeps;
      tracked =
          All-append (Tracks log) r.sessions _ v.tracked
            (rereading log _ follows queue _ Room.header, tt);
    }

abbrev Delivered : List ChatMessage → Room × Option ChatMessage → Type 0
Delivered log (t, msg) = IsOrdered (log ++ as_list msg) t

step-IsOrdered :
    (log : List ChatMessage) (r : Room) (e : RoomEvent) (t : Room × Option ChatMessage)
    → IsOrdered log r
    → step r e ≡ some t
    → Delivered log t
unfolding step
step-IsOrdered log r (accepted garbage) t v eq =
    along_if (Delivered log) (length garbage == buffer_length) eq
      (λ k. rw (append-nil log) (start-IsOrdered log r garbage v))
step-IsOrdered log r accept_failed t v eq = along_some (Delivered log) eq (rw (append-nil log) v)
step-IsOrdered log r (completed i e) t v eq =
    let (d, on, eq) = >>=-eq-some (complete r.sessions i e) _ eq in
    along_some (Delivered log) eq (
      deliver_any-IsOrdered log (record r { sessions = d.0 }) d.1
        (record { keeps = v.keeps; tracked = complete-Tracks log r.sessions i e d v.tracked on }))

-- In every state that the chat server can reach, the room keeps the last hundred of all the messages
-- that have been delivered to it, in order; and what a session has written, followed by what it
-- still has queued, is a contiguous piece of those messages, which for a participant reaches to the
-- newest message. A session's write is outstanding only with
-- a message at the front of its queue, and a participant's always when its queue is not empty.
pub Reach-IsOrdered : (r : Room) (log : List ChatMessage) → Reach r log → IsOrdered log r
Reach-IsOrdered r log empty = record { keeps = refl; tracked = tt }
Reach-IsOrdered r log (later reached e eq) = step-IsOrdered _ _ e _ (Reach-IsOrdered _ _ reached) eq
