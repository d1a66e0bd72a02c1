-- ===== src/Chat/Client/Queue.antt =====
-- text_chat/chat_client.cpp: the queue of the messages that are posted.
use webrtc_snippets.Common.{
  ◌≡◌, inl, inr, refl, sym, ap, ◌∙◌, arith, Bool, true, false, not, ◌&&◌, Option, none, some, List,
  [], ◌∷◌, ◌++◌, append-nil, append_assoc, ◌==◌, is_empty, length, Bool-cases, ◌>>=◌, >>=-eq-some,
  along_some, along_if, if_true, if_cases, is_empty-append_cons, replicate,
}
use webrtc_snippets.Common.Bytes.{Bytes, overwrite}
use webrtc_snippets.Chat.Message.{ChatMessage, header_length, decode_header}
use webrtc_snippets.Chat.Room
use webrtc_snippets.Chat.Room.{Reading}
use webrtc_snippets.Chat.Client.{
  Client, Event, new_client, write, on_decoded, on_header, on_body, on_sent, on_event,
}

-- Handlers one after the other.
unfoldable pub run : Client → List Event → Option Client
run c [] = some c
run c (e ∷ events) = on_event c e >>= λ d. run d events

abbrev pub posts : List Event → List ChatMessage
posts [] = []
posts (e ∷ events) = elim e [ Event.posted msg ↦ msg ∷ posts events | _ ↦ posts events ]

-- The queue and the writes are as before, and a socket that was closed stays closed.
record Keeps (c d : Client) : Type 0 where
  written : d.written ≡ c.written
  queue : d.write_msgs ≡ c.write_msgs
  writing : d.is_writing ≡ c.is_writing
  opened : d.is_open ≡ true → c.is_open ≡ true

on_decoded-Keeps :
    (c : Client) (r : Reading) (m : ChatMessage) (ok : Bool)
    → Keeps c (on_decoded (record c { reading = r }) (m, ok))
on_decoded-Keeps c r m true = record {
  written = refl;
  queue = refl;
  writing = refl;
  opened = λ o. o;
}
on_decoded-Keeps c r m false = record {
  written = refl;
  queue = refl;
  writing = refl;
  opened = λ o. absurd (cc);
}

received-Keeps :
    (c d : Client) (bytes : Bytes) (r : Reading)
    → c.reading ≡ r
    → on_event c (Event.received bytes) ≡ some d
    → Keeps c d
unfolding on_event on_header on_body
received-Keeps c d bytes Room.header now eq =
    along_if (Keeps c) (c.is_open && length bytes == header_length) (rw now at eq) (λ w.
      let m = decode_header (record c.read_msg { buffer = overwrite 0 bytes c.read_msg.buffer }) in
      on_decoded-Keeps c Room.header m.0 m.1)
received-Keeps c d bytes Room.body now eq =
    along_if (Keeps c) (c.is_open && length bytes == c.read_msg.body_length) (rw now at eq)
      (λ w. record { written = refl; queue = refl; writing = refl; opened = λ o. o })
received-Keeps c d bytes Room.nothing now eq = let e = rw now at eq in absurd (cc)

read_failed-Keeps :
    (c d : Client) (r : Reading) → c.reading ≡ r → on_event c Event.read_failed ≡ some d → Keeps c d
unfolding on_event
read_failed-Keeps c d Room.header now eq =
    along_some (Keeps c) (rw now at eq)
      (record { written = refl; queue = refl; writing = refl; opened = λ o. absurd (cc) })
read_failed-Keeps c d Room.body now eq =
    along_some (Keeps c) (rw now at eq)
      (record { written = refl; queue = refl; writing = refl; opened = λ o. absurd (cc) })
read_failed-Keeps c d Room.nothing now eq = let e = rw now at eq in absurd (cc)

-- What was posted is written, or waits in the queue, in the order of the posts; and on an open socket
-- a write is outstanding exactly when something waits.
record IsQueued (c : Client) (posted : List ChatMessage) : Type 0 where
  order : c.written ++ c.write_msgs ≡ posted
  busy : c.is_open ≡ true → c.is_writing ≡ not (is_empty c.write_msgs)

Keeps-IsQueued :
    (c d : Client) (posted : List ChatMessage) → Keeps c d → IsQueued c posted → IsQueued d posted
Keeps-IsQueued c d posted k q = record {
  order = rw (k.written, k.queue) q.order;
  busy = λ o. rw (k.writing, k.queue) (q.busy (k.opened o));
}

write-IsQueued :
    (c : Client) (msg : ChatMessage) (posted : List ChatMessage)
    → IsQueued c posted
    → IsQueued (write c msg) (posted ++ msg ∷ [])
unfolding write
write-IsQueued c msg posted q =
    let order =
      sym (append_assoc c.written c.write_msgs (msg ∷ [])) ∙ ap (λ ps. ps ++ msg ∷ []) q.order in
    let some_waits = is_empty-append_cons c.write_msgs msg [] in
    if_cases (λ d. IsQueued d (posted ++ msg ∷ [])) (is_empty c.write_msgs)
      (λ empty. record { order = order; busy = λ o. rw some_waits refl })
      (λ waits. record { order = order; busy = λ o. q.busy o ∙ rw (waits, some_waits) refl })

-- The socket can be written to.
abbrev is_live : Client → Bool
is_live c = c.is_open && c.is_connected

live-open : (c : Client) → is_live c ≡ true → c.is_open ≡ true
live-open c live = ground (arith, live)

writing-live : (c : Client) → c.is_writing && is_live c ≡ true → is_live c ≡ true
writing-live c e = ground (arith, e)

-- The front of the queue was written.
sent_queue :
    (c d : Client) (queue posted : List ChatMessage)
    → c.write_msgs ≡ queue
    → on_event c Event.sent ≡ some d
    → IsQueued c posted
    → IsQueued d posted
unfolding on_event on_sent
sent_queue c d [] posted now eq q =
    along_if (λ d. IsQueued d posted) (c.is_writing && is_live c) eq
      (λ w.
        let busy = q.busy (live-open c (writing-live c w)) in
        let idle : c.is_writing ≡ false = rw now at busy in absurd (ground (arith, w, idle)))
sent_queue c d (msg ∷ msgs) posted now eq q =
    let order =
      append_assoc c.written (msg ∷ []) msgs ∙ ap (λ ps. c.written ++ ps) (sym now) ∙ q.order in
    along_if (λ d. IsQueued d posted) (c.is_writing && is_live c) (rw now at eq)
      (λ w.
        if_cases (λ d. IsQueued d posted) (is_empty msgs)
          (λ empty. record { order = order; busy = λ o. rw empty refl })
          (λ waits. record { order = order; busy = λ o. rw waits refl }))

abbrev posts_one : Event → List ChatMessage
posts_one e = posts (e ∷ [])

on_event-IsQueued :
    (c d : Client) (e : Event) (posted : List ChatMessage)
    → on_event c e ≡ some d
    → IsQueued c posted
    → IsQueued d (posted ++ posts_one e)
unfolding on_event
on_event-IsQueued c d Event.connected posted eq q =
    along_if (λ d. IsQueued d (posted ++ [])) (c.is_connecting && c.is_open) eq
      (λ w. record { order = q.order ∙ sym (append-nil posted); busy = q.busy })
on_event-IsQueued c d Event.connect_failed posted eq q =
    along_if (λ d. IsQueued d (posted ++ [])) c.is_connecting eq
      (λ w. record { order = q.order ∙ sym (append-nil posted); busy = q.busy })
on_event-IsQueued c d (Event.posted msg) posted eq q =
    along_some (λ d. IsQueued d (posted ++ msg ∷ [])) eq (write-IsQueued c msg posted q)
on_event-IsQueued c d Event.close_posted posted eq q =
    along_some (λ d. IsQueued d (posted ++ [])) eq
      (record { order = q.order ∙ sym (append-nil posted); busy = λ o. absurd (cc) })
on_event-IsQueued c d (Event.received bytes) posted eq q =
    rw (append-nil posted)
      (Keeps-IsQueued c d posted (received-Keeps c d bytes c.reading refl eq) q)
on_event-IsQueued c d Event.read_failed posted eq q =
    rw (append-nil posted) (Keeps-IsQueued c d posted (read_failed-Keeps c d c.reading refl eq) q)
on_event-IsQueued c d Event.sent posted eq q =
    rw (append-nil posted) (sent_queue c d c.write_msgs posted refl eq q)
on_event-IsQueued c d Event.write_failed posted eq q =
    along_if (λ d. IsQueued d (posted ++ [])) c.is_writing eq
      (λ w. record { order = q.order ∙ sym (append-nil posted); busy = λ o. absurd (cc) })

posts-cons : (e : Event) (events : List Event) → posts (e ∷ events) ≡ posts_one e ++ posts events
posts-cons (Event.posted msg) events = refl
posts-cons Event.connected events = refl
posts-cons Event.connect_failed events = refl
posts-cons Event.close_posted events = refl
posts-cons (Event.received bytes) events = refl
posts-cons Event.read_failed events = refl
posts-cons Event.sent events = refl
posts-cons Event.write_failed events = refl

run-IsQueued :
    (events : List Event) (c d : Client) (posted : List ChatMessage)
    → run c events ≡ some d
    → IsQueued c posted
    → IsQueued d (posted ++ posts events)
unfolding run
run-IsQueued [] c d posted eq q =
    along_some (λ d. IsQueued d (posted ++ [])) eq (rw (append-nil posted) q)
run-IsQueued (e ∷ events) c d posted eq q =
    let (u, step, rest) = >>=-eq-some (on_event c e) (λ u. run u events) eq in
    let next = on_event-IsQueued c u e posted step q in
    let done = run-IsQueued events u d (posted ++ posts_one e) rest next in
    rw (posts-cons e events, sym (append_assoc posted (posts_one e) (posts events))) done

new_client-IsQueued :
    (garbage : Bytes) (events : List Event) (c : Client)
    → run (new_client garbage) events ≡ some c
    → IsQueued c (posts events)
new_client-IsQueued garbage events c eq =
    run-IsQueued events (new_client garbage) c [] eq (record { order = refl; busy = λ o. refl })

on_sent-queue :
    (c : Client) (msg : ChatMessage) (msgs : List ChatMessage)
    → c.write_msgs ≡ msg ∷ msgs
    → ((on_sent c).write_msgs ≡ msgs) × (is_live (on_sent c) ≡ is_live c)
unfolding on_sent
on_sent-queue c msg msgs now = rw now (
    if_cases (λ (d : Client). (d.write_msgs ≡ msgs) × (is_live d ≡ is_live c)) (is_empty msgs)
      (λ e. (refl, refl)) (λ e. (refl, refl)))

sent_next :
    (c : Client) → c.is_writing ≡ true → is_live c ≡ true → on_event c Event.sent ≡ some (on_sent c)
unfolding on_event
sent_next c busy live = if_true (c.is_writing && is_live c) none (ground (arith, busy, live))

-- The outstanding writes, when they succeed, write the whole queue.
drain :
    (queue posted : List ChatMessage) (c : Client)
    → c.write_msgs ≡ queue
    → is_live c ≡ true
    → IsQueued c posted
    → (d : Client) × (run c (replicate (length queue) Event.sent) ≡ some d)
      × (d.written ≡ posted)
      × (d.write_msgs ≡ [])
unfolding run
drain [] posted c now live q =
    (c, refl, sym (append-nil c.written) ∙ ap (λ ps. c.written ++ ps) (sym now) ∙ q.order, now)
drain (msg ∷ msgs) posted c now live q =
    let waits = q.busy (live-open c live) in
    let busy : c.is_writing ≡ true = rw now at waits in
    let step = sent_next c busy live in
    let next = sent_queue c (on_sent c) (msg ∷ msgs) posted now step q in
    let (left, same) = on_sent-queue c msg msgs now in
    let (d, done, written, empty) = drain msgs posted (on_sent c) left (same ∙ live) next in
    (d, rw step done, written, empty)

-- After any handlers of a new client, on a socket that is connected and open: if as many writes
-- complete as messages wait, all messages that were posted are written, in the order of the posts,
-- and none waits.
pub run-posts :
    (garbage : Bytes) (events : List Event) (c : Client)
    → run (new_client garbage) events ≡ some c
    → c.is_open ≡ true
    → c.is_connected ≡ true
    → (d : Client) × (run c (replicate (length c.write_msgs) Event.sent) ≡ some d)
      × (d.written ≡ posts events)
      × (d.write_msgs ≡ [])
run-posts garbage events c eq opened connected =
    drain c.write_msgs (posts events) c refl (ground (arith, opened, connected))
      (new_client-IsQueued garbage events c eq)

-- Closed, with the same messages written.
abbrev Stays : Client → Client → Type 0
Stays c d = (d.is_open ≡ false) × (d.written ≡ c.written)

Keeps-Stays : (c d : Client) → c.is_open ≡ false → Keeps c d → Stays c d
Keeps-Stays c d closed k = elim (Bool-cases d.is_open) [
  | inl opened ↦ let was = k.opened opened in absurd (cc)
  | inr shut ↦ (shut, k.written)
]

on_event-Stays : (c d : Client) (e : Event) → c.is_open ≡ false → on_event c e ≡ some d → Stays c d
unfolding on_event write
on_event-Stays c d Event.connected closed eq =
    along_if (Stays c) (c.is_connecting && c.is_open) eq (λ w. absurd (ground (arith, w, closed)))
on_event-Stays c d Event.connect_failed closed eq =
    along_if (Stays c) c.is_connecting eq (λ w. (closed, refl))
on_event-Stays c d (Event.posted msg) closed eq =
    along_some (Stays c) eq
      (if_cases (Stays c) (is_empty c.write_msgs) (λ e. (closed, refl)) (λ e. (closed, refl)))
on_event-Stays c d Event.close_posted closed eq = along_some (Stays c) eq (refl, refl)
on_event-Stays c d (Event.received bytes) closed eq =
    Keeps-Stays c d closed (received-Keeps c d bytes c.reading refl eq)
on_event-Stays c d Event.read_failed closed eq =
    Keeps-Stays c d closed (read_failed-Keeps c d c.reading refl eq)
on_event-Stays c d Event.sent closed eq =
    along_if (Stays c) (c.is_writing && is_live c) eq
      (λ w. let opened = live-open c (writing-live c w) in absurd (cc))
on_event-Stays c d Event.write_failed closed eq =
    along_if (Stays c) c.is_writing eq (λ w. (refl, refl))

run-Stays :
    (events : List Event) (c d : Client) → c.is_open ≡ false → run c events ≡ some d → Stays c d
unfolding run
run-Stays [] c d closed eq = along_some (Stays c) eq (closed, refl)
run-Stays (e ∷ events) c d closed eq =
    let (u, step, rest) = >>=-eq-some (on_event c e) (λ u. run u events) eq in
    let (shut, same) = on_event-Stays c u e closed step in
    let (left, rest_same) = run-Stays events u d shut rest in (left, rest_same ∙ same)

-- Once a client's socket is closed, whatever handlers follow: it stays closed, no further message is
-- written, and what was posted and not yet written, before the close or after it, waits in the
-- queue, in the order of the posts.
pub run-closed :
    (garbage : Bytes) (events later : List Event) (c d : Client)
    → run (new_client garbage) events ≡ some c
    → c.is_open ≡ false
    → run c later ≡ some d
    → (d.is_open ≡ false)
      × (d.written ≡ c.written)
      × (c.written ++ d.write_msgs ≡ posts events ++ posts later)
run-closed garbage events later c d before closed after =
    let (shut, same) = run-Stays later c d closed after in
    let queued =
      run-IsQueued later c d (posts events) after (new_client-IsQueued garbage events c before) in
    (shut, same, ap (λ w. w ++ d.write_msgs) (sym same) ∙ queued.order)
