-- ===== src/Chat/Room/Follow.antt =====
-- What a session writes, against all that has been delivered to the room.
use webrtc_snippets.Common.{
  ℕ, zero, suc, ◌-◌, ◌≤◌, ◌≡◌, inl, inr, refl, sym, ap, ◌∙◌, subst, arith, Bool, true, false, not,
  List, [], ◌∷◌, ◌++◌, append-nil, append_assoc, ltb, is_empty, length, drop, take, Bool-cases,
  if_cases, length-append, take-append-drop, drop-add, is_empty-append_cons, length-drop,
}
use webrtc_snippets.Common.Bytes.{Bytes}
use webrtc_snippets.Chat.Message.{ChatMessage}
use webrtc_snippets.Chat.Room.{
  Session, Room, deliver_to, deliver_each, deliver_if, keep_recent, join, new_session,
}

-- What has been written, and then what is queued, is a piece of the log that nothing is missing
-- from; for a participant it reaches to the log's end.
pub record Follows (log : List ChatMessage) (s : Session) : Type 0 where
  pub before : List ChatMessage
  pub after : List ChatMessage
  pub whole : log ≡ before ++ (s.written ++ s.write_msgs) ++ after
  pub up_to_date : s.is_participant ≡ true → after ≡ []

-- A write is outstanding only when there is a message at the front of the queue, and for a
-- participant always then.
pub record IsQueue (s : Session) : Type 0 where
  pub front : s.is_writing ≡ true → is_empty s.write_msgs ≡ false
  pub going : s.is_participant ≡ true → s.is_writing ≡ not (is_empty s.write_msgs)

abbrev pub recent : List ChatMessage → List ChatMessage
recent log = drop (length log - 100) log

drop-append :
    {A : Type 0} (k : ℕ) (xs ys : List A) → k ≤ length xs → drop k (xs ++ ys) ≡ drop k xs ++ ys
drop-append zero xs ys p = refl
drop-append (suc k) [] ys p = absurd (omega arith)
drop-append (suc k) (x ∷ xs) ys p = drop-append k xs ys (omega arith)

keep_recent-recent : (msgs : List ChatMessage) → keep_recent msgs ≡ recent msgs
unfolding keep_recent
keep_recent-recent [] = refl
keep_recent-recent (msg ∷ msgs) = elim (Bool-cases (ltb 100 (length (msg ∷ msgs)))) [
  | inl many ↦ rw many (
      keep_recent-recent msgs
      ∙ ap (λ n. drop n (msg ∷ msgs)) {x = suc (length msgs - 100)} (ground (arith, many)))
  | inr few ↦ rw few (ap (λ n. drop n (msg ∷ msgs)) {x = 0} (ground (arith, few)))
]

pub recent-append :
    (log : List ChatMessage) (msg : ChatMessage)
    → keep_recent (recent log ++ msg ∷ []) ≡ recent (log ++ msg ∷ [])
recent-append log msg =
    let k = length log - 100 in
    let long = length-append (recent log) (msg ∷ []) in
    let short = length-drop k log in
    let whole = length-append log (msg ∷ []) in
    keep_recent-recent (recent log ++ msg ∷ [])
    ∙ ap (drop (length (recent log ++ msg ∷ []) - 100))
        (sym (drop-append k log (msg ∷ []) (omega arith)))
    ∙ sym (drop-add k (length (recent log ++ msg ∷ []) - 100) (log ++ msg ∷ []))
    ∙ ap (λ n. drop n (log ++ msg ∷ [])) (omega arith)

-- A delivery to a session, at the end of the log.
deliver_to-Follows :
    (log : List ChatMessage) (s : Session) (msg : ChatMessage)
    → s.is_participant ≡ true
    → Follows log s
    → Follows (log ++ msg ∷ []) (deliver_to s msg)
unfolding deliver_to
deliver_to-Follows log s msg p v =
    if_cases {A = Session} (Follows (log ++ msg ∷ [])) (is_empty s.write_msgs) (λ e. grown true)
      (λ e. grown s.is_writing)
  where
    grown :
        (b : Bool)
        → Follows
            (log ++ msg ∷ [])
            (record s { write_msgs = s.write_msgs ++ msg ∷ []; is_writing = b })
    grown b = record {
      before = v.before;
      after = [];
      whole = rw (v.whole, v.up_to_date p) (simp (append_assoc, append-nil) refl);
      up_to_date = λ e. refl;
    }

deliver_to-IsQueue :
    (s : Session) (msg : ChatMessage)
    → s.is_participant ≡ true
    → IsQueue s
    → IsQueue (deliver_to s msg)
unfolding deliver_to
deliver_to-IsQueue s msg p q =
    if_cases {A = Session} IsQueue (is_empty s.write_msgs) (λ e. going true refl)
      (λ e. going s.is_writing (q.going p ∙ ap not e))
  where
    going :
        (b : Bool)
        → b ≡ true
        → IsQueue (record s { write_msgs = s.write_msgs ++ msg ∷ []; is_writing = b })
    going b e = record {
      front = λ f. is_empty-append_cons s.write_msgs msg [];
      going = λ f. e ∙ sym (ap not (is_empty-append_cons s.write_msgs msg []));
    }

deliver_to-is_participant :
    (s : Session) (msg : ChatMessage) → (deliver_to s msg).is_participant ≡ s.is_participant
unfolding deliver_to
deliver_to-is_participant s msg =
    if_cases {A = Session} (λ t. t.is_participant ≡ s.is_participant) (is_empty s.write_msgs)
      (λ e. refl) (λ e. refl)

abbrev pub Tracks : List ChatMessage → Session → Type 0
Tracks log s = Follows log s × IsQueue s

deliver_each-Tracks :
    (log : List ChatMessage) (s : Session) (msgs : List ChatMessage)
    → s.is_participant ≡ true
    → Tracks log s
    → Tracks (log ++ msgs) (deliver_each s msgs)
deliver_each-Tracks log s [] p (v, q) = (rw (append-nil log) v, q)
deliver_each-Tracks log s (msg ∷ msgs) p (v, q) =
    subst (λ l. Tracks l (deliver_each s (msg ∷ msgs))) (append_assoc log (msg ∷ []) msgs)
      (deliver_each-Tracks (log ++ msg ∷ []) (deliver_to s msg) msgs
        (deliver_to-is_participant s msg ∙ p)
        (deliver_to-Follows log s msg p v, deliver_to-IsQueue s msg p q))

-- A session that has left misses what is delivered.
missed :
    (log : List ChatMessage) (s : Session) (msg : ChatMessage)
    → s.is_participant ≡ false
    → Follows log s
    → Follows (log ++ msg ∷ []) s
missed log s msg p v = record {
  before = v.before;
  after = v.after ++ msg ∷ [];
  whole = ap (λ l. l ++ msg ∷ []) v.whole ∙ simp (append_assoc);
  up_to_date = λ e. absurd (cc);
}

pub deliver_if-Tracks :
    (log : List ChatMessage) (msg : ChatMessage) (s : Session)
    → Tracks log s
    → Tracks (log ++ msg ∷ []) (deliver_if msg s)
deliver_if-Tracks log msg s (v, q) =
    if_cases {A = Session} (Tracks (log ++ msg ∷ [])) s.is_participant
      (λ p. (deliver_to-Follows log s msg p v, deliver_to-IsQueue s msg p q))
      (λ p. (missed log s msg p v, q))

pub join-Tracks :
    (log : List ChatMessage) (r : Room) (garbage : Bytes)
    → r.recent_msgs ≡ recent log
    → Tracks log (join r (new_session garbage))
join-Tracks log r garbage e =
    let k = length log - 100 in
    subst (λ l. Tracks l (join r (new_session garbage)))
      (ap (λ l. take k log ++ l) e ∙ take-append-drop k log)
      (deliver_each-Tracks (take k log) (record (new_session garbage) { is_participant = true })
        r.recent_msgs refl
        (
          record {
            before = take k log;
            after = [];
            whole = sym (simp (append-nil) refl);
            up_to_date = λ f. refl;
          },
          record { front = λ f. absurd (cc); going = λ f. refl },
        ))
