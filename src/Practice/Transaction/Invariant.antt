-- ===== src/Practice/Transaction/Invariant.antt =====
-- What the loop over the messages keeps true of the groups.
use webrtc_snippets.Common.{
  ℕ, ◌+◌, ◌≤◌, ◌<◌, ◌≡◌, ◌≢◌, ◌⊎◌, inl, inr, refl, sym, ◌∙◌, arith, Bool, true, false, ◌&&◌, Option,
  none, some, List, [], ◌∷◌, ◌++◌, append-nil, append_assoc, ◌==◌, get_elem?, All, Bool-cases,
  Option-cases, along_some, ==_iff, is_empty-append_cons, All-append,
}
use webrtc_snippets.Common.Bytes.{Bytes, codes, equal}
use webrtc_snippets.Practice.Message.{SipMessage}
use webrtc_snippets.Practice.Transaction.{
  ViaParts, CseqParts, TransactionKey, Groups, State, find_group, push_index, add_to_group,
  read_key, is_request, has_failure_response, has_matching_invite, key_for, place, step, invite,
}
use webrtc_snippets.Practice.Transaction.Groups.{
  keys_of, Distinct, keys_of-push_index, keys_of-append, find_group-none, Distinct-append, count,
  uses, one_if, uses-append, uses-push_index, EachGroup, EachGroup-push_index,
}

abbrev pub Below : ℕ → List ℕ → Type 0
Below n = All (λ i. i < n)

abbrev pub Rising : List ℕ → Type 0
Rising [] = Unit
Rising (i ∷ is) = All (λ j. i < j) is × Rising is

abbrev pub is_method : Bytes → Option (ViaParts × CseqParts) → Bool
is_method name none = false
is_method name (some (via, cseq)) = equal cseq.method name

-- A request whose CSeq names the method.
abbrev pub requests : Bytes → Option SipMessage → Bool
requests name none = false
requests name (some m) = is_request m.kind && is_method name (read_key m)

-- The message at the index has the branch and the sent-by of the key, and its CSeq method, unless
-- it is an ACK request in the group of an INVITE.
abbrev pub Member : List SipMessage → TransactionKey → ℕ → Type 0
Member messages k i =
    (m : SipMessage) × (via : ViaParts) × (cseq : CseqParts) × (get_elem? messages i ≡ some m)
    × (read_key m ≡ some (via, cseq))
    × (via.branch ≡ k.branch)
    × (via.sent_by ≡ k.sent_by)
    × ((cseq.method ≡ k.method) ⊎ ((requests (codes "ACK") (some m) ≡ true) × (k.method ≡ invite)))

-- Each ACK request has a failure response before it in the group; `seen` are the indices before.
abbrev pub Justified : List SipMessage → List ℕ → List ℕ → Type 0
Justified messages seen [] = Unit
Justified messages seen (i ∷ is) =
    (requests (codes "ACK") (get_elem? messages i) ≡ true
      → has_failure_response seen messages ≡ true)
    × Justified messages (seen ++ i ∷ []) is

pub record IsGroup (messages : List SipMessage) (n : ℕ) (k : TransactionKey) (is : List ℕ)
    : Type 0 where
  pub some_index : is ≢ []
  pub rising : Rising is
  pub below : Below n is
  pub members : All (Member messages k) is
  pub justified : Justified messages [] is

pub record Inv (messages : List SipMessage) (n : ℕ) (s : State) : Type 0 where
  pub order : s.first_seen_order ≡ keys_of s.groups
  pub distinct : Distinct (keys_of s.groups)
  pub each : EachGroup (IsGroup messages n) s.groups
  pub once : (j : ℕ) → uses j s.groups ≤ 1

Rising-append : (is : List ℕ) (n : ℕ) → Rising is → Below n is → Rising (is ++ n ∷ [])
Rising-append [] n r b = (tt, tt)
Rising-append (i ∷ is) n r b = (All-append _ is (n ∷ []) r.0 (b.0, tt), Rising-append is n r.1 b.1)

Below-suc : (is : List ℕ) (n : ℕ) → Below n is → Below (n + 1) is
Below-suc [] n b = tt
Below-suc (i ∷ is) n b = (omega arith, Below-suc is n b.1)

Justified-append :
    (messages : List SipMessage) (seen is : List ℕ) (n : ℕ)
    → Justified messages seen is
    → (requests (codes "ACK") (get_elem? messages n) ≡ true
        → has_failure_response (seen ++ is) messages ≡ true)
    → Justified messages seen (is ++ n ∷ [])
Justified-append messages seen [] n j h = ((λ a. rw append-nil at (h a)), tt)
Justified-append messages seen (i ∷ is) n j h =
    (j.0, Justified-append messages (seen ++ i ∷ []) is n j.1 (λ a. rw append_assoc (h a)))

module _ (messages : List SipMessage) (n : ℕ) where
  IsGroup-suc :
      (k : TransactionKey) (is : List ℕ) → IsGroup messages n k is → IsGroup messages (n + 1) k is
  IsGroup-suc k is v = record {
    some_index = v.some_index;
    rising = v.rising;
    below = Below-suc is n v.below;
    members = v.members;
    justified = v.justified;
  }

  IsGroup-append :
      (k : TransactionKey) (is : List ℕ)
      → IsGroup messages n k is
      → Member messages k n
      → (requests (codes "ACK") (get_elem? messages n) ≡ true
          → has_failure_response is messages ≡ true)
      → IsGroup messages (n + 1) k (is ++ n ∷ [])
  IsGroup-append k is v m h = record {
    some_index = λ e. ground (arith, is_empty-append_cons is n []);
    rising = Rising-append is n v.rising v.below;
    below = All-append _ is (n ∷ []) (Below-suc is n v.below) (omega arith);
    members = All-append (Member messages k) is (n ∷ []) v.members (m, tt);
    justified = Justified-append messages [] is n v.justified h;
  }

  IsGroup-single :
      (k : TransactionKey)
      → Member messages k n
      → requests (codes "ACK") (get_elem? messages n) ≡ false
      → IsGroup messages (n + 1) k (n ∷ [])
  IsGroup-single k m h = record {
    some_index = λ e. cc;
    rising = (tt, tt);
    below = omega arith;
    members = (m, tt);
    justified = ((λ a. absurd (cc)), tt);
  }

  each-suc :
      (g : Groups) → EachGroup (IsGroup messages n) g → EachGroup (IsGroup messages (n + 1)) g
  each-suc [] v = tt
  each-suc ((k, is) ∷ g) v = (IsGroup-suc k is v.0, each-suc g v.1)

  -- No group holds an index that is still to come.
  uses-fresh : (g : Groups) → EachGroup (IsGroup messages n) g → uses n g ≡ 0
  uses-fresh [] v = refl
  uses-fresh ((k, is) ∷ g) v = omega (arith, count-fresh is v.0.below, uses-fresh g v.1)
    where
      count-fresh : (is : List ℕ) → Below n is → count n is ≡ 0
      count-fresh [] b = refl
      count-fresh (i ∷ is) b = ground (arith, count-fresh is b.1)

  module _ (s : State) (v : Inv messages n s) where
    once-add :
        (g : Groups) → ((j : ℕ) → uses j g ≡ uses j s.groups + one_if j n) → (j : ℕ) → uses j g ≤ 1
    once-add g e j = elim (Bool-cases (n == j)) [
      | inl hit ↦
          let same : n ≡ j = (==_iff n j).0 hit in
          rw (← same) (ground (arith, e n, uses-fresh s.groups v.each))
      | inr miss ↦ ground (arith, e j, v.once j)
    ]

    skip-Inv : Inv messages (n + 1) s
    skip-Inv = record {
      order = v.order;
      distinct = v.distinct;
      each = each-suc s.groups v.each;
      once = v.once;
    }

    push-Inv :
        (key : TransactionKey) {is : List ℕ}
        → find_group s.groups key ≡ some is
        → Member messages key n
        → (requests (codes "ACK") (get_elem? messages n) ≡ true
            → has_failure_response is messages ≡ true)
        → Inv messages (n + 1) (record s { groups = push_index s.groups key n })
    push-Inv key {is} e m h = record {
      order = v.order ∙ sym (keys_of-push_index s.groups key n);
      distinct = rw (keys_of-push_index s.groups key n) v.distinct;
      each =
          EachGroup-push_index (IsGroup messages n) (IsGroup messages (n + 1)) s.groups key n
            IsGroup-suc
            (λ js f w.
              IsGroup-append key js w m
                (λ a. along_some (λ ks. has_failure_response ks messages ≡ true) (sym e ∙ f) (h a)))
            v.each;
      once = once-add (push_index s.groups key n) (λ j. uses-push_index j s.groups key n e);
    }

    add_to_group-Inv :
        (key : TransactionKey)
        → Member messages key n
        → requests (codes "ACK") (get_elem? messages n) ≡ false
        → Inv messages (n + 1) (add_to_group s key n)
    unfolding add_to_group
    add_to_group-Inv key m h = elim (Option-cases (find_group s.groups key)) [
      | inl new ↦
          rw (new, add_to_group)
            (record {
              order = rw (v.order) (sym (keys_of-append s.groups key (n ∷ [])));
              distinct = rw keys_of-append (
                  Distinct-append (keys_of s.groups) key v.distinct
                    (find_group-none s.groups key new));
              each =
                  All-append _ s.groups ((key, n ∷ []) ∷ []) (each-suc s.groups v.each)
                    (IsGroup-single key m h, tt);
              once = once-add (s.groups ++ (key, n ∷ []) ∷ []) (λ j. uses-append j s.groups key n);
            })
      | inr (is, old) ↦ rw (old, add_to_group) (push-Inv key old m (λ a. absurd (cc)))
    ]

-- The loop body at message `m`, which stands at index `n`.
module _ (messages : List SipMessage) (n : ℕ) (m : SipMessage)
    (at_n : get_elem? messages n ≡ some m) where
  Member-own :
      (via : ViaParts) (cseq : CseqParts)
      → read_key m ≡ some (via, cseq)
      → Member messages (key_for via cseq.method) n
  Member-own via cseq e = (m, via, cseq, at_n, e, refl, refl, inl refl)

  not_ack :
      (via : ViaParts) (cseq : CseqParts)
      → read_key m ≡ some (via, cseq)
      → (is_request m.kind && equal cseq.method (codes "ACK")) ≡ false
      → requests (codes "ACK") (get_elem? messages n) ≡ false
  not_ack via cseq e h = rw (at_n, e) h

  module _ (s : State) (v : Inv messages n s) where
    place-Inv :
        (via : ViaParts) (cseq : CseqParts)
        → read_key m ≡ some (via, cseq)
        → Inv messages (n + 1) (place messages s n m via cseq)
    unfolding place
    place-Inv via cseq e =
        elim (Bool-cases (is_request m.kind && equal cseq.method (codes "ACK"))) [
          | inl ack ↦ elim (Option-cases (find_group s.groups (key_for via invite))) [
            | inl new ↦ rw (ack, new, place) (skip-Inv messages n s v)
            | inr (is, old) ↦ elim (Bool-cases (has_failure_response is messages)) [
              | inl failure ↦
                  rw (ack, old, place, failure)
                    (push-Inv messages n s v (key_for via invite) old
                      (m, via, cseq, at_n, e, refl, refl, inr (rw e ack, refl)) (λ _. failure))
              | inr none_failed ↦ rw (ack, old, place, none_failed) (skip-Inv messages n s v)
            ]
          ]
          | inr other ↦
              elim (Bool-cases (is_request m.kind && equal cseq.method (codes "CANCEL"))) [
                | inl cancel ↦ elim (Option-cases (find_group s.groups (key_for via invite))) [
                  | inl new ↦ rw (other, cancel, new, place) (skip-Inv messages n s v)
                  | inr (is, old) ↦
                      elim (Bool-cases (has_matching_invite is cseq.number messages)) [
                        | inl match ↦
                            rw (other, cancel, old, place, match)
                              (add_to_group-Inv messages n s v _ (Member-own via cseq e)
                                (not_ack via cseq e other))
                        | inr apart ↦
                            rw (other, cancel, old, place, apart) (skip-Inv messages n s v)
                      ]
                ]
                | inr plain ↦
                    rw (other, plain)
                      (add_to_group-Inv messages n s v _ (Member-own via cseq e)
                        (not_ack via cseq e other))
              ]
        ]

    pub step-Inv : Inv messages (n + 1) (step messages s n m)
    unfolding step
    step-Inv = elim (Option-cases (read_key m)) [
      | inl unread ↦ rw (unread, step) (skip-Inv messages n s v)
      | inr ((via, cseq), e) ↦ rw (e, step) (place-Inv via cseq e)
    ]
