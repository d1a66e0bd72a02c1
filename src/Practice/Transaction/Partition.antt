-- ===== src/Practice/Transaction/Partition.antt =====
-- What `find_transactions` returns, on any list of messages.
use webrtc_snippets.Common.{
  ℕ, suc, ◌+◌, ◌≤◌, ◌≡◌, ◌≢◌, refl, sym, ap, ◌∙◌, subst, arith, some, List, [], ◌∷◌, map, length,
  get_elem?, All, along_some,
}
use webrtc_snippets.Practice.Message.{SipMessage}
use webrtc_snippets.Practice.Transaction.{
  TransactionKey, Transaction, Groups, State, find_group, collect, step, run, initial,
  find_transactions,
}
use webrtc_snippets.Practice.Transaction.Groups.{
  keys_of, Distinct, EachGroup, uses, count, same_key_iff, same_key_refl,
}
use webrtc_snippets.Practice.Transaction.Invariant.{Inv, IsGroup, step-Inv}

run-Inv :
    (messages rest : List SipMessage) (n : ℕ) (s : State)
    → ((j : ℕ) → get_elem? rest j ≡ get_elem? messages (n + j))
    → n + length rest ≡ length messages
    → Inv messages n s
    → Inv messages (length messages) (run messages s n rest)
unfolding run
run-Inv messages [] n s h e v = subst (λ k. Inv messages k s) (omega arith) v
run-Inv messages (m ∷ rest) n s h e v =
    run-Inv messages rest (n + 1) (step messages s n m)
      (λ j. h (suc j) ∙ ap (get_elem? messages) (omega arith)) (omega arith)
      (step-Inv messages n m (ap (get_elem? messages) (omega arith) ∙ sym (h 0)) s v)

final-Inv :
    (messages : List SipMessage) → Inv messages (length messages) (run messages initial 0 messages)
final-Inv messages =
    run-Inv messages messages 0 initial (λ j. ap (get_elem? messages) (omega arith)) (omega arith)
      (record { order = refl; distinct = tt; each = tt; once = λ j. omega arith })

abbrev transaction : TransactionKey × List ℕ → Transaction
transaction (k, is) = record {
  branch = k.branch;
  sent_by = k.sent_by;
  method = k.method;
  message_indices = is;
}

-- Each group is found under its own key.
abbrev Found : Groups → Groups → Type 0
Found all = EachGroup (λ k is. find_group all k ≡ some is)

Found-cons :
    (k : TransactionKey) (is : List ℕ) (all g : Groups)
    → All (λ j. j ≢ k) (keys_of g)
    → Found all g
    → Found ((k, is) ∷ all) g
unfolding find_group
Found-cons k is all [] a f = tt
Found-cons k is all ((j, js) ∷ g) a f =
    (ground (arith, same_key_iff k j, a.0, f.0), Found-cons k is all g a.1 f.1)

Found-self : (g : Groups) → Distinct (keys_of g) → Found g g
unfolding find_group
Found-self [] d = tt
Found-self ((k, is) ∷ g) d = (rw same_key_refl, Found-cons k is g g d.0 (Found-self g d.1))

collect_lem : (all g : Groups) → Found all g → collect all (keys_of g) ≡ some (map transaction g)
unfolding collect
collect_lem all [] f = refl
collect_lem all ((k, is) ∷ g) f = rw (f.0, collect_lem all g f.1)

abbrev pub key_of : Transaction → TransactionKey
key_of t = record { branch = t.branch; sent_by = t.sent_by; method = t.method }

abbrev pub holds : ℕ → List Transaction → ℕ
holds j [] = 0
holds j (t ∷ ts) = count j t.message_indices + holds j ts

-- What the result promises of `messages`.
pub record ArePartition (messages : List SipMessage) (ts : List Transaction) : Type 0 where
  pub distinct : Distinct (map key_of ts)
  pub each : All (λ t. IsGroup messages (length messages) (key_of t) t.message_indices) ts
  pub once : (j : ℕ) → holds j ts ≤ 1

keys_of-transaction : (g : Groups) → map key_of (map transaction g) ≡ keys_of g
keys_of-transaction [] = refl
keys_of-transaction ((k, is) ∷ g) = ap (◌∷◌ k) (keys_of-transaction g)

holds-transaction : (j : ℕ) (g : Groups) → holds j (map transaction g) ≡ uses j g
holds-transaction j [] = refl
holds-transaction j ((k, is) ∷ g) = omega (arith, holds-transaction j g)

each-transaction :
    (P : TransactionKey → List ℕ → Type 0) (g : Groups)
    → EachGroup P g
    → All (λ t. P (key_of t) t.message_indices) (map transaction g)
each-transaction P [] v = tt
each-transaction P ((k, is) ∷ g) v = (v.0, each-transaction P g v.1)

-- On any list of messages `find_transactions` returns (the lookup of a key never fails), and what it
-- returns is a partition: no two transactions have the same branch, sent-by and method; no message
-- is in two transactions, or twice in one; each transaction has an index, its indices rise and are
-- below the number of messages; each of its messages has the branch and sent-by of the transaction,
-- and its CSeq method, unless it is an ACK request in the transaction of an INVITE; and before each
-- ACK request there is in the transaction a response with a status from 300 to 699.
pub find_transactions-ArePartition :
    (messages : List SipMessage)
    → (ts : List Transaction) × (find_transactions messages ≡ some ts) × ArePartition messages ts
unfolding find_transactions
find_transactions-ArePartition messages =
    let s = run messages initial 0 messages in
    let v = final-Inv messages in
    (
      map transaction s.groups,
      rw v.order (collect_lem s.groups s.groups (Found-self s.groups v.distinct)),
      record {
        distinct = rw keys_of-transaction v.distinct;
        each = each-transaction (IsGroup messages (length messages)) s.groups v.each;
        once = λ j. rw holds-transaction (v.once j);
      },
    )

pub find_transactions-uses :
    (messages : List SipMessage) {ts : List Transaction}
    → find_transactions messages ≡ some ts
    → (j : ℕ) → holds j ts ≡ uses j (run messages initial 0 messages).groups
unfolding find_transactions
find_transactions-uses messages {ts} e j =
    let s = run messages initial 0 messages in
    let v = final-Inv messages in
    along_some (λ us. holds j us ≡ uses j s.groups)
      (sym (rw v.order (collect_lem s.groups s.groups (Found-self s.groups v.distinct))) ∙ e)
      (holds-transaction j s.groups)
