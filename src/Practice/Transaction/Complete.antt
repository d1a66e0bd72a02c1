-- ===== src/Practice/Transaction/Complete.antt =====
-- Which messages are in a transaction.
use webrtc_snippets.Common.{
  ℕ, zero, suc, ◌+◌, ◌≤◌, ◌≡◌, inl, inr, sym, subst, arith, false, some, List, [], ◌∷◌, get_elem?,
  Option-cases, along_some,
}
use webrtc_snippets.Common.Bytes.{codes}
use native.Mathlib.Nat.{add-zero, zero-add}
use webrtc_snippets.Practice.Message.{SipMessage}
use webrtc_snippets.Practice.Transaction.{
  ViaParts, CseqParts, TransactionKey, Transaction, State, find_group, add_to_group, key_for,
  invite, read_key, place, step, run, initial, find_transactions,
}
use webrtc_snippets.Practice.Transaction.Groups.{uses, one_if, uses-append, uses-push_index}
use webrtc_snippets.Practice.Transaction.Invariant.{requests}
use webrtc_snippets.Practice.Transaction.Partition.{
  holds, find_transactions-ArePartition, find_transactions-uses,
}

uses-add_to_group :
    (j : ℕ) (s : State) (key : TransactionKey) (n : ℕ)
    → uses j (add_to_group s key n).groups ≡ uses j s.groups + one_if j n
unfolding add_to_group
uses-add_to_group j s key n = elim (Option-cases (find_group s.groups key)) [
  | inl new ↦ rw (new, add_to_group) (uses-append j s.groups key n)
  | inr (is, old) ↦ rw (old, add_to_group) (uses-push_index j s.groups key n old)
]

module _ (messages : List SipMessage) (s : State) (n : ℕ) (m : SipMessage) where
  uses-place :
      (j : ℕ) (via : ViaParts) (cseq : CseqParts)
      → uses j s.groups ≤ uses j (place messages s n m via cseq).groups
  unfolding place
  uses-place j via cseq = elim (Option-cases (find_group s.groups (key_for via invite))) [
    | inl new ↦ rw (new, place) (ground (arith, uses-add_to_group j s (key_for via cseq.method) n))
    | inr (is, old) ↦
        rw (old, place)
          (ground (
            arith,
            uses-add_to_group j s (key_for via cseq.method) n,
            uses-push_index j s.groups (key_for via invite) n old,
          ))
  ]

  uses-step : (j : ℕ) → uses j s.groups ≤ uses j (step messages s n m).groups
  unfolding step
  uses-step j = elim (Option-cases (read_key m)) [
    | inl unread ↦ rw (unread, step) (omega arith)
    | inr ((via, cseq), e) ↦ rw (e, step) (uses-place j via cseq)
  ]

  step_places :
      (via : ViaParts) (cseq : CseqParts)
      → read_key m ≡ some (via, cseq)
      → requests (codes "ACK") (some m) ≡ false
      → requests (codes "CANCEL") (some m) ≡ false
      → uses n (step messages s n m).groups ≡ uses n s.groups + 1
  unfolding step place
  step_places via cseq e a c =
      rw (e, step)
        (rw (rw e at a, rw e at c)
          (ground (arith, uses-add_to_group n s (key_for via cseq.method) n)))

uses-run :
    (messages rest : List SipMessage) (s : State) (n j : ℕ)
    → uses j s.groups ≤ uses j (run messages s n rest).groups
unfolding run
uses-run messages [] s n j = omega arith
uses-run messages (m ∷ rest) s n j =
    omega
      (arith, uses-step messages s n m j, uses-run messages rest (step messages s n m) (n + 1) j)

run_places :
    (messages rest : List SipMessage) (s : State) (n i : ℕ) (m : SipMessage) (via : ViaParts)
    (cseq : CseqParts)
    → get_elem? rest i ≡ some m
    → read_key m ≡ some (via, cseq)
    → requests (codes "ACK") (some m) ≡ false
    → requests (codes "CANCEL") (some m) ≡ false
    → 1 ≤ uses (n + i) (run messages s n rest).groups
unfolding run
run_places messages [] s n i m via cseq at_i e a c = cc
run_places messages (x ∷ rest) s n zero m via cseq at_i e a c =
    along_some (λ y. 1 ≤ uses (n + 0) (run messages (step messages s n y) (n + 1) rest).groups)
      (sym at_i)
      (rw add-zero (
        omega (
          arith,
          step_places messages s n m via cseq e a c,
          uses-run messages rest (step messages s n m) (n + 1) n,
        )))
run_places messages (x ∷ rest) s n (suc i) m via cseq at_i e a c =
    subst (λ k. 1 ≤ uses k (run messages (step messages s n x) (n + 1) rest).groups) (omega arith)
      (run_places messages rest (step messages s n x) (n + 1) i m via cseq at_i e a c)

-- A message whose top Via and CSeq can be read, and that is no ACK or CANCEL request, is in exactly
-- one of the transactions that `find_transactions` returns.
pub find_transactions_complete :
    (messages : List SipMessage) (i : ℕ) (m : SipMessage) (via : ViaParts) (cseq : CseqParts)
    → get_elem? messages i ≡ some m
    → read_key m ≡ some (via, cseq)
    → requests (codes "ACK") (some m) ≡ false
    → requests (codes "CANCEL") (some m) ≡ false
    → (ts : List Transaction) × (find_transactions messages ≡ some ts) × (holds i ts ≡ 1)
find_transactions_complete messages i m via cseq at_i e a c =
    let (ts, f, p) = find_transactions-ArePartition messages in
    (
      ts,
      f,
      omega (
        arith,
        p.once i,
        find_transactions-uses messages f i,
        rw zero-add at (run_places messages messages initial 0 i m via cseq at_i e a c),
      ),
    )
