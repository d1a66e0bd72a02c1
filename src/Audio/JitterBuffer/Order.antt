-- ===== src/Audio/JitterBuffer/Order.antt =====
-- The order in which packets are played.
use webrtc_snippets.Common.{
  ℕ, zero, suc, ◌+◌, ◌≤◌, ◌≡◌, ◌≢◌, inl, inr, refl, ap, ◌∙◌, arith, true, false, Option, none, some,
  List, [], ◌∷◌, ◌++◌, ◌==◌, if◌then◌else◌, is_empty, Bool-cases, along_some, Option-cases, sym,
  ==_iff, replicate,
}
use webrtc_snippets.Audio.JitterBuffer
use webrtc_snippets.Audio.JitterBuffer.{
  AudioPacket, JitterBuffer, new_buffer, empty_packet, find_packet, erase_packet, push_packet,
  pop_packet, worker_round, Operation, run,
}

-- What a player that keeps all that ever arrived plays from a number on: in each round the packet
-- with the next number, as it arrived last, and nothing while none with that number has arrived.
abbrev pub ideal : (ℕ → Option AudioPacket) → ℕ → List Operation → List AudioPacket
ideal arrived next [] = []
ideal arrived next (JitterBuffer.arrives p ∷ operations) =
    ideal (λ k. if p.sequence_number == k then some p else arrived k) next operations
ideal arrived next (JitterBuffer.round ∷ operations) = elim (arrived next) [
  | some p ↦ p ∷ ideal arrived (next + 1) operations
  | none ↦ ideal arrived next operations
]

module _ (arrived : ℕ → Option AudioPacket) (next : ℕ) (operations : List Operation) where
  ideal-none :
      arrived next ≡ none
      → ideal arrived next (JitterBuffer.round ∷ operations) ≡ ideal arrived next operations
  ideal-none e = rw (e, ideal) refl

  ideal-some :
      (p : AudioPacket)
      → arrived next ≡ some p
      → ideal arrived next (JitterBuffer.round ∷ operations)
        ≡ p ∷ ideal arrived (next + 1) operations
  ideal-some p e = rw (e, ideal) refl

-- The packets with a payload.
abbrev pub audible : List AudioPacket → List AudioPacket
audible [] = []
audible (p ∷ ps) = if is_empty p.payload then audible ps else p ∷ audible ps

find-erase :
    (ps : List AudioPacket) (n k : ℕ) → n ≢ k → find_packet (erase_packet ps n) k ≡ find_packet ps k
unfolding find_packet erase_packet
find-erase [] n k other = refl
find-erase (p ∷ ps) n k other = ground (arith, find-erase ps n k other, other)

find-number :
    (ps : List AudioPacket) (k : ℕ) (p : AudioPacket)
    → find_packet ps k ≡ some p
    → p.sequence_number ≡ k
unfolding find_packet
find-number [] k p e = absurd (cc)
find-number (x ∷ ps) k p e = elim (Bool-cases (x.sequence_number == k)) [
  | inl same ↦
      along_some (λ p. p.sequence_number ≡ k) (rw (same, find_packet) at e)
        ((==_iff x.sequence_number k).0 same)
  | inr other ↦ find-number ps k p (rw (other, find_packet) at e)
]

find-push :
    (b : JitterBuffer) (p : AudioPacket) (k : ℕ)
    → find_packet (push_packet b p).packets k
      ≡ (if p.sequence_number == k then some p else find_packet b.packets k)
unfolding push_packet find_packet
find-push b p k = elim (Bool-cases (p.sequence_number == k)) [
  | inl same ↦ rw same refl
  | inr other ↦ rw other (find-erase b.packets p.sequence_number k (λ e. ground (arith, other, e)))
]

some_packet :
    (ps : List AudioPacket) (k : ℕ) (p : AudioPacket)
    → find_packet ps k ≡ some p
    → is_empty ps ≡ false
unfolding find_packet
some_packet [] k p e = absurd (cc)
some_packet (x ∷ ps) k p e = refl

-- The buffer after a packet has been played.
abbrev played : JitterBuffer → JitterBuffer
played b = record b { packets = erase_packet b.packets b.read_index; read_index = b.read_index + 1 }

pop_packet-found :
    (b : JitterBuffer) (p : AudioPacket)
    → find_packet b.packets b.read_index ≡ some p
    → pop_packet b ≡ (p, played b)
unfolding pop_packet
pop_packet-found b p e =
    rw (e, pop_packet)
      (ap (λ n. (p, record b { packets = erase_packet b.packets b.read_index; read_index = n + 1 }))
        (find-number b.packets b.read_index p e))

worker_round-found :
    (b : JitterBuffer) (p : AudioPacket)
    → find_packet b.packets b.read_index ≡ some p
    → worker_round b ≡ (p ∷ [], played b)
unfolding worker_round
worker_round-found b p e = rw (some_packet b.packets b.read_index p e, pop_packet-found b p e) refl

worker_round-idle : (b : JitterBuffer) → is_empty b.packets ≡ true → worker_round b ≡ ([], b)
unfolding worker_round
worker_round-idle b empty = rw empty refl

worker_round-missing :
    (b : JitterBuffer)
    → is_empty b.packets ≡ false
    → find_packet b.packets b.read_index ≡ none
    → worker_round b ≡ (empty_packet ∷ [], b)
unfolding worker_round pop_packet
worker_round-missing b some_left missing = rw (some_left, missing, pop_packet) refl

run-round :
    (b after : JitterBuffer) (played : List AudioPacket) (operations : List Operation)
    → worker_round b ≡ (played, after)
    → (run b (JitterBuffer.round ∷ operations)).0 ≡ played ++ (run after operations).0
unfolding run
run-round b after played operations e = ap (λ r. r.0 ++ (run r.1 operations).0) e

-- The buffer holds what arrived with the numbers that are still to be played.
Holds : JitterBuffer → (ℕ → Option AudioPacket) → Type 0
Holds b arrived = (k : ℕ) → b.read_index ≤ k → find_packet b.packets k ≡ arrived k

run-ideal_from :
    (operations : List Operation) (b : JitterBuffer) (arrived : ℕ → Option AudioPacket)
    → Holds b arrived
    → audible (run b operations).0 ≡ audible (ideal arrived b.read_index operations)
unfolding run push_packet Holds
run-ideal_from [] b arrived holds = refl
run-ideal_from (JitterBuffer.arrives p ∷ operations) b arrived holds =
    run-ideal_from operations (push_packet b p)
      (λ k. if p.sequence_number == k then some p else arrived k)
      (λ k low.
        find-push b p k ∙ ap (λ r. if p.sequence_number == k then some p else r) (holds k low))
run-ideal_from (JitterBuffer.round ∷ operations) b arrived holds =
    let here = holds b.read_index (omega arith) in
    elim (Option-cases (find_packet b.packets b.read_index)) [
      | inl missing ↦
          let rest =
            run-ideal_from operations b arrived holds
            ∙ ap audible (sym (ideal-none arrived b.read_index operations (sym here ∙ missing))) in
          elim (Bool-cases (is_empty b.packets)) [
            | inl empty ↦
                ap audible (run-round b b [] operations (worker_round-idle b empty)) ∙ rest
            | inr waits ↦
                ap audible (
                  run-round b b (empty_packet ∷ []) operations
                    (worker_round-missing b waits missing))
                ∙ rest
          ]
      | inr (p, found) ↦
          ap audible (run-round b (played b) (p ∷ []) operations (worker_round-found b p found))
          ∙ ap (λ ps. if is_empty p.payload then ps else p ∷ ps)
              (run-ideal_from operations (played b) arrived (λ k low.
                find-erase b.packets b.read_index k (λ e. omega (arith, e, low))
                ∙ holds k (omega arith)))
          ∙ ap audible (sym (ideal-some arrived b.read_index operations p (sym here ∙ found)))
    ]

-- From a new buffer, however arrivals of packets and rounds of the worker follow each other: the
-- packets with a payload that are played are those that an ideal player plays, which keeps all that
-- arrived, and which in each round plays the packet with the next number, from 0 on, as it arrived
-- last before the round, or nothing while none with that number has arrived.
pub run-ideal :
    (operations : List Operation)
    → audible (run new_buffer operations).0 ≡ audible (ideal (λ k. none) 0 operations)
unfolding find_packet Holds
run-ideal operations = run-ideal_from operations new_buffer (λ k. none) (λ k low. refl)

-- While the next packet is missing and another waits, each round plays an empty packet with number
-- 0, and the buffer stays as it is.
pub run-missing :
    (n : ℕ) (b : JitterBuffer)
    → is_empty b.packets ≡ false
    → find_packet b.packets b.read_index ≡ none
    → run b (replicate n JitterBuffer.round) ≡ (replicate n empty_packet, b)
unfolding run
run-missing zero b some_left missing = refl
run-missing (suc n) b some_left missing =
    ap
      (λ r. (
        r.0 ++ (run r.1 (replicate n JitterBuffer.round)).0,
        (run r.1 (replicate n JitterBuffer.round)).1,
      ))
      (worker_round-missing b some_left missing)
    ∙ ap (λ r. (empty_packet ∷ r.0, r.1)) (run-missing n b some_left missing)
