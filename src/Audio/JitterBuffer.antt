-- ===== src/Audio/JitterBuffer.antt =====
-- audio/jitter_buffer_example.cpp: the buffer, and the worker that plays from it. The two threads are
-- one sequence of operations: the source has no lock, and what it does when they overlap is not
-- modelled. Sequence numbers are not negative, and stay below the limit of `int`.
pub mod Order
mod Tests
use webrtc_snippets.Common.{
  ℕ, zero, suc, ◌+◌, ◌-◌, ◌*◌, ◌/◌, ◌%◌, ◌^◌, ◌≤◌, ◌<◌, ◌≡◌, ◌≢◌, ◌↔◌, ◌⊎◌, inl, inr, refl, sym, ap,
  ◌∙◌, subst, arith, tests, Bool, true, false, not, ◌&&◌, ◌||◌, Option, none, some, List, [], ◌∷◌,
  ◌++◌, map, append-nil, append_assoc, ◌==◌, ltb, leb, if◌then◌else◌, is_empty, length, get_elem?,
  drop, take, All, Bool-cases, Option-cases, guard, ◌>>=◌, ◌>>◌, >>=-eq-some, along_some, along_if,
  if_true, if_cases, ==_refl, ==_ne, ==_iff, length-append, take-append-drop, take-length,
  drop-length, drop-length_next, drop-add, drop-length-add, get_elem?-append, is_empty-append,
  is_empty-append_cons, take_all, All-append, length-take, length-drop, ltb→lt, lt→ltb, leb→le,
  replicate, is_none, every, every-lt,
}
use webrtc_snippets.Common.Bytes.{
  Bytes, concat, overwrite, codes, Avoids, find_byte, find_byte_from, find_text, starts_with,
  substr, equal, equal_iff, equal_refl,
}
use webrtc_snippets.Common.Bytes.Find.{
  find_byte-append, find_byte-Avoids, find_byte_cases, find_byte_from-append, find_text-Avoids,
  find_text-none,
}

pub record AudioPacket : Type 0 where
  pub sequence_number : ℕ
  pub payload : Bytes

-- A map by sequence number, with one packet for each.
pub record JitterBuffer : Type 0 where
  pub packets : List AudioPacket
  pub read_index : ℕ
  pub write_index : ℕ

abbrev pub new_buffer : JitterBuffer
new_buffer = record { packets = []; read_index = 0; write_index = 0 }

abbrev pub empty_packet : AudioPacket
empty_packet = record { sequence_number = 0; payload = [] }

-- `find` and `erase` of the map.
unfoldable pub find_packet : List AudioPacket → ℕ → Option AudioPacket
find_packet [] k = none
find_packet (p ∷ ps) k = if p.sequence_number == k then some p else find_packet ps k

unfoldable pub erase_packet : List AudioPacket → ℕ → List AudioPacket
erase_packet [] k = []
erase_packet (p ∷ ps) k =
    let rest = erase_packet ps k in if p.sequence_number == k then rest else p ∷ rest

unfoldable pub push_packet : JitterBuffer → AudioPacket → JitterBuffer
unfolding erase_packet
push_packet b p = record b {
  packets = p ∷ erase_packet b.packets p.sequence_number;
  write_index = p.sequence_number;
}

unfoldable pub pop_packet : JitterBuffer → AudioPacket × JitterBuffer
unfolding find_packet erase_packet
pop_packet b = elim (find_packet b.packets b.read_index) [
  | some p ↦ (
    p,
    record b { packets = erase_packet b.packets b.read_index; read_index = p.sequence_number + 1 },
  )
  | none ↦ (empty_packet, b)
]

-- One round of the worker: what it plays, if anything.
unfoldable pub worker_round : JitterBuffer → List AudioPacket × JitterBuffer
unfolding pop_packet
worker_round b =
    let (p, after) = pop_packet b in if is_empty b.packets then ([], b) else (p ∷ [], after)

-- What the two threads do to the buffer: a packet arrives, or the worker makes a round.
pub data Operation : Type 0 where
  arrives : AudioPacket → Operation
  round : Operation

-- All that is played.
unfoldable pub run : JitterBuffer → List Operation → List AudioPacket × JitterBuffer
unfolding worker_round push_packet
run b [] = ([], b)
run b (arrives p ∷ operations) = run (push_packet b p) operations
run b (round ∷ operations) =
    let (played, after) = worker_round b in
    let (rest, last) = run after operations in (played ++ rest, last)
