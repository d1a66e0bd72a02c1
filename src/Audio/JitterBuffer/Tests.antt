-- ===== src/Audio/JitterBuffer/Tests.antt =====
-- The jitter buffer on packets that arrive out of order.
use webrtc_snippets.Common.{ℕ, ◌≡◌, List, [], ◌∷◌}
use webrtc_snippets.Common.Bytes.{codes}
use webrtc_snippets.Audio.JitterBuffer
use webrtc_snippets.Audio.JitterBuffer.{AudioPacket, Operation, new_buffer, run}
use webrtc_snippets.Audio.JitterBuffer.Order.{audible, run-ideal}

abbrev numbered : ℕ → AudioPacket
numbered n = record { sequence_number = n; payload = codes "AudioPacket" }

-- Packet 1 arrives first, and the worker's round finds it too early.
abbrev arrivals : List Operation
arrivals =
    JitterBuffer.arrives (numbered 1)
    ∷ JitterBuffer.round
    ∷ JitterBuffer.arrives (numbered 0)
    ∷ JitterBuffer.round
    ∷ JitterBuffer.round
    ∷ []

run-ideal_example : audible (run new_buffer arrivals).0 ≡ numbered 0 ∷ numbered 1 ∷ []
run-ideal_example = run-ideal arrivals
