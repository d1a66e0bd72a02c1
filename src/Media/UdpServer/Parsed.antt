-- ===== src/Media/UdpServer/Parsed.antt =====
-- The dump of media/udpserver.cpp, read by `parse_stream` of video/MediaUtil.cpp.
use webrtc_snippets.Common.{
  ℕ, zero, suc, ◌<◌, ◌≡◌, inl, inr, refl, ap, ◌∙◌, arith, true, false, Option, none, some, List, [],
  ◌∷◌, ◌++◌, map, append_assoc, ltb, if◌then◌else◌, length, take, All, Bool-cases, Option-cases,
  ◌>>=◌, if_cases, ==_refl, length-append, take-length, drop-length, All-append, length-take,
}
use webrtc_snippets.Common.Bytes.{Bytes, concat, overwrite, codes}
use webrtc_snippets.Media.RtpUtil.{raw32}
use webrtc_snippets.Media.RtpUtil.Fields.{AreBytes}
use webrtc_snippets.Media.UdpServer.{UdpServer, buflen, run, initial}
use webrtc_snippets.Media.UdpServer.Dump.{frame, accepted, ArePackets, run-HasDumped}
use webrtc_snippets.Video.MediaFileParser.{MediaFileParser, handle_packet}
use webrtc_snippets.Video.Stream.{
  little, dump_header_size, read_packet, parse_round, parse_packets, parse_stream,
}

abbrev pub HasSize : Bytes → Type 0
HasSize p = length p < 4294967296

-- The parser with a packet in its buffer, behind which the buffer keeps what it held, but for the
-- eight bytes that came before the packet.
abbrev pub with_packet : MediaFileParser → Bytes → MediaFileParser
with_packet s p = record s {
  pkt_buf = overwrite 0 p (overwrite 0 (codes "DUMP" ++ raw32 (length p)) s.pkt_buf);
}

abbrev pub load : MediaFileParser → Bytes → Option MediaFileParser
load s p = if ltb (length s.pkt_buf) (length p) then none else some (with_packet s p)

module _ (fresh : ℕ → ℕ → Bytes) where
  -- The handler on one packet after the other, in memory.
  abbrev pub handle_each : MediaFileParser → List Bytes → Option MediaFileParser
  handle_each s [] = some s
  handle_each s (p ∷ ps) = do
    loaded ← load s p
    (t, info, whole) ← handle_packet fresh loaded (length p)
    handle_each t ps

  little-raw32 : (n : ℕ) → n < 4294967296 → little (raw32 n) ≡ n
  little-raw32 n p = omega arith

  read_packet-frame :
      (s : MediaFileParser) (p rest : Bytes)
      → HasSize p
      → read_packet s (frame p ++ rest) ≡ (
          if ltb (length s.pkt_buf) (length p)
          then none
          else some (with_packet s p, length p, true))
  unfolding read_packet
  read_packet-frame s p rest q =
      rw (little-raw32 (length p) q, take-length p rest, ==_refl (length p)) refl

  parse_round-frame :
      (s : MediaFileParser) (p rest : Bytes)
      (later : MediaFileParser → Bytes → Option MediaFileParser)
      → HasSize p
      → parse_round fresh s (frame p ++ rest) later
        ≡ (load s p >>= λ loaded. handle_packet fresh loaded (length p) >>= λ r. later r.0 rest)
  unfolding parse_round
  parse_round-frame s p rest later q =
      let long : ltb (length (frame p ++ rest)) dump_header_size ≡ false = ground arith in
      rw (long, read_packet-frame s p rest q)
        (elim (Bool-cases (ltb (length s.pkt_buf) (length p))) [
          | inl outside ↦ rw outside refl
          | inr inside ↦ rw (inside, drop-length p rest) refl
        ])

  length-frame : (p rest : Bytes) → length rest < length (frame p ++ rest)
  length-frame p rest = omega (arith, length-append p rest)

  parse_packets-frames :
      (ps : List Bytes) (fuel : ℕ) (s : MediaFileParser)
      → All HasSize ps
      → length (concat (map frame ps)) < fuel
      → parse_packets fresh fuel s (concat (map frame ps)) ≡ handle_each s ps
  unfolding parse_packets
  parse_packets-frames ps zero s v p = absurd (omega arith)
  parse_packets-frames [] (suc fuel) s v p = refl
  parse_packets-frames (x ∷ ps) (suc fuel) s v p =
      let rest = concat (map frame ps) in
      let less = length-frame x rest in
      let same = parse_round-frame s x rest (parse_packets fresh fuel) v.0 in
      same ∙ elim (Option-cases (load s x)) [
        | inl outside ↦ rw outside refl
        | inr (loaded, fits) ↦ elim (Option-cases (handle_packet fresh loaded (length x))) [
          | inl outside ↦ rw (fits, outside) refl
          | inr (r, handled) ↦
              rw (fits, handled) (parse_packets-frames ps fuel r.0 v.1 (omega arith))
        ]
      ]

  abbrev pub opened : Bytes → MediaFileParser
  opened garbage = record {
    pkt_buf = garbage;
    output = 0 ∷ 0 ∷ 0 ∷ 0 ∷ [];
    nalu_count = 0;
    list_fu = [];
    allocated = 0;
  }

  concat-frames :
      (before ps : List Bytes)
      → concat (map frame before) ++ concat (map frame ps) ≡ concat (map frame (before ++ ps))
  concat-frames [] ps = refl
  concat-frames (x ∷ before) ps =
      append_assoc (frame x) (concat (map frame before)) (concat (map frame ps))
      ∙ ap (λ rest. frame x ++ rest) (concat-frames before ps)

  accepted-HasSize : (n : ℕ) (ds : List Bytes) → All HasSize (take n (accepted ds))
  accepted-HasSize zero ds = tt
  accepted-HasSize (suc n) [] = tt
  accepted-HasSize (suc n) (d ∷ ds) =
      let size = length-take buflen d in
      if_cases (λ ps. All HasSize (take (suc n) ps)) (ltb 12 (length (take buflen d)))
        (λ long. (omega arith, accepted-HasSize n ds)) (λ small. accepted-HasSize (suc n) ds)

  -- The server's dump, read by the parser: each datagram of more than twelve bytes, as far as they
  -- are wanted, is handled as one packet, in the order of arrival, behind the packets that the file
  -- had before. The datagrams are bytes, and of each long one the header ends in the datagram and
  -- has at most 320 bytes; then the server comes to the end of them. The parser gives no result
  -- exactly where the handler does, or where a packet is longer than the parser's buffer.
  pub run-parse_stream :
      (old garbage : Bytes) (before ds : List Bytes) (count : ℕ)
      → length old ≡ buflen
      → AreBytes old
      → ArePackets ds
      → All HasSize before
      → (t : UdpServer) × (run (initial old (concat (map frame before)) count) (map some ds)
          ≡ some t)
        × (parse_stream fresh garbage t.ofs
            ≡ handle_each (opened garbage) (before ++ take count (accepted ds)))
  unfolding parse_stream
  run-parse_stream old garbage before ds count size v packets sized =
      let ps = before ++ take count (accepted ds) in
      let (t, done, (dumped, left, running)) =
        run-HasDumped ds (initial old (concat (map frame before)) count) (size, v, refl) packets in
      let file : t.ofs ≡ concat (map frame ps) =
        dumped ∙ concat-frames before (take count (accepted ds)) in
      (
        t,
        done,
        rw file (
            parse_packets-frames ps (suc (length (concat (map frame ps)))) (opened garbage)
              (All-append HasSize before (take count (accepted ds)) sized
                (accepted-HasSize count ds))
              (omega arith)),
      )
