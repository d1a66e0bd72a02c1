-- ===== src/Video/Stream.antt =====
-- video/MediaUtil.cpp, `parse_stream`: the loop over a dump of packets, with the input file as its
-- bytes. What it prints is not modelled. A result is `none` where more bytes are read into the
-- packet buffer than it has room for.
use webrtc_snippets.Common.{
  ℕ, zero, suc, ◌+◌, ◌*◌, ◌≤◌, ◌<◌, ◌≡◌, inl, inr, refl, ap, ◌∙◌, arith, Bool, true, false, Option,
  none, some, [], ◌∷◌, ◌==◌, ltb, if◌then◌else◌, length, drop, take, Bool-cases, Option-cases,
  ◌>>=◌, length-drop,
}
use webrtc_snippets.Common.Bytes.{Bytes, overwrite, substr}
use webrtc_snippets.Video.MediaFileParser.{MediaFileParser, handle_packet}

-- A number in the order of the machine, which is little-endian.
abbrev pub little : Bytes → ℕ
little [] = 0
little (c ∷ s) = c + 256 * little s

abbrev pub dump_header_size : ℕ
dump_header_size = 8

-- The buffer after the header of the dump and the packet have been read into it, and the packet's
-- length; `false` where the file has fewer bytes than the length says.
unfoldable pub read_packet : MediaFileParser → Bytes → Option (MediaFileParser × ℕ × Bool)
read_packet s file =
    let len = little (substr file 4 4) in
    let got = take len (drop dump_header_size file) in
    if ltb (length s.pkt_buf) (length got)
    then none
    else some (
      record s { pkt_buf = overwrite 0 got (overwrite 0 (take dump_header_size file) s.pkt_buf) },
      len,
      length got == len,
    )

module _ (fresh : ℕ → ℕ → Bytes) where
  -- One round, and the rest of the loop on the file behind it.
  abbrev pub packet_read :
      (MediaFileParser → Bytes → Option MediaFileParser)
      → Bytes
      → MediaFileParser × ℕ × Bool
      → Option MediaFileParser
  packet_read rest file (t, len, whole) =
      if whole
      then (do
        (u, info, accepted) ← handle_packet fresh t len
        rest u (drop len (drop dump_header_size file)))
      else some t

  unfoldable pub parse_round :
      MediaFileParser
      → Bytes
      → (MediaFileParser → Bytes → Option MediaFileParser)
      → Option MediaFileParser
  unfolding read_packet
  parse_round s file rest =
      if ltb (length file) dump_header_size
      then some s
      else (do r ← read_packet s file; packet_read rest file r)

  -- Each round takes the eight bytes of a header or more.
  unfoldable pub parse_packets : ℕ → MediaFileParser → Bytes → Option MediaFileParser
  unfolding parse_round
  parse_packets zero s file = some s
  parse_packets (suc fuel) s file = parse_round s file (parse_packets fuel)

  -- `garbage` is what the packet buffer happens to hold.
  unfoldable pub parse_stream : Bytes → Bytes → Option MediaFileParser
  unfolding parse_packets
  parse_stream garbage file =
      parse_packets (suc (length file))
        (record {
          pkt_buf = garbage;
          output = 0 ∷ 0 ∷ 0 ∷ 0 ∷ [];
          nalu_count = 0;
          list_fu = [];
          allocated = 0;
        })
        file

  packet_read-same :
      (f g : MediaFileParser → Bytes → Option MediaFileParser) (file : Bytes) (t : MediaFileParser)
      (len : ℕ) (whole : Bool)
      → dump_header_size ≤ length file
      → ((t : MediaFileParser) (rest : Bytes) → length rest < length file → f t rest ≡ g t rest)
      → packet_read f file (t, len, whole) ≡ packet_read g file (t, len, whole)
  packet_read-same f g file t len false p same = refl
  packet_read-same f g file t len true p same = elim (Option-cases (handle_packet fresh t len)) [
    | inl outside ↦ rw outside refl
    | inr (d, done) ↦ rw done (
        same d.0 (drop len (drop dump_header_size file)) (
          ground (
            arith,
            p,
            length-drop len (drop dump_header_size file),
            length-drop dump_header_size file,
          )))
  ]

  parse_round-same :
      (f g : MediaFileParser → Bytes → Option MediaFileParser) (s : MediaFileParser) (file : Bytes)
      → ((t : MediaFileParser) (rest : Bytes) → length rest < length file → f t rest ≡ g t rest)
      → parse_round s file f ≡ parse_round s file g
  unfolding parse_round
  parse_round-same f g s file same = elim (Bool-cases (ltb (length file) dump_header_size)) [
    | inl short ↦ rw short refl
    | inr long ↦ elim (Option-cases (read_packet s file)) [
      | inl outside ↦ rw (long, outside) refl
      | inr (d, done) ↦
          rw (long, done) (packet_read-same f g file d.0 d.1 d.2 (ground (arith, long)) same)
    ]
  ]

  -- With more rounds than the file has bytes the loop comes to its end: any more rounds give the same
  -- result.
  pub parse_packets-fuel :
      (fuel more : ℕ) (s : MediaFileParser) (file : Bytes)
      → length file < fuel
      → parse_packets (fuel + more) s file ≡ parse_packets fuel s file
  unfolding parse_packets
  parse_packets-fuel zero more s file p = absurd (omega arith)
  parse_packets-fuel (suc fuel) more s file p =
      ap (λ n. parse_packets n s file) {x = suc fuel + more} {y = suc (fuel + more)} (omega arith)
      ∙ parse_round-same (parse_packets (fuel + more)) (parse_packets fuel) s file
          (λ t rest less. parse_packets-fuel fuel more t rest (omega arith))
