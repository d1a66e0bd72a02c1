-- ===== src/Video/MediaFileParser/Packet.antt =====
-- A whole packet, from its RTP header on.
use webrtc_snippets.Common.{
  ℕ, ◌+◌, ◌-◌, ◌*◌, ◌/◌, ◌%◌, ◌<◌, ◌≡◌, refl, ap, ◌∙◌, arith, true, false, some, List, [], ◌∷◌,
  ◌++◌, leb, length, get_elem?, All, ◌>>=◌, get_elem?-append,
}
use webrtc_snippets.Common.Bytes.{Bytes, codes}
use webrtc_snippets.Video.MediaFileParser.{
  MediaFileParser, RtpInfo, put, byte_at, word_at, long_at, header_size, handle_nalu, handle_packet,
  handle_stap,
}
use webrtc_snippets.Video.MediaFileParser.Stap.{
  IsUnit, aggregate, stream, types_of, handle_stap-aggregate,
}

-- The twelve fixed bytes of a header, and the contributing sources behind them.
pub record RtpHeader : Type 0 where
  pub first : ℕ
  pub second : ℕ
  pub number_high : ℕ
  pub number_low : ℕ
  pub time : ℕ × ℕ × ℕ × ℕ
  pub source : ℕ × ℕ × ℕ × ℕ
  pub contributing : Bytes

abbrev pub print_header : RtpHeader → Bytes
print_header h =
    h.first ∷ h.second ∷ h.number_high ∷ h.number_low ∷ h.time.0 ∷ h.time.1 ∷ h.time.2 ∷ h.time.3
    ∷ h.source.0 ∷ h.source.1 ∷ h.source.2 ∷ h.source.3 ∷ h.contributing

-- A header with no extension, and with as many contributing sources as it says.
pub record IsHeader (h : RtpHeader) : Type 0 where
  pub no_extension : h.first / 16 % 2 ≡ 0
  pub counted : length h.contributing ≡ 4 * (h.first % 16)

abbrev pub number_of : RtpHeader → ℕ
number_of h = h.number_high * 256 + h.number_low

abbrev long_of : ℕ × ℕ × ℕ × ℕ → ℕ
long_of q = (q.0 * 256 + q.1) * 65536 + (q.2 * 256 + q.3)

-- What is reported of a packet of a size.
abbrev pub header_info : RtpHeader → ℕ → RtpInfo
header_info h len = put (codes "m") (h.second / 128) (
    put (codes "x") (h.first / 16 % 2 * 16) (
      put (codes "cc") (h.first % 16) (
        put (codes "ssrc") (long_of h.source) (
          put (codes "ts") (long_of h.time) (
            put (codes "sn") (number_of h)
              (put (codes "size") len (put (codes "pt") (h.second % 128) [])))))))

-- What is read of a header at the front of the packet buffer.
module _ (s : MediaFileParser) (h : RtpHeader) (payload : Bytes)
    (here : s.pkt_buf ≡ print_header h ++ payload) where
  read_byte : (i : ℕ) → byte_at s i ≡ get_elem? (print_header h ++ payload) i
  unfolding byte_at
  read_byte i = ap (λ l. get_elem? l i) here

  read_number : word_at s 2 ≡ some (number_of h)
  unfolding word_at
  read_number = rw (read_byte 2, read_byte 3) refl

  read_time : long_at s 4 ≡ some (long_of h.time)
  unfolding long_at word_at
  read_time = rw (read_byte 4, read_byte 5, read_byte 6, read_byte 7) refl

  read_source : long_at s 8 ≡ some (long_of h.source)
  unfolding long_at word_at
  read_source = rw (read_byte 8, read_byte 9, read_byte 10, read_byte 11) refl

  read_size : IsHeader h → header_size s h.first ≡ some (length (print_header h))
  unfolding header_size
  read_size v = rw v.no_extension (ap some (ground (arith, v.counted)))

  handle_packet-header :
      (fresh : ℕ → ℕ → Bytes) (len : ℕ)
      → IsHeader h
      → length (print_header h) < len
      → handle_packet fresh s len ≡ (do
        (t, all) ←
            handle_nalu fresh s
              (length (print_header h))
              (len - length (print_header h))
              (header_info h len)
        some (t, all, true))
  unfolding handle_packet
  handle_packet-header fresh len v p =
      let long : leb len (length (print_header h)) ≡ false = ground (arith, p) in
      rw (read_byte 0, read_byte 1, read_size v, read_number, read_time, read_source, long) refl

handle_nalu-handle_stap :
    (fresh : ℕ → ℕ → Bytes) (s : MediaFileParser) (p len indicator : ℕ) (info : RtpInfo)
    → byte_at s p ≡ some indicator
    → indicator % 32 ≡ 24
    → handle_nalu fresh s p len info ≡ handle_stap s p len (put (codes "nalType") 24 info)
unfolding handle_nalu
handle_nalu-handle_stap fresh s p len indicator info e kind = rw (e, kind) refl

-- An RTP packet with no header extension, any contributing sources and an aggregation packet as its
-- payload, at the front of the packet buffer, is accepted: its units, each of them with at least its
-- header byte and less than 2 ^ 16 bytes, are written in their order, each behind a start code, and
-- counted; the header's payload type, sequence number, timestamp and source are reported in network
-- order, and the units' types.
pub handle_packet-aggregate :
    (fresh : ℕ → ℕ → Bytes) (s : MediaFileParser) (h : RtpHeader) (indicator : ℕ)
    (units : List Bytes) (after : Bytes)
    → s.pkt_buf ≡ print_header h ++ (indicator ∷ (aggregate units ++ after))
    → IsHeader h
    → indicator % 32 ≡ 24
    → All IsUnit units
    → let len = length (print_header h) + (1 + length (aggregate units)) in
      handle_packet fresh s len
      ≡ some (
        record s { output = s.output ++ stream units; nalu_count = s.nalu_count + length units },
        (codes "subNalType", types_of units) ∷ put (codes "nalType") 24 (header_info h len),
        true,
      )
unfolding byte_at
handle_packet-aggregate fresh s h indicator units after here v kind us =
    let len = length (print_header h) + (1 + length (aggregate units)) in
    let first =
      ap (get_elem? s.pkt_buf) {x = length (print_header h)} {y = length (print_header h) + 0}
        (omega arith)
      ∙ ap (λ l. get_elem? l (length (print_header h) + 0)) here
      ∙ get_elem?-append (print_header h) (indicator ∷ (aggregate units ++ after)) 0 in
    handle_packet-header s h (indicator ∷ (aggregate units ++ after)) here fresh len v (omega arith)
    ∙ ap (λ r. r >>= λ d. some (d.0, d.1, true))
        (handle_nalu-handle_stap fresh s (length (print_header h)) (len - length (print_header h))
            indicator (header_info h len) first kind
          ∙ ap
              (λ n.
                handle_stap s (length (print_header h)) n
                  (put (codes "nalType") 24 (header_info h len)))
              {x = len - length (print_header h)} {y = 1 + length (aggregate units)} (omega arith)
          ∙ handle_stap-aggregate s (print_header h) indicator units after
              (put (codes "nalType") 24 (header_info h len)) here us)
