-- ===== src/Media/Tests.antt =====
-- The packets of media/ on concrete bytes.
use webrtc_snippets.Common.{
  ℕ, zero, suc, ◌<◌, ◌≡◌, refl, ap, arith, false, none, some, [], ◌∷◌, ◌++◌, map, length, take, All,
  replicate,
}
use webrtc_snippets.Common.Bytes.{Bytes, concat, codes}
use webrtc_snippets.Common.Bytes.Digits.{to_decimal, decimal_digits}
use webrtc_snippets.Common.Arrays.{nth}
use webrtc_snippets.Media.RtpUtil.{
  nibble_to_hex_char, push_char, hex_loop, octet_string_hex_string, load16, load32,
  rtp_header_extension_length, upper_hex, snprintf, dump_rtp_packet, dump_rtcp_packet,
  dump_rtp_to_file,
}
use webrtc_snippets.Media.RtpUtil.Hex.{hex_text, octet_string_hex_string_cases}
use webrtc_snippets.Media.RtpUtil.Text.{rtp_text, dump_rtp_packet-rtp_text}
use webrtc_snippets.Media.UdpServer.{UdpServer, buflen, run, initial}
use webrtc_snippets.Media.UdpServer.Dump.{frame, accepted}
use webrtc_snippets.Media.UdpServer.Parsed.{handle_each, opened, run-parse_stream}
use webrtc_snippets.Video.Stream.{parse_stream}

abbrev packet : Bytes
packet = 0x80 ∷ 0x60 ∷ 0 ∷ 1 ∷ 0 ∷ 0 ∷ 0 ∷ 9 ∷ 0 ∷ 0 ∷ 0 ∷ 0xab ∷ 0x67 ∷ 0x1f ∷ []

octet_string_hex_string_cases_example : octet_string_hex_string packet 14 ≡ some (hex_text packet)
octet_string_hex_string_cases_example = octet_string_hex_string_cases packet 14 (omega arith)

-- 512 bytes are too many.
too_many : octet_string_hex_string (replicate 512 7) 512 ≡ none
unfolding octet_string_hex_string hex_loop push_char nibble_to_hex_char nth
too_many = refl

dump_rtp_packet-rtp_text_example : dump_rtp_packet packet 14 ≡ some (rtp_text packet 12 14)
unfolding rtp_header_extension_length
dump_rtp_packet-rtp_text_example =
    dump_rtp_packet-rtp_text packet 12 14 (ground arith) (omega arith) (omega arith) (omega arith)
      refl (omega arith)

packet_printed :
    dump_rtp_packet packet 14
    ≡ some (
        codes "[rtp] dump_rtp_packet: ssrc=171(0x000000AB), seq=1(0x0001), pt=96(0x60), "
        ++ codes "ts=9(0x00000009), hdr_ext_len=12, pkt_len=14, packet: 806000010000000900000"
        ++ codes "0ab671f")
unfolding dump_rtp_packet rtp_header_extension_length load32 load16 snprintf octet_string_hex_string
    hex_loop push_char nibble_to_hex_char nth upper_hex to_decimal decimal_digits
packet_printed = refl

-- A receiver report of the media source 171.
report_printed :
    dump_rtcp_packet (0x80 ∷ 201 ∷ 0 ∷ 1 ∷ 0 ∷ 0 ∷ 0 ∷ 0xab ∷ []) 8
    ≡ some (
        codes "[srtp] dump_rtcp_packet: ssrc=171(0x000000AB), len=1, pt=201, pkt_len=8, "
        ++ codes "packet: 80c90001000000ab")
unfolding dump_rtcp_packet load32 load16 snprintf octet_string_hex_string hex_loop push_char
    nibble_to_hex_char nth upper_hex to_decimal decimal_digits
report_printed = refl

no_stream : dump_rtp_to_file packet 14 none ≡ some (none, false)
unfolding dump_rtp_to_file
no_stream = refl

abbrev zeros : ℕ → Bytes
zeros n = replicate n 0

zeros-length : (n : ℕ) → length (zeros n) ≡ n
zeros-length zero = refl
zeros-length (suc n) = ap suc (zeros-length n)

zeros-AreBytes : (n : ℕ) → All (λ c. c < 256) (zeros n)
zeros-AreBytes zero = tt
zeros-AreBytes (suc n) = (omega arith, zeros-AreBytes n)

-- One packet is wanted, behind one that the file has already; the short datagram is passed over.
run-parse_stream_example :
    (t : UdpServer) × (run
        (initial (zeros buflen) (concat (map frame (packet ∷ []))) 1)
        (map some (codes "keep alive" ∷ packet ∷ packet ∷ []))
      ≡ some t)
    × (parse_stream (λ k. zeros) (zeros 2048) t.ofs
        ≡ handle_each
            (λ k. zeros)
            (opened (λ k. zeros) (zeros 2048))
            ((packet ∷ []) ++ take 1 (accepted (codes "keep alive" ∷ packet ∷ packet ∷ []))))
unfolding rtp_header_extension_length
run-parse_stream_example =
    run-parse_stream (λ k. zeros) (zeros buflen) (zeros 2048) (packet ∷ [])
      (codes "keep alive" ∷ packet ∷ packet ∷ []) 1 (zeros-length buflen) (zeros-AreBytes buflen)
      (
        (ground arith, λ long. absurd (omega arith)),
        (
          (ground arith, λ long. (12, refl, omega arith)),
          ((ground arith, λ long. (12, refl, omega arith)), tt),
        ),
      )
      (ground arith)
