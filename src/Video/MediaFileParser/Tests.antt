-- ===== src/Video/MediaFileParser/Tests.antt =====
-- The depacketizer on concrete packets.
use webrtc_snippets.Common.{
  ℕ, zero, suc, ◌≡◌, refl, ap, arith, true, some, List, [], ◌∷◌, ◌++◌, length, replicate,
}
use webrtc_snippets.Common.Bytes.{Bytes, codes}
use webrtc_snippets.Common.Bytes.Digits.{to_decimal, decimal_digits}
use webrtc_snippets.Video.MediaFileParser.{
  MediaFileParser, put, handle_packet, handle_stap, stap_loop, write_nalu, bytes_at, byte_at,
  word_at, start_code,
}
use webrtc_snippets.Video.MediaFileParser.Stap.{aggregate, stream, types_of}
use webrtc_snippets.Video.MediaFileParser.Packet.{
  RtpHeader, print_header, header_info, handle_packet-aggregate,
}
use webrtc_snippets.Video.MediaFileParser.Fragments.{
  Fragment, handle_fragments, handle_fragments-garbage, garbage,
}

-- New memory that holds the number of its allocation.
abbrev numbers : ℕ → ℕ → Bytes
numbers k n = replicate n k

abbrev header : RtpHeader
header = record {
  first = 0x81;
  second = 96;
  number_high = 1;
  number_low = 2;
  time = (0, 0, 0, 9);
  source = (0, 0, 0, 5);
  contributing = 7 ∷ 7 ∷ 7 ∷ 7 ∷ [];
}

abbrev units : List Bytes
units = (0x67 ∷ 1 ∷ 2 ∷ []) ∷ (0x68 ∷ []) ∷ []

abbrev loaded : MediaFileParser
loaded = record {
  pkt_buf = print_header header ++ (24 ∷ (aggregate units ++ codes "stale"));
  output = 0 ∷ 0 ∷ 0 ∷ 0 ∷ [];
  nalu_count = 0;
  list_fu = [];
  allocated = 0;
}

handle_packet-aggregate_example :
    handle_packet numbers loaded 25
    ≡ some (
      record loaded { output = loaded.output ++ stream units; nalu_count = 2 },
      (codes "subNalType", types_of units) ∷ put (codes "nalType") 24 (header_info header 25),
      true,
    )
handle_packet-aggregate_example =
    handle_packet-aggregate numbers loaded header 24 units (codes "stale") refl
      (record { no_extension = refl; counted = refl }) refl
      (
        record { some_header = omega arith; fits = omega arith },
        (record { some_header = omega arith; fits = omega arith }, tt),
      )

-- A unit whose size reaches behind the packet is written with what the buffer held before.
abbrev short_packet : MediaFileParser
short_packet = record loaded { pkt_buf = 24 ∷ 0 ∷ 6 ∷ 0x67 ∷ codes "stale" }

short_unit :
    handle_stap short_packet 0 4 []
    ≡ some (
      record short_packet {
        output = loaded.output ++ start_code ++ 0x67 ∷ codes "stale";
        nalu_count = 1;
      },
      (codes "subNalType", codes "7 ") ∷ [],
    )
unfolding handle_stap stap_loop write_nalu bytes_at byte_at word_at to_decimal decimal_digits
short_unit = refl

abbrev part : ℕ → Bytes → Fragment
part h payload = record {
  rtp = print_header header;
  indicator = 0x7c;
  header = h;
  payload = payload;
}

abbrev fresh_parser : MediaFileParser
fresh_parser = record {
  pkt_buf = replicate 2048 0;
  output = [];
  nalu_count = 0;
  list_fu = [];
  allocated = 0;
}

numbers-length : (k n : ℕ) → length (numbers k n) ≡ n
numbers-length k zero = refl
numbers-length k (suc n) = ap suc (numbers-length k n)

handle_fragments-garbage_example :
    (t : MediaFileParser) × (handle_fragments numbers fresh_parser
        (part 0x85 (codes "ab") ∷ [] ++ part 0x45 (codes "c") ∷ [])
      ≡ some t)
    × (t.output
        ≡ []
          ++ start_code
          ++ 5 ∷ garbage numbers 0 (part 0x85 (codes "ab") ∷ [] ++ part 0x45 (codes "c") ∷ []))
    × (t.list_fu ≡ [])
handle_fragments-garbage_example =
    handle_fragments-garbage numbers numbers-length fresh_parser (part 0x85 (codes "ab")) []
      (part 0x45 (codes "c")) refl (record { inner = refl; room = omega arith }, tt) refl
      (omega arith)
