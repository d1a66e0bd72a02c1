-- ===== src/Media/RtpUtil/Text.antt =====
-- media/rtputil.cpp, `dump_rtp_packet`: the text of a packet that fits into its buffer.
use webrtc_snippets.Common.{
  ℕ, ◌+◌, ◌-◌, ◌*◌, ◌%◌, ◌≤◌, ◌<◌, ◌≡◌, inl, inr, refl, ◌∙◌, arith, some, [], ◌++◌, append_assoc,
  ltb, if◌then◌else◌, length, drop, take, Bool-cases, length-append, take_all, length-take,
  length-drop, ltb→lt, lt→ltb,
}
use webrtc_snippets.Common.Bytes.{Bytes, codes}
use webrtc_snippets.Common.Bytes.Digits.{decimal_digits, to_decimal}
use webrtc_snippets.Common.Arrays.{nth, get_elem?-nth}
use webrtc_snippets.Media.RtpUtil.{
  max_log_msg_len, octet_string_hex_string, rtp_header_extension_length, Log, empty_log, snprintf,
  rtp_line, tailer_len, ends_of, whole_of, dump_rtp_packet,
}
use webrtc_snippets.Media.RtpUtil.Fields.{
  AreBytes, word, long, load16-word, word-lt, load32-long, long-lt, length-rtp_line,
}
use webrtc_snippets.Media.RtpUtil.Hex.{
  le→ltb, hex_text, length-hex_text, octet_string_hex_string_cases,
}

snprintf_fits :
    (written new : Bytes)
    → length written + length new < max_log_msg_len
    → snprintf (record { written = written; at = length written }) new
      ≡ some (record { written = written ++ new; at = length (written ++ new) })
unfolding snprintf
snprintf_fits written new p =
    let size = length-append written new in
    rw
      (
        le→ltb max_log_msg_len (length written) (omega arith),
        take_all (max_log_msg_len - 1 - length written) new (omega arith),
        size,
      )
      refl

-- What is printed behind the line: the two ends of a long packet, or all of a packet.
abbrev pub front_text : Bytes → ℕ → Bytes
front_text packet ext = codes "hdr_ext: " ++ (hex_text (take ext packet) ++ codes ", ")

abbrev pub back_text : Bytes → ℕ → Bytes
back_text packet n =
    codes "tailer: "
    ++ (hex_text (take tailer_len (drop (n - tailer_len) packet)) ++ codes ", tailer_len=64")

abbrev pub packet_text : Bytes → ℕ → ℕ → Bytes
packet_text packet ext n =
    if ltb (ext + tailer_len) n
    then front_text packet ext ++ back_text packet n
    else codes "packet: " ++ hex_text (take n packet)

abbrev pub rtp_text : Bytes → ℕ → ℕ → Bytes
rtp_text packet ext n =
    rtp_line (long packet 8) (word packet 2) (nth packet 1 % 128) (long packet 4) ext n
    ++ packet_text packet ext n

-- A header of at most 320 bytes leaves room for what is printed.
abbrev pub longest_header : ℕ
longest_header = 320

hex_short :
    (str : Bytes) (n : ℕ)
    → n ≤ length str
    → n < 512
    → octet_string_hex_string str n ≡ some (hex_text (take n str))
hex_short str n p q = octet_string_hex_string_cases str n p ∙ rw (lt→ltb n 512 q) refl

tailer_digits : codes ", tailer_len=" ++ to_decimal tailer_len ≡ codes ", tailer_len=64"
unfolding to_decimal decimal_digits
tailer_digits = refl

abbrev after : Bytes → Log
after written = record { written = written; at = length written }

length-hex_take : (n : ℕ) (str : Bytes) → length (hex_text (take n str)) ≤ n * 2
length-hex_take n str =
    let size = length-hex_text (take n str) in let taken = length-take n str in omega arith

length-front_text : (packet : Bytes) (ext : ℕ) → length (front_text packet ext) ≤ 11 + ext * 2
length-front_text packet ext =
    let size = length-hex_take ext packet in simp length-append (omega arith)

length-back_text : (packet : Bytes) (n : ℕ) → length (back_text packet n) ≤ 151
length-back_text packet n =
    let size = length-hex_take tailer_len (drop (n - tailer_len) packet) in
    simp length-append (omega arith)

module _ (packet line : Bytes) (ext n : ℕ) (sized : n ≤ length packet)
    (short : ext ≤ longest_header) (few : length line ≤ 220) where
  ends_of-text :
      ext + tailer_len < n
      → ends_of (after line) packet ext n
        ≡ some (after (line ++ (front_text packet ext ++ back_text packet n)))
  ends_of-text p =
      let a = length-front_text packet ext in
      let b = length-back_text packet n in
      let rest = length-drop (n - tailer_len) packet in
      let size = length-append line (front_text packet ext) in
      rw
        (
          hex_short packet ext (omega arith) (omega arith),
          snprintf_fits line (front_text packet ext) (omega arith),
          hex_short (drop (n - tailer_len) packet) tailer_len (omega arith) (omega arith),
          tailer_digits,
          snprintf_fits (line ++ front_text packet ext) (back_text packet n) (omega arith),
          append_assoc line (front_text packet ext) (back_text packet n),
        )
        refl

  whole_of-text :
      n ≤ ext + tailer_len
      → whole_of (after line) packet n
        ≡ some (after (line ++ (codes "packet: " ++ hex_text (take n packet))))
  whole_of-text p =
      let size = length-hex_take n packet in
      let all = length-append (codes "packet: ") (hex_text (take n packet)) in
      rw
        (
          hex_short packet n sized (omega arith),
          snprintf_fits line (codes "packet: " ++ hex_text (take n packet)) (omega arith),
        )
        refl

  rest-text :
      (if ltb (ext + tailer_len) n
        then ends_of (after line) packet ext n
        else whole_of (after line) packet n)
      ≡ some (after (line ++ packet_text packet ext n))
  rest-text = elim (Bool-cases (ltb (ext + tailer_len) n)) [
    | inl long ↦ rw long (ends_of-text (ltb→lt (ext + tailer_len) n long))
    | inr small ↦ rw small (whole_of-text (ground (arith, small)))
  ]

-- The text of a packet whose header, with its extension, has at most 320 bytes: the fields of the
-- header, and the packet in hexadecimal digits, of a long packet just the header and the last 64
-- bytes. The packet has the bytes asked for, and more than twelve.
pub dump_rtp_packet-rtp_text :
    (packet : Bytes) (ext n : ℕ)
    → AreBytes packet
    → 12 < n
    → n ≤ length packet
    → n < 4294967296
    → rtp_header_extension_length packet ≡ some ext
    → ext ≤ longest_header
    → dump_rtp_packet packet n ≡ some (rtp_text packet ext n)
unfolding dump_rtp_packet
dump_rtp_packet-rtp_text packet ext n v more sized few e short =
    let line =
      rtp_line (long packet 8) (word packet 2) (nth packet 1 % 128) (long packet 4) ext n in
    let size =
      length-rtp_line (long packet 8) (word packet 2) (nth packet 1 % 128) (long packet 4) ext n
        (long-lt packet 8 v) (word-lt packet 2 v) (omega arith) (long-lt packet 4 v) (omega arith)
        few in
    let first : snprintf empty_log line ≡ some (after line) = snprintf_fits [] line (omega arith) in
    rw
      (
        e,
        load32-long packet 8 (omega arith),
        load16-word packet 2 (omega arith),
        get_elem?-nth packet 1 (omega arith),
        load32-long packet 4 (omega arith),
        first,
        rest-text packet line ext n sized short size,
      )
      refl
