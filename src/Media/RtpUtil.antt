-- ===== src/Media/RtpUtil.antt =====
-- media/rtputil.cpp and rtputil.h: the texts that are printed of RTP and RTCP packets, and the dump
-- of a packet to a file, on a little-endian machine. A packet is the memory from its first byte on.
-- A result is `none` where memory is read or written outside of its bounds. The printed numbers
-- never make `snprintf` fail; a negative room for it becomes a very large size, which bounds nothing.
pub mod Hex
pub mod Fields
pub mod Text
use webrtc_snippets.Common.{
  ℕ, zero, suc, ◌+◌, ◌-◌, ◌*◌, ◌/◌, ◌%◌, ◌^◌, ◌≤◌, ◌<◌, ◌≡◌, ◌≢◌, ◌↔◌, ◌⊎◌, inl, inr, refl, sym, ap,
  ◌∙◌, subst, arith, tests, Bool, true, false, not, ◌&&◌, ◌||◌, Option, none, some, List, [], ◌∷◌,
  ◌++◌, map, append-nil, append_assoc, ◌==◌, ltb, leb, if◌then◌else◌, is_empty, length, get_elem?,
  drop, take, All, Bool-cases, Option-cases, guard, ◌>>=◌, ◌>>◌, >>=-eq-some, along_some, along_if,
  if_true, if_cases, ==_refl, ==_ne, ==_iff, length-append, take-append-drop, take-length,
  drop-length, drop-length_next, drop-add, drop-length-add, get_elem?-append, is_empty-append,
  is_empty-append_cons, take_all, All-append, length-take, length-drop, ltb→lt, lt→ltb, leb→le,
  replicate, is_none, every, every-lt,
}
use webrtc_snippets.Common.Bytes.{
  Bytes, concat, overwrite, codes, Avoids, find_byte, find_byte_from, find_text, starts_with,
  substr, equal, equal_iff, equal_refl,
}
use webrtc_snippets.Common.Bytes.Find.{
  find_byte-append, find_byte-Avoids, find_byte_cases, find_byte_from-append, find_text-Avoids,
  find_text-none,
}
use webrtc_snippets.Common.Arrays.{nth}
use webrtc_snippets.Common.Bytes.Digits.{to_decimal}

abbrev pub max_log_msg_len : ℕ
max_log_msg_len = 1024

unfoldable pub nibble_to_hex_char : ℕ → ℕ
unfolding nth
nibble_to_hex_char nibble = nth (codes "0123456789abcdef") (nibble % 16)

-- A byte at the end of what `bit_string` holds.
unfoldable pub push_char : Bytes → ℕ → Option Bytes
push_char written c =
    if ltb (length written) max_log_msg_len then some (written ++ c ∷ []) else none

-- The loop, with its `i` as the length of what is written. It goes on by two below `limit`.
unfoldable pub hex_loop : ℕ → ℕ → Bytes → Bytes → Option Bytes
unfolding push_char nibble_to_hex_char
hex_loop zero limit str written = some written
hex_loop (suc fuel) limit str written =
    if ltb (length written) limit
    then (do
      octet ← get_elem? str 0
      high ← push_char written (nibble_to_hex_char (octet / 16))
      low ← push_char high (nibble_to_hex_char (octet % 16))
      hex_loop fuel limit (drop 1 str) low)
    else some written

-- The text that `bit_string` then has; its NUL is written as well.
unfoldable pub octet_string_hex_string : Bytes → ℕ → Option Bytes
unfolding hex_loop push_char
octet_string_hex_string str n =
    let doubled = n * 2 in
    let limit = if ltb max_log_msg_len doubled then max_log_msg_len - 1 else doubled in
    do written ← hex_loop (suc limit) limit str []; ended ← push_char written 0; some written

-- `ntohs` and `ntohl` of the fields of a header.
unfoldable pub load16 : Bytes → ℕ → Option ℕ
load16 packet i = do
  high ← get_elem? packet i
  low ← get_elem? packet (i + 1)
  some (high * 256 + low)

unfoldable pub load32 : Bytes → ℕ → Option ℕ
unfolding load16
load32 packet i = do high ← load16 packet i; low ← load16 packet (i + 2); some (high * 65536 + low)

-- Of a buffer that is there. The low bits of the first byte are `cc`, and then `x`.
unfoldable pub rtp_header_extension_length : Bytes → Option ℕ
unfolding load16
rtp_header_extension_length packet = do
  first ← get_elem? packet 0
  let fixed = 12 + first % 16 * 4
  if first / 16 % 2 == 1
      then (do words ← load16 packet (fixed + 2); some (fixed + (words + 1) * 4))
      else some fixed

-- `%0nX` of a number with at most so many digits.
unfoldable pub upper_hex : ℕ → ℕ → Bytes
unfolding nth
upper_hex zero value = []
upper_hex (suc width) value =
    upper_hex width (value / 16) ++ nth (codes "0123456789ABCDEF") (value % 16) ∷ []

-- `log_msg` as the text in it, and `writing_ptr` as how far it is behind the start of `log_msg`.
pub record Log : Type 0 where
  pub written : Bytes
  pub at : ℕ

abbrev pub empty_log : Log
empty_log = record { written = []; at = 0 }

-- `snprintf` to `writing_ptr`, and the step behind what it would have written.
unfoldable pub snprintf : Log → Bytes → Option Log
snprintf log new =
    if ltb max_log_msg_len log.at
    then none
    else some (record {
      written = log.written ++ take (max_log_msg_len - 1 - log.at) new;
      at = log.at + length new;
    })

-- `%u(0x%0nX)`.
abbrev pub decimal_and_hex : ℕ → ℕ → Bytes
unfolding upper_hex
decimal_and_hex width value = to_decimal value ++ codes "(0x" ++ upper_hex width value ++ codes ")"

abbrev pub rtp_line : ℕ → ℕ → ℕ → ℕ → ℕ → ℕ → Bytes
rtp_line ssrc seq pt ts ext packet_len = concat (
    codes "[rtp] dump_rtp_packet: ssrc="
    ∷ decimal_and_hex 8 ssrc
    ∷ codes ", seq="
    ∷ decimal_and_hex 4 seq
    ∷ codes ", pt="
    ∷ decimal_and_hex 2 pt
    ∷ codes ", ts="
    ∷ decimal_and_hex 8 ts
    ∷ codes ", hdr_ext_len="
    ∷ to_decimal ext
    ∷ codes ", pkt_len="
    ∷ to_decimal packet_len
    ∷ codes ", "
    ∷ [])

abbrev pub tailer_len : ℕ
tailer_len = 64

-- The two ends of a long packet.
abbrev pub ends_of : Log → Bytes → ℕ → ℕ → Option Log
ends_of log packet ext packet_len = do
  front ← octet_string_hex_string packet ext
  next ← snprintf log (codes "hdr_ext: " ++ (front ++ codes ", "))
  back ← octet_string_hex_string (drop (packet_len - tailer_len) packet) tailer_len
  snprintf next (codes "tailer: " ++ (back ++ (codes ", tailer_len=" ++ to_decimal tailer_len)))

abbrev pub whole_of : Log → Bytes → ℕ → Option Log
whole_of log packet packet_len = do
  all ← octet_string_hex_string packet packet_len
  snprintf log (codes "packet: " ++ all)

unfoldable pub dump_rtp_packet : Bytes → ℕ → Option Bytes
dump_rtp_packet packet packet_len = do
  ext ← rtp_header_extension_length packet
  ssrc ← load32 packet 8
  seq ← load16 packet 2
  second ← get_elem? packet 1
  ts ← load32 packet 4
  line ← snprintf empty_log (rtp_line ssrc seq (second % 128) ts ext packet_len)
  log ←
      (if ltb (ext + tailer_len) packet_len
        then ends_of line packet ext packet_len
        else whole_of line packet packet_len)
  some log.written

abbrev pub rtcp_line : ℕ → ℕ → ℕ → ℕ → Bytes
rtcp_line ssrc len pt packet_len = concat (
    codes "[srtp] dump_rtcp_packet: ssrc="
    ∷ decimal_and_hex 8 ssrc
    ∷ codes ", len="
    ∷ to_decimal len
    ∷ codes ", pt="
    ∷ to_decimal pt
    ∷ codes ", pkt_len="
    ∷ to_decimal packet_len
    ∷ codes ", "
    ∷ [])

unfoldable pub dump_rtcp_packet : Bytes → ℕ → Option Bytes
dump_rtcp_packet packet packet_len = do
  ssrc ← load32 packet 4
  len ← load16 packet 2
  pt ← get_elem? packet 1
  line ← snprintf empty_log (rtcp_line ssrc len pt packet_len)
  log ← whole_of line packet packet_len
  some log.written

-- A `uint32_t` as it lies in memory.
abbrev pub raw32 : ℕ → Bytes
raw32 n = n % 256 ∷ n / 256 % 256 ∷ n / 65536 % 256 ∷ n / 16777216 % 256 ∷ []

-- The loop that writes byte by byte.
unfoldable pub write_octets : ℕ → Bytes → Bytes → Option Bytes
write_octets zero packet file = some file
write_octets (suc n) packet file = do
  octet ← get_elem? packet 0
  write_octets n (drop 1 packet) (file ++ octet ∷ [])

-- The stream, if there is one, as what was written to it; `false` for the result -1.
unfoldable pub dump_rtp_to_file : Bytes → ℕ → Option Bytes → Option (Option Bytes × Bool)
unfolding write_octets
dump_rtp_to_file packet packet_len none = some (none, false)
dump_rtp_to_file packet packet_len (some file) = do
  written ← write_octets packet_len packet (file ++ codes "DUMP" ++ raw32 packet_len)
  some (some written, true)
