-- ===== src/Media/UdpServer.antt =====
-- media/udpserver.cpp: the loop of `main`, which prints and dumps the packets that arrive. A
-- datagram, or an error of `recvfrom`, is one round. The socket, which delivers them, and the
-- arguments of the process are parameters; a count of packets below zero is 0 here. A result is
-- `none` where the text of a packet is written outside of its buffer.
pub mod Dump
pub mod Parsed
use webrtc_snippets.Common.{
  ℕ, zero, suc, ◌+◌, ◌-◌, ◌*◌, ◌/◌, ◌%◌, ◌^◌, ◌≤◌, ◌<◌, ◌≡◌, ◌≢◌, ◌↔◌, ◌⊎◌, inl, inr, refl, sym, ap,
  ◌∙◌, subst, arith, tests, Bool, true, false, not, ◌&&◌, ◌||◌, Option, none, some, List, [], ◌∷◌,
  ◌++◌, map, append-nil, append_assoc, ◌==◌, ltb, leb, if◌then◌else◌, is_empty, length, get_elem?,
  drop, take, All, Bool-cases, Option-cases, guard, ◌>>=◌, ◌>>◌, >>=-eq-some, along_some, along_if,
  if_true, if_cases, ==_refl, ==_ne, ==_iff, length-append, take-append-drop, take-length,
  drop-length, drop-length_next, drop-add, drop-length-add, get_elem?-append, is_empty-append,
  is_empty-append_cons, take_all, All-append, length-take, length-drop, ltb→lt, lt→ltb, leb→le,
  replicate, is_none, every, every-lt,
}
use webrtc_snippets.Common.Bytes.{
  Bytes, concat, overwrite, codes, Avoids, find_byte, find_byte_from, find_text, starts_with,
  substr, equal, equal_iff, equal_refl,
}
use webrtc_snippets.Common.Bytes.Find.{
  find_byte-append, find_byte-Avoids, find_byte_cases, find_byte_from-append, find_text-Avoids,
  find_text-none,
}
use webrtc_snippets.Media.RtpUtil.{dump_rtp_packet, dump_rtp_to_file}

abbrev pub buflen : ℕ
buflen = 5120

-- The locals of `main`: the buffer, the packets still wanted, those received, what was printed of
-- them and what was written to the file, which is complete when `main` returns, but not when the
-- process has `exited` before that.
pub record UdpServer : Type 0 where
  pub buf : Bytes
  pub n_count : ℕ
  pub pkt_count : ℕ
  pub printed : List Bytes
  pub ofs : Bytes
  pub exited : Bool

-- A packet that was received: those of at most twelve bytes are passed over.
unfoldable pub on_packet : UdpServer → ℕ → Option UdpServer
on_packet s pkt_size =
    if ltb 12 pkt_size
    then (do
      text ← dump_rtp_packet s.buf pkt_size
      (stream, done) ← dump_rtp_to_file s.buf pkt_size (some s.ofs)
      file ← stream
      some (record s { n_count = s.n_count - 1; printed = s.printed ++ text ∷ []; ofs = file }))
    else some s

-- `recvfrom` keeps the front of a datagram that is too long for the buffer.
unfoldable pub on_receive : UdpServer → Option Bytes → Option UdpServer
on_receive s none = some (record s { exited = true })
on_receive s (some datagram) =
    let got = take buflen datagram in
    on_packet (record s { buf = overwrite 0 got s.buf; pkt_count = s.pkt_count + 1 }) (length got)

-- The loop, as far as the datagrams go.
unfoldable pub run : UdpServer → List (Option Bytes) → Option UdpServer
run s [] = some s
run s (received ∷ later) =
    if s.n_count == 0 || s.exited then some s else (on_receive s received >>= λ t. run t later)

-- `garbage` is what the buffer happens to hold, `file` what the dump has already, to which is
-- appended.
abbrev pub initial : Bytes → Bytes → ℕ → UdpServer
initial garbage file count = record {
  buf = garbage;
  n_count = count;
  pkt_count = 0;
  printed = [];
  ofs = file;
  exited = false;
}
