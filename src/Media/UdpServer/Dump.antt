-- ===== src/Media/UdpServer/Dump.antt =====
-- media/udpserver.cpp: what the file holds after the loop.
use webrtc_snippets.Common.{
  ℕ, zero, suc, ◌+◌, ◌-◌, ◌≤◌, ◌<◌, ◌≡◌, inl, inr, refl, sym, ap, ◌∙◌, arith, true, false, ◌||◌,
  some, List, [], ◌∷◌, ◌++◌, map, append-nil, append_assoc, ◌==◌, ltb, if◌then◌else◌, length, drop,
  take, All, Bool-cases, length-append, take-length, All-take, All-drop, All-append, length-take,
  ltb→lt, lt→ltb,
}
use webrtc_snippets.Common.Bytes.{Bytes, concat, overwrite, codes}
use webrtc_snippets.Common.Bytes.Overwrite.{length-overwrite}
use webrtc_snippets.Media.RtpUtil.{rtp_header_extension_length, raw32, dump_rtp_to_file}
use webrtc_snippets.Media.RtpUtil.Fields.{
  AreBytes, rtp_header_extension_length-front, write_octets-take,
}
use webrtc_snippets.Media.RtpUtil.Text.{longest_header, rtp_text, dump_rtp_packet-rtp_text}
use webrtc_snippets.Media.UdpServer.{UdpServer, buflen, on_packet, on_receive, run}

-- A packet in the dump.
abbrev pub frame : Bytes → Bytes
frame p = codes "DUMP" ++ raw32 (length p) ++ p

-- The packets that are longer than twelve bytes, as far as the buffer has room.
abbrev pub accepted : List Bytes → List Bytes
accepted [] = []
accepted (d ∷ later) =
    if ltb 12 (length (take buflen d)) then take buflen d ∷ accepted later else accepted later

-- A packet whose header ends in the packet, and is short enough to be printed.
abbrev pub IsPrintable : Bytes → Type 0
IsPrintable p = (size : ℕ) × (rtp_header_extension_length p ≡ some size) × (size ≤ longest_header)

abbrev pub ArePackets : List Bytes → Type 0
ArePackets = All (λ d. AreBytes d × (12 < length (take buflen d) → IsPrintable (take buflen d)))

abbrev pub IsReady : UdpServer → Type 0
IsReady s = (length s.buf ≡ buflen) × AreBytes s.buf × (s.exited ≡ false)

-- A packet was printed and dumped.
abbrev with_frame : UdpServer → Bytes → Bytes → UdpServer
with_frame s got text = record s {
  n_count = s.n_count - 1;
  printed = s.printed ++ text ∷ [];
  ofs = s.ofs ++ frame got;
}

module _ (got rest : Bytes) (s : UdpServer) (loaded : s.buf ≡ got ++ rest) where
  -- A long packet is printed and dumped.
  on_packet-frame :
      AreBytes s.buf
      → 12 < length got
      → length got < 4294967296
      → IsPrintable got
      → (text : Bytes) × (on_packet s (length got) ≡ some (with_frame s got text))
  unfolding on_packet dump_rtp_to_file
  on_packet-frame v more few (size, e, short) =
      let long = length-append got rest in
      let measured : length s.buf ≡ length (got ++ rest) = ap length loaded in
      let whole : rtp_header_extension_length s.buf ≡ some size =
        ap rtp_header_extension_length loaded ∙ rtp_header_extension_length-front got rest size e in
      let packet : take (length got) s.buf ≡ got =
        ap (take (length got)) loaded ∙ take-length got rest in
      (
        rtp_text s.buf size (length got),
        rw
            (
              lt→ltb 12 (length got) more,
              dump_rtp_packet-rtp_text s.buf size (length got) v more (omega arith) few whole short,
              write_octets-take (length got) s.buf (s.ofs ++ codes "DUMP" ++ raw32 (length got))
                  (omega arith),
              packet,
              append_assoc (s.ofs ++ codes "DUMP") (raw32 (length got)) got,
              append_assoc s.ofs (codes "DUMP") (raw32 (length got) ++ got),
            )
            refl,
      )

on_packet_short : (s : UdpServer) (n : ℕ) → ltb 12 n ≡ false → on_packet s n ≡ some s
unfolding on_packet
on_packet_short s n small = rw small refl

-- The buffer after a datagram: its front is what was received.
abbrev received : UdpServer → Bytes → UdpServer
received s got = record s { buf = overwrite 0 got s.buf; pkt_count = s.pkt_count + 1 }

received-IsReady :
    (s : UdpServer) (got : Bytes)
    → IsReady s
    → AreBytes got
    → length got ≤ buflen
    → IsReady (received s got)
unfolding overwrite
received-IsReady s got (size, v, running) w p = (
  length-overwrite 0 got s.buf (omega arith) ∙ size,
  All-append (λ c. c < 256) got (drop (0 + length got) s.buf) w
      (All-drop (λ c. c < 256) (0 + length got) s.buf v),
  running,
)

-- The state after so many datagrams: the file has the packets that were accepted, as far as they
-- were wanted.
abbrev pub HasDumped : UdpServer → List Bytes → UdpServer → Type 0
HasDumped s ds t =
    (t.ofs ≡ s.ofs ++ concat (map frame (take s.n_count (accepted ds))))
    × (t.n_count ≡ s.n_count - length (accepted ds))
    × (t.exited ≡ false)

take-pos : (n : ℕ) (p : Bytes) (ps : List Bytes) → 0 < n → take n (p ∷ ps) ≡ p ∷ take (n - 1) ps
take-pos zero p ps more = absurd (omega arith)
take-pos (suc n) p ps more = ap (λ k. p ∷ take k ps) {x = n} {y = suc n - 1} (omega arith)

take-none : (n : ℕ) → take {A = Bytes} n [] ≡ []
take-none zero = refl
take-none (suc n) = refl

module _ (s u t : UdpServer) (d : Bytes) (ds : List Bytes) where
  HasDumped-accepted :
      ltb 12 (length (take buflen d)) ≡ true
      → 0 < s.n_count
      → u.ofs ≡ s.ofs ++ frame (take buflen d)
      → u.n_count ≡ s.n_count - 1
      → HasDumped u ds t
      → HasDumped s (d ∷ ds) t
  HasDumped-accepted long more file left (dumped, count, running) =
      let got = take buflen d in
      rw long (
        dumped
            ∙ ap (λ k. u.ofs ++ concat (map frame (take k (accepted ds)))) left
            ∙ ap (λ b. b ++ concat (map frame (take (s.n_count - 1) (accepted ds)))) file
            ∙ append_assoc s.ofs (frame got)
                (concat (map frame (take (s.n_count - 1) (accepted ds))))
            ∙ ap (λ ps. s.ofs ++ concat (map frame ps))
                (sym (take-pos s.n_count got (accepted ds) more)),
        omega arith,
        running,
      )

  HasDumped-passed :
      ltb 12 (length (take buflen d)) ≡ false
      → u.ofs ≡ s.ofs
      → u.n_count ≡ s.n_count
      → HasDumped u ds t
      → HasDumped s (d ∷ ds) t
  HasDumped-passed small file left (dumped, count, running) = rw small (
    dumped
        ∙ ap (λ k. u.ofs ++ concat (map frame (take k (accepted ds)))) left
        ∙ ap (λ b. b ++ concat (map frame (take s.n_count (accepted ds)))) file,
    omega arith,
    running,
  )

-- In a state that goes on: what one datagram does, and how it adds to what the later ones do.
on_receive-HasDumped :
    (s : UdpServer) (d : Bytes) (ds : List Bytes)
    → IsReady s
    → AreBytes d × (12 < length (take buflen d) → IsPrintable (take buflen d))
    → 0 < s.n_count
    → (u : UdpServer) × (on_receive s (some d) ≡ some u)
      × IsReady u
      × ((t : UdpServer) → HasDumped u ds t → HasDumped s (d ∷ ds) t)
unfolding on_receive overwrite
on_receive-HasDumped s d ds ready (w, printable) more =
    let got = take buflen d in
    let size = length-take buflen d in
    let next = received-IsReady s got ready (All-take (λ c. c < 256) buflen d w) (omega arith) in
    elim (Bool-cases (ltb 12 (length got))) [
      | inl long ↦
          let (text, e) =
            on_packet-frame got (drop (0 + length got) s.buf) (received s got) refl next.1
              (ltb→lt 12 (length got) long) (omega arith)
              (printable (ltb→lt 12 (length got) long)) in
          let u = with_frame (received s got) got text in
          (u, e, next, λ t. HasDumped-accepted s u t d ds long more refl refl)
      | inr small ↦ (
        received s got,
        on_packet_short (received s got) (length got) small,
        next,
        λ t. HasDumped-passed s (received s got) t d ds small refl refl,
      )
    ]

pub run-HasDumped :
    (ds : List Bytes) (s : UdpServer)
    → IsReady s
    → ArePackets ds
    → (t : UdpServer) × (run s (map some ds) ≡ some t) × HasDumped s ds t
unfolding run
run-HasDumped [] s ready v = (
  s,
  refl,
  (
    sym (ap (λ ps. s.ofs ++ concat (map frame ps)) (take-none s.n_count) ∙ append-nil s.ofs),
    omega arith,
    ready.2,
  ),
)
run-HasDumped (d ∷ ds) s ready v = elim (Bool-cases (s.n_count == 0)) [
  | inl ended ↦ (
    s,
    rw ended refl,
    (
      sym (
          ap (λ k. s.ofs ++ concat (map frame (take k (accepted (d ∷ ds))))) {x = s.n_count} {y = 0}
            (ground (arith, ended))
          ∙ append-nil s.ofs),
      ground (arith, ended),
      ready.2,
    ),
  )
  | inr wanted ↦
      let (u, e, next, adds) = on_receive-HasDumped s d ds ready v.0 (ground (arith, wanted)) in
      let (t, done, dumped) = run-HasDumped ds u next v.1 in
      let goes : (s.n_count == 0 || s.exited) ≡ false = rw wanted ready.2 in
      (t, rw (goes, e) done, adds t dumped)
]
