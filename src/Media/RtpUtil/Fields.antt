-- ===== src/Media/RtpUtil/Fields.antt =====
-- media/rtputil.cpp: the numbers of a header, the size of the line that shows them, and the bytes of
-- a packet in a dump.
use webrtc_snippets.Common.{
  ℕ, zero, suc, ◌+◌, ◌*◌, ◌/◌, ◌%◌, ◌≤◌, ◌<◌, ◌≡◌, inl, inr, refl, sym, ap, ◌∙◌, arith, some, [],
  ◌∷◌, ◌++◌, append-nil, append_assoc, ◌==◌, length, get_elem?, take, All, Bool-cases, >>=-eq-some,
  length-append, get_elem?-front,
}
use webrtc_snippets.Common.Bytes.{Bytes, codes}
use webrtc_snippets.Common.Arrays.{nth, get_elem?-nth}
use webrtc_snippets.Common.Bytes.Digits.{to_decimal}
use webrtc_snippets.Common.Bytes.Decimal.{length-to_decimal}
use webrtc_snippets.Media.RtpUtil.{
  load16, load32, upper_hex, decimal_and_hex, rtp_line, rtp_header_extension_length, write_octets,
}

abbrev pub AreBytes : Bytes → Type 0
AreBytes = All (λ c. c < 256)

-- Numbers in network order, read from a packet that has them.
abbrev pub word : Bytes → ℕ → ℕ
word packet i = nth packet i * 256 + nth packet (i + 1)

abbrev pub long : Bytes → ℕ → ℕ
long packet i = word packet i * 65536 + word packet (i + 2)

nth-lt : (packet : Bytes) (i : ℕ) → AreBytes packet → nth packet i < 256
unfolding nth
nth-lt [] i v = omega arith
nth-lt (c ∷ packet) zero v = v.0
nth-lt (c ∷ packet) (suc i) v = nth-lt packet i v.1

module _ (packet : Bytes) (i : ℕ) where
  pub load16-word : i + 2 ≤ length packet → load16 packet i ≡ some (word packet i)
  unfolding load16
  load16-word p =
      rw (get_elem?-nth packet i (omega arith), get_elem?-nth packet (i + 1) (omega arith)) refl

  pub word-lt : AreBytes packet → word packet i < 65536
  word-lt v = let a = nth-lt packet i v in let b = nth-lt packet (i + 1) v in omega arith

pub load32-long :
    (packet : Bytes) (i : ℕ) → i + 4 ≤ length packet → load32 packet i ≡ some (long packet i)
unfolding load32
load32-long packet i p =
    rw (load16-word packet i (omega arith), load16-word packet (i + 2) (omega arith)) refl

pub long-lt : (packet : Bytes) (i : ℕ) → AreBytes packet → long packet i < 4294967296
long-lt packet i v = let a = word-lt packet i v in let b = word-lt packet (i + 2) v in omega arith

-- The sizes of the printed numbers.
length-upper_hex : (width value : ℕ) → length (upper_hex width value) ≡ width
unfolding upper_hex
length-upper_hex zero value = refl
length-upper_hex (suc width) value =
    length-append (upper_hex width (value / 16)) (nth (codes "0123456789ABCDEF") (value % 16) ∷ [])
    ∙ omega (arith, length-upper_hex width (value / 16))

length-decimal : (n : ℕ) → n < 4294967296 → length (to_decimal n) ≤ 10
length-decimal n p = length-to_decimal 10 n (omega arith) (omega arith)

length-decimal_and_hex :
    (width n : ℕ) → n < 4294967296 → length (decimal_and_hex width n) ≤ 14 + width
unfolding decimal_and_hex
length-decimal_and_hex width n p =
    let a = length-decimal n p in
    let b = length-upper_hex width n in simp length-append (omega arith)

pub length-rtp_line :
    (ssrc seq pt ts ext n : ℕ)
    → ssrc < 4294967296
    → seq < 65536
    → pt < 128
    → ts < 4294967296
    → ext < 4294967296
    → n < 4294967296
    → length (rtp_line ssrc seq pt ts ext n) ≤ 220
length-rtp_line ssrc seq pt ts ext n a b c d e f =
    let sa = length-decimal_and_hex 8 ssrc a in
    let sb = length-decimal_and_hex 4 seq (omega arith) in
    let sc = length-decimal_and_hex 2 pt (omega arith) in
    let sd = length-decimal_and_hex 8 ts d in
    let se = length-decimal ext e in let sf = length-decimal n f in simp length-append (omega arith)

load16-front : (p rest : Bytes) (i c : ℕ) → load16 p i ≡ some c → load16 (p ++ rest) i ≡ some c
unfolding load16
load16-front p rest i c e =
    let (high, first, e') = >>=-eq-some (get_elem? p i) _ e in
    let (low, second, e'') = >>=-eq-some (get_elem? p (i + 1)) _ e' in
    rw (get_elem?-front p rest i high first, get_elem?-front p rest (i + 1) low second) e''

-- What stands behind a packet in the buffer does not matter for a header that ends in the packet.
pub rtp_header_extension_length-front :
    (p rest : Bytes) (size : ℕ)
    → rtp_header_extension_length p ≡ some size
    → rtp_header_extension_length (p ++ rest) ≡ some size
unfolding rtp_header_extension_length
rtp_header_extension_length-front p rest size e =
    let (first, head, e') = >>=-eq-some (get_elem? p 0) _ e in
    rw (get_elem?-front p rest 0 first head) (elim (Bool-cases (first / 16 % 2 == 1)) [
      | inl extended ↦
          let eq = rw extended at e' in
          let (words, second, e'') = >>=-eq-some (load16 p (12 + first % 16 * 4 + 2)) _ eq in
          rw (extended, load16-front p rest (12 + first % 16 * 4 + 2) words second) e''
      | inr plain ↦ rw plain (rw plain at e')
    ])

pub write_octets-take :
    (n : ℕ) (packet file : Bytes)
    → n ≤ length packet
    → write_octets n packet file ≡ some (file ++ take n packet)
unfolding write_octets
write_octets-take zero packet file p = ap some (sym (append-nil file))
write_octets-take (suc n) [] file p = absurd (omega arith)
write_octets-take (suc n) (c ∷ packet) file p =
    write_octets-take n packet (file ++ c ∷ []) (omega arith)
    ∙ ap some (append_assoc file (c ∷ []) (take n packet))
