-- ===== src/Chat/Client/Wire.antt =====
-- The bytes of a message: a header of four bytes and a body, in a buffer and on the wire.
use webrtc_snippets.Common.{
  ◌+◌, ◌≤◌, ◌≡◌, sym, ap, ◌∙◌, arith, false, ◌++◌, append_assoc, ltb, length, drop, take,
  length-append, take-length, drop-length, take_all, length-take,
}
use webrtc_snippets.Common.Bytes.{overwrite, Bytes}
use webrtc_snippets.Common.Bytes.CString.{c_str}
use webrtc_snippets.Chat.Message.{buffer_length, padded, text, set_body_length}
use webrtc_snippets.Chat.Message.Codec.{
  padded-read, take-overwrite, with_header, encode-with_header,
}
use webrtc_snippets.Chat.Client.{compose}

-- A body under its header.
abbrev pub wire : Bytes → Bytes
wire b = padded (length b) ++ b

-- The buffer after a read of the header and one of the body.
pub take-both :
    (h b old : Bytes)
    → length h ≡ 4
    → take (4 + length b) (overwrite 4 b (overwrite 0 h old)) ≡ h ++ b
unfolding overwrite
take-both h b old e =
    let tail = drop (4 + length b) (overwrite 0 h old) in
    ap (λ t. take (4 + length b) (t ++ b ++ tail)) (take-overwrite h old e)
    ∙ ap (λ n. take n (h ++ b ++ tail)) {x = 4 + length b} {y = length (h ++ b)}
        (ground (arith, length-append h b, e))
    ∙ take-length (h ++ b) tail

pub drop-both :
    (h b old : Bytes)
    → length h ≡ 4
    → take (length b) (drop 4 (overwrite 4 b (overwrite 0 h old))) ≡ b
unfolding overwrite
drop-both h b old e =
    let tail = drop (4 + length b) (overwrite 0 h old) in
    ap (λ t. take (length b) (drop 4 (t ++ b ++ tail))) (take-overwrite h old e)
    ∙ ap (λ t. take (length b) (drop 4 t)) (append_assoc h b tail)
    ∙ ap (λ n. take (length b) (drop n (h ++ (b ++ tail)))) (sym e)
    ∙ ap (take (length b)) (drop-length h (b ++ tail))
    ∙ take-length b tail

-- The other way round: the body is written first, and its header in front of it.
drop-body :
    (b old : Bytes) → 4 ≤ length old → (tail : Bytes) × (drop 4 (overwrite 4 b old) ≡ b ++ tail)
unfolding overwrite
drop-body b old p =
    let tail = drop (4 + length b) old in
    (
      tail,
      ap (drop 4) (append_assoc (take 4 old) b tail)
          ∙ ap (λ n. drop n (take 4 old ++ (b ++ tail))) {x = 4} {y = length (take 4 old)}
              (ground (arith, length-take 4 old))
          ∙ drop-length (take 4 old) (b ++ tail),
    )

overwrite-zero : (h old : Bytes) → length h ≡ 4 → overwrite 0 h old ≡ h ++ drop 4 old
unfolding overwrite
overwrite-zero h old e = ap (λ n. h ++ drop n old) {x = 0 + length h} {y = 4} (omega arith)

take-swapped :
    (h b old : Bytes)
    → length h ≡ 4
    → 4 ≤ length old
    → take (4 + length b) (overwrite 0 h (overwrite 4 b old)) ≡ h ++ b
take-swapped h b old e p =
    let (tail, rest) = drop-body b old p in
    ap (take (4 + length b))
      (overwrite-zero h (overwrite 4 b old) e ∙ ap (λ t. h ++ t) rest ∙ sym (append_assoc h b tail))
    ∙ ap (λ n. take n (h ++ b ++ tail)) {x = 4 + length b} {y = length (h ++ b)}
        (ground (arith, length-append h b, e))
    ∙ take-length (h ++ b) tail

composed :
    (garbage line : Bytes)
    → length (c_str line) ≤ 512
    → compose garbage line
      ≡ with_header
          (padded (length (c_str line)))
          (record { buffer = overwrite 4 (c_str line) garbage; body_length = length (c_str line) })
unfolding compose set_body_length
composed garbage line short =
    let b = c_str line in
    let fits : ltb 512 (length b) ≡ false = ground arith in
    rw (fits, take_all (length b) b (omega arith))
      (encode-with_header (record { buffer = overwrite 4 b garbage; body_length = length b }) short)

-- What the client sends for a line.
pub text-compose :
    (garbage line : Bytes)
    → length garbage ≡ buffer_length
    → length (c_str line) ≤ 512
    → text (compose garbage line) ≡ wire (c_str line)
unfolding with_header
text-compose garbage line whole short =
    let (long, value) = padded-read (length (c_str line)) (omega arith) in
    ap text (composed garbage line short)
    ∙ take-swapped (padded (length (c_str line))) (c_str line) garbage long (omega arith)

pub take-wire : (b : Bytes) → length b ≤ 512 → take 4 (wire b) ≡ padded (length b)
take-wire b short =
    let (long, value) = padded-read (length b) (omega arith) in
    ap (λ n. take n (wire b)) (sym long) ∙ take-length (padded (length b)) b

pub drop-wire : (b : Bytes) → length b ≤ 512 → drop 4 (wire b) ≡ b
drop-wire b short =
    let (long, value) = padded-read (length b) (omega arith) in
    ap (λ n. drop n (wire b)) (sym long) ∙ drop-length (padded (length b)) b
