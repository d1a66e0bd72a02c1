-- ===== src/Media/RtpUtil/Hex.antt =====
-- media/rtputil.cpp, `octet_string_hex_string`: what it leaves in its buffer of 1024 bytes.
use webrtc_snippets.Common.{
  ℕ, zero, suc, ◌+◌, ◌-◌, ◌*◌, ◌/◌, ◌%◌, ◌≤◌, ◌<◌, ◌≡◌, inl, inr, refl, sym, ap, ◌∙◌, arith, false,
  none, some, [], ◌∷◌, ◌++◌, append-nil, append_assoc, ltb, if◌then◌else◌, length, take, Bool-cases,
  length-append, length-take, ltb→lt, lt→ltb,
}
use webrtc_snippets.Common.Bytes.{Bytes}
use webrtc_snippets.Media.RtpUtil.{
  max_log_msg_len, nibble_to_hex_char, push_char, hex_loop, octet_string_hex_string,
}

-- Two digits for each byte.
abbrev pub hex_text : Bytes → Bytes
hex_text [] = []
hex_text (c ∷ str) = nibble_to_hex_char (c / 16) ∷ nibble_to_hex_char (c % 16) ∷ hex_text str

pub length-hex_text : (str : Bytes) → length (hex_text str) ≡ length str * 2
length-hex_text [] = refl
length-hex_text (c ∷ str) = omega (arith, length-hex_text str)

push_char_room :
    (written : Bytes) (c : ℕ)
    → length written < max_log_msg_len
    → push_char written c ≡ some (written ++ c ∷ [])
unfolding push_char
push_char_room written c p = ground (arith, p)

-- One round of the loop.
hex_loop_next :
    (fuel limit c : ℕ) (str written : Bytes)
    → length written < limit
    → length written + 2 ≤ max_log_msg_len
    → hex_loop (suc fuel) limit (c ∷ str) written
      ≡ hex_loop fuel limit str
          (written ++ nibble_to_hex_char (c / 16) ∷ nibble_to_hex_char (c % 16) ∷ [])
unfolding hex_loop
hex_loop_next fuel limit c str written p q =
    let high = nibble_to_hex_char (c / 16) in
    let low = nibble_to_hex_char (c % 16) in
    let size = length-append written (high ∷ []) in
    rw
      (
        lt→ltb (length written) limit p,
        push_char_room written high (omega arith),
        push_char_room (written ++ high ∷ []) low (omega arith),
        append_assoc written (high ∷ []) (low ∷ []),
      )
      refl

hex_loop_end :
    (fuel limit : ℕ) (str written : Bytes)
    → limit ≤ length written
    → hex_loop fuel limit str written ≡ some written
unfolding hex_loop
hex_loop_end zero limit str written p = refl
hex_loop_end (suc fuel) limit str written p = ground (arith, p)

-- `k` rounds end the loop.
hex_loop-hex_text :
    (k fuel limit : ℕ) (str written : Bytes)
    → k ≤ length str
    → k < fuel
    → length written + k * 2 ≤ max_log_msg_len
    → limit ≤ length written + k * 2
    → length written + k * 2 < limit + 2
    → hex_loop fuel limit str written ≡ some (written ++ hex_text (take k str))
hex_loop-hex_text zero fuel limit str written p q r s t =
    hex_loop_end fuel limit str written (omega arith) ∙ ap some (sym (append-nil written))
hex_loop-hex_text (suc k) zero limit str written p q r s t = absurd (omega arith)
hex_loop-hex_text (suc k) (suc fuel) limit [] written p q r s t = absurd (omega arith)
hex_loop-hex_text (suc k) (suc fuel) limit (c ∷ str) written p q r s t =
    let digits = nibble_to_hex_char (c / 16) ∷ nibble_to_hex_char (c % 16) ∷ [] in
    let size = length-append written digits in
    hex_loop_next fuel limit c str written (omega arith) (omega arith)
    ∙ hex_loop-hex_text k fuel limit str (written ++ digits) (omega arith) (omega arith)
        (omega arith) (omega arith) (omega arith)
    ∙ ap some (append_assoc written digits (hex_text (take k str)))

pub le→ltb : (a b : ℕ) → b ≤ a → ltb a b ≡ false
le→ltb a b p = ground arith

limit_near :
    (n : ℕ)
    → 512 ≤ n
    → (1023 ≤ (if ltb max_log_msg_len (n * 2) then max_log_msg_len - 1 else n * 2))
      × ((if ltb max_log_msg_len (n * 2) then max_log_msg_len - 1 else n * 2) ≤ 1024)
limit_near n p = ground arith

-- From 512 bytes on the loop fills the buffer.
hex_loop_full :
    (limit : ℕ) (str : Bytes)
    → 512 ≤ length str
    → 1023 ≤ limit
    → limit ≤ 1024
    → hex_loop (suc limit) limit str [] ≡ some (hex_text (take 512 str))
hex_loop_full limit str p q r =
    hex_loop-hex_text 512 (suc limit) limit str [] p (omega arith) (omega arith) (omega arith)
      (omega arith)

-- The text of a memory that has the bytes asked for: two digits for each byte, where these are at
-- most 511. From 512 bytes on the NUL behind the digits is written outside of the buffer, although
-- the length is cut down there.
pub octet_string_hex_string_cases :
    (str : Bytes) (n : ℕ)
    → n ≤ length str
    → octet_string_hex_string str n ≡ (if ltb n 512 then some (hex_text (take n str)) else none)
unfolding octet_string_hex_string push_char
octet_string_hex_string_cases str n p = elim (Bool-cases (ltb n 512)) [
  | inl small ↦
      let size = length-hex_text (take n str) in
      let taken = length-take n str in
      let few : n < 512 = ltb→lt n 512 small in
      let whole : ltb max_log_msg_len (n * 2) ≡ false = ground arith in
      rw
        (
          small,
          whole,
          hex_loop-hex_text n (suc (n * 2)) (n * 2) str [] p (omega arith) (omega arith)
              (omega arith) (omega arith),
          lt→ltb (length (hex_text (take n str))) max_log_msg_len (omega arith),
        )
        refl
  | inr big ↦
      let size = length-hex_text (take 512 str) in
      let taken = length-take 512 str in
      let many : 512 ≤ n = ground (arith, big) in
      let limit = if ltb max_log_msg_len (n * 2) then max_log_msg_len - 1 else n * 2 in
      let (near, below) = limit_near n many in
      rw
        (
          big,
          hex_loop_full limit str (omega arith) near below,
          le→ltb (length (hex_text (take 512 str))) max_log_msg_len (omega arith),
        )
        refl
]
