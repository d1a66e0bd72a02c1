-- ===== src/Chat/Message/Codec.antt =====
-- The header of a message: what is read of what is written.
use webrtc_snippets.Common.{
  ℕ, ◌-◌, ◌≤◌, ◌<◌, ◌≡◌, ◌⊎◌, inl, inr, refl, sym, ap, ◌∙◌, arith, Bool, true, false, ◌&&◌, ◌||◌,
  ◌∷◌, ◌++◌, ◌==◌, ltb, length, take, if_cases, take-length, take_all, ltb→lt, lt→ltb, replicate,
  every, every-lt,
}
use webrtc_snippets.Common.Bytes.{overwrite, Bytes}
use webrtc_snippets.Common.Bytes.Digits.{read_digits, to_decimal, decimal_digits}
use webrtc_snippets.Common.Bytes.CString.{skip_spaces, c_str}
use webrtc_snippets.Chat.Message.{
  ChatMessage, header_length, max_body_length, atoi, atoi_signed, padded, decode_header,
  encode_header,
}

is_read_back : ℕ → Bool
is_read_back n = (length (padded n) == 4) && (atoi (c_str (padded n)) == n)

headers_read_back : every 10000 is_read_back ≡ true
unfolding is_read_back padded atoi c_str to_decimal decimal_digits read_digits skip_spaces
    atoi_signed
headers_read_back = refl

-- How `sprintf` with `%4d` prints a number from -999 to -1, given without its sign.
abbrev pub padded_negative : ℕ → Bytes
padded_negative v = replicate (3 - length (to_decimal v)) b' ' ++ b'-' ∷ to_decimal v

is_negative : ℕ → Bool
is_negative v =
    (length (padded_negative v) == 4)
    && (v == 0 || ltb max_body_length (atoi (c_str (padded_negative v))))

negatives_read : every 1000 is_negative ≡ true
unfolding is_negative padded atoi c_str to_decimal decimal_digits read_digits skip_spaces
    atoi_signed
negatives_read = refl

pub padded-read : (n : ℕ) → n < 10000 → (length (padded n) ≡ 4) × (atoi (c_str (padded n)) ≡ n)
unfolding is_read_back
padded-read n p =
    let hit = every-lt 10000 is_read_back n headers_read_back p in
    (ground (arith, hit), ground (arith, hit))

padded_negative-read :
    (v : ℕ)
    → 0 < v
    → v < 1000
    → (length (padded_negative v) ≡ 4) × (max_body_length < atoi (c_str (padded_negative v)))
unfolding is_negative
padded_negative-read v k p =
    let hit = every-lt 1000 is_negative v negatives_read p in
    (ground (arith, hit), ltb→lt _ _ (ground (arith, hit)))

-- A header with these four bytes has been read.
unfoldable pub with_header : Bytes → ChatMessage → ChatMessage
unfolding overwrite
with_header h m = record m { buffer = overwrite 0 h m.buffer }

pub take-overwrite : (h old : Bytes) → length h ≡ 4 → take 4 (overwrite 0 h old) ≡ h
unfolding overwrite
take-overwrite h old e = ap (λ n. take n (overwrite 0 h old)) (sym e) ∙ take-length h _

-- A header that prints a number from 513 to 9999, or from -999 to -1.
abbrev pub IsRefused : Bytes → Type 0
IsRefused h =
    ((n : ℕ) × (512 < n) × (n < 10000) × (h ≡ padded n))
    ⊎ ((v : ℕ) × (0 < v) × (v < 1000) × (h ≡ padded_negative v))

decode_large :
    (h : Bytes) (m : ChatMessage)
    → length h ≡ 4
    → max_body_length < atoi (c_str h)
    → decode_header (with_header h m) ≡ (record (with_header h m) { body_length = 0 }, false)
unfolding decode_header with_header
decode_large h m long big = rw (take-overwrite h m.buffer long, lt→ltb max_body_length _ big) refl

-- A header that prints a number which is negative or greater than 512 is refused, and the body's
-- length is then 0, whatever else the buffer holds.
pub decode_header-IsRefused :
    (h : Bytes) (m : ChatMessage)
    → IsRefused h
    → decode_header (with_header h m) ≡ (record (with_header h m) { body_length = 0 }, false)
decode_header-IsRefused h m (inl (n, big, small, e)) =
    let (long, value) = padded-read n small in
    decode_large h m (ap length e ∙ long) (ground (arith, ap (λ h. atoi (c_str h)) e))
decode_header-IsRefused h m (inr (v, some_v, small, e)) =
    let (long, value) = padded_negative-read v some_v small in
    decode_large h m (ap length e ∙ long) (ground (arith, ap (λ h. atoi (c_str h)) e))

take_four : (n : ℕ) → n < 10000 → take 4 (padded n) ≡ padded n
take_four n p = take_all 4 (padded n) (ground (arith, padded-read n p))

pub encode-with_header :
    (m : ChatMessage) → m.body_length ≤ 512 → encode_header m ≡ with_header (padded m.body_length) m
unfolding encode_header overwrite with_header
encode-with_header m p = ap (λ h. with_header h m) (take_four m.body_length (omega arith))

pub decode_accepted :
    (n : ℕ) (m : ChatMessage)
    → n ≤ 512
    → decode_header (with_header (padded n) m)
      ≡ (record (with_header (padded n) m) { body_length = n }, true)
unfolding decode_header with_header
decode_accepted n m p =
    let (long, value) = padded-read n (omega arith) in
    rw (take-overwrite (padded n) m.buffer long, value)
      (if_cases {A = ChatMessage × Bool}
        (λ d. d ≡ (record (with_header (padded n) m) { body_length = n }, true))
        (ltb max_body_length n) (λ e. absurd (ground (arith, e))) (λ e. refl))

-- The header that a message encodes is decoded to the same message, whatever the body's length was
-- taken to be before.
pub decode_header-encode_header :
    (m : ChatMessage) (n : ℕ)
    → m.body_length ≤ 512
    → decode_header (record (encode_header m) { body_length = n }) ≡ (encode_header m, true)
unfolding with_header
decode_header-encode_header m n p =
    rw (encode-with_header m p) (decode_accepted m.body_length (record m { body_length = n }) p)

-- Whatever bytes have been received, what is taken to be the body lies inside the buffer's room for
-- it, the buffer is left as it is, and a refused header leaves no body.
pub decode_header-bound :
    (m : ChatMessage)
    → let (d, accepted) = decode_header m in
      (d.body_length ≤ max_body_length)
      × (d.buffer ≡ m.buffer)
      × (accepted ≡ false → d.body_length ≡ 0)
unfolding decode_header
decode_header-bound m =
    if_cases {A = ChatMessage × Bool}
      (λ d.
        (d.0.body_length ≤ max_body_length)
        × (d.0.buffer ≡ m.buffer)
        × (d.1 ≡ false → d.0.body_length ≡ 0))
      (ltb max_body_length (atoi (c_str (take header_length m.buffer))))
      (λ e. (omega arith, refl, λ f. refl)) (λ e. (ground (arith, e), refl, λ f. absurd (cc)))
