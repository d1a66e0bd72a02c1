-- ===== src/SignalServer/RequestHandler/Decode.antt =====
-- What `url_decode` makes of an encoded text.
use webrtc_snippets.Common.{
  ℕ, ◌+◌, ◌-◌, ◌*◌, ◌/◌, ◌%◌, ◌≤◌, ◌<◌, ◌≡◌, ◌≢◌, inl, inr, refl, ap, ◌∙◌, arith, Bool, false, some,
  [], ◌∷◌, ◌++◌, ◌==◌, ltb, if◌then◌else◌, All, Bool-cases, ==_ne,
}
use webrtc_snippets.Common.Bytes.{Bytes}
use webrtc_snippets.Common.Bytes.CString.{skip_spaces}
use webrtc_snippets.SignalServer.RequestHandler.{
  hex_value, hex_digits, strip_0x, number_at, read_hex, url_decode,
}

-- A digit, with letters in upper or lower case.
abbrev pub hex_digit : Bool → ℕ → ℕ
hex_digit upper d = if ltb d 10 then b'0' + d else if upper then b'A' + d - 10 else b'a' + d - 10

-- Percent encoding: the bytes that `plain` picks stand for themselves, a space may be written as a
-- plus, and each other byte is a percent sign and two digits.
abbrev pub encode_byte : (ℕ → Bool) → Bool → ℕ → Bytes
encode_byte plain upper c =
    if plain c
    then (if c == b' ' then b'+' ∷ [] else c ∷ [])
    else b'%' ∷ hex_digit upper (c / 16) ∷ hex_digit upper (c % 16) ∷ []

abbrev pub encode : (ℕ → Bool) → Bool → Bytes → Bytes
encode plain upper [] = []
encode plain upper (c ∷ s) = encode_byte plain upper c ++ encode plain upper s

hex_value-hex_digit : (upper : Bool) (d : ℕ) → d < 16 → hex_value (hex_digit upper d) ≡ some d
unfolding hex_value
hex_value-hex_digit upper d p = ground arith

-- A digit is no space, no sign and no letter x.
hex_digit_range :
    (upper : Bool) (d : ℕ) → d < 16 → (b'0' ≤ hex_digit upper d) × (hex_digit upper d ≤ b'f')
hex_digit_range upper d p = ground arith

read_hex-digits :
    (a b h l : ℕ)
    → b'0' ≤ a
    → b < b'x'
    → b ≢ b'X'
    → hex_value a ≡ some h
    → hex_value b ≡ some l
    → read_hex (a ∷ b ∷ []) ≡ some (h * 16 + l)
unfolding read_hex skip_spaces strip_0x number_at hex_digits
read_hex-digits a b h l p q n e f = ground arith

hex_digit_other : (upper : Bool) (d : ℕ) → d < 16 → hex_digit upper d ≢ b'X'
hex_digit_other upper d p = ground arith

read_hex-hex_digit :
    (upper : Bool) (h l : ℕ)
    → h < 16
    → l < 16
    → read_hex (hex_digit upper h ∷ hex_digit upper l ∷ []) ≡ some (h * 16 + l)
read_hex-hex_digit upper h l p q =
    read_hex-digits (hex_digit upper h) (hex_digit upper l) h l (hex_digit_range upper h p).0
      (omega (arith, (hex_digit_range upper l q).1)) (hex_digit_other upper l q)
      (hex_value-hex_digit upper h p) (hex_value-hex_digit upper l q)

step_plain :
    (c : ℕ) (s : Bytes) (o : Bytes)
    → c ≢ b'%'
    → url_decode s ≡ some o
    → url_decode (c ∷ s) ≡ some ((if c == b'+' then b' ' else c) ∷ o)
unfolding url_decode
step_plain c [] o n e = ground arith
step_plain c (d ∷ []) o n e = ground arith
step_plain c (d ∷ f ∷ s) o n e = ground arith

step_encoded :
    (d e v : ℕ) (s : Bytes) (o : Bytes)
    → read_hex (d ∷ e ∷ []) ≡ some v
    → url_decode s ≡ some o
    → url_decode (b'%' ∷ d ∷ e ∷ s) ≡ some (v ∷ o)
unfolding url_decode
step_encoded d e v s o h r = rw (h, r) refl

-- Decoding a percent-encoded text of bytes gives the text back, whichever bytes are left as they
-- are (but for the percent sign and the plus; a space that is left is a plus), and in whichever
-- case the digits are written.
pub url_decode-encode :
    (plain : ℕ → Bool) (upper : Bool) (s : Bytes)
    → plain b'%' ≡ false
    → plain b'+' ≡ false
    → All (λ c. c < 0x100) s
    → url_decode (encode plain upper s) ≡ some s
unfolding url_decode
url_decode-encode plain upper [] p q v = refl
url_decode-encode plain upper (c ∷ s) p q v =
    let later = url_decode-encode plain upper s p q v.1 in
    elim (Bool-cases (plain c)) [
      | inl as_is ↦ elim (Bool-cases (c == b' ')) [
        | inl space ↦
            rw (as_is, space)
              (step_plain b'+' (encode plain upper s) s (omega arith) later
                ∙ ap (λ x. some (x ∷ s)) (ground arith))
        | inr other ↦
            rw (as_is, other)
              (step_plain c (encode plain upper s) s (λ e. ground (arith, ap plain e)) later
                ∙ rw (==_ne c b'+' (λ e. ground (arith, ap plain e))) refl)
      ]
      | inr coded ↦ rw coded (
          step_encoded (hex_digit upper (c / 16)) (hex_digit upper (c % 16)) (c / 16 * 16 + c % 16)
            (encode plain upper s) s
            (read_hex-hex_digit upper (c / 16) (c % 16) (ground (arith, v.0)) (omega arith)) later
          ∙ ap (λ x. some (x ∷ s)) (omega arith))
    ]
