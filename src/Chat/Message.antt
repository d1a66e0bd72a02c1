-- ===== src/Chat/Message.antt =====
-- text_chat/chat_message.hpp: a message of the chat in its fixed buffer. Of the C library, `strncat`,
-- `atoi` (in the C locale) and `sprintf` with `%4d`; a `size_t` has 64 bits.
pub mod Codec
use webrtc_snippets.Common.{
  ℕ, zero, suc, ◌+◌, ◌-◌, ◌*◌, ◌/◌, ◌%◌, ◌^◌, ◌≤◌, ◌<◌, ◌≡◌, ◌≢◌, ◌↔◌, ◌⊎◌, inl, inr, refl, sym, ap,
  ◌∙◌, subst, arith, tests, Bool, true, false, not, ◌&&◌, ◌||◌, Option, none, some, List, [], ◌∷◌,
  ◌++◌, map, append-nil, append_assoc, ◌==◌, ltb, leb, if◌then◌else◌, is_empty, length, get_elem?,
  drop, take, All, Bool-cases, Option-cases, guard, ◌>>=◌, ◌>>◌, >>=-eq-some, along_some, along_if,
  if_cases, ==_refl, ==_ne, ==_iff, length-append, take-append-drop, take-length, drop-length,
  drop-length_next, drop-add, drop-length-add, is_empty-append, is_empty-append_cons, take_all,
  All-append, length-take, length-drop, ltb→lt, lt→ltb, leb→le, replicate, is_none,
}
use webrtc_snippets.Common.Bytes.{
  overwrite, Bytes, concat, codes, Avoids, find_byte, find_byte_from, find_text, starts_with,
  substr, equal, equal_iff, equal_refl,
}
use webrtc_snippets.Common.Bytes.Find.{
  find_byte-append, find_byte-Avoids, find_byte_cases, find_byte_from-append, find_text-Avoids,
  find_text-none,
}
use webrtc_snippets.Common.Bytes.Digits.{read_digits, to_decimal}
use webrtc_snippets.Common.Bytes.CString.{skip_spaces, c_str}

-- `data_` and `body_length_`.
pub record ChatMessage : Type 0 where
  pub buffer : Bytes
  pub body_length : ℕ

abbrev pub header_length : ℕ
header_length = 4

abbrev pub max_body_length : ℕ
max_body_length = 512

-- The size of `data_`.
abbrev pub buffer_length : ℕ
buffer_length = 516

-- What is in the buffer at first is not determined by the source.
abbrev pub new_message : Bytes → ChatMessage
new_message garbage = record { buffer = garbage; body_length = 0 }

abbrev pub message_length : ChatMessage → ℕ
message_length m = header_length + m.body_length

abbrev pub body : ChatMessage → Bytes
body m = take m.body_length (drop header_length m.buffer)

-- The bytes that are sent: `data()`, as many as `length()`.
abbrev pub text : ChatMessage → Bytes
text m = take (message_length m) m.buffer

-- The setter `body_length`.
unfoldable pub set_body_length : ChatMessage → ℕ → ChatMessage
set_body_length m n = record m {
  body_length = if ltb max_body_length n then max_body_length else n;
}

abbrev pub digits_size : Bytes → ℕ
unfolding read_digits
digits_size s = let (value, count, rest) = read_digits 0 0 s in value

-- `atoi`, as it is converted to `size_t`.
unfoldable pub atoi_signed : Bytes → ℕ
atoi_signed [] = 0
atoi_signed (c ∷ s) =
    if c == b'-'
    then (2 ^ 64 - digits_size s) % 2 ^ 64
    else if c == b'+'
    then digits_size s
    else digits_size (c ∷ s)

unfoldable pub atoi : Bytes → ℕ
unfolding atoi_signed skip_spaces
atoi s = atoi_signed (skip_spaces s)

unfoldable pub decode_header : ChatMessage → ChatMessage × Bool
unfolding atoi c_str
decode_header m =
    let n = atoi (c_str (take header_length m.buffer)) in
    if ltb max_body_length n
    then (record m { body_length = 0 }, false)
    else (record m { body_length = n }, true)

-- `sprintf` with `%4d`, of a number that is not negative.
unfoldable pub padded : ℕ → Bytes
padded n = replicate (4 - length (to_decimal n)) b' ' ++ to_decimal n

unfoldable pub encode_header : ChatMessage → ChatMessage
encode_header m = record m {
  buffer = overwrite 0 (take header_length (padded m.body_length)) m.buffer;
}
