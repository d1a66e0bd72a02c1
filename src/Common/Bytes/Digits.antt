-- ===== src/Common/Bytes/Digits.antt =====
-- Decimal digits: `std::from_chars` on an unsigned number, and `std::to_string`.
use webrtc_snippets.Common.{
  ℕ, zero, suc, ◌/◌, ◌%◌, ◌+◌, ◌-◌, ◌*◌, Bool, not, ◌&&◌, ◌||◌, Option, none, some, [], ◌∷◌, ◌==◌,
  ltb, leb, if◌then◌else◌,
}
use webrtc_snippets.Common.Bytes.{Bytes}

abbrev pub is_digit : ℕ → Bool
is_digit c = leb b'0' c && leb c b'9'

-- The digits at the front: the value that they add to `acc`, how many there are, and what follows.
unfoldable pub read_digits : ℕ → ℕ → Bytes → ℕ × ℕ × Bytes
read_digits acc count [] = (acc, count, [])
read_digits acc count (c ∷ s) =
    let rest = read_digits (acc * 10 + (c - b'0')) (count + 1) s in
    if is_digit c then rest else (acc, count, c ∷ s)

abbrev in_range : ℕ → ℕ × ℕ × Bytes → Option (ℕ × Bytes)
in_range limit (value, count, rest) =
    if count == 0 || not (ltb value limit) then none else some (value, rest)

-- `from_chars` into an unsigned number below `limit`: `none` for its two errors, no digit and a
-- value out of range; otherwise the value and what follows the digits.
unfoldable pub from_chars : ℕ → Bytes → Option (ℕ × Bytes)
unfolding read_digits
from_chars limit s = in_range limit (read_digits 0 0 s)

abbrev pub u32 : ℕ
u32 = 0x100000000

-- `std::to_string` of an unsigned number; the digits are made from the last on, and one round more
-- than the number itself is enough of them.
unfoldable pub decimal_digits : ℕ → ℕ → Bytes → Bytes
decimal_digits zero n after = after
decimal_digits (suc fuel) n after =
    let rest = decimal_digits fuel (n / 10) ((b'0' + n % 10) ∷ after) in
    if ltb n 10 then (b'0' + n) ∷ after else rest

unfoldable pub to_decimal : ℕ → Bytes
to_decimal n = decimal_digits (suc n) n []
