-- ===== src/Common/Bytes.antt =====
-- Byte strings as lists of numbers, with the operations of `std::string_view` that the program
-- uses: `find` from a position, `find_first_not_of`, `substr`, `starts_with`, `==`.
-- A position that is not found is `none`; `npos` as a length stands for the whole rest.
pub mod Find
pub mod Digits
pub mod Decimal
pub mod CString
pub mod Overwrite
pub mod Lines
use webrtc_snippets.Common.Tests.{◌==◌, if◌then◌else◌}
use webrtc_snippets.Common.Lists.{is_empty, length, take, drop, All}
use Prim.Native.Nat.{ℕ, suc, ◌+◌}
use Prim.Native.Char.{code}
use Prim.Native.String.{String}
use mathlib.Core.Path.{◌≡◌, refl}
use mathlib.Core.Logic.{◌≢◌, ◌↔◌}
use mathlib.Core.Bool.{Bool, true, false, ◌&&◌}
use mathlib.Core.Option
use mathlib.Core.Option.{Option, none, some}
use mathlib.Core.List.{List, [], ◌∷◌, ◌++◌}
use native.Mathlib.Omega.{arith}

abbrev pub Bytes : Type 0
Bytes = List ℕ

-- The bytes of an ASCII literal.
abbrev pub codes : String → Bytes
codes String.[] = []
codes (String.◌∷◌ c s) = code c ∷ codes s

abbrev pub concat : List Bytes → Bytes
concat [] = []
concat (b ∷ bs) = b ++ concat bs

abbrev pub Avoids : ℕ → Bytes → Type 0
Avoids c = All (λ x. x ≢ c)

unfoldable pub find_byte : ℕ → Bytes → Option ℕ
find_byte c [] = none
find_byte c (x ∷ xs) = if x == c then some 0 else Option.map suc (find_byte c xs)

unfoldable pub find_byte_from : ℕ → Bytes → ℕ → Option ℕ
unfolding find_byte
find_byte_from c s pos = Option.map (λ i. pos + i) (find_byte c (drop pos s))

unfoldable pub starts_with : Bytes → Bytes → Bool
starts_with [] s = true
starts_with (p ∷ ps) [] = false
starts_with (p ∷ ps) (x ∷ xs) = x == p && starts_with ps xs

unfoldable pub find_text : Bytes → Bytes → Option ℕ
unfolding starts_with
find_text p [] = if is_empty p then some 0 else none
find_text p (x ∷ xs) = if starts_with p (x ∷ xs) then some 0 else Option.map suc (find_text p xs)

abbrev pub substr : Bytes → ℕ → ℕ → Bytes
substr s pos n = take n (drop pos s)

-- A buffer with some bytes of it written over: `memcpy`, or a completed read.
unfoldable pub overwrite : ℕ → Bytes → Bytes → Bytes
overwrite at new old = take at old ++ new ++ drop (at + length new) old

-- `==` of two texts.
unfoldable pub equal : Bytes → Bytes → Bool
equal [] right = is_empty right
equal (c ∷ left) [] = false
equal (c ∷ left) (d ∷ right) = if c == d then equal left right else false

pub equal_refl : (s : Bytes) → equal s s ≡ true
unfolding equal
equal_refl [] = refl
equal_refl (c ∷ s) = ground (arith, equal_refl s)

pub equal_iff : (left right : Bytes) → (equal left right ≡ true) ↔ (left ≡ right)
unfolding equal
equal_iff [] [] = ground arith
equal_iff [] (d ∷ right) = ground arith
equal_iff (c ∷ left) [] = ground arith
equal_iff (c ∷ left) (d ∷ right) = ground (arith, equal_iff left right)
