-- ===== src/Common/Bytes/CString.antt =====
-- Texts as the C library sees them.
use webrtc_snippets.Common.Tests.{◌==◌, leb, if◌then◌else◌}
use webrtc_snippets.Common.Bytes.{Bytes}
use Prim.Native.Nat.{ℕ}
use mathlib.Core.Bool.{Bool, ◌&&◌, ◌||◌}
use mathlib.Core.List.{[], ◌∷◌}

-- `isspace` in the C locale, which `>>` and `atoi` skip.
abbrev pub is_space : ℕ → Bool
is_space c = c == b' ' || leb 9 c && leb c 13

unfoldable pub skip_spaces : Bytes → Bytes
skip_spaces [] = []
skip_spaces (c ∷ s) = let rest = skip_spaces s in if is_space c then rest else c ∷ s

-- `c_str`: what a function on C strings sees ends at the first NUL.
unfoldable pub c_str : Bytes → Bytes
c_str [] = []
c_str (c ∷ s) = let rest = c_str s in if c == 0 then [] else c ∷ rest
