-- ===== src/Common/Bytes/Lines.antt =====
-- Line breaks, and the empty line that ends a block of lines.
use webrtc_snippets.Common.Tests.{==_ne}
use webrtc_snippets.Common.Lists.{length}
use webrtc_snippets.Common.Bytes.{Bytes, Avoids, find_text}
use webrtc_snippets.Common.Bytes.Find.{find_text-Avoids}
use Prim.Native.Nat.{ℕ, suc, ◌+◌}
use mathlib.Core.Path.{◌≡◌, refl, ap, ◌∙◌}
use mathlib.Core.Logic.{◌≢◌}
use mathlib.Core.Option
use mathlib.Core.Option.{Option, none, some}
use mathlib.Core.List.{[], ◌∷◌, ◌++◌}
use native.Mathlib.Omega.{arith}

abbrev pub cr : ℕ
cr = 13

abbrev pub lf : ℕ
lf = 10

abbrev pub crlf : Bytes
crlf = cr ∷ lf ∷ []

abbrev pub separator : Bytes
separator = cr ∷ lf ∷ cr ∷ lf ∷ []

map-pass :
    (n : ℕ) (o : Option ℕ)
    → Option.map suc (Option.map suc (Option.map (λ i. n + i) o)) ≡ Option.map (λ i. n + 2 + i) o
map-pass n none = refl
map-pass n (some i) = ap some (omega arith)

-- The CRLF in front of a line starts no separator.
pub pass_line :
    (y s : Bytes)
    → Avoids cr y
    → y ≢ []
    → find_text separator (crlf ++ (y ++ s))
      ≡ Option.map (λ i. length y + 2 + i) (find_text separator s)
unfolding find_text
pass_line [] s p ne = absurd (ne refl)
pass_line (x ∷ y) s p ne = rw (==_ne x cr p.0) (
    ap (λ o. Option.map suc (Option.map suc o))
      (rw (← find_text-Avoids cr (lf ∷ cr ∷ lf ∷ []) (x ∷ y) s p) (rw (==_ne x cr p.0)))
    ∙ map-pass (length (x ∷ y)) (find_text separator s))
