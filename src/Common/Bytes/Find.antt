-- ===== src/Common/Bytes/Find.antt =====
-- The first occurrence of a byte, and the two pieces that it cuts a text into.
use webrtc_snippets.Common.Tests.{◌==◌, ==_refl, ==_ne, Bool-cases}
use webrtc_snippets.Common.Lists.{length, drop-length_next}
use webrtc_snippets.Common.Bytes.{Bytes, Avoids, find_byte, find_byte_from, find_text}
use Prim.Native.Nat.{ℕ, suc, ◌+◌}
use mathlib.Core.Path.{◌≡◌, refl, ap}
use mathlib.Core.Logic.{◌⊎◌, inl, inr}
use mathlib.Core.Bool.{false}
use mathlib.Core.Option
use mathlib.Core.Option.{Option, none, some}
use mathlib.Core.List.{[], ◌∷◌, ◌++◌}
use native.Mathlib.Omega.{arith}

pub find_byte-Avoids : (c : ℕ) (s : Bytes) → Avoids c s → find_byte c s ≡ none
unfolding find_byte
find_byte-Avoids c [] h = refl
find_byte-Avoids c (x ∷ s) h = rw (==_ne x c h.0, find_byte-Avoids c s h.1)

pub find_byte-append :
    (c : ℕ) (a b : Bytes) → Avoids c a → find_byte c (a ++ c ∷ b) ≡ some (length a)
unfolding find_byte
find_byte-append c [] b h = rw ==_refl
find_byte-append c (x ∷ a) b h = rw (==_ne x c h.0, find_byte-append c a b h.1)

-- Where the byte stands first, or that it stands nowhere.
abbrev pub Splits : ℕ → Bytes → Type 0
Splits c s =
    ((find_byte c s ≡ none) × Avoids c s)
    ⊎ ((a b : Bytes) × (s ≡ a ++ c ∷ b) × Avoids c a × (find_byte c s ≡ some (length a)))

Splits-cons : (c x : ℕ) (s : Bytes) → (x == c) ≡ false → Splits c s → Splits c (x ∷ s)
unfolding find_byte
Splits-cons c x s h (inl (e, av)) = inl (rw (h, e), (ground arith, av))
Splits-cons c x s h (inr (a, b, e, av, f)) =
    inr (x ∷ a, b, ap (◌∷◌ x) e, (ground arith, av), rw (h, f))

pub find_byte_cases : (c : ℕ) (s : Bytes) → Splits c s
unfolding find_byte
find_byte_cases c [] = inl (refl, tt)
find_byte_cases c (x ∷ s) = elim (Bool-cases (x == c)) [
  | inl hit ↦ inr ([], s, ground arith, tt, rw hit)
  | inr miss ↦ Splits-cons c x s miss (find_byte_cases c s)
]

-- A search that starts behind a piece and one more byte sees only what follows.
pub find_byte_from-append :
    (c y : ℕ) (a s : Bytes)
    → find_byte_from c (a ++ y ∷ s) (length a + 1)
      ≡ Option.map (λ i. length a + 1 + i) (find_byte c s)
unfolding find_byte_from
find_byte_from-append c y a s = rw drop-length_next

map-zero-add : (o : Option ℕ) → o ≡ Option.map (λ i. 0 + i) o
map-zero-add none = refl
map-zero-add (some i) = ap some (omega arith)

map-suc-add :
    (n : ℕ) (o : Option ℕ)
    → Option.map suc (Option.map (λ i. n + i) o) ≡ Option.map (λ i. suc n + i) o
map-suc-add n none = refl
map-suc-add n (some i) = ap some (omega arith)

-- A search for a text passes over a piece without the text's first byte.
pub find_text-Avoids :
    (p : ℕ) (ps a s : Bytes)
    → Avoids p a
    → find_text (p ∷ ps) (a ++ s) ≡ Option.map (λ i. length a + i) (find_text (p ∷ ps) s)
unfolding find_text
find_text-Avoids p ps [] s h = map-zero-add (find_text (p ∷ ps) s)
find_text-Avoids p ps (x ∷ a) s h =
    rw (==_ne x p h.0, find_text-Avoids p ps a s h.1) (map-suc-add (length a) _)

pub find_text-none : (p : ℕ) (ps s : Bytes) → Avoids p s → find_text (p ∷ ps) s ≡ none
unfolding find_text
find_text-none p ps [] h = refl
find_text-none p ps (x ∷ s) h = rw (==_ne x p h.0, find_text-none p ps s h.1)
