-- ===== src/SignalServer/RequestHandler/Extension.antt =====
-- The extension of a path.
use webrtc_snippets.Common.{
  ℕ, ◌<◌, ◌≡◌, ◌⊎◌, inl, inr, refl, sym, ap, ◌∙◌, subst, arith, none, some, [], ◌∷◌, ◌++◌,
  append_assoc, length, Option-cases, ==_refl, ==_ne, length-append, drop-length_next, lt→ltb,
}
use webrtc_snippets.Common.Bytes.{Bytes, Avoids}
use webrtc_snippets.SignalServer.RequestHandler.{find_last, extension_of}

find_last-Avoids : (c : ℕ) (s : Bytes) → Avoids c s → find_last c s ≡ none
unfolding find_last
find_last-Avoids c [] p = refl
find_last-Avoids c (x ∷ s) p = rw (find_last-Avoids c s p.1, ==_ne x c p.0) refl

find_last-append : (c : ℕ) (a s : Bytes) → Avoids c s → find_last c (a ++ c ∷ s) ≡ some (length a)
unfolding find_last
find_last-append c [] s p = rw (find_last-Avoids c s p, ==_refl c) refl
find_last-append c (x ∷ a) s p = rw (find_last-append c a s p) refl

find_last-before : (c : ℕ) (a s : Bytes) → Avoids c s → find_last c (a ++ s) ≡ find_last c a
unfolding find_last
find_last-before c [] s p = find_last-Avoids c s p
find_last-before c (x ∷ a) s p = rw (find_last-before c a s p) refl

find_last-bound : (c : ℕ) (s : Bytes) (i : ℕ) → find_last c s ≡ some i → i < length s
unfolding find_last
find_last-bound c [] i e = absurd (ground arith)
find_last-bound c (x ∷ s) i e = elim (Option-cases (find_last c s)) [
  | inl miss ↦ ground (arith, miss)
  | inr (j, hit) ↦ ground (arith, find_last-bound c s j hit)
]

last_dot :
    (dir stem ext : Bytes)
    → Avoids b'.' ext
    → find_last b'.' (dir ++ b'/' ∷ (stem ++ b'.' ∷ ext)) ≡ some (length (dir ++ b'/' ∷ stem))
last_dot dir stem ext q =
    ap (find_last b'.') (sym (append_assoc dir (b'/' ∷ stem) (b'.' ∷ ext)))
    ∙ find_last-append b'.' (dir ++ b'/' ∷ stem) ext q

dotted :
    (dir stem ext : Bytes)
    → Avoids b'/' (stem ++ b'.' ∷ ext)
    → Avoids b'.' ext
    → extension_of (dir ++ b'/' ∷ (stem ++ b'.' ∷ ext)) ≡ ext
unfolding extension_of
dotted dir stem ext p q =
    rw (last_dot dir stem ext q, find_last-append b'/' dir (stem ++ b'.' ∷ ext) p, extension_of)
      (rw
        (lt→ltb (length dir) (length (dir ++ b'/' ∷ stem))
          (omega (arith, length-append dir (b'/' ∷ stem))))
        (rw (← append_assoc dir (b'/' ∷ stem) (b'.' ∷ ext))
          (drop-length_next (dir ++ b'/' ∷ stem) b'.' ext)))

plain_name :
    (dir name : Bytes)
    → Avoids b'/' name
    → Avoids b'.' name
    → extension_of (dir ++ b'/' ∷ name) ≡ []
unfolding extension_of
plain_name dir name p q = elim (Option-cases (find_last b'.' dir)) [
  | inl miss ↦
      rw (find_last-before b'.' dir (b'/' ∷ name) (omega arith, q), extension_of)
        (rw (miss, extension_of) refl)
  | inr (i, hit) ↦
      rw
        (
          find_last-before b'.' dir (b'/' ∷ name) (omega arith, q),
          hit,
          find_last-append b'/' dir name p,
          extension_of,
        )
        (ground (arith, find_last-bound b'.' dir i hit))
]

-- The extension is what stands behind the last dot of the last part of a path, whatever dots and
-- slashes come before; of a last part with no dot it is empty.
pub extension_of_last :
    (dir name stem ext : Bytes)
    → Avoids b'/' name
    → ((name ≡ stem ++ b'.' ∷ ext) × Avoids b'.' ext) ⊎ (Avoids b'.' name × (ext ≡ []))
    → extension_of (dir ++ b'/' ∷ name) ≡ ext
extension_of_last dir name stem ext p (inl (e, q)) =
    rw e (dotted dir stem ext (subst (Avoids b'/') e p) q)
extension_of_last dir name stem ext p (inr (q, e)) = rw e (plain_name dir name p q)
