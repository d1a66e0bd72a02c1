-- ===== src/Practice/Trim/Agree.antt =====
-- The two `trim` functions, side by side.
use webrtc_snippets.Common.{
  ℕ, zero, suc, ◌+◌, ◌≡◌, ◌⊎◌, inl, inr, refl, sym, ap, ◌∙◌, arith, false, none, some, [], ◌∷◌,
  ◌++◌, if◌then◌else◌, is_empty, drop, take, Bool-cases,
}
use webrtc_snippets.Common.Bytes.{Bytes}
use webrtc_snippets.Practice.Trim.{
  is_blank, drop_blanks, trim, find_first_not_blank, find_last_not_blank, support_trim,
}
use mathlib.Core.List.{reverse, reverse-cons, reverse-append}

-- The second loop as a recursion: the longest prefix that ends in no blank.
trim_end : Bytes → Bytes
trim_end [] = []
trim_end (c ∷ s) =
    let r = trim_end s in if is_empty r then (if is_blank c then [] else c ∷ []) else c ∷ r

drop_blanks-append :
    (a : Bytes) (c : ℕ)
    → drop_blanks (a ++ c ∷ [])
      ≡ (if is_empty (drop_blanks a) then drop_blanks (c ∷ []) else drop_blanks a ++ c ∷ [])
unfolding drop_blanks
drop_blanks-append [] c = refl
drop_blanks-append (x ∷ a) c = ground (arith, drop_blanks-append a c)

reverse-nil : (a : Bytes) → is_empty (reverse a) ≡ is_empty a
reverse-nil [] = refl
reverse-nil (x ∷ a) = rw reverse-cons (nonempty (reverse a))
  where
    nonempty : (b : Bytes) → is_empty (b ++ x ∷ []) ≡ false
    nonempty [] = refl
    nonempty (y ∷ b) = refl

trim_last : (c : ℕ) → reverse (drop_blanks (c ∷ [])) ≡ (if is_blank c then [] else c ∷ [])
unfolding drop_blanks
trim_last c = elim (Bool-cases (is_blank c)) [ inl b ↦ rw b | inr b ↦ rw b ]

trim_end-reverse : (s : Bytes) → reverse (drop_blanks (reverse s)) ≡ trim_end s
unfolding trim_end
trim_end-reverse [] = unfold drop_blanks in refl
trim_end-reverse (c ∷ s) =
    rw (reverse-cons c s, drop_blanks-append, ← trim_end-reverse s, reverse-nil)
      (elim (Bool-cases (is_empty (drop_blanks (reverse s)))) [
        | inl e ↦ rw e (trim_last c)
        | inr e ↦ rw e (reverse-append (drop_blanks (reverse s)) (c ∷ []))
      ])

trim-trim_end : (s : Bytes) → trim s ≡ trim_end (drop_blanks s)
unfolding trim
trim-trim_end s = trim_end-reverse (drop_blanks s)

-- Where the first byte that is no blank stands.
first_cases :
    (s : Bytes)
    → ((find_first_not_blank s ≡ none) × (drop_blanks s ≡ []))
      ⊎ ((i : ℕ) × (c : ℕ) × (r : Bytes) × (find_first_not_blank s ≡ some i)
          × (drop_blanks s ≡ c ∷ r)
          × (drop i s ≡ c ∷ r)
          × (is_blank c ≡ false))
unfolding find_first_not_blank drop_blanks
first_cases [] = inl (refl, refl)
first_cases (x ∷ s) = elim (Bool-cases (is_blank x)) [
  | inl b ↦ elim (first_cases s) [
    | inl (e, f) ↦ inl (rw (b, e), rw b f)
    | inr (i, c, r, e, f, g, h) ↦ inr (suc i, c, r, rw (b, e), rw b f, g, h)
  ]
  | inr b ↦ inr (0, x, s, rw b, rw b, refl, b)
]

-- Where the last one stands, and that `trim_end` keeps all up to it.
last_cases :
    (s : Bytes)
    → ((find_last_not_blank s ≡ none) × (trim_end s ≡ []))
      ⊎ ((k c : ℕ) × (r : Bytes) × (find_last_not_blank s ≡ some k)
          × (trim_end s ≡ c ∷ r)
          × (take (suc k) s ≡ c ∷ r))
unfolding find_last_not_blank trim_end
last_cases [] = inl (refl, refl)
last_cases (x ∷ s) = elim (last_cases s) [
  | inl (e, f) ↦ elim (Bool-cases (is_blank x)) [
    | inl b ↦ inl (rw (e, find_last_not_blank) (rw b), rw f (rw b))
    | inr b ↦ inr (0, x, [], rw (e, find_last_not_blank) (rw b), rw f (rw b), refl)
  ]
  | inr (k, c, r, e, f, g) ↦ inr (suc k, x, c ∷ r, rw (e, find_last_not_blank), rw f, ap (◌∷◌ x) g)
]

last-drop :
    (i k : ℕ) (s : Bytes)
    → find_last_not_blank (drop i s) ≡ some k
    → find_last_not_blank s ≡ some (i + k)
unfolding find_last_not_blank
last-drop zero k s e = ground (arith, e)
last-drop (suc i) k [] e = cc
last-drop (suc i) k (x ∷ s) e = rw (last-drop i k s e, find_last_not_blank) (ground arith)

trim_end-nonblank : (c : ℕ) (r : Bytes) → is_blank c ≡ false → is_empty (trim_end (c ∷ r)) ≡ false
unfolding trim_end
trim_end-nonblank c r h = ground arith

support_trim-trim_end : (s : Bytes) → support_trim s ≡ trim_end (drop_blanks s)
unfolding support_trim
support_trim-trim_end s = elim (first_cases s) [
  | inl (e, f) ↦ rw (e, support_trim, f) (unfold trim_end in refl)
  | inr (i, c, r, e, f, g, h) ↦ elim (last_cases (c ∷ r)) [
    | inl (_, none_kept) ↦ absurd (ground (arith, trim_end-nonblank c r h))
    | inr (k, c', r', e', f', g') ↦
        rw (e, support_trim, last-drop i k s (rw g e'), f, f')
          (ap (λ n. take n (drop i s)) {y = suc k} (omega arith) ∙ ap (take (suc k)) g ∙ g')
  ]
]

-- `trim` of the message parser, which peels blanks off one at a time, and `trim` of the exercises,
-- which searches for the first and the last byte that is no blank, return the same text.
pub support_trim-trim : (s : Bytes) → support_trim s ≡ trim s
support_trim-trim s = support_trim-trim_end s ∙ sym (trim-trim_end s)
