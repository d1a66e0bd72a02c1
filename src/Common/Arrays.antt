-- ===== src/Common/Arrays.antt =====
-- Lists of numbers as arrays: an entry by its index, writes, and exchanges of two entries.
pub mod Count
use webrtc_snippets.Common.{
  ℕ, zero, suc, ◌+◌, ◌≤◌, ◌<◌, ◌≡◌, inl, inr, refl, ap, ◌∙◌, arith, some, List, [], ◌∷◌, ◌==◌, ltb,
  leb, if◌then◌else◌, length, get_elem?, Bool-cases, ltb→lt,
}
use mathlib.Core.List.{Perm}
use mathlib.Core.List.Perm

-- An entry, 0 outside of the array.
unfoldable pub nth : List ℕ → ℕ → ℕ
nth [] i = 0
nth (x ∷ a) zero = x
nth (x ∷ a) (suc i) = nth a i

unfoldable pub set : List ℕ → ℕ → ℕ → List ℕ
set [] i v = []
set (x ∷ a) zero v = v ∷ a
set (x ∷ a) (suc i) v = x ∷ set a i v

pub get_elem?-nth : (a : List ℕ) (i : ℕ) → i < length a → get_elem? a i ≡ some (nth a i)
unfolding nth
get_elem?-nth [] i p = absurd (omega arith)
get_elem?-nth (x ∷ a) zero p = refl
get_elem?-nth (x ∷ a) (suc i) p = get_elem?-nth a i (omega arith)

pub length-set : (a : List ℕ) (i v : ℕ) → length (set a i v) ≡ length a
unfolding set
length-set [] i v = refl
length-set (x ∷ a) zero v = refl
length-set (x ∷ a) (suc i) v = omega (arith, length-set a i v)

pub nth-set :
    (a : List ℕ) (i j v : ℕ) → i < length a → nth (set a i v) j ≡ (if i == j then v else nth a j)
unfolding nth set
nth-set [] i j v p = absurd (omega arith)
nth-set (x ∷ a) zero zero v p = refl
nth-set (x ∷ a) zero (suc j) v p = ground arith
nth-set (x ∷ a) (suc i) zero v p = ground arith
nth-set (x ∷ a) (suc i) (suc j) v p = ground (arith, nth-set a i j v)

-- A write exchanges the old entry for the new one.
set-perm : (a : List ℕ) (i v : ℕ) → i < length a → Perm (nth a i ∷ set a i v) (v ∷ a)
unfolding nth set
set-perm [] i v p = absurd (omega arith)
set-perm (x ∷ a) zero v p = Perm.swap v x a
set-perm (x ∷ a) (suc i) v p =
    Perm.trans (Perm.swap x (nth a i) (set a i v))
      (Perm.trans (Perm.cons x (set-perm a i v (omega arith))) (Perm.swap v x a))

-- The two entries, each in the other's place.
unfoldable pub exchange : List ℕ → ℕ → ℕ → List ℕ
exchange a i j = set (set a i (nth a j)) j (nth a i)

pub length-exchange : (a : List ℕ) (i j : ℕ) → length (exchange a i j) ≡ length a
unfolding exchange
length-exchange a i j = length-set (set a i (nth a j)) j (nth a i) ∙ length-set a i (nth a j)

module _ (a : List ℕ) (i j : ℕ) (p : i < length a) (q : j < length a) where
  pub nth-exchange :
      (k : ℕ)
      → nth (exchange a i j) k ≡ (if j == k then nth a i else if i == k then nth a j else nth a k)
  unfolding exchange
  nth-exchange k =
      let size = length-set a i (nth a j) in
      rw (nth-set (set a i (nth a j)) j k (nth a i) (omega arith), nth-set a i k (nth a j) p) refl

  pub exchange-perm : Perm (exchange a i j) a
  unfolding exchange
  exchange-perm =
      let b = set a i (nth a j) in
      let size = length-set a i (nth a j) in
      let kept : nth b j ≡ nth a j = ground (arith, nth-set a i j (nth a j)) in
      let second = rw kept at (set-perm b j (nth a i) (omega arith)) in
      Perm.cons_inv (Perm.trans second (set-perm a i (nth a j) p))

-- Every entry after an exchange was an entry before it.
pub exchange-entry :
    (a : List ℕ) (i j k : ℕ)
    → i < length a
    → j < length a
    → k < length a
    → (l : ℕ) × (l < length a) × (nth (exchange a i j) k ≡ nth a l)
exchange-entry a i j k p q r = elim (Bool-cases (j == k)) [
  | inl second ↦ (i, p, nth-exchange a i j p q k ∙ rw second refl)
  | inr other ↦ elim (Bool-cases (i == k)) [
    | inl first ↦ (j, q, nth-exchange a i j p q k ∙ rw (other, first) refl)
    | inr apart ↦ (k, r, nth-exchange a i j p q k ∙ rw (other, apart) refl)
  ]
]
