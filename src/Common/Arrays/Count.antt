-- ===== src/Common/Arrays/Count.antt =====
-- How many entries of a range are not below a number.
use webrtc_snippets.Common.{
  ℕ, zero, suc, ◌+◌, ◌≤◌, ◌<◌, ◌≡◌, inl, inr, refl, ap, ◌∙◌, arith, List, ◌==◌, ltb, leb,
  if◌then◌else◌, length, Bool-cases, ltb→lt,
}
use webrtc_snippets.Common.Arrays.{nth, set, exchange, length-set, nth-set}

-- How many of the `n` entries from `i` on are `v` or more.
unfoldable pub at_least : List ℕ → ℕ → ℕ → ℕ → ℕ
unfolding nth
at_least a v i zero = 0
at_least a v i (suc n) = (if leb v (nth a i) then 1 else 0) + at_least a v (i + 1) n

at_least-set_outside :
    (a : List ℕ) (k x v i n : ℕ)
    → k < length a
    → k < i
    → at_least (set a k x) v i n ≡ at_least a v i n
unfolding at_least
at_least-set_outside a k x v i zero p q = refl
at_least-set_outside a k x v i (suc n) p q =
    ground (arith, nth-set a k i x p, at_least-set_outside a k x v (i + 1) n)

at_least-set :
    (a : List ℕ) (k x v i n : ℕ)
    → k < length a
    → i ≤ k
    → k < i + n
    → at_least (set a k x) v i n + (if leb v (nth a k) then 1 else 0)
      ≡ at_least a v i n + (if leb v x then 1 else 0)
unfolding at_least
at_least-set a k x v i zero p q r = absurd (omega arith)
at_least-set a k x v i (suc n) p q r = elim (Bool-cases (k == i)) [
  | inl same ↦
      let here : k ≡ i = ground (arith, same) in
      let new = nth-set a k i x p in
      let old : nth a k ≡ nth a i = ap (nth a) here in
      let rest = at_least-set_outside a k x v (i + 1) n p (omega arith) in
      rw (new, same, old, rest) (omega arith)
  | inr other ↦
      let new = nth-set a k i x p in
      let rest = at_least-set a k x v (i + 1) n p (ground (arith, other)) (omega arith) in
      rw (new, other) (omega arith)
]

-- An exchange within a range keeps its numbers.
pub at_least-exchange :
    (a : List ℕ) (j k v i n : ℕ)
    → k < i + n
    → i ≤ j
    → j ≤ k
    → i + n ≤ length a
    → at_least (exchange a j k) v i n ≡ at_least a v i n
unfolding exchange
at_least-exchange a j k v i n p q r s =
    let b = set a j (nth a k) in
    let size = length-set a j (nth a k) in
    let kept : nth b k ≡ nth a k = ground (arith, nth-set a j k (nth a k)) in
    let first = at_least-set a j (nth a k) v i n (omega arith) q (omega arith) in
    let second =
      rw kept at (at_least-set b k (nth a j) v i n (omega arith) (omega arith) (omega arith)) in
    omega arith

-- No number is `v` or more.
pub at_least-zero :
    (a : List ℕ) (v i n : ℕ) → ((k : ℕ) → i ≤ k → k < i + n → nth a k < v) → at_least a v i n ≡ 0
unfolding at_least
at_least-zero a v i zero below = refl
at_least-zero a v i (suc n) below = ground (
  arith,
  below i (omega arith) (omega arith),
  at_least-zero a v (i + 1) n (λ k p q. below k (omega arith) (omega arith)),
)

-- All but the last are below `v`.
pub at_least-last :
    (a : List ℕ) (v i n : ℕ)
    → ((k : ℕ) → i ≤ k → k < i + n → nth a k < v)
    → at_least a v i (suc n) ≤ 1
unfolding at_least
at_least-last a v i zero below = ground arith
at_least-last a v i (suc n) below =
    let rest = at_least-last a v (i + 1) n (λ k p q. below k (omega arith) (omega arith)) in
    ground (arith, below i (omega arith) (omega arith), rest)

-- All are `v` or more.
pub at_least-all :
    (a : List ℕ) (v i n : ℕ) → ((k : ℕ) → i ≤ k → k < i + n → v ≤ nth a k) → at_least a v i n ≡ n
unfolding at_least
at_least-all a v i zero above = refl
at_least-all a v i (suc n) above = ground (
  arith,
  above i (omega arith) (omega arith),
  at_least-all a v (i + 1) n (λ k p q. above k (omega arith) (omega arith)),
)

at_least-le : (a : List ℕ) (v i n : ℕ) → at_least a v i n ≤ n
unfolding at_least
at_least-le a v i zero = omega arith
at_least-le a v i (suc n) = ground (arith, at_least-le a v (i + 1) n)

at_least-here : (a : List ℕ) (v i n k : ℕ) → v ≤ nth a k → i ≤ k → k < i + n → 1 ≤ at_least a v i n
unfolding at_least
at_least-here a v i zero k p q r = absurd (omega arith)
at_least-here a v i (suc n) k p q r = elim (Bool-cases (i == k)) [
  | inl same ↦ let e : nth a i ≡ nth a k = ap (nth a) (ground (arith, same)) in ground (arith, e)
  | inr other ↦
      ground (arith, at_least-here a v (i + 1) n k p (ground (arith, other)) (omega arith))
]

at_least-two :
    (a : List ℕ) (v i n j k : ℕ)
    → v ≤ nth a j
    → v ≤ nth a k
    → i ≤ j
    → j < k
    → k < i + n
    → 2 ≤ at_least a v i n
unfolding at_least
at_least-two a v i zero j k p q r s t = absurd (omega arith)
at_least-two a v i (suc n) j k p q r s t = elim (Bool-cases (i == j)) [
  | inl same ↦
      let e : nth a i ≡ nth a j = ap (nth a) (ground (arith, same)) in
      let rest = at_least-here a v (i + 1) n k q (ground (arith, same)) (omega arith) in
      ground (arith, e, rest)
  | inr other ↦
      let rest = at_least-two a v (i + 1) n j k p q (ground (arith, other)) s (omega arith) in
      ground (arith, rest)
]

at_least-miss : (a : List ℕ) (v i n k : ℕ) → nth a k < v → i ≤ k → k < i + n → at_least a v i n < n
unfolding at_least
at_least-miss a v i zero k p q r = absurd (omega arith)
at_least-miss a v i (suc n) k p q r = elim (Bool-cases (i == k)) [
  | inl same ↦
      let e : nth a i ≡ nth a k = ap (nth a) (ground (arith, same)) in
      ground (arith, e, at_least-le a v (i + 1) n)
  | inr other ↦
      let rest = at_least-miss a v (i + 1) n k p (ground (arith, other)) (omega arith) in
      ground (arith, rest)
]

-- The numbers of two arrays with as many entries of each size in a range.
module _ (a b : List ℕ) (i n : ℕ) (same : (v : ℕ) → at_least b v i n ≡ at_least a v i n) where
  pub below-transfer :
      (v k : ℕ) → ((k : ℕ) → i ≤ k → k < i + n → nth a k < v) → i ≤ k → k < i + n → nth b k < v
  below-transfer v k below p q = elim (Bool-cases (ltb (nth b k) v)) [
    | inl less ↦ ltb→lt (nth b k) v less
    | inr more ↦
        let one = at_least-here b v i n k (ground (arith, more)) p q in
        let nothing = at_least-zero a v i n below in let e = same v in absurd (omega arith)
  ]

  pub above-transfer :
      (v k : ℕ) → ((k : ℕ) → i ≤ k → k < i + n → v ≤ nth a k) → i ≤ k → k < i + n → v ≤ nth b k
  above-transfer v k above p q = elim (Bool-cases (ltb (nth b k) v)) [
    | inl less ↦
        let miss = at_least-miss b v i n k (ltb→lt (nth b k) v less) p q in
        let all = at_least-all a v i n above in let e = same v in absurd (omega arith)
    | inr more ↦ ground (arith, more)
  ]

-- All but the last of the range are below `v` in `a`, and `b` has no smaller number behind a larger
-- one there: then all but its last are below `v`, too.
pub last-transfer :
    (a b : List ℕ) (i n v j : ℕ)
    → at_least b v i (suc n) ≡ at_least a v i (suc n)
    → ((k : ℕ) → i ≤ k → k < i + n → nth a k < v)
    → nth b j ≤ nth b (i + n)
    → i ≤ j
    → j < i + n
    → nth b j < v
last-transfer a b i n v j same below order p q = elim (Bool-cases (ltb (nth b j) v)) [
  | inl less ↦ ltb→lt (nth b j) v less
  | inr more ↦
      let high : v ≤ nth b j = ground (arith, more) in
      let two = at_least-two b v i (suc n) j (i + n) high (omega arith) p q (omega arith) in
      let one = at_least-last a v i n below in absurd (omega arith)
]

pub at_least-add :
    (a : List ℕ) (v i m n : ℕ) → at_least a v i (m + n) ≡ at_least a v i m + at_least a v (i + m) n
unfolding at_least
at_least-add a v i zero n =
    ap (λ k. at_least a v i k) {x = 0 + n} {y = n} (omega arith)
    ∙ ap (λ k. at_least a v k n) {x = i} {y = i + 0} (omega arith)
    ∙ omega arith
at_least-add a v i (suc m) n =
    let rest = at_least-add a v (i + 1) m n in
    let e : at_least a v (i + 1 + m) n ≡ at_least a v (i + suc m) n =
      ap (λ k. at_least a v k n) (omega arith) in
    ap (λ k. at_least a v i k) {x = suc m + n} {y = suc (m + n)} (omega arith) ∙ omega arith

pub at_least-same :
    (a b : List ℕ) (v i n : ℕ)
    → ((k : ℕ) → i ≤ k → k < i + n → nth a k ≡ nth b k)
    → at_least a v i n ≡ at_least b v i n
unfolding at_least
at_least-same a b v i zero same = refl
at_least-same a b v i (suc n) same =
    rw
      (
        same i (omega arith) (omega arith),
        at_least-same a b v (i + 1) n (λ k p q. same k (omega arith) (omega arith)),
      )
      refl
