-- ===== src/Wasm/Qsort/Halves.antt =====
-- wasm/qsort.cpp: the two parts that a part leaves, sorted one after the other, the left one first.
-- They can have one entry in common.
use webrtc_snippets.Common.{
  ℕ, suc, ◌+◌, ◌-◌, ◌≤◌, ◌<◌, ◌≡◌, inl, inr, arith, List, ◌==◌, ltb, Bool-cases, ltb→lt,
}
use webrtc_snippets.Common.Arrays.{nth}
use webrtc_snippets.Common.Arrays.Count.{at_least, below-transfer, above-transfer, last-transfer}
use webrtc_snippets.Wasm.Qsort.Rearranged.{IsRearranged}

abbrev pub IsSortedOn : List ℕ → ℕ → ℕ → Type 0
IsSortedOn a left end = (i j : ℕ) → left ≤ i → i < j → j < end → nth a i ≤ nth a j

-- The array after the pivot's loop, after the left part, and after the right part.
module _ (b c d : List ℕ) (left n lp end mp n1 n2 : ℕ) (e1 : left + n1 ≡ end)
    (e2 : lp + n2 ≡ left + n) (from : left < lp) (to : end < left + n) (near : lp ≤ end + 1)
    (next : end ≤ lp + 1) (low : (i : ℕ) → left ≤ i → i < lp → nth b i ≤ mp)
    (high : (i : ℕ) → end ≤ i → i < left + n → mp ≤ nth b i) (v : IsRearranged b left n1 c)
    (w : IsRearranged c lp n2 d) (sorted_left : IsSortedOn c left end)
    (sorted_right : IsSortedOn d lp (left + n)) where
  left-low : (i : ℕ) → left ≤ i → i < lp → nth c i ≤ mp
  left-low i p q = elim (Bool-cases (end == lp + 1)) [
    | inl common ↦
        let size : suc (lp - left) ≡ n1 = ground (arith, common) in
        let last : left + (lp - left) ≡ lp = omega arith in
        let counts : at_least c (mp + 1) left (suc (lp - left))
            ≡ at_least b (mp + 1) left (suc (lp - left)) =
          rw size (v.counts (mp + 1)) in
        let order : nth c i ≤ nth c (left + (lp - left)) =
          rw last (sorted_left i lp p q (ground (arith, common))) in
        let less =
          last-transfer b c left (lp - left) (mp + 1) i counts
            (λ k r s. let l = low k r (omega arith) in omega arith) order p (omega arith) in
        omega arith
    | inr apart ↦ elim (Bool-cases (ltb i end)) [
      | inl inside ↦
          let less =
            below-transfer b c left n1 v.counts (mp + 1) i
              (λ k r s. let l = low k r (ground (arith, apart)) in omega arith) p
              (ground (arith, inside)) in
          omega arith
      | inr gap ↦ let same = v.behind i (ground (arith, gap)) in let l = low i p q in omega arith
    ]
  ]

  -- What is right of the left part is not smaller.
  right-high : (i k : ℕ) → left ≤ i → i < lp → lp ≤ k → k < left + n → nth c i ≤ nth c k
  right-high i k p q r s = elim (Bool-cases (ltb k end)) [
    | inl common ↦ sorted_left i k p (omega arith) (ltb→lt k end common)
    | inr behind ↦
        let same = v.behind k (ground (arith, behind)) in
        let h = high k (ground (arith, behind)) s in let l = left-low i p q in omega arith
  ]

  pub joined-IsSortedOn : IsSortedOn d left (left + n)
  joined-IsSortedOn i j p q r = elim (Bool-cases (ltb j lp)) [
    | inl both ↦
        let si = w.before i (ground (arith, both)) in
        let sj = w.before j (ltb→lt j lp both) in
        elim (Bool-cases (ltb j end)) [
          | inl inside ↦ let o = sorted_left i j p q (ltb→lt j end inside) in omega arith
          | inr gap ↦
              let same = v.behind j (ground (arith, gap)) in
              let h = high j (ground (arith, gap)) r in
              let l = left-low i p (ground (arith, both)) in omega arith
        ]
    | inr right ↦ elim (Bool-cases (ltb i lp)) [
      | inl first ↦
          let less = ltb→lt i lp first in
          let si = w.before i less in
          let o =
            above-transfer c d lp n2 w.counts (nth c i) j
              (λ k s t. right-high i k p less s (omega arith)) (ground (arith, right))
              (omega arith) in
          omega arith
      | inr second ↦ sorted_right i j (ground (arith, second)) q r
    ]
  ]
