-- ===== src/Wasm/Qsort/Sorted.antt =====
-- wasm/qsort.cpp: the loop over the stack of parts.
use webrtc_snippets.Common.{
  ℕ, zero, suc, ◌+◌, ◌-◌, ◌*◌, ◌/◌, ◌≤◌, ◌<◌, ◌≡◌, inl, inr, refl, sym, ap, ◌∙◌, subst, arith,
  false, some, List, [], ◌∷◌, ltb, length, Bool-cases, ltb→lt, lt→ltb,
}
use mathlib.Core.List.{Perm}
use mathlib.Core.List.Perm
use webrtc_snippets.Common.Arrays.{nth, get_elem?-nth}
use webrtc_snippets.Wasm.Qsort.{Part, partition, push_left, push_right, qsort_loop, qsort, num_sort}
use webrtc_snippets.Wasm.Qsort.Rearranged.{
  IsRearranged, IsRearranged-refl, IsRearranged-trans, IsRearranged-widen,
}
use webrtc_snippets.Wasm.Qsort.Partition.{IsParted, partition_lem}
use webrtc_snippets.Wasm.Qsort.Halves.{IsSortedOn, joined-IsSortedOn}

module _ (truncated : ℕ → ℕ) where
  -- Numbers that the conversion to `int` keeps.
  abbrev pub AreWhole : List ℕ → Type 0
  AreWhole a = (i : ℕ) → i < length a → truncated (nth a i) ≡ nth a i

  IsRearranged-AreWhole :
      (a b : List ℕ) (left n : ℕ) → IsRearranged a left n b → AreWhole a → AreWhole b
  IsRearranged-AreWhole a b left n w whole i p =
      let (j, q, e) = w.entries i (rw w.size at p) in ap truncated e ∙ whole j q ∙ sym e

  -- A part is taken off the stack, and some rounds later it is sorted and the stack is as before.
  abbrev Sorts : List ℕ → ℕ → ℕ → ℕ → Type 0
  Sorts a left n end =
      (rounds : ℕ) × (b : List ℕ) × ((fuel : ℕ) (stack : List Part)
        → qsort_loop truncated (rounds + fuel) a (push_left left end stack)
          ≡ qsort_loop truncated fuel b stack)
      × IsRearranged a left n b
      × IsSortedOn b left end
      × (rounds ≤ 2 * n - 3)

  Sorts-small : (a : List ℕ) (left n end : ℕ) → left + n ≡ end → n < 2 → Sorts a left n end
  Sorts-small a left n end e p =
      let small : ltb (left + 1) end ≡ false = ground arith in
      (
        0,
        a,
        λ fuel stack. rw small (ap (λ k. qsort_loop truncated k a stack) (omega arith)),
        IsRearranged-refl a left n,
        λ i j q r s. absurd (omega arith),
        omega arith,
      )

  -- One round on a part of two entries or more.
  qsort_loop-next :
      (a b : List ℕ) (left end l e fuel : ℕ) (stack : List Part)
      → left + 1 < end
      → end ≤ length a
      → partition (suc (length a)) (truncated (nth a ((left + end - 1) / 2))) a left end
        ≡ some (b, l, e)
      → qsort_loop truncated (suc fuel) a (push_left left end stack)
        ≡ qsort_loop truncated fuel b (push_left left e (push_right l end stack))
  unfolding qsort_loop
  qsort_loop-next a b left end l e fuel stack p q eq =
      rw (lt→ltb (left + 1) end p, get_elem?-nth a ((left + end - 1) / 2) (omega arith), eq) refl

  cost :
      (n n1 n2 k1 k2 : ℕ)
      → 2 ≤ n
      → n1 + n2 ≤ n + 1
      → n1 < n
      → n2 < n
      → k1 ≤ 2 * n1 - 3
      → k2 ≤ 2 * n2 - 3
      → suc (k1 + k2) ≤ 2 * n - 3
  cost n n1 n2 k1 k2 two p q r s t = omega arith

  Sorts-join :
      (a b : List ℕ) (left n end l s n1 n2 : ℕ) (fits : left + n ≤ length a)
      → left + n ≡ end
      → 2 ≤ n
      → left + n1 ≡ s
      → l + n2 ≡ end
      → left < l
      → s < left + n
      → s ≤ l + 1
      → partition (suc (length a)) (truncated (nth a ((left + end - 1) / 2))) a left end
        ≡ some (b, l, s)
      → IsParted a left n (truncated (nth a ((left + end - 1) / 2))) fits b l s
      → Sorts b left n1 s
      → ((c : List ℕ) → IsRearranged b left n1 c → Sorts c l n2 end)
      → Sorts a left n end
  Sorts-join a b left n end l s n1 n2 fits e two e1 e2 from to next eq w
        (k1, c, run1, re1, sorted1, cost1) later =
      let (k2, d, run2, re2, sorted2, cost2) = later c re1 in
      let mp = truncated (nth a ((left + end - 1) / 2)) in
      let near : l ≤ s + 1 = w.near in
      let sorted : IsSortedOn d left (left + n) =
        joined-IsSortedOn b c d left n l s mp n1 n2 e1 (e2 ∙ sym e) from to near next w.low w.high
          re1 re2 sorted1 (subst (λ z. IsSortedOn d l z) (sym e) sorted2) in
      let skipped : left + (l - left) ≡ l = omega (arith, from) in
      let rest : l - left + (n2 + 0) ≡ n = omega (arith, from, e, e2) in
      let first =
        IsRearranged-widen b c left n 0 n1 (n - n1) (omega (arith, e1, to))
          (subst (λ z. IsRearranged b z n1 c) (omega arith) re1) in
      let second =
        IsRearranged-widen c d left n (l - left) n2 0 rest
          (subst (λ z. IsRearranged c z n2 d) (sym skipped) re2) in
      (
        suc (k1 + k2),
        d,
        λ fuel stack.
            ap (λ k. qsort_loop truncated k a (push_left left end stack)) {x = suc (k1 + k2) + fuel}
              {y = suc (k1 + (k2 + fuel))} (omega arith)
            ∙ qsort_loop-next a b left end l s (k1 + (k2 + fuel)) stack (omega (arith, two, e))
                (omega (arith, fits, e)) eq
            ∙ run1 (k2 + fuel) (push_right l end stack)
            ∙ run2 fuel stack,
        IsRearranged-trans a c d left n (IsRearranged-trans a b c left n w.rearranged first) second,
        subst (λ z. IsSortedOn d left z) e sorted,
        cost n n1 n2 k1 k2 two (omega (arith, e, e1, e2, near)) (omega (arith, e1, to))
            (omega (arith, e, e2, from)) cost1 cost2,
      )

  sorts :
      (bound : ℕ) (a : List ℕ) (left n end : ℕ)
      → n < bound
      → left + n ≡ end
      → end ≤ length a
      → AreWhole a
      → Sorts a left n end
  sorts zero a left n end p e q whole = absurd (omega arith)
  sorts (suc bound) a left n end p e q whole = elim (Bool-cases (ltb n 2)) [
    | inl small ↦ Sorts-small a left n end e (ltb→lt n 2 small)
    | inr large ↦
        let middle = (left + end - 1) / 2 in
        let two : 2 ≤ n = ground (arith, large) in
        let fits : left + n ≤ length a = omega arith in
        let (b, l, s, eq, w, from, to, next) =
          partition_lem a left n (truncated (nth a middle)) fits (suc (length a)) middle two
            (omega arith) (omega arith) (omega arith) (sym (whole middle (omega arith))) in
        let near : l ≤ s + 1 = w.near in
        let size : length b ≡ length a = w.rearranged.size in
        let whole_b = IsRearranged-AreWhole a b left n w.rearranged whole in
        Sorts-join a b left n end l s (s - left) (end - l) fits e two (omega arith) (omega arith)
          from to next
          (subst
            (λ z. partition (suc (length a)) (truncated (nth a middle)) a left z ≡ some (b, l, s)) e
            eq)
          w (sorts bound b left (s - left) s (omega arith) (omega arith) (omega arith) whole_b)
          (λ c re.
            sorts bound c l (end - l) end (omega arith) (omega arith) (rw (re.size) (omega arith))
              (IsRearranged-AreWhole b c left (s - left) re whole_b))
  ]

  -- A single entry is taken off the stack, and that is all.
  num_sort-single : (a : List ℕ) → length a ≡ 1 → num_sort truncated a (length a) ≡ some a
  unfolding num_sort qsort qsort_loop partition
  num_sort-single [] p = absurd (omega arith)
  num_sort-single (x ∷ []) p = refl
  num_sort-single (x ∷ y ∷ a) p = absurd (omega arith)

  qsort_loop-empty : (fuel : ℕ) (b : List ℕ) → qsort_loop truncated (suc fuel) b [] ≡ some b
  unfolding qsort_loop
  qsort_loop-empty fuel b = refl

  -- An array of whole numbers that is not empty is sorted: the result has the same entries, no entry
  -- is larger than a later one, and the array is never read or written outside of its bounds.
  pub num_sort-IsSortedOn :
      (a : List ℕ)
      → 0 < length a
      → AreWhole a
      → (b : List ℕ) × (num_sort truncated a (length a) ≡ some b)
        × Perm b a
        × IsSortedOn b 0 (length a)
  unfolding num_sort qsort
  num_sort-IsSortedOn a p whole = elim (Bool-cases (ltb (0 + 1) (length a))) [
    | inl more ↦
        let n = length a in
        let (k, b, run, re, sorted, cost) =
          sorts (suc n) a 0 n n (omega arith) (omega arith) (omega arith) whole in
        let stack : push_left 0 n [] ≡ (0, n) ∷ [] = rw more refl in
        (
          b,
          ap (λ z. qsort_loop truncated z a ((0, n) ∷ [])) {x = suc (2 * n)}
                {y = k + suc (2 * n - k)} (omega arith)
              ∙ ap (qsort_loop truncated (k + suc (2 * n - k)) a) (sym stack)
              ∙ run (suc (2 * n - k)) []
              ∙ qsort_loop-empty (2 * n - k) b,
          re.perm,
          sorted,
        )
    | inr single ↦
        let one : length a ≡ 1 = ground (arith, single, p) in
        (a, num_sort-single a one, Perm.refl a, λ i j q r s. absurd (omega arith))
  ]
