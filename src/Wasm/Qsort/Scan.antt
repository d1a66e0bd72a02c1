-- ===== src/Wasm/Qsort/Scan.antt =====
-- wasm/qsort.cpp: where the two searches of a round end, and the exchange.
use webrtc_snippets.Common.{
  ℕ, zero, suc, ◌+◌, ◌≤◌, ◌<◌, ◌≡◌, inl, inr, refl, ap, ◌∙◌, arith, false, some, List, [], ◌∷◌,
  ◌==◌, ltb, length, drop, Bool-cases,
}
use webrtc_snippets.Common.Arrays.{nth, get_elem?-nth, exchange}
use webrtc_snippets.Wasm.Qsort.{scan_up, scan_down, swap}

drop-nth : (a : List ℕ) (i : ℕ) → i < length a → drop i a ≡ nth a i ∷ drop (i + 1) a
unfolding nth
drop-nth [] i p = absurd (omega arith)
drop-nth (x ∷ a) zero p = ap (λ k. x ∷ drop k (x ∷ a)) {x = 1} {y = 0 + 1} (omega arith)
drop-nth (x ∷ a) (suc i) p =
    drop-nth a i (omega arith)
    ∙ ap (λ k. nth a i ∷ drop k (x ∷ a)) {x = suc (i + 1)} {y = suc i + 1} (omega arith)

-- An entry that is not below `mp` ends the search: at it, or before it.
pub scan_up_lem :
    (count mp lp stop : ℕ) (a : List ℕ)
    → lp + count ≡ stop
    → stop < length a
    → mp ≤ nth a stop
    → (l : ℕ) × (scan_up mp (drop lp a) lp ≡ some l)
      × (lp ≤ l)
      × (l ≤ stop)
      × (mp ≤ nth a l)
      × ((i : ℕ) → lp ≤ i → i < l → nth a i < mp)
unfolding scan_up
scan_up_lem zero mp lp stop a e p q =
    let same : nth a lp ≡ nth a stop = ap (nth a) (omega arith) in
    let here : ltb (nth a lp) mp ≡ false = ground (arith, same) in
    (
      lp,
      rw (drop-nth a lp (omega arith), here) refl,
      omega arith,
      omega arith,
      omega arith,
      λ i r s. absurd (omega arith),
    )
scan_up_lem (suc count) mp lp stop a e p q = elim (Bool-cases (ltb (nth a lp) mp)) [
  | inl less ↦
      let (l, done, low, high, found, below) =
        scan_up_lem count mp (lp + 1) stop a (omega arith) p q in
      (
        l,
        rw (drop-nth a lp (omega arith), less) done,
        omega arith,
        high,
        found,
        λ i r s. elim (Bool-cases (i == lp)) [
          | inl same ↦
              let e' : nth a i ≡ nth a lp = ap (nth a) (ground (arith, same)) in
              ground (arith, e', less)
          | inr other ↦ below i (ground (arith, other)) s
        ],
      )
  | inr here ↦ (
    lp,
    rw (drop-nth a lp (omega arith), here) refl,
    omega arith,
    omega arith,
    ground (arith, here),
    λ i r s. absurd (omega arith),
  )
]

-- An entry before `end` that is not above `mp` ends the search.
pub scan_down_lem :
    (mp end stop : ℕ) (a : List ℕ)
    → stop < end
    → end ≤ length a
    → nth a stop ≤ mp
    → (r : ℕ) × (scan_down mp a end ≡ some (r + 1))
      × (stop ≤ r)
      × (r < end)
      × (nth a r ≤ mp)
      × ((i : ℕ) → r < i → i < end → mp < nth a i)
unfolding scan_down
scan_down_lem mp zero stop a p q h = absurd (omega arith)
scan_down_lem mp (suc rp) stop a p q h = elim (Bool-cases (ltb mp (nth a rp))) [
  | inl more ↦ elim (Bool-cases (stop == rp)) [
    | inl same ↦
        let e : nth a stop ≡ nth a rp = ap (nth a) (ground (arith, same)) in
        absurd (ground (arith, more, e))
    | inr other ↦
        let (r, done, low, high, found, above) =
          scan_down_lem mp rp stop a (ground (arith, other)) (omega arith) h in
        (
          r,
          rw (get_elem?-nth a rp (omega arith), more) done,
          low,
          omega arith,
          found,
          λ i s t. elim (Bool-cases (i == rp)) [
            | inl same ↦
                let e : nth a i ≡ nth a rp = ap (nth a) (ground (arith, same)) in
                ground (arith, e, more)
            | inr apart ↦ above i s (ground (arith, apart))
          ],
        )
  ]
  | inr here ↦ (
    rp,
    rw (get_elem?-nth a rp (omega arith), here) (ap some (omega arith)),
    omega arith,
    omega arith,
    ground (arith, here),
    λ i s t. absurd (omega arith),
  )
]

pub swap-exchange :
    (a : List ℕ) (i j : ℕ) → i < length a → j < length a → swap a i j ≡ some (exchange a i j)
unfolding swap exchange
swap-exchange a i j p q = rw (get_elem?-nth a i p, get_elem?-nth a j q) refl
