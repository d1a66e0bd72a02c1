-- ===== src/Wasm/Qsort/Partition.antt =====
-- wasm/qsort.cpp: the inner loop, which parts the entries by their pivot.
use webrtc_snippets.Common.{
  ℕ, zero, suc, ◌+◌, ◌-◌, ◌≤◌, ◌<◌, ◌≡◌, inl, inr, refl, ◌∙◌, arith, some, List, ltb, length,
  Bool-cases, ltb→lt, lt→ltb,
}
use webrtc_snippets.Common.Arrays.{nth, exchange, nth-exchange}
use webrtc_snippets.Wasm.Qsort.{partition}
use webrtc_snippets.Wasm.Qsort.Rearranged.{IsRearranged, IsRearranged-refl, IsRearranged-exchange}
use webrtc_snippets.Wasm.Qsort.Scan.{scan_up_lem, scan_down_lem, swap-exchange}

module _ (old : List ℕ) (left n mp : ℕ) (fits : left + n ≤ length old) where
  -- What is before `lp` is at most the pivot, and what is from `end` on at least the pivot.
  pub record IsParted (a : List ℕ) (lp end : ℕ) : Type 0 where
    pub rearranged : IsRearranged old left n a
    pub low : (i : ℕ) → left ≤ i → i < lp → nth a i ≤ mp
    pub high : (i : ℕ) → end ≤ i → i < left + n → mp ≤ nth a i
    pub from : left ≤ lp
    pub to : end ≤ left + n
    pub near : lp ≤ end + 1

  -- The entries that end the two searches.
  record IsGuarded (a : List ℕ) (lp end up down : ℕ) : Type 0 where
    up_from : lp ≤ up
    up_to : up ≤ end
    up_inside : up < left + n
    up_high : mp ≤ nth a up
    down_from : lp ≤ down + 1
    down_inside : left ≤ down
    down_to : down < end
    down_low : nth a down ≤ mp
    apart : down < up → (left < lp) × (end < left + n)

  -- The searches stopped at `l` and at `r`.
  record HasStopped (a : List ℕ) (lp end l r : ℕ) : Type 0 where
    l_from : lp ≤ l
    l_high : mp ≤ nth a l
    below : (i : ℕ) → lp ≤ i → i < l → nth a i < mp
    r_to : r < end
    r_low : nth a r ≤ mp
    above : (i : ℕ) → r < i → i < end → mp < nth a i

  IsParted-exchange :
      (a : List ℕ) (lp end l r : ℕ)
      → IsParted a lp end
      → HasStopped a lp end l r
      → l ≤ r
      → IsParted (exchange a l r) (l + 1) r
  IsParted-exchange a lp end l r w h p =
      let size = w.rearranged.size in
      let from = w.from in
      let to = w.to in
      let l_from = h.l_from in
      let r_to = h.r_to in
      let hl : l < length a = omega arith in
      let hr : r < length a = omega arith in
      record {
        rearranged =
            IsRearranged-exchange old left n fits a l r w.rearranged (omega arith) p (omega arith);
        low = λ i q s.
            ground (arith, nth-exchange a l r hl hr i, w.low i q, h.below i, h.r_low, h.l_high);
        high = λ i q s.
            ground (
              arith,
              nth-exchange a l r hl hr i,
              λ (t : end ≤ i). w.high i t s,
              h.above i,
              h.l_high,
            );
        from = omega arith;
        to = omega arith;
        near = omega arith;
      }

  IsParted-met :
      (a : List ℕ) (lp end l r : ℕ)
      → IsParted a lp end
      → HasStopped a lp end l r
      → l ≡ r + 1
      → IsParted a l (r + 1)
  IsParted-met a lp end l r w h p =
      let from = w.from in
      let to = w.to in
      let l_from = h.l_from in
      let r_to = h.r_to in
      record {
        rearranged = w.rearranged;
        low = λ i q s. ground (arith, w.low i q, λ (t : lp ≤ i). h.below i t s);
        high = λ i q s.
            ground
              (arith, λ (t : end ≤ i). w.high i t s, λ (t : i < end). h.above i (omega arith) t);
        from = omega arith;
        to = omega arith;
        near = omega arith;
      }

  -- Searches that pass each other stop side by side.
  stops-meet :
      (a : List ℕ) (lp end l r : ℕ)
      → HasStopped a lp end l r
      → lp ≤ r + 1
      → l ≤ end
      → r + 1 ≤ l
      → l ≡ r + 1
  stops-meet a lp end l r h p q s = elim (Bool-cases (ltb (r + 1) l)) [
    | inl past ↦
        let less = ltb→lt (r + 1) l past in
        let low = h.below (r + 1) p less in
        let high = h.above (r + 1) (omega arith) (omega arith) in absurd (omega arith)
    | inr side ↦ ground (arith, side)
  ]

  abbrev Next : List ℕ → ℕ → ℕ → Type 0
  Next a lp end =
      (b : List ℕ) × (l : ℕ) × (e : ℕ) × ((fuel : ℕ)
        → partition (suc fuel) mp a lp end ≡ partition fuel mp b l e)
      × IsParted b l e
      × (left < l)
      × (e < left + n)
      × (e - l < end - lp)

  round-Next :
      (a : List ℕ) (lp end up down : ℕ)
      → IsParted a lp end
      → IsGuarded a lp end up down
      → lp + 1 < end
      → Next a lp end
  unfolding partition
  round-Next a lp end up down w g more =
      let size = w.rearranged.size in
      let from = w.from in
      let to = w.to in
      let up_from = g.up_from in
      let up_to = g.up_to in
      let up_inside = g.up_inside in
      let down_from = g.down_from in
      let down_inside = g.down_inside in
      let (l, up_eq, l_from, l_to, l_high, below) =
        scan_up_lem (up - lp) mp lp up a (omega arith) (omega arith) g.up_high in
      let (r, down_eq, r_from, r_to, r_low, above) =
        scan_down_lem mp end down a g.down_to (omega arith) g.down_low in
      let h : HasStopped a lp end l r = record {
        l_from = l_from;
        l_high = l_high;
        below = below;
        r_to = r_to;
        r_low = r_low;
        above = above;
      } in
      let goes = lt→ltb (lp + 1) end more in
      let back : r + 1 - 1 ≡ r = omega arith in
      elim (Bool-cases (ltb l (r + 1))) [
        | inl apart ↦
            let order : l ≤ r = ground (arith, apart) in
            (
              exchange a l r,
              l + 1,
              r,
              λ fuel.
                  rw
                    (
                      goes,
                      up_eq,
                      down_eq,
                      apart,
                      back,
                      swap-exchange a l r (omega arith) (omega arith),
                    )
                    refl,
              IsParted-exchange a lp end l r w h order,
              omega arith,
              omega arith,
              omega arith,
            )
        | inr met ↦
            let close : l ≡ r + 1 =
              stops-meet a lp end l r h (omega arith) (omega arith) (ground (arith, met)) in
            let (started, ended) = g.apart (omega arith) in
            (
              a,
              l,
              r + 1,
              λ fuel. rw (goes, up_eq, down_eq, met) refl,
              IsParted-met a lp end l r w h close,
              omega arith,
              omega arith,
              omega arith,
            )
      ]

  abbrev pub Parted : List ℕ → ℕ → ℕ → ℕ → Type 0
  Parted a fuel lp end =
      (b : List ℕ) × (l : ℕ) × (e : ℕ) × (partition fuel mp a lp end ≡ some (b, l, e))
      × IsParted b l e
      × (left < l)
      × (e < left + n)
      × (e ≤ l + 1)

  -- After the first round the parts that are done guard the searches.
  partition-started :
      (fuel : ℕ) (a : List ℕ) (lp end : ℕ)
      → IsParted a lp end
      → left < lp
      → end < left + n
      → end - lp < fuel
      → Parted a fuel lp end
  unfolding partition
  partition-started zero a lp end w p q r = absurd (omega arith)
  partition-started (suc fuel) a lp end w p q r = elim (Bool-cases (ltb (lp + 1) end)) [
    | inr ended ↦ (a, lp, end, rw ended refl, w, p, q, ground (arith, ended))
    | inl more ↦
        let less = ltb→lt (lp + 1) end more in
        let guards : IsGuarded a lp end end (lp - 1) = record {
          up_from = omega arith;
          up_to = omega arith;
          up_inside = q;
          up_high = w.high end (omega arith) q;
          down_from = omega arith;
          down_inside = omega arith;
          down_to = omega arith;
          down_low = w.low (lp - 1) (omega arith) (omega arith);
          apart = λ s. (p, q);
        } in
        let (b, l, e, eq, next, low, high, less') =
          round-Next a lp end end (lp - 1) w guards less in
        let (c, l', e', eq', v, low', high', near) =
          partition-started fuel b l e next low high (omega arith) in
        (c, l', e', eq fuel ∙ eq', v, low', high', near)
  ]

  -- The pivot guards the searches of the first round.
  pub partition_lem :
      (fuel m : ℕ)
      → 2 ≤ n
      → n < fuel
      → left ≤ m
      → m < left + n
      → nth old m ≡ mp
      → Parted old fuel left (left + n)
  partition_lem zero m p q r s t = absurd (omega arith)
  partition_lem (suc fuel) m p q r s t =
      let start : IsParted old left (left + n) = record {
        rearranged = IsRearranged-refl old left n;
        low = λ i u v. absurd (omega arith);
        high = λ i u v. absurd (omega arith);
        from = omega arith;
        to = omega arith;
        near = omega arith;
      } in
      let guards : IsGuarded old left (left + n) m m = record {
        up_from = r;
        up_to = omega arith;
        up_inside = s;
        up_high = omega arith;
        down_from = omega arith;
        down_inside = r;
        down_to = s;
        down_low = omega arith;
        apart = λ u. absurd (omega arith);
      } in
      let (b, l, e, eq, next, low, high, less) =
        round-Next old left (left + n) m m start guards (omega arith) in
      let (c, l', e', eq', v, low', high', near) =
        partition-started fuel b l e next low high (omega arith) in
      (c, l', e', eq fuel ∙ eq', v, low', high', near)
