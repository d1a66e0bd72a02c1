-- ===== src/Wasm/Qsort/Rearranged.antt =====
-- wasm/qsort.cpp: arrays that differ by exchanges in a part.
use webrtc_snippets.Common.{ℕ, ◌+◌, ◌≤◌, ◌<◌, ◌≡◌, refl, sym, ap, ◌∙◌, arith, List, length}
use mathlib.Core.List.{Perm}
use mathlib.Core.List.Perm
use webrtc_snippets.Common.Arrays.{
  nth, exchange, length-exchange, nth-exchange, exchange-perm, exchange-entry,
}
use webrtc_snippets.Common.Arrays.Count.{at_least, at_least-exchange, at_least-add, at_least-same}

-- An array that was made from `old` by exchanges among the `n` entries from `left` on.
pub record IsRearranged (old : List ℕ) (left n : ℕ) (a : List ℕ) : Type 0 where
  pub size : length a ≡ length old
  pub perm : Perm a old
  pub before : (i : ℕ) → i < left → nth a i ≡ nth old i
  pub behind : (i : ℕ) → left + n ≤ i → nth a i ≡ nth old i
  pub entries : (i : ℕ) → i < length old → (j : ℕ) × (j < length old) × (nth a i ≡ nth old j)
  pub counts : (v : ℕ) → at_least a v left n ≡ at_least old v left n

pub IsRearranged-refl : (a : List ℕ) (left n : ℕ) → IsRearranged a left n a
IsRearranged-refl a left n = record {
  size = refl;
  perm = Perm.refl a;
  before = λ i p. refl;
  behind = λ i p. refl;
  entries = λ i p. (i, p, refl);
  counts = λ v. refl;
}

module _ (old : List ℕ) (left n : ℕ) (fits : left + n ≤ length old) where
  pub IsRearranged-exchange :
      (a : List ℕ) (j k : ℕ)
      → IsRearranged old left n a
      → left ≤ j
      → j ≤ k
      → k < left + n
      → IsRearranged old left n (exchange a j k)
  IsRearranged-exchange a j k w p q r =
      let size = w.size in
      let hj : j < length a = omega arith in
      let hk : k < length a = omega arith in
      record {
        size = length-exchange a j k ∙ size;
        perm = Perm.trans (exchange-perm a j k hj hk) w.perm;
        before = λ i s. ground (arith, nth-exchange a j k hj hk i, w.before i s);
        behind = λ i s. ground (arith, nth-exchange a j k hj hk i, w.behind i s);
        entries = λ i s.
            let (j', p', e) = exchange-entry a j k i hj hk (omega arith) in
            let (j'', p'', e') = w.entries j' (omega arith) in (j'', p'', e ∙ e');
        counts = λ v. at_least-exchange a j k v left n r p q (omega arith) ∙ w.counts v;
      }

pub IsRearranged-trans :
    (a b c : List ℕ) (left n : ℕ)
    → IsRearranged a left n b
    → IsRearranged b left n c
    → IsRearranged a left n c
IsRearranged-trans a b c left n v w =
    let size = v.size in
    record {
      size = w.size ∙ v.size;
      perm = Perm.trans w.perm v.perm;
      before = λ i p. w.before i p ∙ v.before i p;
      behind = λ i p. w.behind i p ∙ v.behind i p;
      entries = λ i p.
          let (j, q, e) = w.entries i (omega arith) in
          let (k, r, e') = v.entries j (omega arith) in (k, r, e ∙ e');
      counts = λ x. w.counts x ∙ v.counts x;
    }

-- Exchanges in a part are exchanges in a larger one.
pub IsRearranged-widen :
    (a b : List ℕ) (left n skip m rest : ℕ)
    → skip + (m + rest) ≡ n
    → IsRearranged a (left + skip) m b
    → IsRearranged a left n b
IsRearranged-widen a b left n skip m rest e w = record {
  size = w.size;
  perm = w.perm;
  before = λ i p. w.before i (omega arith);
  behind = λ i p. w.behind i (omega arith);
  entries = w.entries;
  counts = λ v.
      let split_b = at_least-add b v left skip (m + rest) in
      let split_a = at_least-add a v left skip (m + rest) in
      let split_b' = at_least-add b v (left + skip) m rest in
      let split_a' = at_least-add a v (left + skip) m rest in
      let first = at_least-same b a v left skip (λ k p q. w.before k q) in
      let last = at_least-same b a v (left + skip + m) rest (λ k p q. w.behind k p) in
      let middle = w.counts v in
      ap (at_least b v left) (sym e) ∙ omega arith ∙ ap (at_least a v left) e;
}
