-- ===== src/Practice/Transaction/Groups.antt =====
-- The groups of transactions: their keys, and the message indices that they hold.
use webrtc_snippets.Common.{
  ℕ, ◌+◌, ◌≡◌, ◌≢◌, ◌↔◌, inl, inr, refl, sym, ap, subst, arith, true, none, some, List, [], ◌∷◌,
  ◌++◌, map, ◌==◌, if◌then◌else◌, All, Bool-cases, All-append,
}
use webrtc_snippets.Common.Bytes.{equal_iff}
use webrtc_snippets.Practice.Transaction.{TransactionKey, Groups, same_key, find_group, push_index}

abbrev pub keys_of : Groups → List TransactionKey
keys_of = map (λ g. g.0)

-- No key stands twice.
abbrev pub Distinct : List TransactionKey → Type 0
Distinct [] = Unit
Distinct (k ∷ ks) = All (λ j. j ≢ k) ks × Distinct ks

pub same_key_iff : (a b : TransactionKey) → (same_key a b ≡ true) ↔ (a ≡ b)
unfolding same_key
same_key_iff a b =
    ground (
      arith,
      equal_iff a.branch b.branch,
      equal_iff a.sent_by b.sent_by,
      equal_iff a.method b.method,
    )

pub same_key_refl : (a : TransactionKey) → same_key a a ≡ true
same_key_refl a = (same_key_iff a a).1 refl

pub keys_of-push_index :
    (g : Groups) (key : TransactionKey) (index : ℕ) → keys_of (push_index g key index) ≡ keys_of g
unfolding push_index
keys_of-push_index [] key index = refl
keys_of-push_index ((k, is) ∷ g) key index = ground (arith, keys_of-push_index g key index)

pub keys_of-append :
    (g : Groups) (key : TransactionKey) (is : List ℕ)
    → keys_of (g ++ (key, is) ∷ []) ≡ keys_of g ++ key ∷ []
keys_of-append [] key is = refl
keys_of-append (x ∷ g) key is = ap (◌∷◌ x.0) (keys_of-append g key is)

pub find_group-none :
    (g : Groups) (key : TransactionKey) → find_group g key ≡ none → All (λ j. j ≢ key) (keys_of g)
unfolding find_group
find_group-none [] key e = tt
find_group-none ((k, is) ∷ g) key e = (
  (λ same. ground (arith, same_key_iff k key)),
  find_group-none g key (ground (arith, same_key_iff k key)),
)

pub Distinct-append :
    (ks : List TransactionKey) (key : TransactionKey)
    → Distinct ks
    → All (λ j. j ≢ key) ks
    → Distinct (ks ++ key ∷ [])
Distinct-append [] key d a = (tt, tt)
Distinct-append (k ∷ ks) key d a =
    (All-append _ ks (key ∷ []) d.0 ((λ e. a.0 (sym e)), tt), Distinct-append ks key d.1 a.1)

-- How often an index stands in a list, and in all groups together.
abbrev pub count : ℕ → List ℕ → ℕ
count j [] = 0
count j (i ∷ is) = (if i == j then 1 else 0) + count j is

abbrev pub uses : ℕ → Groups → ℕ
uses j [] = 0
uses j ((k, is) ∷ g) = count j is + uses j g

abbrev pub one_if : ℕ → ℕ → ℕ
one_if j n = if n == j then 1 else 0

pub count-append : (j : ℕ) (is : List ℕ) (n : ℕ) → count j (is ++ n ∷ []) ≡ count j is + one_if j n
count-append j [] n = omega arith
count-append j (i ∷ is) n = omega (arith, count-append j is n)

pub uses-append :
    (j : ℕ) (g : Groups) (key : TransactionKey) (n : ℕ)
    → uses j (g ++ (key, n ∷ []) ∷ []) ≡ uses j g + one_if j n
uses-append j [] key n = omega arith
uses-append j ((k, is) ∷ g) key n = omega (arith, uses-append j g key n)

pub uses-push_index :
    (j : ℕ) (g : Groups) (key : TransactionKey) (n : ℕ) {is : List ℕ}
    → find_group g key ≡ some is
    → uses j (push_index g key n) ≡ uses j g + one_if j n
unfolding push_index find_group
uses-push_index j [] key n e = cc
uses-push_index j ((k, is) ∷ g) key n e = elim (Bool-cases (same_key k key)) [
  | inl hit ↦ rw hit (omega (arith, count-append j is n))
  | inr miss ↦ rw miss (omega (arith, uses-push_index j g key n (rw miss at e)))
]

-- A property of each group, whatever its key.
abbrev pub EachGroup {ℓ} : (TransactionKey → List ℕ → Type ℓ) → Groups → Type ℓ
EachGroup P = All (λ g. P g.0 g.1)

pub EachGroup-push_index {ℓ} :
    (P Q : TransactionKey → List ℕ → Type ℓ) (g : Groups) (key : TransactionKey) (n : ℕ)
    → ((k : TransactionKey) (is : List ℕ) → P k is → Q k is)
    → ((is : List ℕ) → find_group g key ≡ some is → P key is → Q key (is ++ n ∷ []))
    → EachGroup P g
    → EachGroup Q (push_index g key n)
unfolding push_index find_group
EachGroup-push_index P Q [] key n keep grow v = tt
EachGroup-push_index P Q ((k, is) ∷ g) key n keep grow v = elim (Bool-cases (same_key k key)) [
  | inl hit ↦
      let same : k ≡ key = (same_key_iff k key).0 hit in
      rw hit (
        subst (λ j. Q j (is ++ n ∷ [])) (sym same)
            (grow is (rw hit) (subst (λ j. P j is) same v.0)),
        keep_all g v.1,
      )
  | inr miss ↦
      rw miss
        (keep k is v.0, EachGroup-push_index P Q g key n keep (λ js e. grow js (rw miss e)) v.1)
]
  where
    keep_all : (g : Groups) → EachGroup P g → EachGroup Q g
    keep_all [] v = tt
    keep_all ((k, is) ∷ g) v = (keep k is v.0, keep_all g v.1)
