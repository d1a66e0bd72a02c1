-- ===== src/Practice/Catalog/Complete.antt =====
-- What a catalog that is valid holds.
use webrtc_snippets.Common.{
  ℕ, zero, suc, ◌+◌, ◌<◌, ◌≡◌, refl, ap, ◌∙◌, arith, false, none, some, List, [], ◌∷◌, length,
  get_elem?, lt→ltb,
}
use webrtc_snippets.Practice.Catalog.{
  Exercise, lower_bound, find, is_invalid, any_invalid, validate,
}

find_next :
    (e : Exercise) (es : List Exercise) (day : ℕ) → e.day < day → find (e ∷ es) day ≡ find es day
unfolding find lower_bound
find_next e es day p = rw (lt→ltb e.day day p) refl

find_here : (e : Exercise) (es : List Exercise) (day : ℕ) → e.day ≡ day → find (e ∷ es) day ≡ some e
unfolding find lower_bound
find_here e es day p = ground (arith, p)

find_before : (e : Exercise) (es : List Exercise) (day : ℕ) → day < e.day → find (e ∷ es) day ≡ none
unfolding find lower_bound
find_before e es day p = ground (arith, p)

find_nothing : (day : ℕ) → find [] day ≡ none
unfolding find lower_bound
find_nothing day = refl

find_zero : (es : List Exercise) → any_invalid 0 es ≡ false → find es 0 ≡ none
unfolding any_invalid is_invalid
find_zero [] v = find_nothing 0
find_zero (e ∷ es) v = find_before e es 0 (ground (arith, v))

find_from :
    (es : List Exercise) (index k : ℕ)
    → any_invalid index es ≡ false
    → find es (index + 1 + k) ≡ get_elem? es k
unfolding any_invalid is_invalid
find_from [] index k v = find_nothing (index + 1 + k)
find_from (e ∷ es) index zero v = find_here e es (index + 1 + 0) (ground (arith, v))
find_from (e ∷ es) index (suc k) v =
    find_next e es (index + 1 + suc k) (ground (arith, v))
    ∙ ap (find es) (omega arith)
    ∙ find_from es (index + 1) k (ground (arith, v))

-- A catalog that `validate` accepts has thirty exercises, and `find` returns for each day from 1 the
-- exercise that is listed at that place, so none for a day above 30, and none for the day 0.
pub find-validate :
    (exercises : List Exercise) (place : ℕ)
    → validate exercises ≡ []
    → (length exercises ≡ 30)
      × (find exercises 0 ≡ none)
      × (find exercises (place + 1) ≡ get_elem? exercises place)
unfolding validate
find-validate exercises place v =
    let (thirty, fine) = accepted in
    (
      thirty,
      find_zero exercises fine,
      ap (find exercises) (omega arith) ∙ find_from exercises 0 place fine,
    )
  where
    accepted : (length exercises ≡ 30) × (any_invalid 0 exercises ≡ false)
    accepted = ground (arith, v)
