-- ===== src/Wasm/Qsort.antt =====
-- wasm/qsort.cpp: quicksort with a stack, on an array of doubles that are numbers. The code compares
-- doubles and converts one to `int`, so a double is here its place in the order of the doubles, and
-- `truncated` is the place of the number that the conversion to `int` leaves of it. Of `rp` and of
-- the right end of a part, which can be -1, the successor is kept: `end` is `rp + 1`, and a part is
-- its first index and its end. Indices stay below the limit of `int`. A result is `none` where the array is read or written outside of its
-- bounds.
pub mod Scan
pub mod Rearranged
pub mod Partition
pub mod Halves
pub mod Sorted
mod Tests
use webrtc_snippets.Common.{
  ℕ, zero, suc, ◌+◌, ◌-◌, ◌*◌, ◌/◌, ◌%◌, ◌^◌, ◌≤◌, ◌<◌, ◌≡◌, ◌≢◌, ◌↔◌, ◌⊎◌, inl, inr, refl, sym, ap,
  ◌∙◌, subst, arith, tests, Bool, true, false, not, ◌&&◌, ◌||◌, Option, none, some, List, [], ◌∷◌,
  ◌++◌, map, append-nil, append_assoc, ◌==◌, ltb, leb, if◌then◌else◌, is_empty, length, get_elem?,
  drop, take, All, Bool-cases, Option-cases, guard, ◌>>=◌, ◌>>◌, >>=-eq-some, along_some, along_if,
  if_true, if_cases, ==_refl, ==_ne, ==_iff, length-append, take-append-drop, take-length,
  drop-length, drop-length_next, drop-add, drop-length-add, get_elem?-append, get_elem?-front,
  All-take, All-drop, is_empty-append, is_empty-append_cons, take_all, All-append, length-take,
  length-drop, ltb→lt, lt→ltb, leb→le, replicate, is_none, every, every-lt,
}
use webrtc_snippets.Common.Bytes.{
  Bytes, concat, overwrite, codes, Avoids, find_byte, find_byte_from, find_text, starts_with,
  substr, equal, equal_iff, equal_refl,
}
use webrtc_snippets.Common.Bytes.Find.{
  find_byte-append, find_byte-Avoids, find_byte_cases, find_byte_from-append, find_text-Avoids,
  find_text-none,
}
use webrtc_snippets.Common.Arrays.{nth, set, exchange}

-- `while(sortArray[lp] < mp) lp++`, on the array from `lp` on.
unfoldable pub scan_up : ℕ → List ℕ → ℕ → Option ℕ
scan_up mp [] lp = none
scan_up mp (x ∷ later) lp =
    let further = scan_up mp later (lp + 1) in if ltb x mp then further else some lp

-- `while(sortArray[rp] > mp) rp--`
unfoldable pub scan_down : ℕ → List ℕ → ℕ → Option ℕ
scan_down mp a zero = none
scan_down mp a (suc rp) =
    let further = scan_down mp a rp in
    do x ← get_elem? a rp; if ltb mp x then further else some (suc rp)

-- The exchange of two entries, by way of `tmp`.
unfoldable pub swap : List ℕ → ℕ → ℕ → Option (List ℕ)
unfolding set
swap a lp rp = do tmp ← get_elem? a lp; right ← get_elem? a rp; some (set (set a lp right) rp tmp)

-- `while(lp < rp)`: the array, `lp` and the end after it.
unfoldable pub partition : ℕ → ℕ → List ℕ → ℕ → ℕ → Option (List ℕ × ℕ × ℕ)
partition zero mp a lp end = none
partition (suc fuel) mp a lp end =
    if ltb (lp + 1) end
    then (do
      l ← scan_up mp (drop lp a) lp
      e ← scan_down mp a end
      if ltb l e
          then (do b ← swap a l (e - 1); partition fuel mp b (l + 1) (e - 1))
          else partition fuel mp a l e)
    else some (a, lp, end)

abbrev pub Part : Type 0
Part = ℕ × ℕ

-- The parts that are pushed: the left one is on top.
abbrev pub push_right : ℕ → ℕ → List Part → List Part
push_right lp right stack = if ltb (lp + 1) right then (lp, right) ∷ stack else stack

abbrev pub push_left : ℕ → ℕ → List Part → List Part
push_left left end stack = if ltb (left + 1) end then (left, end) ∷ stack else stack

module _ (truncated : ℕ → ℕ) where
  -- `while(!stack.empty())`.
  unfoldable pub qsort_loop : ℕ → List ℕ → List Part → Option (List ℕ)
  qsort_loop zero a stack = none
  qsort_loop (suc fuel) a [] = some a
  qsort_loop (suc fuel) a ((left, right) ∷ stack) = do
    middle ← get_elem? a ((left + right - 1) / 2)
    (b, lp, end) ← partition (suc (length a)) (truncated middle) a left right
    qsort_loop fuel b (push_left left end (push_right lp right stack))

  -- A part of `n` entries takes at most twice as many rounds.
  unfoldable pub qsort : List ℕ → ℕ → ℕ → Option (List ℕ)
  qsort a left right = qsort_loop (suc (2 * length a)) a ((left, right) ∷ [])

  unfoldable pub num_sort : List ℕ → ℕ → Option (List ℕ)
  num_sort a n = qsort a 0 n
