-- ===== src/Wasm/Qsort/Tests.antt =====
-- Quicksort on concrete arrays.
use webrtc_snippets.Common.{ℕ, zero, suc, ◌*◌, ◌/◌, ◌≡◌, refl, arith, none, some, List, [], ◌∷◌}
use webrtc_snippets.Common.Arrays.{nth, set}
use mathlib.Core.List.{Perm}
use webrtc_snippets.Wasm.Qsort.Halves.{IsSortedOn}
use webrtc_snippets.Wasm.Qsort.Sorted.{AreWhole, num_sort-IsSortedOn}
use webrtc_snippets.Wasm.Qsort.{scan_up, scan_down, swap, partition, qsort_loop, qsort, num_sort}

-- Numbers counted in halves.
abbrev halves : ℕ → ℕ
halves n = n / 2 * 2

sorted_run : num_sort halves (6 ∷ 2 ∷ 8 ∷ 2 ∷ 4 ∷ 0 ∷ []) 6 ≡ some (0 ∷ 2 ∷ 2 ∷ 4 ∷ 6 ∷ 8 ∷ [])
unfolding num_sort qsort qsort_loop partition scan_up scan_down swap nth set
sorted_run = refl

-- A half and a whole: the search for a number that is not above the truncated half leaves the array.
half_outside : num_sort halves (1 ∷ 2 ∷ []) 2 ≡ none
unfolding num_sort qsort qsort_loop partition scan_up scan_down swap nth set
half_outside = refl

-- No entry at all: the first one is read nevertheless.
empty_outside : num_sort halves [] 0 ≡ none
unfolding num_sort qsort qsort_loop partition scan_up scan_down swap nth set
empty_outside = refl

abbrev entries : List ℕ
entries = 6 ∷ 2 ∷ 8 ∷ []

entries-AreWhole : AreWhole halves entries
unfolding nth
entries-AreWhole zero p = refl
entries-AreWhole (suc zero) p = refl
entries-AreWhole (suc (suc zero)) p = refl
entries-AreWhole (suc (suc (suc i))) p = absurd (omega arith)

num_sort-IsSortedOn_example :
    (b : List ℕ) × (num_sort halves entries 3 ≡ some b) × Perm b entries × IsSortedOn b 0 3
num_sort-IsSortedOn_example = num_sort-IsSortedOn halves entries (omega arith) entries-AreWhole
