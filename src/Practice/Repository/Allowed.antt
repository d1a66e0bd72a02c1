-- ===== src/Practice/Repository/Allowed.antt =====
-- Which files the exercise repository reads.
use webrtc_snippets.Common.{
  ℕ, ◌≤◌, ◌≡◌, inl, inr, refl, sym, ap, ◌∙◌, arith, Bool, true, false, not, ◌&&◌, ◌||◌, Option,
  none, some, List, [], ◌∷◌, ◌++◌, append_assoc, ◌==◌, ltb, if◌then◌else◌, is_empty, Bool-cases,
  Option-cases, guard, >>=-eq-some, along_some, ==_iff,
}
use webrtc_snippets.Common.Bytes.{Bytes, codes, starts_with, equal, equal_iff, equal_refl}
use webrtc_snippets.Practice.Catalog.{Exercise, find, lower_bound}
use webrtc_snippets.Practice.TestRunner.{is_valid_day}
use webrtc_snippets.Practice.Repository.{
  FileSystem, ExerciseDetail, maximum_file_bytes, day_prefix, is_within, take_entry, find_entry,
  exercise_directory, read_allowed_file, detail,
}

-- One path is within another just when it continues it.
pub is_within-prefix :
    (base candidate : List Bytes)
    → is_within base candidate ≡ true
    → (rest : List Bytes) × (candidate ≡ base ++ rest)
unfolding is_within
is_within-prefix [] candidate e = (candidate, refl)
is_within-prefix (b ∷ base) [] e = absurd (cc)
is_within-prefix (b ∷ base) (c ∷ candidate) e = elim (Bool-cases (equal b c)) [
  | inl same ↦
      let (rest, whole) = is_within-prefix base candidate (ground (arith, e, same)) in
      (rest, ap (λ x. x ∷ candidate) (sym ((equal_iff b c).0 same)) ∙ ap (λ l. b ∷ l) whole)
  | inr other ↦ absurd (ground (arith, e, other))
]

pub is_within-append : (base rest : List Bytes) → is_within base (base ++ rest) ≡ true
unfolding is_within
is_within-append [] rest = refl
is_within-append (b ∷ base) rest = rw (equal_refl b) (is_within-append base rest)

-- Within a path that is within another.
prefix_both :
    (root directory file : List Bytes)
    → (rest : List Bytes) × (directory ≡ root ++ rest)
    → (rest : List Bytes) × (file ≡ directory ++ rest)
    → (rest : List Bytes) × (file ≡ root ++ rest)
prefix_both root directory file (a, e) (b, f) =
    (a ++ b, f ∙ ap (λ l. l ++ b) e ∙ append_assoc root a b)

module _ (fs : FileSystem) where
  -- A text that is read from below `root`.
  pub record IsAllowed (root : List Bytes) (content : Bytes) : Type 0 where
    pub file : List Bytes
    pub size : ℕ
    pub inside : (below : List Bytes) × (file ≡ root ++ below)
    pub is_regular : fs.is_regular_file file ≡ true
    pub has_size : fs.file_size file ≡ some size
    pub small : size ≤ maximum_file_bytes
    pub holds : fs.read file ≡ some content

  passed :
      (b : Bool) {A : Type 0} (x : Option A) {y : A}
      → (if b then none else x) ≡ some y
      → (b ≡ false) × (x ≡ some y)
  passed true x e = absurd (ground (arith, e))
  passed false x e = (refl, e)

  taken :
      (b : Bool) {A : Type 0} (x : Option A) {y : A} → (if b then x else none) ≡ some y → x ≡ some y
  taken true x e = e
  taken false x e = absurd (ground (arith, e))

  guard-true : (b : Bool) {u : Unit {0}} → guard b ≡ some u → b ≡ true
  guard-true true e = refl
  guard-true false e = absurd (cc)

  read_allowed_file-IsAllowed :
      (root directory : List Bytes) (name content : Bytes)
      → (rest : List Bytes) × (directory ≡ root ++ rest)
      → read_allowed_file fs directory name ≡ some content
      → IsAllowed root content
  unfolding read_allowed_file
  read_allowed_file-IsAllowed root directory name content inside eq =
      let (file, e1, eq) = >>=-eq-some (fs.weakly_canonical (directory ++ name ∷ [])) _ eq in
      let (u, e2, eq) = >>=-eq-some (guard (is_within directory file)) _ eq in
      let (w, e3, eq) = >>=-eq-some (guard (fs.is_regular_file file)) _ eq in
      let (n, e4, eq) = >>=-eq-some (fs.file_size file) _ eq in
      let (little, held) = passed (ltb maximum_file_bytes n) (fs.read file) eq in
      record {
        file = file;
        size = n;
        inside =
            prefix_both root directory file inside
              (is_within-prefix directory file (guard-true (is_within directory file) e2));
        is_regular = guard-true (fs.is_regular_file file) e3;
        has_size = e4;
        small = ground (arith, little);
        holds = held;
      }

  take_entry-inside :
      (root path : List Bytes) (prefix name : Bytes)
      → take_entry fs root prefix name ≡ some path
      → (rest : List Bytes) × (path ≡ root ++ rest)
  unfolding take_entry
  take_entry-inside root path prefix name eq =
      let chosen = taken (starts_with prefix name && fs.is_directory (root ++ name ∷ [])) _ eq in
      let (canonical, e1, eq) = >>=-eq-some (fs.weakly_canonical (root ++ name ∷ [])) _ chosen in
      let (u, e2, eq) = >>=-eq-some (guard (is_within root canonical)) _ eq in
      along_some (λ p. (rest : List Bytes) × (p ≡ root ++ rest)) eq
        (is_within-prefix root canonical (guard-true (is_within root canonical) e2))

  find_entry-inside :
      (root path : List Bytes) (prefix : Bytes) (names : List Bytes)
      → find_entry fs root prefix names ≡ some path
      → (rest : List Bytes) × (path ≡ root ++ rest)
  unfolding find_entry
  find_entry-inside root path prefix [] eq = absurd (cc)
  find_entry-inside root path prefix (name ∷ names) eq =
      elim (Option-cases (take_entry fs root prefix name)) [
        | inl other ↦ find_entry-inside root path prefix names (rw (other, find_entry) at eq)
        | inr (found, hit) ↦
            along_some (λ p. (rest : List Bytes) × (p ≡ root ++ rest)) (rw (hit, find_entry) at eq)
              (take_entry-inside root found prefix name hit)
      ]

  exercise_directory-inside :
      (root directory : List Bytes) (day : ℕ)
      → exercise_directory fs root day ≡ some directory
      → (is_valid_day day ≡ true) × ((rest : List Bytes) × (directory ≡ root ++ rest))
  unfolding exercise_directory
  exercise_directory-inside root directory day eq =
      let (valid, eq) = passed (not (is_valid_day day) || is_empty root) _ eq in
      let (names, e, eq) = >>=-eq-some (fs.entries root) _ eq in
      (
        ground (arith, valid),
        find_entry-inside root directory (day_prefix day ++ codes "_") names eq,
      )

  -- What is shown of an exercise.
  pub record IsShown (root : List Bytes) (day : ℕ) (d : ExerciseDetail) : Type 0 where
    pub valid : is_valid_day day ≡ true
    pub same_day : d.summary.day ≡ day
    pub readme_allowed : IsAllowed root d.readme
    pub header_allowed : IsAllowed root d.header
    pub source_allowed : IsAllowed root d.source

  find-day :
      (exercises : List Exercise) (day : ℕ) (e : Exercise)
      → find exercises day ≡ some e
      → e.day ≡ day
  unfolding find
  find-day exercises day e eq =
      let (found, e1, eq) = >>=-eq-some (lower_bound exercises day) _ eq in
      let (u, e2, eq) = >>=-eq-some (guard (found.day == day)) _ eq in
      along_some (λ e. e.day ≡ day) eq ((==_iff found.day day).0 (guard-true (found.day == day) e2))

  -- Whatever the file system answers, the details of an exercise are given only for a day from 1 to
  -- 30 and are those of that day, and each of their three texts is the content of a regular file of
  -- at most 1 MiB whose canonical path lies below the repository's root.
  pub detail-IsShown :
      (exercises : List Exercise) (root : List Bytes) (day : ℕ) (d : ExerciseDetail)
      → detail fs exercises root day ≡ some d
      → IsShown root day d
  unfolding detail
  detail-IsShown exercises root day d eq =
      let (e, e1, eq) = >>=-eq-some (find exercises day) _ eq in
      let (directory, e2, eq) = >>=-eq-some (exercise_directory fs root day) _ eq in
      let (readme, e3, eq) =
        >>=-eq-some (read_allowed_file fs directory (codes "README.md")) _ eq in
      let (header, e4, eq) =
        >>=-eq-some (read_allowed_file fs directory (codes "starter.hpp")) _ eq in
      let (source, e5, eq) =
        >>=-eq-some (read_allowed_file fs directory (codes "starter.cpp")) _ eq in
      let (valid, inside) = exercise_directory-inside root directory day e2 in
      along_some (IsShown root day) eq (record {
        valid = valid;
        same_day = find-day exercises day e e1;
        readme_allowed =
            read_allowed_file-IsAllowed root directory (codes "README.md") readme inside e3;
        header_allowed =
            read_allowed_file-IsAllowed root directory (codes "starter.hpp") header inside e4;
        source_allowed =
            read_allowed_file-IsAllowed root directory (codes "starter.cpp") source inside e5;
      })
