-- ===== src/Practice/RequestLine/Exact.antt =====
-- Which lines have three fields, for `split_space` and for `parse_request_line`.
use webrtc_snippets.Common.{
  is_none, ◌+◌, ◌-◌, ◌≡◌, ◌≢◌, ◌↔◌, inl, inr, ap, ◌∙◌, arith, Option, none, some, [], ◌∷◌, ◌++◌,
  drop, take, length, drop-add, drop-length_next, take-length, not, ◌&&◌, guard, ◌>>=◌, ◌>>◌,
  is_empty,
}
use webrtc_snippets.Common.Bytes.{Bytes, Avoids, find_byte, find_byte_from, substr, equal}
use webrtc_snippets.Common.Bytes.Find.{
  find_byte-append, find_byte-Avoids, find_byte_cases, find_byte_from-append,
}
use webrtc_snippets.Practice.RequestLine.{Fields, sip_version, split_space, parse_request_line}
use mathlib.Core.Option

-- The line that the fields stand for.
abbrev pub join : Bytes → Bytes → Bytes → Bytes
join a b c = a ++ b' ' ∷ (b ++ b' ' ∷ c)

-- Three fields that a single space can separate.
pub record AreFields (f : Fields) : Type 0 where
  pub method_plain : Avoids b' ' f.method
  pub uri_plain : Avoids b' ' f.uri
  pub version_plain : Avoids b' ' f.version
  pub method_some : f.method ≢ []
  pub uri_some : f.uri ≢ []
  pub version_some : f.version ≢ []

module _ (a b c : Bytes) where
  pub drop-join : drop (length a + 1 + length b + 1) (join a b c) ≡ c
  drop-join =
      ap (λ n. drop n (join a b c)) (omega arith)
      ∙ drop-add (length a + 1) (length b + 1) (join a b c)
      ∙ ap (drop (length b + 1)) (drop-length_next a b' ' (b ++ b' ' ∷ c))
      ∙ drop-length_next b b' ' c

  middle-join : substr (join a b c) (length a + 1) (length a + 1 + length b - length a - 1) ≡ b
  middle-join =
      ap (λ n. take n (drop (length a + 1) (join a b c))) (omega arith)
      ∙ ap (take (length b)) (drop-length_next a b' ' (b ++ b' ' ∷ c))
      ∙ take-length b (b' ' ∷ c)

  second-join :
      Avoids b' ' b
      → find_byte_from b' ' (join a b c) (length a + 1) ≡ some (length a + 1 + length b)
  second-join h =
      find_byte_from-append b' ' b' ' a (b ++ b' ' ∷ c)
      ∙ ap (Option.map (λ i. length a + 1 + i)) (find_byte-append b' ' b c h)

  third-join :
      find_byte_from b' ' (join a b c) (length a + 1 + length b + 1)
      ≡ Option.map (λ i. length a + 1 + length b + 1 + i) (find_byte b' ' c)
  unfolding find_byte_from
  third-join = rw drop-join

  first-join : Avoids b' ' a → find_byte b' ' (join a b c) ≡ some (length a)
  first-join = find_byte-append b' ' a (b ++ b' ' ∷ c)

  -- With the first two spaces known, only the tests are left.
  split_space-join :
      Avoids b' ' a
      → Avoids b' ' b
      → split_space (join a b c) ≡ (do
        guard (is_none (find_byte b' ' c))
        guard (not (is_empty a) && not (is_empty b) && not (is_empty c))
        some (record { method = a; uri = b; version = c }))
  unfolding split_space
  split_space-join p q =
      rw (first-join p, second-join q, third-join, take-length, middle-join, drop-join)
        (ground arith)

  parse_request_line-join :
      Avoids b' ' a
      → Avoids b' ' b
      → parse_request_line (join a b c) ≡ (do
        guard (is_none (find_byte b' ' c))
        guard (not (is_empty a) && not (is_empty b))
        guard (equal c sip_version)
        some (record { method = a; uri = b; version = c }))
  unfolding parse_request_line
  parse_request_line-join p q =
      rw (first-join p, second-join q, third-join, take-length, middle-join, drop-join)
        (ground arith)

module _ {ℓ} (P : Bytes → Type ℓ) where
  -- A line has no space, one, or a first and a second.
  cut_cases :
      ((s : Bytes) → Avoids b' ' s → P s)
      → ((a r : Bytes) → Avoids b' ' a → Avoids b' ' r → P (a ++ b' ' ∷ r))
      → ((a b c : Bytes) → Avoids b' ' a → Avoids b' ' b → P (join a b c))
      → (s : Bytes) → P s
  cut_cases none_at one_at two_at s = elim (find_byte_cases b' ' s) [
    | inl (_, av) ↦ none_at s av
    | inr (a, r, e, av, _) ↦ rw e (elim (find_byte_cases b' ' r) [
      | inl (_, av') ↦ one_at a r av av'
      | inr (b, c, e', av', _) ↦ rw e' (two_at a b c av av')
    ])
  ]

module _ (s : Bytes) (p : Avoids b' ' s) where
  split_space-Avoids : split_space s ≡ none
  unfolding split_space
  split_space-Avoids = rw (find_byte-Avoids b' ' s p)

  parse_request_line-Avoids : parse_request_line s ≡ none
  unfolding parse_request_line
  parse_request_line-Avoids = rw (find_byte-Avoids b' ' s p) (ground arith)

module _ (a r : Bytes) (p : Avoids b' ' a) (q : Avoids b' ' r) where
  second_missing : find_byte_from b' ' (a ++ b' ' ∷ r) (length a + 1) ≡ none
  second_missing =
      find_byte_from-append b' ' b' ' a r
      ∙ ap (Option.map (λ i. length a + 1 + i)) (find_byte-Avoids b' ' r q)

  split_space_one : split_space (a ++ b' ' ∷ r) ≡ none
  unfolding split_space
  split_space_one = rw (find_byte-append b' ' a r p, second_missing)

  parse_request_line_one : parse_request_line (a ++ b' ' ∷ r) ≡ none
  unfolding parse_request_line
  parse_request_line_one = rw (find_byte-append b' ' a r p, second_missing) (ground arith)

-- The first exercise accepts what `split_space` accepts, if the third field is SIP/2.0: it is
-- the start-line branch of the message parser for requests.
abbrev pub request_branch : Bytes → Option Fields
request_branch line = do f ← split_space line; guard (equal f.version sip_version); some f

-- On every line, `parse_request_line` of the first exercise returns what the message parser's own
-- `split_space`, followed by its test for SIP/2.0, returns, failures included.
pub parse_request_line-split_space : (s : Bytes) → parse_request_line s ≡ request_branch s
unfolding equal
parse_request_line-split_space =
    cut_cases (λ s. parse_request_line s ≡ request_branch s)
      (λ s p. rw (parse_request_line-Avoids s p, split_space-Avoids s p))
      (λ a r p q. rw (parse_request_line_one a r p q, split_space_one a r p q))
      (λ a b c p q.
        rw (parse_request_line-join a b c p q, split_space-join a b c p q) (ground arith))

split_space_sound :
    (s : Bytes) (f : Fields)
    → split_space s ≡ some f
    → (s ≡ join f.method f.uri f.version) × AreFields f
split_space_sound =
    cut_cases
      (λ s.
        (f : Fields) → split_space s ≡ some f → (s ≡ join f.method f.uri f.version) × AreFields f)
      (λ s p f e. absurd (cc (split_space-Avoids s p)))
      (λ a r p q f e. absurd (cc (split_space_one a r p q)))
      (λ a b c p q f e. elim (find_byte_cases b' ' c) [
        | inl (miss, av) ↦ ground (arith, split_space-join a b c p q)
        | inr (_, _, _, _, hit) ↦ absurd (ground (arith, split_space-join a b c p q))
      ])

-- `split_space` returns three fields exactly when the line is those fields joined by single
-- spaces, with no field empty and no space inside a field.
pub split_space_iff :
    (s : Bytes) (f : Fields)
    → (split_space s ≡ some f) ↔ ((s ≡ join f.method f.uri f.version) × AreFields f)
split_space_iff s f = (split_space_sound s f, λ (e, h). rw e (accept f h))
  where
    accept : (f : Fields) → AreFields f → split_space (join f.method f.uri f.version) ≡ some f
    accept f h =
        split_space-join f.method f.uri f.version h.method_plain h.uri_plain
        ∙ rw (find_byte-Avoids b' ' f.version h.version_plain)
            (ground (arith, h.method_some, h.uri_some, h.version_some))
