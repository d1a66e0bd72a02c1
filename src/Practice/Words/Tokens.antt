-- ===== src/Practice/Words/Tokens.antt =====
-- What `tokenize` returns.
use webrtc_snippets.Common.{
  ℕ, zero, suc, ◌≤◌, ◌≡◌, ◌≢◌, inl, inr, arith, not, ◌||◌, some, List, [], ◌∷◌, ◌++◌, ltb,
  if◌then◌else◌, is_empty, length, All, Bool-cases, guard, >>=-eq-some, along_some, if_cases,
  All-append, lt→ltb,
}
use webrtc_snippets.Common.Bytes.{Bytes, Avoids}
use webrtc_snippets.Practice.Words.{
  max_command_length, split_token, skip_blanks, tokens_of, tokenize,
}

-- A token of a line: some bytes, and no space.
pub record IsToken (token : Bytes) : Type 0 where
  pub some_bytes : token ≢ []
  pub plain : Avoids b' ' token

split_token-Avoids : (s : Bytes) → Avoids b' ' (split_token s).0
unfolding split_token
split_token-Avoids [] = tt
split_token-Avoids (c ∷ s) = ground (arith, split_token-Avoids s)

abbrev grown : List Bytes → Bytes → List Bytes
grown tokens token = if is_empty token then tokens else tokens ++ token ∷ []

grown-IsToken :
    (tokens : List Bytes) (token : Bytes)
    → All IsToken tokens
    → Avoids b' ' token
    → All IsToken (grown tokens token)
grown-IsToken tokens token v p =
    if_cases (All IsToken) (is_empty token) (λ e. v)
      (λ e.
        All-append IsToken tokens (token ∷ []) v
          (record { some_bytes = (λ n. ground (arith, e)); plain = p }, tt))

ends :
    (tokens : List Bytes) (fuel : ℕ) {result : List Bytes}
    → tokens_of (suc fuel) [] tokens ≡ some result
    → some tokens ≡ some result
unfolding tokens_of split_token skip_blanks
ends tokens fuel e = e

tokens_of-IsToken :
    (fuel : ℕ) (line : Bytes) (tokens : List Bytes) {result : List Bytes}
    → All IsToken tokens
    → length tokens ≤ 2
    → tokens_of fuel line tokens ≡ some result
    → All IsToken result × (length result ≤ 2)
unfolding tokens_of
tokens_of-IsToken zero line tokens v p e = absurd (ground arith)
tokens_of-IsToken (suc fuel) [] tokens v p e =
    along_some (λ x. All IsToken x × (length x ≤ 2)) (ends tokens fuel e) (v, p)
tokens_of-IsToken (suc fuel) (c ∷ s) tokens v p e =
    let part = split_token (skip_blanks (c ∷ s)) in
    let more = grown tokens part.0 in
    elim (Bool-cases (ltb 2 (length more))) [
      | inl many ↦ absurd (ground (arith, rw (many, tokens_of) at e))
      | inr few ↦
          tokens_of-IsToken fuel part.1 more
            (grown-IsToken tokens part.0 v (split_token-Avoids (skip_blanks (c ∷ s))))
            (ground (arith, lt→ltb 2 (length more))) (rw (few, tokens_of) at e)
    ]

-- Whatever line is tokenized has one or two tokens, and each of them is not empty and has no space.
pub tokenize-IsToken :
    (line : Bytes) {tokens : List Bytes}
    → tokenize line ≡ some tokens
    → All IsToken tokens × (tokens ≢ []) × (length tokens ≤ 2)
unfolding tokenize
tokenize-IsToken line e =
    let (_, _, e1) =
      >>=-eq-some (guard (not (is_empty line || ltb max_command_length (length line)))) _ e in
    let (tokens, f, e2) = >>=-eq-some (tokens_of (suc (length line)) line []) _ e1 in
    let (_, g, e3) = >>=-eq-some (guard (not (is_empty tokens))) _ e2 in
    let (v, p) = tokens_of-IsToken (suc (length line)) line [] tt (omega arith) f in
    along_some (λ x. All IsToken x × (x ≢ []) × (length x ≤ 2)) e3 (v, (λ n. ground (arith, g)), p)
