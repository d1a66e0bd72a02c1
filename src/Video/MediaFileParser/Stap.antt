-- ===== src/Video/MediaFileParser/Stap.antt =====
-- The units of an aggregation packet.
use webrtc_snippets.Common.{
  ℕ, zero, suc, ◌+◌, ◌-◌, ◌/◌, ◌%◌, ◌≤◌, ◌<◌, ◌≡◌, refl, sym, ap, ◌∙◌, arith, false, Option, none,
  some, List, [], ◌∷◌, ◌++◌, append-nil, append_assoc, leb, length, get_elem?, All, ◌>>=◌, if_true,
  length-append, take-length, drop-length-add, get_elem?-append,
}
use webrtc_snippets.Common.Bytes.{Bytes, codes}
use webrtc_snippets.Common.Bytes.Digits.{to_decimal}
use webrtc_snippets.Video.MediaFileParser.{
  MediaFileParser, RtpInfo, start_code, bytes_at, byte_at, word_at, write_nalu, stap_loop,
  handle_stap,
}

-- A unit that an aggregation packet can hold.
pub record IsUnit (u : Bytes) : Type 0 where
  pub some_header : 1 ≤ length u
  pub fits : length u < 65536

-- A unit behind its size.
abbrev pub sized : Bytes → Bytes
sized u = length u / 256 ∷ length u % 256 ∷ u

abbrev pub aggregate : List Bytes → Bytes
aggregate [] = []
aggregate (u ∷ units) = sized u ++ aggregate units

-- The units, each behind a start code.
abbrev pub stream : List Bytes → Bytes
stream [] = []
stream (u ∷ units) = start_code ++ u ++ stream units

abbrev pub first_byte : Bytes → ℕ
first_byte [] = 0
first_byte (c ∷ u) = c

head_here : (u after : Bytes) → 1 ≤ length u → get_elem? (sized u ++ after) 2 ≡ some (first_byte u)
head_here [] after p = absurd (omega arith)
head_here (c ∷ u) after p = refl

abbrev pub type_of : Bytes → Bytes
type_of u = to_decimal (first_byte u % 32) ++ b' ' ∷ []

abbrev written : MediaFileParser → Bytes → MediaFileParser
written s u = record s { output = s.output ++ start_code ++ u; nalu_count = s.nalu_count + 1 }

abbrev looped : MediaFileParser → Bytes → ℕ → Bytes → Option (MediaFileParser × Bytes)
looped s o n t = some (record s { output = o; nalu_count = n }, t)

same_result :
    (s : MediaFileParser) {o o' : Bytes} {n n' : ℕ} {t t' : Bytes}
    → o ≡ o'
    → n ≡ n'
    → t ≡ t'
    → looped s o n t ≡ looped s o' n' t'
same_result s e f g = rw (e, f, g) refl

-- One round of the loop, on a unit that stands at `p`.
module _ (s : MediaFileParser) (before u after : Bytes)
    (here : s.pkt_buf ≡ before ++ (sized u ++ after)) (v : IsUnit u) where
  word_here : word_at s (length before) ≡ some (length u)
  unfolding word_at byte_at
  word_here =
      rw
        (
          here,
          ap (get_elem? (before ++ (sized u ++ after))) {x = length before} {y = length before + 0}
                (omega arith)
              ∙ get_elem?-append before (sized u ++ after) 0,
          get_elem?-append before (sized u ++ after) 1,
        )
        (ap some (omega arith))

  unit_here : bytes_at s (length before + 2) (length u) ≡ some u
  unfolding bytes_at
  unit_here =
      rw (here, drop-length-add before (sized u ++ after) 2)
        (if_true (leb (length before + 2 + length u) (length (before ++ (sized u ++ after)))) none
            (ground (arith, length-append before (sized u ++ after), length-append (sized u) after))
          ∙ ap some (take-length u after))

  header_here : byte_at s (length before + 2) ≡ some (first_byte u)
  unfolding byte_at
  header_here =
      rw (here, get_elem?-append before (sized u ++ after) 2) (head_here u after v.some_header)

  write_here : write_nalu s (length before + 2) (length u) ≡ some (written s u)
  unfolding write_nalu
  write_here = rw (unit_here, write_nalu) refl

  -- The loop goes on behind the unit.
  stap_loop_next :
      (fuel left : ℕ) (types : Bytes)
      → 3 < left
      → stap_loop (suc fuel) s (length before) left types
        ≡ stap_loop fuel
            (written s u)
            (length before + (2 + length u))
            (left - (2 + length u))
            (types ++ type_of u)
  unfolding stap_loop
  stap_loop_next fuel left types p =
      let goes_on : leb left 3 ≡ false = ground arith in
      rw (goes_on, word_here, header_here, write_here)
        (ap (stap_loop fuel (written s u) (length before + (2 + length u)) (left - (2 + length u)))
          (append_assoc types (to_decimal (first_byte u % 32)) (b' ' ∷ [])))

-- What is reported of the units' types.
abbrev pub types_of : List Bytes → Bytes
types_of [] = []
types_of (u ∷ units) = type_of u ++ types_of units

stap_loop-aggregate :
    (fuel : ℕ) (s : MediaFileParser) (before : Bytes) (units : List Bytes) (after types : Bytes)
    → s.pkt_buf ≡ before ++ (aggregate units ++ after)
    → All IsUnit units
    → length (aggregate units) < fuel
    → stap_loop fuel s (length before) (length (aggregate units) + 1) types
      ≡ some (
        record s { output = s.output ++ stream units; nalu_count = s.nalu_count + length units },
        types ++ types_of units,
      )
unfolding stap_loop
stap_loop-aggregate zero s before units after types here v p = absurd (omega arith)
stap_loop-aggregate (suc fuel) s before [] after types here v p =
    same_result s {o = s.output} {o' = s.output ++ []} (sym (append-nil s.output)) (omega arith)
      (sym (append-nil types))
stap_loop-aggregate (suc fuel) s before (u ∷ units) after types here (v, vs) p =
    let at_unit = here ∙ ap (λ l. before ++ l) (append_assoc (sized u) (aggregate units) after) in
    let long = length-append (sized u) (aggregate units) in
    let t = written s u in
    stap_loop_next s before u (aggregate units ++ after) at_unit v fuel
      (length (aggregate (u ∷ units)) + 1) types (ground (arith, v.some_header, long))
    ∙ ap
        (λ q.
          stap_loop fuel t q (length (aggregate (u ∷ units)) + 1 - (2 + length u))
            (types ++ type_of u))
        {x = length before + (2 + length u)} {y = length (before ++ sized u)}
        (ground (arith, length-append before (sized u)))
    ∙ ap (λ left. stap_loop fuel t (length (before ++ sized u)) left (types ++ type_of u))
        {x = length (aggregate (u ∷ units)) + 1 - (2 + length u)} {y = length (aggregate units) + 1}
        (ground (arith, long))
    ∙ stap_loop-aggregate fuel t (before ++ sized u) units after (types ++ type_of u)
        (at_unit ∙ sym (append_assoc before (sized u) (aggregate units ++ after))) vs
        (ground (arith, long, p))
    ∙ same_result s {o = s.output ++ start_code ++ u ++ stream units}
        {o' = s.output ++ stream (u ∷ units)} (simp (append_assoc) refl) (omega arith)
        (simp (append_assoc) refl)

-- An aggregation packet of any units, each with at least its header byte and less than 2 ^ 16 bytes,
-- that stands in the packet buffer, is written to the output as its units in their order, each
-- behind a start code, and counted; the units' types are reported in the same order.
pub handle_stap-aggregate :
    (s : MediaFileParser) (before : Bytes) (indicator : ℕ) (units : List Bytes) (after : Bytes)
    (info : RtpInfo)
    → s.pkt_buf ≡ before ++ (indicator ∷ (aggregate units ++ after))
    → All IsUnit units
    → handle_stap s (length before) (1 + length (aggregate units)) info
      ≡ some (
        record s { output = s.output ++ stream units; nalu_count = s.nalu_count + length units },
        (codes "subNalType", types_of units) ∷ info,
      )
unfolding handle_stap
handle_stap-aggregate s before indicator units after info here v =
    let front = before ++ indicator ∷ [] in
    let at_units = here ∙ sym (append_assoc before (indicator ∷ []) (aggregate units ++ after)) in
    let looping =
      ap (λ q. stap_loop (1 + length (aggregate units)) s q (1 + length (aggregate units)) [])
        {x = length before + 1} {y = length front}
        (ground (arith, length-append before (indicator ∷ [])))
      ∙ ap (λ left. stap_loop (1 + length (aggregate units)) s (length front) left [])
          {x = 1 + length (aggregate units)} {y = length (aggregate units) + 1} (omega arith)
      ∙ stap_loop-aggregate (1 + length (aggregate units)) s front units after [] at_units v
          (omega arith) in
    ap (λ r. r >>= λ d. some (d.0, (codes "subNalType", d.1) ∷ info)) looping
