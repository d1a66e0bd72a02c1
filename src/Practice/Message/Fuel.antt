-- ===== src/Practice/Message/Fuel.antt =====
-- The fuel of the two loops of the message parser.
use webrtc_snippets.Common.{
  ℕ, zero, suc, ◌+◌, ◌<◌, ◌≡◌, inl, inr, arith, false, List, [], ◌∷◌, ◌++◌, is_empty, length, drop,
  take, Bool-cases, Option-cases, length-drop,
}
use webrtc_snippets.Common.Bytes.{Bytes, find_text}
use webrtc_snippets.Practice.Message.{
  SipHeader, SipMessage, crlf, separator, next_line, parse_header, parse_headers, parse_one_message,
  parse_series,
}

next_line_shorter : (s : Bytes) → is_empty s ≡ false → length (next_line s).1 < length s
unfolding next_line
next_line_shorter s h = elim (Option-cases (find_text crlf s)) [
  | inl e ↦ rw e (ground (arith, h))
  | inr (i, e) ↦ rw e (ground (arith, length-drop (i + 2) s))
]

-- Two amounts of fuel above the length of the text give the same headers or the same failure.
pub parse_headers-fuel :
    (f g : ℕ) (s : Bytes) (acc : List SipHeader)
    → length s < f
    → length s < g
    → parse_headers f s acc ≡ parse_headers g s acc
unfolding parse_headers
parse_headers-fuel zero g s acc p q = absurd (omega arith)
parse_headers-fuel (suc f) zero s acc p q = absurd (omega arith)
parse_headers-fuel (suc f) (suc g) s acc p q = elim (Bool-cases (is_empty s)) [
  | inl done ↦ rw done
  | inr more ↦ elim (Option-cases (parse_header (next_line s).0)) [
    | inl bad ↦ rw bad
    | inr (h, good) ↦ rw good (
        rw (
          parse_headers-fuel f g (next_line s).1 (acc ++ h ∷ [])
            (omega (arith, next_line_shorter s more)) (omega (arith, next_line_shorter s more))))
  ]
]

-- Two amounts of fuel above the length of the trace give the same messages or the same failure, so
-- the parser never fails for want of fuel.
pub parse_series-fuel :
    (f g : ℕ) (s : Bytes) (acc : List SipMessage)
    → length s < f
    → length s < g
    → parse_series f s acc ≡ parse_series g s acc
unfolding parse_series
parse_series-fuel zero g s acc p q = absurd (omega arith)
parse_series-fuel (suc f) zero s acc p q = absurd (omega arith)
parse_series-fuel (suc f) (suc g) s acc p q = elim (Bool-cases (is_empty s)) [
  | inl done ↦ rw (done, parse_series)
  | inr more ↦ elim (Option-cases (find_text separator s)) [
    | inl last ↦ rw (more, last, parse_series)
    | inr (sep, found) ↦ elim (Option-cases (parse_one_message (take sep s))) [
      | inl bad ↦ rw (more, found, parse_series, bad)
      | inr (m, good) ↦
          rw (more, found, parse_series, good)
            (rw (
              parse_series-fuel f g (drop (sep + 4) s) (acc ++ m ∷ [])
                (ground (arith, length-drop (sep + 4) s))
                (ground (arith, length-drop (sep + 4) s))))
    ]
  ]
]
