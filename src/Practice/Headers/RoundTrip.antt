-- ===== src/Practice/Headers/RoundTrip.antt =====
-- A block of headers, printed and parsed.
use webrtc_snippets.Common.{
  ℕ, zero, suc, ◌≤◌, ◌<◌, ◌≡◌, ◌⊎◌, inl, inr, refl, sym, ap, ◌∙◌, subst, arith, some, List, [], ◌∷◌,
  ◌++◌, append-nil, append_assoc, length, All, length-append, take-length, drop-length_next,
  drop-length-add, is_empty-append_cons,
}
use webrtc_snippets.Common.Bytes.{Bytes, Avoids, find_text}
use webrtc_snippets.Common.Bytes.Find.{
  find_byte-append, find_byte-Avoids, find_text-Avoids, find_text-none,
}
use webrtc_snippets.Practice.Trim.{trim}
use webrtc_snippets.Practice.Trim.Agree.{support_trim-trim}
use webrtc_snippets.Practice.Message.{SipHeader, cr, lf, crlf}
use webrtc_snippets.Practice.Message.Lines.{IsHeader, header_line}
use webrtc_snippets.Practice.Headers.{parse_lines, parse_headers}

abbrev pub print_headers : List SipHeader → Bytes → Bytes
print_headers [] rest = rest
print_headers (h ∷ hs) rest = header_line h ++ (crlf ++ print_headers hs rest)

-- What ends the loop: nothing, a line with no CRLF, or a line with no colon.
abbrev pub Ends : Bytes → Type 0
Ends rest =
    (rest ≡ [])
    ⊎ Avoids cr rest
    ⊎ ((line more : Bytes) × (rest ≡ line ++ (crlf ++ more)) × Avoids cr line × Avoids b':' line)

find_crlf :
    (line more : Bytes)
    → Avoids cr line
    → find_text crlf (line ++ (crlf ++ more)) ≡ some (length line)
unfolding find_text
find_crlf line more p = find_text-Avoids cr (lf ∷ []) line (crlf ++ more) p ∙ ap some (omega arith)

parse_lines_colonless :
    (fuel : ℕ) (line more : Bytes) (acc : List SipHeader)
    → Avoids cr line
    → Avoids b':' line
    → parse_lines (suc fuel) (line ++ (crlf ++ more)) acc ≡ acc
unfolding parse_lines
parse_lines_colonless fuel line more acc p q = rw (
  is_empty-append_cons line cr (lf ∷ more),
  find_crlf line more p,
  parse_lines,
  take-length,
  find_byte-Avoids b':' line q,
)

parse_lines-Ends :
    (fuel : ℕ) (rest : Bytes) (acc : List SipHeader) → Ends rest → parse_lines fuel rest acc ≡ acc
unfolding parse_lines
parse_lines-Ends zero rest acc e = refl
parse_lines-Ends (suc fuel) rest acc (inl none_left) = rw none_left
parse_lines-Ends (suc fuel) [] acc (inr (inl no_cr)) = refl
parse_lines-Ends (suc fuel) (x ∷ rest) acc (inr (inl no_cr)) =
    rw (find_text-none cr (lf ∷ []) (x ∷ rest) no_cr, parse_lines)
parse_lines-Ends (suc fuel) rest acc (inr (inr (line, more, e, p, q))) =
    subst (λ r. parse_lines (suc fuel) r acc ≡ acc) (sym e)
      (parse_lines_colonless fuel line more acc p q)

trim_space : (s : Bytes) → trim (b' ' ∷ s) ≡ trim s
unfolding trim
trim_space s = refl

parse_lines-print :
    (hs : List SipHeader) (fuel : ℕ) (rest : Bytes) (acc : List SipHeader)
    → All IsHeader hs
    → length hs < fuel
    → Ends rest
    → parse_lines fuel (print_headers hs rest) acc ≡ acc ++ hs
unfolding parse_lines
parse_lines-print hs zero rest acc v f e = absurd (omega arith)
parse_lines-print [] (suc fuel) rest acc v f e =
    parse_lines-Ends (suc fuel) rest acc e ∙ sym (append-nil acc)
parse_lines-print (h ∷ hs) (suc fuel) rest acc v f e =
    rw
      (
        is_empty-append_cons (header_line h) cr (lf ∷ print_headers hs rest),
        find_crlf (header_line h) (print_headers hs rest) v.0.line_plain.0,
        parse_lines,
        take-length,
        find_byte-append b':' h.name (b' ' ∷ h.value) v.0.name_plain,
      )
      (rw (take-length, drop-length_next, drop-length-add, support_trim-trim, support_trim-trim)
        (rw (take-length, trim_space, v.0.name_trimmed, v.0.value_trimmed)
          (parse_lines-print hs fuel rest (acc ++ h ∷ []) v.1 (omega arith) e
            ∙ append_assoc acc (h ∷ []) hs)))

length-print_headers :
    (hs : List SipHeader) (rest : Bytes) → length hs ≤ length (print_headers hs rest)
length-print_headers [] rest = omega arith
length-print_headers (h ∷ hs) rest = omega (
  arith,
  length-append {0} (header_line h) (crlf ++ print_headers hs rest),
  length-print_headers hs rest,
)

-- Well-formed headers, each printed on a line of its own, are parsed back in order, duplicates
-- included; what follows them is dropped if it is nothing, a piece with no CR, even a last header
-- that lacks its CRLF, or a line with no colon, whatever comes behind that line.
pub parse_headers-print :
    (hs : List SipHeader) (rest : Bytes)
    → All IsHeader hs
    → Ends rest
    → parse_headers (print_headers hs rest) ≡ hs
unfolding parse_headers
parse_headers-print hs rest v e =
    parse_lines-print hs (suc (length (print_headers hs rest))) rest [] v
      (omega (arith, length-print_headers hs rest)) e
