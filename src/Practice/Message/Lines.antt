-- ===== src/Practice/Message/Lines.antt =====
-- How the parser cuts a printed message into lines.
use webrtc_snippets.Common.{
  ℕ, zero, suc, ◌+◌, ◌<◌, ◌≡◌, ◌≢◌, refl, ap, ◌∙◌, arith, true, false, none, some, List, [], ◌∷◌,
  ◌++◌, append-nil, append_assoc, length, All, ==_ne, length-append, take-length, drop-length_next,
  drop-length-add, is_empty-append,
}
use webrtc_snippets.Common.Bytes.{Bytes, Avoids, find_text}
use webrtc_snippets.Common.Bytes.Find.{find_byte-append, find_text-Avoids}
use webrtc_snippets.Common.Bytes.Lines.{pass_line}
use webrtc_snippets.Practice.Trim.{trim}
use native.Mathlib.Nat.{add-zero}
use mathlib.Core.Option
use webrtc_snippets.Practice.Message.{
  SipHeader, cr, lf, crlf, separator, breaks_paired, next_line, parse_header, parse_headers,
}

abbrev pub IsPlain : Bytes → Type 0
IsPlain s = Avoids cr s × Avoids lf s

abbrev pub header_line : SipHeader → Bytes
header_line h = h.name ++ b':' ∷ b' ' ∷ h.value

-- A header that survives a print: no colon in the name, no line break, and nothing to trim.
pub record IsHeader (h : SipHeader) : Type 0 where
  pub name_some : h.name ≢ []
  pub name_plain : Avoids b':' h.name
  pub line_plain : IsPlain (header_line h)
  pub name_trimmed : trim h.name ≡ h.name
  pub value_trimmed : trim h.value ≡ h.value

-- The header lines behind a start line, each after its CRLF, and without the first CRLF.
abbrev pub tail_lines : List SipHeader → Bytes
tail_lines [] = []
tail_lines (h ∷ hs) = crlf ++ (header_line h ++ tail_lines hs)

abbrev pub first_lines : List SipHeader → Bytes
first_lines [] = []
first_lines (h ∷ hs) = header_line h ++ tail_lines hs

breaks_paired-IsPlain :
    (a s : Bytes) → IsPlain a → breaks_paired false (a ++ s) ≡ breaks_paired false s
unfolding breaks_paired
breaks_paired-IsPlain [] s h = refl
breaks_paired-IsPlain (c ∷ a) s h = ground (arith, breaks_paired-IsPlain a s (h.0.1, h.1.1))

breaks_paired-tail_lines :
    (hs : List SipHeader) → All IsHeader hs → breaks_paired false (tail_lines hs) ≡ true
unfolding breaks_paired
breaks_paired-tail_lines [] h = refl
breaks_paired-tail_lines (x ∷ hs) h =
    breaks_paired-IsPlain (header_line x) (tail_lines hs) h.0.line_plain
    ∙ breaks_paired-tail_lines hs h.1

pub breaks_paired-lines :
    (a : Bytes) (hs : List SipHeader)
    → IsPlain a
    → All IsHeader hs
    → breaks_paired false (a ++ tail_lines hs) ≡ true
breaks_paired-lines a hs p h =
    breaks_paired-IsPlain a (tail_lines hs) p ∙ breaks_paired-tail_lines hs h

pub next_line-lines :
    (a : Bytes) (hs : List SipHeader)
    → Avoids cr a
    → next_line (a ++ tail_lines hs) ≡ (a, first_lines hs)
unfolding next_line
next_line-lines a [] p = rw (append-nil, find_text-nothing a p)
  where
    find_text-nothing : (a : Bytes) → Avoids cr a → find_text crlf a ≡ none
    find_text-nothing [] p = refl
    find_text-nothing (x ∷ a) p = rw (==_ne x cr p.0, find_text-nothing a p.1)
next_line-lines a (h ∷ hs) p =
    rw (find_text-Avoids cr (lf ∷ []) a (tail_lines (h ∷ hs)) p, next_line)
      (rw (add-zero, take-length, drop-length-add))

pub parse_header-line : (h : SipHeader) → IsHeader h → parse_header (header_line h) ≡ some h
unfolding parse_header trim
parse_header-line h v = rw (find_byte-append b':' h.name (b' ' ∷ h.value) v.name_plain) (
    rw (take-length, drop-length_next)
      (ground (arith, v.name_trimmed, v.value_trimmed, v.name_some)))

-- With fuel for each header, the loop reads back the headers printed.
pub parse_headers-lines :
    (hs : List SipHeader) (fuel : ℕ) (acc : List SipHeader)
    → All IsHeader hs
    → length hs < fuel
    → parse_headers fuel (first_lines hs) acc ≡ some (acc ++ hs)
unfolding parse_headers
parse_headers-lines hs zero acc v f = absurd (omega arith)
parse_headers-lines [] (suc fuel) acc v f = rw append-nil
parse_headers-lines (h ∷ hs) (suc fuel) acc v f =
    rw (next_line-lines (header_line h) hs v.0.line_plain.0, parse_header-line h v.0)
      (rw (parse_headers-lines hs fuel (acc ++ h ∷ []) v.1 (omega arith)) (
        ground (
          arith,
          is_empty-append (header_line h) (tail_lines hs),
          is_empty-append h.name (b':' ∷ b' ' ∷ h.value),
          append_assoc acc (h ∷ []) hs,
        )))

header_line_some : (h : SipHeader) → header_line h ≢ []
header_line_some h e = ground (arith, is_empty-append h.name (b':' ∷ b' ' ∷ h.value))

-- The separator behind a message is the first one.
pub find_separator-lines :
    (hs : List SipHeader) (rest : Bytes)
    → All IsHeader hs
    → find_text separator (tail_lines hs ++ (separator ++ rest)) ≡ some (length (tail_lines hs))
unfolding find_text
find_separator-lines [] rest v = refl
find_separator-lines (h ∷ hs) rest v =
    ap (λ s. find_text separator (crlf ++ s))
      (append_assoc (header_line h) (tail_lines hs) (separator ++ rest))
    ∙ pass_line (header_line h) (tail_lines hs ++ (separator ++ rest)) v.0.line_plain.0
        (header_line_some h)
    ∙ ap (Option.map (λ i. length (header_line h) + 2 + i)) (find_separator-lines hs rest v.1)
    ∙ ap some (omega (arith, length-append {0} (header_line h) (tail_lines hs)))
