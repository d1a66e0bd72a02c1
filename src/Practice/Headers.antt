-- ===== src/Practice/Headers.antt =====
-- `parse_headers` of basic/exercises/02_sip_headers/starter.cpp.
pub mod RoundTrip
use webrtc_snippets.Common.{
  ℕ, zero, suc, ◌+◌, ◌-◌, ◌*◌, ◌/◌, ◌%◌, ◌^◌, ◌≤◌, ◌<◌, ◌≡◌, ◌≢◌, ◌↔◌, ◌⊎◌, inl, inr, refl, sym, ap,
  ◌∙◌, subst, arith, tests, Bool, true, false, not, ◌&&◌, ◌||◌, Option, none, some, List, [], ◌∷◌,
  ◌++◌, map, append-nil, append_assoc, ◌==◌, ltb, leb, if◌then◌else◌, is_empty, length, get_elem?,
  drop, take, All, Bool-cases, Option-cases, guard, ◌>>=◌, ◌>>◌, >>=-eq-some, along_some, ==_refl,
  ==_ne, ==_iff, length-append, take-append-drop, take-length, drop-length, drop-length_next,
  drop-add, drop-length-add, is_empty-append, is_empty-append_cons, take_all, All-append,
  length-take, length-drop, ltb→lt, lt→ltb, leb→le, replicate,
}
use webrtc_snippets.Common.Bytes.{
  Bytes, codes, Avoids, find_byte, find_byte_from, find_text, starts_with, substr, equal, equal_iff,
  equal_refl,
}
use webrtc_snippets.Common.Bytes.Find.{
  find_byte-append, find_byte-Avoids, find_byte_cases, find_byte_from-append, find_text-Avoids,
}
use webrtc_snippets.Practice.Trim.{support_trim}
use webrtc_snippets.Practice.Message.{SipHeader, crlf}

-- The loop, on fuel: a line that has no CRLF, or no colon, ends it.
unfoldable pub parse_lines : ℕ → Bytes → List SipHeader → List SipHeader
parse_lines zero line headers = headers
parse_lines (suc fuel) line headers = elim (is_empty line) [
  | true ↦ headers
  | false ↦ elim (find_text crlf line) [
    | none ↦ headers
    | some end ↦ elim (find_byte b':' (take end line)) [
      | none ↦ headers
      | some colon ↦ parse_lines fuel (drop (end + 2) line) (
          headers
          ++ record {
            name = support_trim (substr (take end line) 0 colon);
            value = support_trim (drop (colon + 1) (take end line));
          }
            ∷ [])
    ]
  ]
]

unfoldable pub parse_headers : Bytes → List SipHeader
unfolding parse_lines
parse_headers block = parse_lines (suc (length block)) block []
