-- ===== src/SignalServer/RequestHandler/Inside.antt =====
-- Which files a request can reach.
use webrtc_snippets.Common.{
  ◌≡◌, ◌≢◌, inl, inr, refl, sym, ap, ◌∙◌, arith, true, Option, none, some, [], ◌∷◌, ◌++◌,
  append_assoc, ◌==◌, if◌then◌else◌, Bool-cases, Option-cases, guard, >>=-eq-some, along_some,
  if_cases, ==_ne, is_none,
}
use webrtc_snippets.Common.Bytes.{Bytes, codes, Avoids, find_text, starts_with}
use webrtc_snippets.SignalServer.RequestParser.{Request}
use webrtc_snippets.SignalServer.Reply.{Reply}
use webrtc_snippets.Common.Bytes.CString.{c_str}
use webrtc_snippets.SignalServer.RequestHandler.{
  url_decode, ends_in_slash, request_path, handle_request,
}

abbrev pub dots : Bytes
dots = b'.' ∷ b'.' ∷ []

-- A path below the root: absolute, with no ".." in it, and no NUL.
pub record IsInside (path : Bytes) : Type 0 where
  pub absolute : (s : Bytes) × (path ≡ b'/' ∷ s)
  pub no_dots : (a b : Bytes) → path ≢ a ++ (dots ++ b)
  pub no_nul : Avoids 0 path

find_text-dots : (a b : Bytes) → find_text dots (a ++ (dots ++ b)) ≢ none
unfolding find_text starts_with
find_text-dots [] b e = ground arith
find_text-dots (x ∷ a) b e = ground (arith, find_text-dots a b)

-- The index page adds no dots to a directory's path.
find_text-index :
    (s : Bytes)
    → ends_in_slash s ≡ true
    → find_text dots s ≡ none
    → find_text dots (s ++ codes "index.html") ≡ none
unfolding find_text starts_with ends_in_slash
find_text-index [] e f = absurd (ground arith)
find_text-index (c ∷ []) e f = ground arith
find_text-index (c ∷ d ∷ s) e f = ground (arith, find_text-index (d ∷ s))

c_str-Avoids : (s : Bytes) → Avoids 0 (c_str s)
unfolding c_str
c_str-Avoids [] = tt
c_str-Avoids (c ∷ s) = ground (arith, c_str-Avoids s)

c_str-prefix : (s : Bytes) → (rest : Bytes) × (s ≡ c_str s ++ rest)
unfolding c_str
c_str-prefix [] = ([], refl)
c_str-prefix (c ∷ s) = elim (Bool-cases (c == 0)) [
  | inl nul ↦ (c ∷ s, rw nul refl)
  | inr other ↦ let (rest, e) = c_str-prefix s in (rest, rw other (ap (◌∷◌ c) e))
]

c_str-append : (root s : Bytes) → Avoids 0 root → c_str (root ++ s) ≡ root ++ c_str s
unfolding c_str
c_str-append [] s p = refl
c_str-append (c ∷ root) s p = rw (==_ne c 0 p.0) (ap (◌∷◌ c) (c_str-append root s p.1))

c_str-IsInside : (s t : Bytes) → s ≡ b'/' ∷ t → find_text dots s ≡ none → IsInside (c_str s)
unfolding c_str
c_str-IsInside s t e f = record {
  absolute = (c_str t, rw e refl);
  no_dots = λ a b d.
      let (rest, whole) = c_str-prefix s in
      find_text-dots a (b ++ rest) (
        ap (find_text dots) (sym (whole ∙ ap (λ x. x ++ rest) d ∙ append_assoc a (dots ++ b) rest))
        ∙ f);
  no_nul = c_str-Avoids s;
}

index_path-IsInside :
    (path : Bytes)
    → starts_with (b'/' ∷ []) path ≡ true
    → find_text dots path ≡ none
    → IsInside (c_str (if ends_in_slash path then path ++ codes "index.html" else path))
unfolding starts_with
index_path-IsInside [] g h = absurd (ground arith)
index_path-IsInside (c ∷ t) g h =
    if_cases (λ p. IsInside (c_str p)) (ends_in_slash (c ∷ t))
      (λ page.
        c_str-IsInside (c ∷ t ++ codes "index.html") (t ++ codes "index.html")
          (ap (λ x. x ∷ t ++ codes "index.html") {y = b'/'} (ground arith))
          (find_text-index (c ∷ t) page h))
      (λ other. c_str-IsInside (c ∷ t) t (ap (λ x. x ∷ t) {y = b'/'} (ground arith)) h)

request_path-IsInside : (uri path : Bytes) → request_path uri ≡ some path → IsInside (c_str path)
unfolding request_path starts_with
request_path-IsInside uri path e =
    let (path, _, e1) = >>=-eq-some (url_decode uri) _ e in
    let (_, g, e2) = >>=-eq-some (guard (starts_with (b'/' ∷ []) path)) _ e1 in
    let (_, h, e3) = >>=-eq-some (guard (is_none (find_text dots path))) _ e2 in
    along_some (λ p. IsInside (c_str p)) e3
      (index_path-IsInside path (ground (arith, g)) (ground (arith, h)))

-- Where the document root has no NUL, the reply depends only on the files below it: where two file
-- systems agree on every path made of the root and an absolute path with no ".." and no NUL, the
-- replies are the same, whatever the request.
pub handle_request_inside :
    (doc_root : Bytes) (files other : Bytes → Option Bytes) (req : Request) (rep : Reply)
    → Avoids 0 doc_root
    → ((path : Bytes) → IsInside path → files (doc_root ++ path) ≡ other (doc_root ++ path))
    → handle_request doc_root files req rep ≡ handle_request doc_root other req rep
unfolding handle_request
handle_request_inside doc_root files other req rep p same =
    elim (Option-cases (request_path req.uri)) [
      | inl refused ↦ rw (refused, handle_request) refl
      | inr (path, found) ↦
          rw (found, handle_request)
            (rw
              (
                c_str-append doc_root path p,
                same (c_str path) (request_path-IsInside req.uri path found),
              )
              refl)
    ]
