-- ===== src/Practice/Message/Lookup.antt =====
-- `SipMessage::find_header` and `SipHeader::get_address`.
use webrtc_snippets.Common.{
  ◌+◌, ◌≡◌, ◌≢◌, ◌↔◌, inl, inr, refl, ap, ◌∙◌, arith, some, List, [], ◌∷◌, ◌++◌, ◌==◌, length, take,
  All, Bool-cases, along_some, take-length, drop-length_next, is_empty-append_cons,
}
use webrtc_snippets.Common.Bytes.{Bytes, Avoids, equal, equal_iff}
use webrtc_snippets.Common.Bytes.Find.{find_byte-append, find_byte_from-append}
use webrtc_snippets.Practice.Message.{
  SipHeader, SipMessage, find_header_in, find_header, get_address,
}

-- No header of the list has the name.
abbrev pub Unnamed : Bytes → List SipHeader → Type 0
Unnamed name = All (λ h. h.name ≢ name)

find_header_in-append :
    (name : Bytes) (hs : List SipHeader) (h : SipHeader) (rest : List SipHeader)
    → Unnamed name hs
    → h.name ≡ name
    → find_header_in (hs ++ h ∷ rest) name ≡ some h
unfolding find_header_in
find_header_in-append name [] h rest v e = ground (arith, equal_iff h.name name)
find_header_in-append name (x ∷ hs) h rest v e =
    ground (arith, equal_iff x.name name, find_header_in-append name hs h rest v.1 e)

abbrev pub IsFirst : Bytes → List SipHeader → SipHeader → Type 0
IsFirst name hs h =
    (before after : List SipHeader) × (hs ≡ before ++ h ∷ after)
    × Unnamed name before
    × (h.name ≡ name)

find_header_in-IsFirst :
    (name : Bytes) (hs : List SipHeader) (h : SipHeader)
    → find_header_in hs name ≡ some h
    → IsFirst name hs h
unfolding find_header_in
find_header_in-IsFirst name [] h e = absurd (cc e)
find_header_in-IsFirst name (x ∷ hs) h e = elim (Bool-cases (equal x.name name)) [
  | inl hit ↦
      along_some (IsFirst name (x ∷ hs)) (rw hit at e) ([], hs, refl, tt, (equal_iff _ _).0 hit)
  | inr miss ↦
      let (before, after, p, q, r) = find_header_in-IsFirst name hs h (rw miss at e) in
      (x ∷ before, after, ap (◌∷◌ x) p, ((λ n. ground (arith, equal_iff x.name name)), q), r)
]

-- `find_header` returns a header exactly when it is the first of the message with that name: the
-- message has it, its name is that name, and every header before it has another name.
pub find_header_iff :
    (m : SipMessage) (name : Bytes) (h : SipHeader)
    → (find_header m name ≡ some h) ↔ IsFirst name m.headers h
find_header_iff m name h = (
  find_header_in-IsFirst name m.headers h,
  λ (before, after, e, v, n). rw e (find_header_in-append name before h after v n),
)

-- A value with an address in angle brackets: that address is what `get_address` returns, up to the
-- first closing bracket behind the first opening one.
pub get_address_angle :
    (name before address after : Bytes)
    → Avoids b'<' before
    → Avoids b'>' address
    → address ≢ []
    → get_address (record { name = name; value = before ++ b'<' ∷ (address ++ b'>' ∷ after) })
      ≡ some address
unfolding get_address
get_address_angle name before address after p q ne =
    rw (is_empty-append_cons, find_byte-append b'<' before (address ++ b'>' ∷ after) p, get_address)
      (rw (find_byte_from-append, find_byte-append b'>' address after q)
        (elim (Bool-cases (length before + 1 == length before + 1 + length address)) [
          | inl same ↦ absurd (ground (arith, ne))
          | inr apart ↦
              rw (apart, drop-length_next)
                (ap some (
                  ap (λ n. take n (address ++ b'>' ∷ after)) {y = length address} (omega arith)
                  ∙ take-length address _))
        ]))
