-- ===== src/SignalServer/RequestParser/Runs.antt =====
-- The parser over one piece of a request, with any `rest` behind it.
use webrtc_snippets.Common.{
  ℕ, ◌≡◌, ◌≢◌, refl, ap, ◌∙◌, arith, true, false, List, [], ◌∷◌, ◌++◌, append-nil, append_assoc,
  All,
}
use webrtc_snippets.Common.Bytes.{Bytes, Avoids}
use webrtc_snippets.SignalServer.RequestParser.{
  Header, Request, consume, parse, is_token, is_ctl, is_digit, on_last, push_name, push_value,
  push_digit, in_method, in_uri, http_version_major, http_version_minor, header_name, header_value,
}
use webrtc_snippets.SignalServer.RequestParser.Safe.{IsToken, IsText}

abbrev pub IsDigits : Bytes → Type 0
IsDigits = All (λ c. is_digit c ≡ true)

-- The number that the parser makes of digits, modulo 2 ^ 32.
abbrev pub digits_value : ℕ → Bytes → ℕ
digits_value v [] = v
digits_value v (c ∷ ds) = digits_value (push_digit v c) ds

module _ (rest : Bytes) where
  step_method :
      (r : Request) (c : ℕ)
      → is_token c ≡ true
      → parse in_method r (c ∷ rest)
        ≡ parse in_method (record r { method = r.method ++ c ∷ [] }) rest
  unfolding parse consume is_token
  step_method r c t = ground arith

  step_uri :
      (r : Request) (c : ℕ)
      → is_ctl c ≡ false
      → c ≢ b' '
      → parse in_uri r (c ∷ rest) ≡ parse in_uri (record r { uri = r.uri ++ c ∷ [] }) rest
  unfolding parse consume
  step_uri r c t n = ground arith

  step_major :
      (r : Request) (c : ℕ)
      → is_digit c ≡ true
      → parse http_version_major r (c ∷ rest)
        ≡ parse http_version_major
            (record r { http_version_major = push_digit r.http_version_major c })
            rest
  unfolding parse consume is_digit
  step_major r c t = ground arith

  step_minor :
      (r : Request) (c : ℕ)
      → is_digit c ≡ true
      → parse http_version_minor r (c ∷ rest)
        ≡ parse http_version_minor
            (record r { http_version_minor = push_digit r.http_version_minor c })
            rest
  unfolding parse consume is_digit
  step_minor r c t = ground arith

  step_name :
      (r : Request) (c : ℕ)
      → is_token c ≡ true
      → parse header_name r (c ∷ rest)
        ≡ parse header_name (record r { headers = on_last (push_name c) r.headers }) rest
  unfolding parse consume is_token
  step_name r c t = ground arith

  step_value :
      (r : Request) (c : ℕ)
      → is_ctl c ≡ false
      → parse header_value r (c ∷ rest)
        ≡ parse header_value (record r { headers = on_last (push_value c) r.headers }) rest
  unfolding parse consume is_ctl
  step_value r c t = ground arith

pub run_method :
    (m : Bytes) (r : Request) (rest : Bytes)
    → IsToken m
    → parse in_method r (m ++ rest) ≡ parse in_method (record r { method = r.method ++ m }) rest
run_method [] r rest t = rw append-nil
run_method (c ∷ m) r rest t =
    step_method (m ++ rest) r c t.0
    ∙ run_method m (record r { method = r.method ++ c ∷ [] }) rest t.1
    ∙ rw append_assoc

pub run_uri :
    (u : Bytes) (r : Request) (rest : Bytes)
    → IsText u
    → Avoids b' ' u
    → parse in_uri r (u ++ rest) ≡ parse in_uri (record r { uri = r.uri ++ u }) rest
run_uri [] r rest t n = rw append-nil
run_uri (c ∷ u) r rest t n =
    step_uri (u ++ rest) r c t.0 n.0
    ∙ run_uri u (record r { uri = r.uri ++ c ∷ [] }) rest t.1 n.1
    ∙ rw append_assoc

pub run_major :
    (ds : Bytes) (r : Request) (rest : Bytes)
    → IsDigits ds
    → parse http_version_major r (ds ++ rest)
      ≡ parse http_version_major
          (record r { http_version_major = digits_value r.http_version_major ds })
          rest
run_major [] r rest t = refl
run_major (c ∷ ds) r rest t =
    step_major (ds ++ rest) r c t.0
    ∙ run_major ds (record r { http_version_major = push_digit r.http_version_major c }) rest t.1

pub run_minor :
    (ds : Bytes) (r : Request) (rest : Bytes)
    → IsDigits ds
    → parse http_version_minor r (ds ++ rest)
      ≡ parse http_version_minor
          (record r { http_version_minor = digits_value r.http_version_minor ds })
          rest
run_minor [] r rest t = refl
run_minor (c ∷ ds) r rest t =
    step_minor (ds ++ rest) r c t.0
    ∙ run_minor ds (record r { http_version_minor = push_digit r.http_version_minor c }) rest t.1

on_last-append :
    (f : Header → Header) (hs : List Header) (h : Header)
    → on_last f (hs ++ h ∷ []) ≡ hs ++ f h ∷ []
on_last-append f [] h = refl
on_last-append f (x ∷ []) h = refl
on_last-append f (x ∷ y ∷ hs) h = ap (◌∷◌ x) (on_last-append f (y ∷ hs) h)

abbrev pub last_header : Request → List Header → Bytes → Bytes → Request
last_header r hs name value = record r {
  headers = hs ++ record { name = name; value = value } ∷ [];
}

pub run_name :
    (n : Bytes) (r : Request) (hs : List Header) (name value rest : Bytes)
    → IsToken n
    → parse header_name (last_header r hs name value) (n ++ rest)
      ≡ parse header_name (last_header r hs (name ++ n) value) rest
run_name [] r hs name value rest t = rw append-nil
run_name (c ∷ n) r hs name value rest t =
    step_name (n ++ rest) (last_header r hs name value) c t.0
    ∙ ap (λ hs'. parse header_name (record r { headers = hs' }) (n ++ rest))
        (on_last-append (push_name c) hs (record { name = name; value = value }))
    ∙ run_name n r hs (name ++ c ∷ []) value rest t.1
    ∙ rw append_assoc

pub run_value :
    (u : Bytes) (r : Request) (hs : List Header) (name value rest : Bytes)
    → IsText u
    → parse header_value (last_header r hs name value) (u ++ rest)
      ≡ parse header_value (last_header r hs name (value ++ u)) rest
run_value [] r hs name value rest t = rw append-nil
run_value (c ∷ u) r hs name value rest t =
    step_value (u ++ rest) (last_header r hs name value) c t.0
    ∙ ap (λ hs'. parse header_value (record r { headers = hs' }) (u ++ rest))
        (on_last-append (push_value c) hs (record { name = name; value = value }))
    ∙ run_value u r hs name (value ++ c ∷ []) rest t.1
    ∙ rw append_assoc
