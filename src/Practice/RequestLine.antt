-- ===== src/Practice/RequestLine.antt =====
-- The three fields of a SIP request line: `split_space` of basic/src/sip_message.cpp and
-- `parse_request_line` of basic/exercises/01_sip_request_line/starter.cpp.
pub mod Exact
use webrtc_snippets.Common.{
  is_none, ℕ, ◌+◌, ◌-◌, ◌≡◌, ◌≢◌, refl, Bool, true, false, not, ◌&&◌, ◌||◌, Option, none, some, [],
  ◌∷◌, ◌++◌, ◌==◌, if◌then◌else◌, drop, is_empty, guard, ◌>>=◌, ◌>>◌,
}
use webrtc_snippets.Common.Bytes.{Bytes, codes, Avoids, find_byte, find_byte_from, substr, equal}

abbrev pub sip_version : Bytes
sip_version = codes "SIP/2.0"

pub record Fields : Type 0 where
  pub method : Bytes
  pub uri : Bytes
  pub version : Bytes

-- The three results of `split_space`, where it returns true.
unfoldable pub split_space : Bytes → Option Fields
split_space line = do
  first ← find_byte b' ' line
  second ← find_byte_from b' ' line (first + 1)
  guard (is_none (find_byte_from b' ' line (second + 1)))
  let a = substr line 0 first
  let b = substr line (first + 1) (second - first - 1)
  let c = drop (second + 1) line
  guard (not (is_empty a) && not (is_empty b) && not (is_empty c))
  some (record { method = a; uri = b; version = c })

unfoldable pub parse_request_line : Bytes → Option Fields
unfolding equal
parse_request_line input = do
  guard (not (is_empty input))
  space1 ← find_byte b' ' input
  guard (not (space1 == 0))
  space2 ← find_byte_from b' ' input (space1 + 1)
  guard (not (space2 == space1 + 1))
  guard (is_none (find_byte_from b' ' input (space2 + 1)))
  let method = substr input 0 space1
  let uri = substr input (space1 + 1) (space2 - space1 - 1)
  let version = drop (space2 + 1) input
  guard (not (is_empty method || is_empty uri || not (equal version sip_version)))
  some (record { method = method; uri = uri; version = version })
