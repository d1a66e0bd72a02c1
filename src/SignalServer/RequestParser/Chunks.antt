-- ===== src/SignalServer/RequestParser/Chunks.antt =====
-- A request that arrives in pieces.
use webrtc_snippets.Common.{◌≡◌, refl, arith, [], ◌∷◌, ◌++◌}
use webrtc_snippets.Common.Bytes.{Bytes}
use webrtc_snippets.SignalServer.RequestParser.{
  Request, good, bad, indeterminate, ParserState, consume, Parsed, parse,
}

-- The parser goes on with more input where it wanted more, and leaves the input where it did not.
abbrev pub resume : Parsed → Bytes → Parsed
resume p more = elim p.step.result [
  | indeterminate ↦ parse p.step.state p.step.request more
  | good ↦ record p { rest = p.rest ++ more }
  | bad ↦ record p { rest = p.rest ++ more }
]

-- Parsing two pieces one after the other, in the way the connection does with each read, gives the
-- result, the request and the unread input that parsing them as one text gives, from every state of
-- the parser.
pub parse-append :
    (s : ParserState) (r : Request) (a b : Bytes) → parse s r (a ++ b) ≡ resume (parse s r a) b
unfolding parse
parse-append s r [] b = refl
parse-append s r (c ∷ a) b =
    ground (arith, parse-append (consume s r c).state (consume s r c).request a b)
