-- ===== src/Practice/Catalog/Entries.antt =====
-- basic/src/catalog.cpp: the thirty exercises that `catalog` lists.
use webrtc_snippets.Common.{ℕ, some, List, [], ◌∷◌, ◌++◌}
use webrtc_snippets.Common.Bytes.{codes}
use webrtc_snippets.Practice.Catalog.{Exercise, Run, CheckResult, not_implemented}
use webrtc_snippets.Common.Bytes.Digits.{to_decimal}
use Prim.Native.String.{String}

abbrev pub acceptance_todo : ℕ → CheckResult
acceptance_todo day = record {
  state = not_implemented;
  detail =
      codes "Add the Given/When/Then cases for Day "
      ++ to_decimal day
      ++ codes " to tests/acceptance_test.cpp.";
}

-- The bodies of the exercises are a parameter.
module _ (solution : ℕ → Run) where
  abbrev entry : ℕ → String → String → String → String → String → String → String → Exercise
  entry day slug title difficulty estimate cpp_topics rtc_topics summary = record {
    day = day;
    slug = codes slug;
    title = codes title;
    difficulty = codes difficulty;
    estimate = codes estimate;
    cpp_topics = codes cpp_topics;
    rtc_topics = codes rtc_topics;
    summary = codes summary;
    run = some (solution day);
    check = some (acceptance_todo day);
  }

  abbrev pub catalog : List Exercise
  catalog =
      entry 1 "sip-request-line" "Parse SIP Request-Line" "starter" "45 min"
        "C++20: string_view, optional, value types" "SIP method, Request-URI, version"
        "Split a teaching-sized SIP request line without allocating tokens."
      ∷ entry 2 "sip-headers" "Model SIP Header List" "starter" "45 min"
          "C++17: struct, vector, structured bindings" "SIP header fields and duplicates"
          "Represent repeated header names while preserving input order."
      ∷ entry 3 "sip-transaction" "Find SIP Transactions" "intermediate" "75 min"
          "C++17: value types, algorithms, optionals"
          "RFC 3261 transaction identifiers, retransmissions, ACK/CANCEL"
          "Group a series of SIP messages into transactions without confusing Call-ID with the transaction key."
      ∷ entry 4 "sip-dialog" "Find SIP Dialogs" "intermediate" "75 min"
          "C++17: value types, canonical keys, algorithms"
          "RFC 3261 Call-ID/tags, early dialogs, confirmed dialogs, forking"
          "Identify multiple dialogs in a SIP message series, including forked early dialogs and reverse-direction messages."
      ∷ entry 5 "sip-router" "Find SIP Route Paths" "advanced" "90 min"
          "C++17: owned state, ordered containers, string parsing"
          "RFC 3261 Record-Route, Route, Contact, loose and strict routing"
          "Derive deterministic route paths for several dialogs without opening sockets or resolving network destinations."
      ∷ entry 6 "via-routing" "Via Routing Parameters" "starter" "60 min"
          "C++20: string_view, optional, owned values" "RFC 3261 Via parameters, RFC 3581 rport"
          "Parse one Via hop and validate routing parameters without network I/O."
      ∷ entry 7 "registration-bindings" "Manage Registration Bindings" "starter" "60 min"
          "C++20: owning containers, lookup/update, sorting"
          "RFC 3261 REGISTER, AOR, Contact expiry"
          "Maintain Contact bindings for an AOR with refresh and wildcard removal."
      ∷ entry 8 "response-capabilities" "Classify SIP Responses and Capabilities" "starter" "45 min"
          "C++20: constexpr lookup, array, enum classification"
          "SIP response classes, Supported/Require option tags"
          "Classify teaching status codes and check required extensions."
      ∷ entry 9 "offer-answer" "Validate an Offer/Answer" "intermediate" "75 min"
          "C++20: nested value types, algorithms, optional" "RFC 3264 Offer/Answer media rules"
          "Validate a session-level answer against an offer without parsing SDP text."
      ∷ entry 10 "reliable-provisional" "Match Reliable Provisional Responses" "intermediate"
          "60 min" "C++20: bounded parsing, numeric validation, matching"
          "RFC 3262 100rel, RSeq, RAck, PRACK"
          "Decide when PRACK is required and match RAck identifiers."
      ∷ entry 11 "invite-transaction" "Model the INVITE Transaction" "intermediate" "75 min"
          "C++20: scoped enums, switch, invalid transitions"
          "INVITE transaction states, RFC 6026 Accepted, ACK ownership"
          "Apply only the documented INVITE transitions and ACK ownership rules."
      ∷ entry 12 "session-refresh" "Negotiate Session Refresh" "intermediate" "75 min"
          "C++20: chrono, variant, optional roles"
          "RFC 4028 Session-Expires, RFC 3311 UPDATE, glare"
          "Negotiate session timers and decide when a refresh is due."
      ∷ entry 13 "events-transfer" "Track Events and Transfer" "intermediate" "75 min"
          "C++20: composite keys, owned registry, exact matching"
          "RFC 6665 SUBSCRIBE/NOTIFY, RFC 3515 REFER, RFC 3891 Replaces"
          "Track subscription state and match Replaces without executing a transfer."
      ∷ entry 14 "protocol-errors" "Propagate SIP Protocol Errors" "intermediate" "60 min"
          "C++20: variant, exception containment, numeric validation"
          "Typed parse/validation failures and diagnostic codes"
          "Return typed protocol errors at a SIP parsing boundary."
      ∷ entry 15 "rtp-header-codec" "Encode and Decode an RTP Header" "intermediate" "75 min"
          "C++17: byte, fixed-width integers, bit operations" "RTP V/P/X/CC/M/PT and SSRC"
          "Safely process a bounded teaching RTP header."
      ∷ entry 16 "rtp-packet-view" "Create a Zero-Copy RTP View" "intermediate" "60 min"
          "C++20: span, const correctness" "RTP header and payload boundaries"
          "Expose packet regions without extending input lifetime."
      ∷ entry 17 "sequence-unwrap" "Unwrap RTP Sequence Numbers" "intermediate" "60 min"
          "C++17: integer boundaries, immutable values" "RTP 16-bit rollover"
          "Track an extended sequence across a documented rollover policy."
      ∷ entry 18 "rtcp-statistics" "Compute RTCP Receiver Statistics" "intermediate" "75 min"
          "C++17: numeric algorithms, accumulate" "RTCP loss, jitter, LSR/DLSR"
          "Calculate only the metrics defined by fixed test vectors."
      ∷ entry 19 "jitter-buffer" "Build a Simplified Jitter Buffer" "intermediate" "75 min"
          "C++17: ordered containers, move, emplace" "Packet reordering and lateness"
          "Buffer a small ordered packet set without real-time I/O."
      ∷ entry 20 "packet-queue" "Build a Stoppable Packet Queue" "advanced" "90 min"
          "C++20: jthread, stop_token, condition_variable" "Media producer/consumer pipeline"
          "Coordinate a bounded queue with a testable stop path."
      ∷ entry 21 "ice-checks" "Run Parallel ICE Checks" "advanced" "75 min"
          "C++17: async, future, timeout" "ICE candidate-pair checks"
          "Model fixed local check results; never open sockets."
      ∷ entry 22 "rtp-stats" "Snapshot Atomic RTP Statistics" "advanced" "60 min"
          "C++17: atomics, memory ordering" "RTP packet and byte counters"
          "Produce a consistent teaching snapshot under bounded contention."
      ∷ entry 23 "sdp-media-sections" "Parse SDP Media Sections" "advanced" "75 min"
          "C++20: ranges, views, string_view" "SDP m= and a= lines"
          "Parse a deliberately narrow SDP subset."
      ∷ entry 24 "codec-negotiation" "Negotiate Codecs" "advanced" "75 min"
          "C++20: ranges, set algorithms, projections" "RTP payload types, rtpmap, fmtp"
          "Choose a compatible codec using fixed offers and answers."
      ∷ entry 25 "ice-candidate-rank" "Rank ICE Candidates" "advanced" "60 min"
          "C++20: three-way comparison, stable_sort" "ICE priority and component"
          "Order candidates deterministically from static data."
      ∷ entry 26 "dtls-fingerprint" "Validate a DTLS Fingerprint" "advanced" "60 min"
          "C++20: ranges, validated types" "DTLS fingerprint syntax"
          "Validate only the textual form, not cryptographic authenticity."
      ∷ entry 27 "srtp-replay-window" "Track an SRTP Replay Window" "advanced" "90 min"
          "C++17: bitset, bit operations, unsigned arithmetic" "SRTP replay defense"
          "Implement a teaching replay-window policy with fixed vectors."
      ∷ entry 28 "datachannel-reassembly" "Reassemble DataChannel Fragments" "advanced" "90 min"
          "C++17: map, unordered_map, variant" "DataChannel message fragments"
          "Reassemble in-memory fragments under a stated policy."
      ∷ entry 29 "signaling-coroutine" "Sequence Signaling with Coroutines" "advanced" "90 min"
          "C++20: coroutine, awaiter, exception propagation" "offer/answer and ICE events"
          "Model a deterministic in-process signaling sequence."
      ∷ entry 30 "peer-connection-state" "Orchestrate PeerConnection State" "advanced" "90 min"
          "C++20: concepts, generic observer, RAII" "signaling, ICE, and connection state"
          "Compose a small, local PeerConnection state model."
      ∷ []
