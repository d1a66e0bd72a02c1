-- ===== src/Practice/Capture/Exact.antt =====
-- What a captured output is.
use webrtc_snippets.Common.{
  ℕ, zero, suc, ◌-◌, ◌≡◌, refl, sym, ap, ◌∙◌, arith, Bool, true, false, not, Option, none, some,
  List, [], ◌∷◌, ◌++◌, append-nil, append_assoc, leb, if◌then◌else◌, length, take, if_cases,
  take_all, leb→le,
}
use webrtc_snippets.Common.Bytes.{concat, Bytes}
use webrtc_snippets.Practice.Capture.{
  ExitCode, TestRunResult, maximum_output_bytes, append_output, read_available, running,
  interrupted, lost, finished, Poll, Captured, LoopResult, ended, child_lost, still_running,
  poll_loop, mark_truncated, finish_run, started, run_command,
}

abbrev pub keep : Bytes → Bytes
keep = take maximum_output_bytes

-- Everything that the child wrote up to the round that ends the loop.
abbrev pub goes_on : Poll → Bool
goes_on p = elim p.waited [
  | finished code ↦ false
  | interrupted ↦ true
  | lost ↦ false
  | running ↦ not p.overdue
]

abbrev pub written : List Poll → Bytes
written [] = []
written (p ∷ ps) = let rest = written ps in concat p.chunks ++ (if goes_on p then rest else [])

take-append_room :
    (n : ℕ) (s t : Bytes) → take n s ++ take (n - length (take n s)) t ≡ take n (s ++ t)
take-append_room zero s t = refl
take-append_room (suc n) [] t = ap (λ k. take k t) {y = suc n} (omega arith)
take-append_room (suc n) (x ∷ s) t =
    ap (λ k. x ∷ take n s ++ take k t) {y = n - length (take n s)} (omega arith)
    ∙ ap (◌∷◌ x) (take-append_room n s t)

append_output-keep : (s chunk : Bytes) → append_output (keep s) chunk ≡ keep (s ++ chunk)
unfolding append_output
append_output-keep s chunk =
    if_cases (λ x. x ≡ keep (s ++ chunk)) (leb maximum_output_bytes (length (keep s)))
      (λ full.
        sym (append-nil (keep s))
        ∙ ap (λ k. keep s ++ take k chunk) {x = 0}
            (ground (arith, leb→le maximum_output_bytes (length (keep s))))
        ∙ take-append_room maximum_output_bytes s chunk)
      (λ room. take-append_room maximum_output_bytes s chunk)

read_available-keep :
    (chunks : List Bytes) (s : Bytes) → read_available chunks (keep s) ≡ keep (s ++ concat chunks)
unfolding read_available
read_available-keep [] s = rw append-nil refl
read_available-keep (c ∷ cs) s =
    rw (append_output-keep s c)
      (read_available-keep cs (s ++ c) ∙ ap keep (append_assoc s c (concat cs)))

abbrev captured_of : LoopResult → Bytes
captured_of (ended c) = c.captured
captured_of child_lost = []
captured_of still_running = []

stops_here :
    (chunks : List Bytes) (s : Bytes) (finish : Option ExitCode) (c : Captured)
    → ended (record { finish = finish; captured = read_available chunks (keep s) }) ≡ ended c
    → c.captured ≡ keep (s ++ (concat chunks ++ []))
stops_here chunks s finish c e =
    sym (ap captured_of e)
    ∙ read_available-keep chunks s
    ∙ ap (λ t. keep (s ++ t)) (sym (append-nil (concat chunks)))

goes_further :
    (chunks : List Bytes) (ps : List Poll) (s : Bytes) (c : Captured)
    → (poll_loop ps (keep (s ++ concat chunks)) ≡ ended c
        → c.captured ≡ keep ((s ++ concat chunks) ++ written ps))
    → poll_loop ps (read_available chunks (keep s)) ≡ ended c
    → c.captured ≡ keep (s ++ (concat chunks ++ written ps))
goes_further chunks ps s c h e =
    h (ap (poll_loop ps) (sym (read_available-keep chunks s)) ∙ e)
    ∙ ap keep (append_assoc s (concat chunks) (written ps))

poll_loop-keep :
    (polls : List Poll) (s : Bytes) (c : Captured)
    → poll_loop polls (keep s) ≡ ended c
    → c.captured ≡ keep (s ++ written polls)
unfolding poll_loop
poll_loop-keep [] s c e = absurd (ground arith)
poll_loop-keep (p ∷ ps) s c e =
    elim p.waited
        as (λ w.
          poll_loop (record p { waited = w } ∷ ps) (keep s) ≡ ended c
          → c.captured ≡ keep (s ++ written (record p { waited = w } ∷ ps))) [
            | finished code ↦ λ e. stops_here p.chunks s (some code) c e
            | interrupted ↦
                λ e. goes_further p.chunks ps s c (poll_loop-keep ps (s ++ concat p.chunks) c) e
            | lost ↦ λ e. absurd (ground (arith, e))
            | running ↦ λ e.
                elim p.overdue
                    as (λ b.
                      poll_loop (record p { waited = running; overdue = b } ∷ ps) (keep s) ≡ ended c
                      → c.captured
                        ≡ keep (s ++ written (record p { waited = running; overdue = b } ∷ ps))) [
                          | true ↦ λ e. stops_here p.chunks s none c e
                          | false ↦ λ e.
                              goes_further p.chunks ps s c
                                (poll_loop-keep ps (s ++ concat p.chunks) c) e
                        ]
                  e
          ]
      e

abbrev output_of : Option TestRunResult → Bytes
output_of none = []
output_of (some r) = r.output

finish_run-output :
    (c : Captured) (rest : List Bytes) (elapsed : ℕ)
    → output_of (finish_run (ended c) rest elapsed)
      ≡ mark_truncated (read_available rest c.captured)
unfolding finish_run
finish_run-output c rest elapsed =
    elim c.finish
      as (λ f.
        output_of (finish_run (ended (record c { finish = f })) rest elapsed)
        ≡ mark_truncated (read_available rest c.captured)) [ none ↦ refl | some code ↦ refl ]

-- A child that ends, or is killed for its time, leaves in the result the first 64 KiB of all that it
-- wrote, up to the end of the loop and in the pipe behind it, with the note where that is just full.
pub run_command_output :
    (polls : List Poll) (rest : List Bytes) (elapsed : ℕ) (c : Captured) (r : TestRunResult)
    → poll_loop polls [] ≡ ended c
    → run_command (started polls rest elapsed) ≡ some r
    → r.output ≡ mark_truncated (keep (written polls ++ concat rest))
unfolding run_command
run_command_output polls rest elapsed c r e f =
    sym (ap output_of f)
    ∙ ap (λ l. output_of (finish_run l rest elapsed)) e
    ∙ finish_run-output c rest elapsed
    ∙ ap mark_truncated (
        ap (read_available rest) (poll_loop-keep polls [] c (ap (poll_loop polls) keep_nothing ∙ e))
        ∙ read_available-keep rest (written polls))
  where
    keep_nothing : keep [] ≡ []
    keep_nothing = take_all maximum_output_bytes [] (omega arith)
