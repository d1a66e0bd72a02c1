-- ===== src/Common/Bytes/Overwrite.antt =====
-- Buffers that are written over.
use webrtc_snippets.Common.{
  ℕ, ◌+◌, ◌≤◌, ◌≡◌, ◌∙◌, arith, ◌++◌, length, drop, take, length-append, length-take, length-drop,
}
use webrtc_snippets.Common.Bytes.{Bytes, overwrite}

pub length-overwrite :
    (at : ℕ) (new old : Bytes)
    → at + length new ≤ length old
    → length (overwrite at new old) ≡ length old
unfolding overwrite
length-overwrite at new old p =
    let b = length-append (take at old) new in
    let c = length-take at old in
    let d = length-drop (at + length new) old in
    length-append (take at old ++ new) (drop (at + length new) old) ∙ omega arith
