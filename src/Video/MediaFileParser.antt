-- ===== src/Video/MediaFileParser.antt =====
-- video/MediaUtil.cpp and MediaUtil.h: the parser that writes the NAL units of dumped RTP packets to
-- a file. A result is `none` where the source reads or writes outside of its packet buffer, which
-- has no defined behaviour.
pub mod Stap
pub mod Fragments
pub mod Packet
mod Tests
use webrtc_snippets.Common.{
  ℕ, zero, suc, ◌+◌, ◌-◌, ◌*◌, ◌/◌, ◌%◌, ◌^◌, ◌≤◌, ◌<◌, ◌≡◌, ◌≢◌, ◌↔◌, ◌⊎◌, inl, inr, refl, sym, ap,
  ◌∙◌, subst, arith, tests, Bool, true, false, not, ◌&&◌, ◌||◌, Option, none, some, List, [], ◌∷◌,
  ◌++◌, map, append-nil, append_assoc, ◌==◌, ltb, leb, if◌then◌else◌, is_empty, length, get_elem?,
  drop, take, All, Bool-cases, Option-cases, guard, ◌>>=◌, ◌>>◌, >>=-eq-some, along_some, along_if,
  if_true, if_cases, ==_refl, ==_ne, ==_iff, length-append, take-append-drop, take-length,
  drop-length, drop-length_next, drop-add, drop-length-add, is_empty-append, is_empty-append_cons,
  take_all, All-append, length-take, length-drop, ltb→lt, lt→ltb, leb→le, replicate, is_none, every,
  every-lt,
}
use webrtc_snippets.Common.Bytes.{
  Bytes, concat, overwrite, codes, Avoids, find_byte, find_byte_from, find_text, starts_with,
  substr, equal, equal_iff, equal_refl,
}
use webrtc_snippets.Common.Bytes.Find.{
  find_byte-append, find_byte-Avoids, find_byte_cases, find_byte_from-append, find_text-Avoids,
  find_text-none,
}
use webrtc_snippets.Common.Bytes.Digits.{to_decimal}

-- `RtpInfo`, with its newest value of a key in front.
abbrev pub RtpInfo : Type 0
RtpInfo = List (Bytes × Bytes)

abbrev pub put : Bytes → ℕ → RtpInfo → RtpInfo
put key value info = (key, to_decimal value) ∷ info

pub record Nalu : Type 0 where
  pub buf : Bytes
  pub len : ℕ
  pub nal_ref_idc : ℕ
  pub nal_unit_type : ℕ

-- The members, with the packet buffer of `parse_stream`, what the output file holds, and how many
-- times a `NALU` has allocated its memory.
pub record MediaFileParser : Type 0 where
  pub pkt_buf : Bytes
  pub output : Bytes
  pub nalu_count : ℕ
  pub list_fu : List Nalu
  pub allocated : ℕ

abbrev pub start_code : Bytes
start_code = 0 ∷ 0 ∷ 0 ∷ 1 ∷ []

-- The bytes from an offset on, where the buffer has them.
unfoldable pub bytes_at : MediaFileParser → ℕ → ℕ → Option Bytes
bytes_at s p n = if leb (p + n) (length s.pkt_buf) then some (substr s.pkt_buf p n) else none

unfoldable pub byte_at : MediaFileParser → ℕ → Option ℕ
byte_at s p = get_elem? s.pkt_buf p

-- Numbers in network order.
unfoldable pub word_at : MediaFileParser → ℕ → Option ℕ
unfolding byte_at
word_at s p = do high ← byte_at s p; low ← byte_at s (p + 1); some (high * 256 + low)

unfoldable pub long_at : MediaFileParser → ℕ → Option ℕ
unfolding word_at
long_at s p = do high ← word_at s p; low ← word_at s (p + 2); some (high * 65536 + low)

unfoldable pub write_nalu : MediaFileParser → ℕ → ℕ → Option MediaFileParser
unfolding bytes_at
write_nalu s p len = do
  unit ← bytes_at s p len
  some (record s { output = s.output ++ start_code ++ unit; nalu_count = s.nalu_count + 1 })

-- The loop of `handle_stap`. It ends at three bytes left or less, and a negative number of bytes
-- left, which is 0 here, ends it too; each round takes two bytes or more.
unfoldable pub stap_loop : ℕ → MediaFileParser → ℕ → ℕ → Bytes → Option (MediaFileParser × Bytes)
unfolding word_at byte_at write_nalu
stap_loop zero s p left types = some (s, types)
stap_loop (suc fuel) s p left types = if leb left 3 then some (s, types) else (do
  size ← word_at s p
  header ← byte_at s (p + 2)
  t ← write_nalu s (p + 2) size
  stap_loop fuel t (p + (2 + size)) (left - (2 + size))
      (types ++ to_decimal (header % 32) ++ b' ' ∷ []))

unfoldable pub handle_stap : MediaFileParser → ℕ → ℕ → RtpInfo → Option (MediaFileParser × RtpInfo)
unfolding stap_loop
handle_stap s p len info = do
  (t, types) ← stap_loop len s (p + 1) len []
  some (t, (codes "subNalType", types) ∷ info)

-- The header that `merge_fu` writes: an or of numbers with no common bits, in a byte.
unfoldable pub merged_header : Nalu → ℕ
merged_header first = (first.nal_unit_type % 32 + first.nal_ref_idc * 2 ^ 5) % 256

abbrev pub buffers : List Nalu → Bytes
buffers [] = []
buffers (n ∷ nalus) = take n.len n.buf ++ buffers nalus

unfoldable pub merge_fu : MediaFileParser → MediaFileParser
unfolding merged_header
merge_fu s = elim s.list_fu [
  | [] ↦ s
  | first ∷ nalus ↦ record s {
    output = s.output ++ start_code ++ merged_header first ∷ buffers (first ∷ nalus);
    list_fu = [];
  }
]

-- The size of the header; the extension's size is read before the packet's length is looked at.
unfoldable pub header_size : MediaFileParser → ℕ → Option ℕ
unfolding word_at
header_size s first =
    let fixed = 12 + 4 * (first % 16) in
    if first / 16 % 2 == 1
    then (do words ← word_at s (fixed + 2); some (fixed + 4 + words * 4))
    else some fixed

-- What new memory holds before anything is written to it, by the number of the allocation and its
-- size: any function, so that two allocations of one size have nothing to do with each other, and
-- what a run finds in its memory, whatever that depends on, is one such function.
module _ (fresh : ℕ → ℕ → Bytes) where
  -- The constructor of `NALU` copies its new memory over the packet, at `p`.
  unfoldable pub new_nalu : MediaFileParser → ℕ → ℕ → ℕ → ℕ → Option (MediaFileParser × Nalu)
  new_nalu s p size nri type =
      let memory = fresh s.allocated size in
      if leb (p + size) (length s.pkt_buf)
      then some (
        record s { pkt_buf = overwrite p memory s.pkt_buf; allocated = s.allocated + 1 },
        record { buf = memory; len = size; nal_ref_idc = nri; nal_unit_type = type },
      )
      else none

  unfoldable pub handle_fu : MediaFileParser → ℕ → ℕ → RtpInfo → Option (MediaFileParser × RtpInfo)
  unfolding byte_at new_nalu merge_fu
  handle_fu s p len info = do
    indicator ← byte_at s p
    header ← byte_at s (p + 1)
    (t, nalu) ← new_nalu s (p + 1) len (indicator / 32 % 4 * 32) (header % 32)
    let pushed = record t { list_fu = t.list_fu ++ nalu ∷ [] }
    let start = header / 128 % 2
    let end = header / 64 % 2
    some (
      (if end == 1 then merge_fu pushed else pushed),
      put (codes "end") end
          (put (codes "start") start (put (codes "subNalType") (header % 32) info)),
    )

  unfoldable pub handle_nalu :
      MediaFileParser → ℕ → ℕ → RtpInfo → Option (MediaFileParser × RtpInfo)
  unfolding handle_stap handle_fu write_nalu byte_at
  handle_nalu s p len info = do
    header ← byte_at s p
    let type = header % 32
    let known = put (codes "nalType") type info
    if type == 24
        then handle_stap s p len known
        else if type == 28
        then handle_fu s p len known
        else (do t ← write_nalu s p len; some (t, known))

  -- With whether the packet is long enough.
  unfoldable pub handle_packet : MediaFileParser → ℕ → Option (MediaFileParser × RtpInfo × Bool)
  unfolding byte_at word_at long_at header_size handle_nalu
  handle_packet s len = do
    first ← byte_at s 0
    second ← byte_at s 1
    size ← header_size s first
    number ← word_at s 2
    time ← long_at s 4
    source ← long_at s 8
    let info = put (codes "m") (second / 128) (
        put (codes "x") (first / 16 % 2 * 16) (
          put (codes "cc") (first % 16) (
            put (codes "ssrc") source (
              put (codes "ts") time (
                put (codes "sn") number
                  (put (codes "size") len (put (codes "pt") (second % 128) [])))))))
    if leb len size
        then some (s, info, false)
        else (do (t, all) ← handle_nalu s size (len - size) info; some (t, all, true))
