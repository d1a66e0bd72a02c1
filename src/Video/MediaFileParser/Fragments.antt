-- ===== src/Video/MediaFileParser/Fragments.antt =====
-- What is written of a unit that came in fragments.
use webrtc_snippets.Common.{
  ℕ, ◌+◌, ◌*◌, ◌/◌, ◌%◌, ◌≤◌, ◌≡◌, refl, sym, ap, ◌∙◌, subst, arith, Bool, true, false, Option,
  some, List, [], ◌∷◌, ◌++◌, append_assoc, ◌==◌, leb, if◌then◌else◌, length, get_elem?, drop, take,
  All, ◌>>=◌, length-append, get_elem?-append, take_all,
}
use webrtc_snippets.Common.Bytes.{Bytes, overwrite, codes}
use webrtc_snippets.Common.Bytes.Overwrite.{length-overwrite}
use webrtc_snippets.Video.MediaFileParser.{
  MediaFileParser, Nalu, RtpInfo, put, start_code, byte_at, merged_header, buffers, merge_fu,
  new_nalu, handle_fu,
}

-- A fragment in its packet, behind the packet's header.
pub record Fragment : Type 0 where
  pub rtp : Bytes
  pub indicator : ℕ
  pub header : ℕ
  pub payload : Bytes

abbrev pub packet : Fragment → Bytes
packet f = f.rtp ++ (f.indicator ∷ f.header ∷ f.payload)

abbrev pub fragment_length : Fragment → ℕ
fragment_length f = 2 + length f.payload

-- The packet has been read into the packet buffer.
abbrev pub load : MediaFileParser → Fragment → MediaFileParser
load s f = record s { pkt_buf = overwrite 0 (packet f) s.pkt_buf }

abbrev pub is_last : Fragment → Bool
is_last f = f.header / 64 % 2 == 1

abbrev pub reported : Fragment → RtpInfo → RtpInfo
reported f info =
    put (codes "end") (f.header / 64 % 2)
      (put (codes "start") (f.header / 128 % 2) (put (codes "subNalType") (f.header % 32) info))

byte_in :
    (s : MediaFileParser) (f : Fragment) (n : ℕ)
    → get_elem? (load s f).pkt_buf (length f.rtp + n)
      ≡ get_elem? (f.indicator ∷ f.header ∷ f.payload ++ drop (0 + length (packet f)) s.pkt_buf) n
unfolding overwrite
byte_in s f n =
    ap (λ l. get_elem? l (length f.rtp + n))
      (append_assoc f.rtp (f.indicator ∷ f.header ∷ f.payload)
        (drop (0 + length (packet f)) s.pkt_buf))
    ∙ get_elem?-append f.rtp _ n

module _ (fresh : ℕ → ℕ → Bytes) where
  -- With the number of its allocation.
  abbrev pub nalu_of : ℕ → Fragment → Nalu
  nalu_of k f = record {
    buf = fresh k (fragment_length f);
    len = fragment_length f;
    nal_ref_idc = f.indicator / 32 % 4 * 32;
    nal_unit_type = f.header % 32;
  }

  -- The packet buffer and the list after the fragment has been taken.
  abbrev pushed : MediaFileParser → Fragment → MediaFileParser
  pushed s f = record s {
    pkt_buf =
        overwrite (length f.rtp + 1) (fresh s.allocated (fragment_length f)) (load s f).pkt_buf;
    list_fu = s.list_fu ++ nalu_of s.allocated f ∷ [];
    allocated = s.allocated + 1;
  }

  handle_fu-load :
      (s : MediaFileParser) (f : Fragment) (info : RtpInfo)
      → length (packet f) + 1 ≤ length s.pkt_buf
      → handle_fu fresh (load s f) (length f.rtp) (fragment_length f) info
        ≡ some ((if is_last f then merge_fu (pushed s f) else pushed s f), reported f info)
  unfolding handle_fu byte_at new_nalu
  handle_fu-load s f info room =
      let long = length-overwrite 0 (packet f) s.pkt_buf (ground (arith, room)) in
      let whole = length-append f.rtp (f.indicator ∷ f.header ∷ f.payload) in
      let fits : leb (length f.rtp + 1 + fragment_length f) (length (load s f).pkt_buf) ≡ true =
        ground (arith, long, whole, room) in
      let first =
        ap (get_elem? (load s f).pkt_buf) {x = length f.rtp} {y = length f.rtp + 0} (omega arith)
        ∙ byte_in s f 0 in
      rw (first, byte_in s f 1, fits) refl

  -- The packets of a unit, one after the other; each is reported from nothing.
  abbrev pub handle_fragments : MediaFileParser → List Fragment → Option MediaFileParser
  handle_fragments s [] = some s
  handle_fragments s (f ∷ fragments) = do
    (t, info) ← handle_fu fresh (load s f) (length f.rtp) (fragment_length f) []
    handle_fragments t fragments

  -- What new memory held, for each fragment, from the number of an allocation on.
  abbrev pub garbage : ℕ → List Fragment → Bytes
  garbage k [] = []
  garbage k (f ∷ fragments) = fresh k (fragment_length f) ++ garbage (k + 1) fragments

  abbrev pub nalus_of : ℕ → List Fragment → List Nalu
  nalus_of k [] = []
  nalus_of k (f ∷ fragments) = nalu_of k f ∷ nalus_of (k + 1) fragments

  -- A fragment that is not the last one of its unit, and whose packet is smaller than the buffer.
  pub record IsInner (size : ℕ) (f : Fragment) : Type 0 where
    pub inner : is_last f ≡ false
    pub room : length (packet f) + 1 ≤ size

  buffers-append : (a b : List Nalu) → buffers (a ++ b) ≡ buffers a ++ buffers b
  buffers-append [] b = refl
  buffers-append (n ∷ a) b =
      ap (λ l. take n.len n.buf ++ l) (buffers-append a b)
      ∙ sym (append_assoc (take n.len n.buf) (buffers a) (buffers b))

  module _ (fresh_length : (k n : ℕ) → length (fresh k n) ≡ n) where
    length-pushed :
        (s : MediaFileParser) (f : Fragment)
        → length (packet f) + 1 ≤ length s.pkt_buf
        → length (pushed s f).pkt_buf ≡ length s.pkt_buf
    length-pushed s f room =
        let long = length-overwrite 0 (packet f) s.pkt_buf (ground (arith, room)) in
        let whole = length-append f.rtp (f.indicator ∷ f.header ∷ f.payload) in
        length-overwrite (length f.rtp + 1) (fresh s.allocated (fragment_length f))
          (load s f).pkt_buf
          (ground (arith, long, whole, room, fresh_length s.allocated (fragment_length f)))
        ∙ long

    inner_step :
        (s : MediaFileParser) (f : Fragment) (fragments : List Fragment)
        → IsInner (length s.pkt_buf) f
        → handle_fragments s (f ∷ fragments) ≡ handle_fragments (pushed s f) fragments
    inner_step s f fragments v = rw (handle_fu-load s f [] v.room, v.inner) refl

    last_step :
        (s : MediaFileParser) (f : Fragment)
        → is_last f ≡ true
        → length (packet f) + 1 ≤ length s.pkt_buf
        → handle_fragments s (f ∷ []) ≡ some (merge_fu (pushed s f))
    last_step s f last room = rw (handle_fu-load s f [] room, last) refl

    merge_fu-output :
        (s : MediaFileParser) (b : Bytes) (k : ℕ) (nalus : List Nalu)
        → (merge_fu (record s { pkt_buf = b; list_fu = nalus; allocated = k })).output
          ≡ (merge_fu (record s { list_fu = nalus })).output
    unfolding merge_fu
    merge_fu-output s b k [] = refl
    merge_fu-output s b k (n ∷ nalus) = refl

    merge_fu-list_fu :
        (s : MediaFileParser) (k : ℕ) (nalus : List Nalu)
        → (merge_fu (record s { list_fu = nalus; allocated = k })).list_fu ≡ []
    unfolding merge_fu
    merge_fu-list_fu s k [] = refl
    merge_fu-list_fu s k (n ∷ nalus) = refl

    -- What the last fragment makes the parser write.
    Merged : MediaFileParser → List Fragment → Type 0
    Merged s fragments =
        (t : MediaFileParser) × (handle_fragments s fragments ≡ some t)
        × (t.output
            ≡ (merge_fu
                (record s { list_fu = s.list_fu ++ nalus_of s.allocated fragments })).output)
        × (t.list_fu ≡ [])

    merged :
        (s : MediaFileParser) (inners : List Fragment) (last : Fragment)
        → All (IsInner (length s.pkt_buf)) inners
        → is_last last ≡ true
        → length (packet last) + 1 ≤ length s.pkt_buf
        → Merged s (inners ++ last ∷ [])
    unfolding Merged
    merged s [] last v e room = (
      merge_fu (pushed s last),
      last_step s last e room,
      merge_fu-output s (pushed s last).pkt_buf (s.allocated + 1)
          (s.list_fu ++ nalu_of s.allocated last ∷ []),
      merge_fu-list_fu (pushed s last) (s.allocated + 1)
          (s.list_fu ++ nalu_of s.allocated last ∷ []),
    )
    merged s (f ∷ inners) last (v, vs) e room =
        let size = length-pushed s f v.room in
        let (t, run, out, empty) =
          merged (pushed s f) inners last (subst (λ n. All (IsInner n) inners) (sym size) vs) e
            (ground (arith, size, room)) in
        (
          t,
          inner_step s f (inners ++ last ∷ []) v ∙ run,
          out
              ∙ merge_fu-output s (pushed s f).pkt_buf (s.allocated + 1) _
              ∙ ap (λ l. (merge_fu (record s { list_fu = l })).output)
                  (append_assoc s.list_fu (nalu_of s.allocated f ∷ [])
                    (nalus_of (s.allocated + 1) (inners ++ last ∷ []))),
          empty,
        )

    buffers-garbage :
        (k : ℕ) (fragments : List Fragment) → buffers (nalus_of k fragments) ≡ garbage k fragments
    buffers-garbage k [] = refl
    buffers-garbage k (f ∷ fragments) =
        ap (λ l. l ++ buffers (nalus_of (k + 1) fragments))
          (take_all (fragment_length f) (fresh k (fragment_length f))
            (ground (arith, fresh_length k (fragment_length f))))
        ∙ ap (λ l. fresh k (fragment_length f) ++ l) (buffers-garbage (k + 1) fragments)

    merged_header-nalu_of : (k : ℕ) (f : Fragment) → merged_header (nalu_of k f) ≡ f.header % 32
    unfolding merged_header
    merged_header-nalu_of k f = omega arith

    -- Of a unit that comes in two or more fragments, none of the bytes that the packets carry is
    -- written: the output gets a start code, a header byte with the type of the first fragment and
    -- no reference bits, whatever its indicator, and then what the memory that was allocated for
    -- each fragment, whatever it is, held.
    pub handle_fragments-garbage :
        (s : MediaFileParser) (first : Fragment) (inners : List Fragment) (last : Fragment)
        → s.list_fu ≡ []
        → All (IsInner (length s.pkt_buf)) (first ∷ inners)
        → is_last last ≡ true
        → length (packet last) + 1 ≤ length s.pkt_buf
        → (t : MediaFileParser) × (handle_fragments s (first ∷ inners ++ last ∷ []) ≡ some t)
          × (t.output
              ≡ s.output
                ++ start_code
                ++ (first.header % 32) ∷ garbage s.allocated (first ∷ inners ++ last ∷ []))
          × (t.list_fu ≡ [])
    unfolding Merged merge_fu
    handle_fragments-garbage s first inners last new v e room =
        let (t, run, out, empty) = merged s (first ∷ inners) last v e room in
        (
          t,
          run,
          out
              ∙ ap
                  (λ l.
                    (merge_fu (record s {
                      list_fu = l ++ nalus_of s.allocated (first ∷ inners ++ last ∷ []);
                    })).output)
                  new
              ∙ ap
                  (λ h.
                    s.output
                    ++ start_code
                    ++ h ∷ buffers (nalus_of s.allocated (first ∷ inners ++ last ∷ [])))
                  (merged_header-nalu_of s.allocated first)
              ∙ ap (λ l. s.output ++ start_code ++ (first.header % 32) ∷ l)
                  (buffers-garbage s.allocated (first ∷ inners ++ last ∷ [])),
          empty,
        )
