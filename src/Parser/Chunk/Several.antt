-- ===== src/Parser/Chunk/Several.antt =====
-- rtmpparser.cpp, parseMsgHeader at a message whose body is cut into chunks.
use tvie_rtmp.Base.{
  ℕ, suc, ◌+◌, ◌^◌, ◌≤◌, ◌<◌, ◌≡◌, refl, sym, ap, subst, ◌∙◌, true, false, none, some, List, [],
  ◌∷◌, ◌++◌, append-nil, append_assoc, length, length-append, IsBytes, arith, Bool-cases, inl, inr,
  ltb, ◌==◌,
}
use tvie_rtmp.Base.Int.{ℤ, pos, leb_ℤ, eq_ℤ}
use tvie_rtmp.Exception.{ok, M, ◌>>=◌, >>=-ok, then_do}
use tvie_rtmp.ReadBuffer.{read_bytes, unread_size}
use tvie_rtmp.ReadBuffer.View.{
  IsValid, unread, length-unread, read_bytes-Reads, prefix-IsValid, prefix_rest,
}
use tvie_rtmp.Message.{RtmpMsgHeader, minus_one}
use tvie_rtmp.Parser.{
  RtmpParser, StreamContext, context_of, put_stream_context, rd, on_msg_header_parsed,
  parse_msg_header_only, uses_context, apply_context, whole_length_left,
}
use tvie_rtmp.Parser.Times.{put-get}
use tvie_rtmp.Parser.Header.{rd-Takes, on_from, header, header_bytes, parse_msg_header_only-Takes}
use tvie_rtmp.Parser.Chunk.{
  append_open, open_msg, set_open_msg, push_open, allocate, allocate_body, parse_body_with,
  parse_chunks, parse_new, next_msg, parse_msg_header,
}
use tvie_rtmp.Parser.Chunk.Whole.{parse_msg_header-header_bytes}
use tvie_rtmp.Parser.Chunk.Pieces.{
  IsCut, whole, whole-nonempty, on_wire, length-on_wire, HasPlain, IsPlain, filled, opening,
  append_step, reassembled,
}

-- A header of type 0 is not changed by its context, and leaves a plain one behind.
parsed_type_zero_keeps :
    (mh : RtmpMsgHeader) (p : RtmpParser)
    → (mh.chunk_type == 0) ≡ true
    → eq_ℤ mh.extendted_timestamp minus_one ≡ true
    → IsPlain mh.chunk_stream_id p
    → (q : RtmpParser) × (on_msg_header_parsed mh p ≡ (ok (whole_length_left mh), q))
      × (q.rb ≡ p.rb)
      × IsPlain mh.chunk_stream_id q
unfolding on_msg_header_parsed apply_context
parsed_type_zero_keeps mh p h x plain = elim (Bool-cases (uses_context mh)) [
  | inl e ↦
      let sc : StreamContext = (apply_context mh (context_of mh p.stream_contexts)).1 in
      let id : ℕ = mh.chunk_stream_id in
      let kept : HasPlain (some sc) = rw h x in
      (
        record p { stream_contexts = put_stream_context id sc p.stream_contexts },
        rw (e, h) refl,
        refl,
        subst HasPlain (sym (put-get id sc p.stream_contexts)) kept,
      )
  | inr e ↦ (p, rw e refl, refl, plain)
]

-- A message of `n` bytes none of which is read yet.
abbrev unread_msg : RtmpMsgHeader → ℕ → RtmpMsgHeader
unread_msg mh n = record mh { length = pos n; body = none; un_parsed_size = pos n }

-- The second half of parseMsgHeader, where the body does not fit into one chunk.
several_body :
    (fuel size : ℕ) (hd : RtmpMsgHeader) (c d : List ℕ) (ds : List (List ℕ)) (rest : List ℕ)
    (p : RtmpParser)
    → length ds + 2 ≤ fuel
    → IsCut size c (d ∷ ds)
    → 2 ≤ hd.chunk_stream_id
    → hd.chunk_stream_id ≤ 10
    → IsPlain hd.chunk_stream_id p
    → IsValid p.rb
    → unread p.rb ≡ on_wire hd.chunk_stream_id c (d ∷ ds) ++ rest
    → let mh = unread_msg hd (length (whole c (d ∷ ds))) in
      (q : RtmpParser) × ((push_open mh >>= λ _. parse_body_with (parse_chunks fuel) (pos size)) p
        ≡ (ok (filled mh (whole c (d ∷ ds)) 0), q))
      × (unread q.rb ≡ rest)
unfolding parse_body_with push_open open_msg set_open_msg allocate allocate_body ◌>>=◌ then_do
several_body fuel size hd c d ds rest p enough cut lo hi plain v e =
    let id : ℕ = hd.chunk_stream_id in
    let k : ℕ = length (whole d ds) in
    let n : ℕ = length (c ++ whole d ds) in
    let mh : RtmpMsgHeader = unread_msg hd n in
    let sum : n ≡ length c + k = length-append {0} c (whole d ds) in
    let from_start : n ≡ 0 + (length c + k) = omega (arith, sum) in
    let some_left : 0 < k = whole-nonempty size d ds cut.1 in
    let big : leb_ℤ (pos n) (pos size) ≡ false = ground (arith, cut.0) in
    let left : List ℕ = (192 + id) ∷ (on_wire id d ds ++ rest) in
    let e0 : unread p.rb ≡ c ++ left = e ∙ append_assoc c ((192 + id) ∷ on_wire id d ds) rest in
    let now : RtmpParser = opening (filled mh [] n) p.open_msgs p in
    let taken : rd (read_bytes (pos size)) now ≡ (ok c, on_from (length c) now) =
      ap (λ s. rd (read_bytes (pos s)) now) (sym cut.0)
      ∙ (rd-Takes (read_bytes-Reads c)).run now left v e0 in
    let low : ltb 10 id ≡ false = ground arith in
    let appended : append_open 0 c (on_from (length c) now)
        ≡ (ok tt, opening (filled mh c k) p.open_msgs (on_from (length c) p)) =
      ap (λ j. append_open 0 c (opening (filled mh [] j) p.open_msgs (on_from (length c) p))) sum
      ∙ append_step mh [] c k p.open_msgs (on_from (length c) p) (ap pos from_start) in
    let (q, done, at_end) =
      reassembled fuel size mh c d ds p.open_msgs rest (on_from (length c) p) enough cut.1 lo
        (omega arith) (ap pos sum) plain (prefix-IsValid p.rb c left v e0)
        (prefix_rest p.rb c left v e0) in
    (q, rw (big) (rw (taken, then_do) (rw (appended, then_do) (rw low done))), at_end)

module _ (a b c d : ℕ) (bytes : IsBytes (a ∷ b ∷ c ∷ d ∷ [])) where
  -- A message in several chunks, with a header of type 0 on a chunk stream from 2 to 10 and with a
  -- timestamp below 0xffffff, whose further chunks come one behind the other, each behind a header of
  -- type 3: parseMsgHeader returns it with its fields and its whole body, nothing left to parse, and takes
  -- its bytes and no more, whatever follows them. No other message may be waiting in the parser, and the
  -- chunk stream may have no extended timestamp from an earlier message.
  pub parse_msg_header-on_wire :
      (size id timestamp type_id : ℕ) (first second : List ℕ) (others : List (List ℕ))
      (rest : List ℕ) (p : RtmpParser)
      → 2 ≤ id
      → id ≤ 10
      → timestamp < 0x00ffffff
      → length (whole first (second ∷ others)) < 2 ^ 24
      → IsCut size first (second ∷ others)
      → IsPlain id p
      → IsValid p.rb
      → p.msgs_buffer ≡ []
      → unread p.rb
        ≡ header_bytes id timestamp
            (length (whole first (second ∷ others)))
            type_id
            (a ∷ b ∷ c ∷ d ∷ [])
          ++ (on_wire id first (second ∷ others) ++ rest)
      → (q : RtmpParser) × (parse_msg_header (pos size) p ≡ (
        ok
            (record (header id timestamp
              (length (whole first (second ∷ others)))
              type_id
              (a ∷ b ∷ c ∷ d ∷ [])) {
                body = some (whole first (second ∷ others));
                un_parsed_size = pos 0;
              }),
        q,
      ))
        × (unread q.rb ≡ rest)
  unfolding parse_msg_header next_msg parse_new ◌>>=◌ then_do
  parse_msg_header-on_wire size id timestamp type_id first second others rest p lo hi ht hl cut
        plain v none_left e =
      let body : List ℕ = first ++ whole second others in
      let bs : List ℕ = header_bytes id timestamp (length body) type_id (a ∷ b ∷ c ∷ d ∷ []) in
      let mh : RtmpMsgHeader = header id timestamp (length body) type_id (a ∷ b ∷ c ∷ d ∷ []) in
      let chunks : List ℕ = on_wire id first (second ∷ others) ++ rest in
      let p1 : RtmpParser = record p { open_msgs = [] } in
      let p2 : RtmpParser = on_from 12 p1 in
      let loop : ℤ → M RtmpParser RtmpMsgHeader = parse_chunks (suc (unread_size p.rb)) in
      let head : parse_msg_header_only p1 ≡ (ok mh, p2) =
        (parse_msg_header_only-Takes a b c d bytes id timestamp (length body) type_id lo
            (omega arith) ht hl).run
          p1 chunks v e in
      let v2 : IsValid p2.rb = prefix-IsValid p.rb bs chunks v e in
      let e2 : unread p2.rb ≡ chunks = prefix_rest p.rb bs chunks v e in
      let (p3, parsed, same, plain3) = parsed_type_zero_keeps mh p2 refl refl plain in
      let enough : length others + 2 ≤ suc (unread_size p.rb) = omega (
        arith,
        length-unread p.rb v,
        ap (λ (l : List ℕ). length l) e,
        length-append {0} bs chunks,
        length-append {0} (on_wire id first (second ∷ others)) rest,
        length-on_wire id first (second ∷ others),
      ) in
      let (q, done, at_end) =
        several_body (suc (unread_size p.rb)) size mh first second others rest p3 enough cut lo hi
          plain3 (subst IsValid (sym same) v2) (ap unread same ∙ e2) in
      (
        q,
        ap (λ l. next_msg (pos size) l p) none_left
            ∙ >>=-ok parse_msg_header_only
                (λ h. on_msg_header_parsed h >>= λ h'.
                  push_open h' >>= λ _. parse_body_with loop (pos size))
                p1 head
            ∙ >>=-ok (on_msg_header_parsed mh)
                (λ h'. push_open h' >>= λ _. parse_body_with loop (pos size)) p2 parsed
            ∙ done
            ∙ ap (λ l. (ok (record mh { body = some l; un_parsed_size = pos 0 }), q))
                (append-nil body),
        at_end,
      )

  -- The same for a message in any number of chunks.
  pub parse_msg_header-IsCut :
      (size id timestamp type_id : ℕ) (first : List ℕ) (others : List (List ℕ)) (rest : List ℕ)
      (p : RtmpParser)
      → 2 ≤ id
      → id ≤ 10
      → timestamp < 0x00ffffff
      → length (whole first others) < 2 ^ 24
      → IsCut size first others
      → IsPlain id p
      → IsValid p.rb
      → p.msgs_buffer ≡ []
      → unread p.rb
        ≡ header_bytes id timestamp (length (whole first others)) type_id (a ∷ b ∷ c ∷ d ∷ [])
          ++ (on_wire id first others ++ rest)
      → (q : RtmpParser) × (parse_msg_header (pos size) p ≡ (
        ok
            (record (header id timestamp
              (length (whole first others))
              type_id
              (a ∷ b ∷ c ∷ d ∷ [])) { body = some (whole first others); un_parsed_size = pos 0 }),
        q,
      ))
        × (unread q.rb ≡ rest)
  parse_msg_header-IsCut size id timestamp type_id first [] rest p lo hi ht hl cut plain v none_left
        e =
      parse_msg_header-header_bytes a b c d bytes size id timestamp type_id first rest p lo
        (omega arith) ht hl cut.1 v none_left e
  parse_msg_header-IsCut size id timestamp type_id first (second ∷ others) rest p lo hi ht hl cut
        plain v none_left e =
      parse_msg_header-on_wire size id timestamp type_id first second others rest p lo hi ht hl cut
        plain v none_left e
