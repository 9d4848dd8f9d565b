-- ===== src/Parser/Chunk/Whole.antt =====
-- rtmpparser.cpp, parseMsgHeader at a message that one chunk holds.
use tvie_rtmp.Base.{
  ℕ, suc, ◌^◌, ◌≤◌, ◌<◌, ◌≡◌, refl, sym, ap, subst, ◌∙◌, true, some, List, [], ◌∷◌, ◌++◌, length,
  IsBytes, arith, Bool-cases, inl, inr, ◌==◌,
}
use tvie_rtmp.Base.Int.{ℤ, pos, leb_ℤ}
use tvie_rtmp.Exception.{ok, M, ◌>>=◌, >>=-ok, then_do}
use tvie_rtmp.ReadBuffer.{advance, read_bytes, unread_size}
use tvie_rtmp.ReadBuffer.View.{IsValid, unread, read_bytes-Reads, prefix-IsValid, prefix_rest}
use tvie_rtmp.Message.{RtmpMsgHeader}
use tvie_rtmp.Parser.{
  RtmpParser, StreamContext, context_of, put_stream_context, rd, on_msg_header_parsed,
  parse_msg_header_only, uses_context, apply_context, whole_length_left,
}
use tvie_rtmp.Parser.Header.{rd-Takes, on_from, header, header_bytes, parse_msg_header_only-Takes}
use tvie_rtmp.Parser.Chunk.{
  open_msg, push_open, pop_open, parse_body_with, parse_chunks, parse_new, next_msg,
  parse_msg_header,
}

-- A header of type 0 is not changed by its context.
parsed_type_zero :
    (mh : RtmpMsgHeader) (p : RtmpParser)
    → (mh.chunk_type == 0) ≡ true
    → (q : RtmpParser) × (on_msg_header_parsed mh p ≡ (ok (whole_length_left mh), q))
      × (q.rb ≡ p.rb)
unfolding on_msg_header_parsed apply_context
parsed_type_zero mh p h = elim (Bool-cases (uses_context mh)) [
  | inl e ↦
      let sc : StreamContext = (apply_context mh (context_of mh p.stream_contexts)).1 in
      (
        record p { stream_contexts = put_stream_context mh.chunk_stream_id sc p.stream_contexts },
        rw (e, h) refl,
        refl,
      )
  | inr e ↦ (p, rw e refl, refl)
]

-- The second half of parseMsgHeader, where the body fits into the chunk.
whole_body :
    (loop : ℤ → M RtmpParser RtmpMsgHeader) (size : ℤ) (mh : RtmpMsgHeader) (body rest : List ℕ)
    (p : RtmpParser)
    → IsValid p.rb
    → mh.length ≡ pos (length body)
    → leb_ℤ mh.length size ≡ true
    → unread p.rb ≡ body ++ rest
    → (q : RtmpParser) × ((push_open mh >>= λ _. parse_body_with loop size) p
        ≡ (ok (record mh { body = some body; un_parsed_size = pos 0 }), q))
      × (q.rb ≡ advance (length body) p.rb)
unfolding parse_body_with push_open pop_open open_msg ◌>>=◌ then_do
whole_body loop size mh body rest p v len fits e =
    let opened : RtmpParser = record p { open_msgs = mh ∷ p.open_msgs } in
    let taken : rd (read_bytes mh.length) opened ≡ (ok body, on_from (length body) opened) =
      ap (λ n. rd (read_bytes n) opened) len
      ∙ (rd-Takes (read_bytes-Reads body)).run opened rest v e in
    let mine : (parse_body_with loop size) opened
        ≡ (ok (record mh { body = some body; un_parsed_size = pos 0 }), on_from (length body) p) =
      rw fits (rw (taken, then_do) refl) in
    (
      on_from (length body) p,
      >>=-ok (push_open mh) (λ _. parse_body_with loop size) p refl ∙ mine,
      refl,
    )

module _ (a b c d : ℕ) (bytes : IsBytes (a ∷ b ∷ c ∷ d ∷ [])) where
  -- A message in one chunk with a header of type 0, on a chunk stream from 2 to 63, with a timestamp
  -- below 0xffffff and a body that the chunk size admits: parseMsgHeader returns it with its fields and
  -- its body, nothing left to parse, and takes its bytes and no more, whatever follows them. No other
  -- message may be waiting in the parser.
  pub parse_msg_header-header_bytes :
      (chunk_size id timestamp type_id : ℕ) (body rest : List ℕ) (p : RtmpParser)
      → 2 ≤ id
      → id < 64
      → timestamp < 0x00ffffff
      → length body < 2 ^ 24
      → length body ≤ chunk_size
      → IsValid p.rb
      → p.msgs_buffer ≡ []
      → unread p.rb
        ≡ header_bytes id timestamp (length body) type_id (a ∷ b ∷ c ∷ d ∷ []) ++ (body ++ rest)
      → (q : RtmpParser) × (parse_msg_header (pos chunk_size) p ≡ (
        ok (record (header id timestamp (length body) type_id (a ∷ b ∷ c ∷ d ∷ [])) {
          body = some body;
          un_parsed_size = pos 0;
        }),
        q,
      ))
        × (unread q.rb ≡ rest)
  unfolding parse_msg_header next_msg parse_new ◌>>=◌ then_do
  parse_msg_header-header_bytes chunk_size id timestamp type_id body rest p lo hi ht hl fits v
        none_left e =
      let bs : List ℕ = header_bytes id timestamp (length body) type_id (a ∷ b ∷ c ∷ d ∷ []) in
      let mh : RtmpMsgHeader = header id timestamp (length body) type_id (a ∷ b ∷ c ∷ d ∷ []) in
      let p1 : RtmpParser = record p { open_msgs = [] } in
      let p2 : RtmpParser = on_from 12 p1 in
      let head : parse_msg_header_only p1 ≡ (ok mh, p2) =
        (parse_msg_header_only-Takes a b c d bytes id timestamp (length body) type_id lo hi ht
            hl).run
          p1 (body ++ rest) v e in
      let v2 : IsValid p2.rb = prefix-IsValid p.rb bs (body ++ rest) v e in
      let e2 : unread p2.rb ≡ body ++ rest = prefix_rest p.rb bs (body ++ rest) v e in
      let (p3, parsed, same) = parsed_type_zero mh p2 refl in
      let v3 : IsValid p3.rb = subst IsValid (sym same) v2 in
      let e3 : unread p3.rb ≡ body ++ rest = ap unread same ∙ e2 in
      let (q, whole, at) =
        whole_body (parse_chunks (suc (unread_size p.rb))) (pos chunk_size) (whole_length_left mh)
          body rest p3 v3 refl (ground arith) e3 in
      (
        q,
        ap (λ l. next_msg (pos chunk_size) l p) none_left
            ∙ >>=-ok parse_msg_header_only
                (λ h. on_msg_header_parsed h >>= λ h'. push_open h' >>= λ _.
                  parse_body_with (parse_chunks (suc (unread_size p.rb))) (pos chunk_size))
                p1 head
            ∙ >>=-ok (on_msg_header_parsed mh)
                (λ h'. push_open h' >>= λ _.
                  parse_body_with (parse_chunks (suc (unread_size p.rb))) (pos chunk_size))
                p2 parsed
            ∙ whole,
        ap unread at ∙ prefix_rest p3.rb body rest v3 e3,
      )
