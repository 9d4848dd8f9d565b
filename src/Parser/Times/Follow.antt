-- ===== src/Parser/Times/Follow.antt =====
-- rtmpparser.cpp, onMsgHeaderParsed: all times of a chunk stream.
use tvie_rtmp.Base.{
  ℕ, ◌≡◌, refl, sym, ap, ◌∙◌, inl, inr, true, Bool-cases, List, [], ◌∷◌, ◌==◌, arith,
}
use tvie_rtmp.Base.Int.{ℤ, ◌+ℤ◌, to_int32}
use tvie_rtmp.Exception.{ok, pure, ◌>>=◌, >>=-ok}
use tvie_rtmp.Message.{RtmpMsgHeader}
use tvie_rtmp.Parser.Times.{
  parse_headers, Step, same, by, times, step_of, steps_on, times_on, is_media, follows, AllFollow,
  IsAt, put-get, step_delta, other_step, own_step,
}
use tvie_rtmp.Parser.{
  RtmpParser, StreamContext, get_stream_context, put_stream_context, context_of, uses_context,
  next_delta, apply_context, on_msg_header_parsed, whole_length_left,
}

-- The first header of the chunk stream.
first_step :
    (id : ℕ) (h : RtmpMsgHeader) (p : RtmpParser)
    → h.chunk_type ≡ 0
    → h.chunk_stream_id ≡ id
    → is_media h.type_id ≡ true
    → (q : RtmpParser) × (on_msg_header_parsed h p ≡ (ok (whole_length_left h), q))
      × IsAt id h.timestamp (to_int32 h.timestamp) q
unfolding on_msg_header_parsed apply_context
first_step id h p zero_type mine media =
    let k : ℕ = h.chunk_stream_id in
    let sc : StreamContext = context_of h p.stream_contexts in
    let used : uses_context h ≡ true = ground arith in
    let first : (h.chunk_type == 0) ≡ true = ground arith in
    let new : StreamContext = record {
      timestamp = h.timestamp;
      timestamp_delta = next_delta h sc;
      prev_msg = h;
    } in
    (
      record p { stream_contexts = put_stream_context k new p.stream_contexts },
      rw (used, first) refl,
      record {
        sc = new;
        found =
            ap (λ i. get_stream_context i (put_stream_context k new p.stream_contexts)) (sym mine)
            ∙ put-get k new p.stream_contexts;
        time_of = refl;
        last_of = rw first refl;
      },
    )

following :
    (id : ℕ) (time delta : ℤ) (hs : List RtmpMsgHeader) (p : RtmpParser)
    → AllFollow id hs
    → IsAt id time delta p
    → (ms : List RtmpMsgHeader) × (q : RtmpParser) × (parse_headers hs p ≡ (ok ms, q))
      × (times_on id ms ≡ times time delta (steps_on id hs))
unfolding parse_headers
following id time delta [] p f at = ([], p, refl, refl)
following id time delta (h ∷ hs) p f at = elim (Bool-cases (h.chunk_stream_id == id)) [
  | inl mine ↦
      let follows_here : follows h ≡ true = ground (arith, f.0) in
      let (m, q, one, kept, time_is, at') = own_step id time delta h p mine follows_here at in
      let delta' : ℤ = step_delta delta (step_of h) in
      let (ms, r, more, are) = following id (time +ℤ delta') delta' hs q f.1 at' in
      (
        m ∷ ms,
        r,
        ran h hs p q r m ms one more,
        rw (kept, mine)
            (ap (λ t. t ∷ times_on id ms) time_is
              ∙ ap (λ l. (time +ℤ delta') ∷ l) are
              ∙ step_times time delta (step_of h) (steps_on id hs)),
      )
  | inr other ↦
      let (m, q, one, kept, at') = other_step id time delta h p other at in
      let (ms, r, more, are) = following id time delta hs q f.1 at' in
      (m ∷ ms, r, ran h hs p q r m ms one more, rw (kept, other) are)
]
  where
    step_times :
        (time delta : ℤ) (s : Step) (ss : List Step)
        → (time +ℤ step_delta delta s) ∷ times (time +ℤ step_delta delta s) (step_delta delta s) ss
          ≡ times time delta (s ∷ ss)
    step_times time delta same ss = refl
    step_times time delta (by d) ss = refl

    ran :
        (h : RtmpMsgHeader) (hs : List RtmpMsgHeader) (p q r : RtmpParser) (m : RtmpMsgHeader)
        (ms : List RtmpMsgHeader)
        → on_msg_header_parsed h p ≡ (ok m, q)
        → parse_headers hs q ≡ (ok ms, r)
        → (on_msg_header_parsed h >>= λ m. parse_headers hs >>= λ ms. pure (m ∷ ms)) p
          ≡ (ok (m ∷ ms), r)
    ran h hs p q r m ms one more =
        >>=-ok (on_msg_header_parsed h) (λ m. parse_headers hs >>= λ ms. pure (m ∷ ms)) p one
        ∙ >>=-ok (parse_headers hs) (λ ms. pure (m ∷ ms)) q more

-- A chunk stream that begins with a header of type 0 for audio, video or data, whose further headers are of
-- type 2 or 3, or of type 1 for audio, video or data, with headers of any kind on other chunk streams
-- between them: onMsgHeaderParsed gives its messages the time of the first header and then the times that
-- follow from it, each by the difference that its header has, or by the last difference where it has none,
-- which is the first header's time in the beginning. Differences have 32 bits. The parser may know any
-- chunk streams before.
pub parse_headers-times :
    (id : ℕ) (h : RtmpMsgHeader) (hs : List RtmpMsgHeader) (p : RtmpParser)
    → h.chunk_type ≡ 0
    → h.chunk_stream_id ≡ id
    → is_media h.type_id ≡ true
    → AllFollow id hs
    → (ms : List RtmpMsgHeader) × (q : RtmpParser) × (parse_headers (h ∷ hs) p ≡ (ok ms, q))
      × (times_on id ms ≡ h.timestamp ∷ times h.timestamp (to_int32 h.timestamp) (steps_on id hs))
unfolding parse_headers
parse_headers-times id h hs p zero_type mine media f =
    let (q, one, at) = first_step id h p zero_type mine media in
    let (ms, r, more, are) = following id h.timestamp (to_int32 h.timestamp) hs q f at in
    let here : (h.chunk_stream_id == id) ≡ true = ground arith in
    (
      whole_length_left h ∷ ms,
      r,
      >>=-ok (on_msg_header_parsed h) (λ m. parse_headers hs >>= λ ms. pure (m ∷ ms)) p one
          ∙ >>=-ok (parse_headers hs) (λ ms. pure (whole_length_left h ∷ ms)) q more,
      rw here (ap (λ l. h.timestamp ∷ l) are),
    )
