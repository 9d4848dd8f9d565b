-- ===== src/Parser/Times.antt =====
-- rtmpparser.cpp, onMsgHeaderParsed: the times of the messages of a chunk stream, which come between
-- those of others.
pub mod Follow
use tvie_rtmp.Base.{
  ℕ, ◌≡◌, ◌≢◌, refl, sym, ap, subst, ◌∙◌, ◌⊎◌, inl, inr, Bool, true, false, Bool-cases, not, ◌&&◌,
  ◌||◌, Option, none, some, List, [], ◌∷◌, ◌++◌, if◌then◌else◌, ◌==◌, arith,
}
use tvie_rtmp.Base.Int.{ℤ, ◌+ℤ◌, to_int32}
use tvie_rtmp.Exception.{ok, M, pure, ◌>>=◌, >>=-ok, then_do}
use tvie_rtmp.Message.{RtmpMsgHeader, audio, video, data_amf0}
use tvie_rtmp.Parser.{
  RtmpParser, StreamContext, get_stream_context, put_stream_context, context_of, uses_context,
  next_delta, complete_header, apply_context, on_msg_header_parsed, whole_length_left,
}

-- onMsgHeaderParsed on one header after the other.
unfoldable pub parse_headers : List RtmpMsgHeader → M RtmpParser (List RtmpMsgHeader)
parse_headers [] = pure []
parse_headers (h ∷ hs) = do m ← on_msg_header_parsed h; ms ← parse_headers hs; pure (m ∷ ms)

-- How a message's time follows from the one before it.
pub data Step : Type 0 where
  same : Step
  by : ℤ → Step

-- The times behind `time`, where `delta` is the last difference.
abbrev pub times : ℤ → ℤ → List Step → List ℤ
times time delta [] = []
times time delta (same ∷ ss) = (time +ℤ delta) ∷ times (time +ℤ delta) delta ss
times time delta (by d ∷ ss) = (time +ℤ d) ∷ times (time +ℤ d) d ss

abbrev pub step_of : RtmpMsgHeader → Step
step_of h = if h.chunk_type == 3 then same else by (to_int32 h.timestamp)

abbrev pub steps_on : ℕ → List RtmpMsgHeader → List Step
steps_on id [] = []
steps_on id (h ∷ hs) =
    let rest = steps_on id hs in if h.chunk_stream_id == id then step_of h ∷ rest else rest

abbrev pub times_on : ℕ → List RtmpMsgHeader → List ℤ
times_on id [] = []
times_on id (m ∷ ms) =
    let rest = times_on id ms in if m.chunk_stream_id == id then m.timestamp ∷ rest else rest

abbrev pub is_media : ℕ → Bool
is_media type = type == audio || type == video || type == data_amf0

-- A header that follows on another: of type 2 or 3, or of type 1 for audio, video or data.
abbrev pub follows : RtmpMsgHeader → Bool
follows h = h.chunk_type == 2 || h.chunk_type == 3 || (h.chunk_type == 1 && is_media h.type_id)

abbrev pub AllFollow : ℕ → List RtmpMsgHeader → Type 0
AllFollow id [] = Unit
AllFollow id (h ∷ hs) = ((not (h.chunk_stream_id == id) || follows h) ≡ true) × AllFollow id hs

abbrev delta_of : StreamContext → ℤ
delta_of sc =
    if sc.prev_msg.chunk_type == 0 then to_int32 sc.prev_msg.timestamp else sc.timestamp_delta

-- The chunk stream is at the time, with the last difference.
record IsAt (id : ℕ) (time delta : ℤ) (p : RtmpParser) : Type 0 where
  sc : StreamContext
  found : get_stream_context id p.stream_contexts ≡ some sc
  time_of : sc.timestamp ≡ time
  last_of : delta_of sc ≡ delta

pub put-get :
    (id : ℕ) (sc : StreamContext) (l : List (ℕ × StreamContext))
    → get_stream_context id (put_stream_context id sc l) ≡ some sc
unfolding get_stream_context put_stream_context
put-get id sc [] = let mine : (id == id) ≡ true = ground arith in rw mine refl
put-get id sc ((k, old) ∷ l) = elim (Bool-cases (k == id)) [
  | inl e ↦ rw e (rw e refl)
  | inr e ↦ rw e (rw e (put-get id sc l))
]

put-get_other :
    (id k : ℕ) (sc : StreamContext) (l : List (ℕ × StreamContext))
    → (k == id) ≡ false
    → get_stream_context id (put_stream_context k sc l) ≡ get_stream_context id l
unfolding get_stream_context put_stream_context
put-get_other id k sc [] h = rw h refl
put-get_other id k sc ((j, old) ∷ l) h = elim (Bool-cases (j == k)) [
  | inl e ↦ let not_id : (j == id) ≡ false = ground arith in rw (e, not_id) refl
  | inr e ↦
      rw e (elim (Bool-cases (j == id)) [
        | inl f ↦ rw f refl
        | inr f ↦ rw f (put-get_other id k sc l h)
      ])
]

same_stream :
    (h : RtmpMsgHeader) (sc : StreamContext)
    → (apply_context h sc).0.chunk_stream_id ≡ h.chunk_stream_id
unfolding apply_context
same_stream h sc = elim (Bool-cases (h.chunk_type == 0)) [ inl e ↦ rw e refl | inr e ↦ rw e refl ]

-- A header of another chunk stream.
other_step :
    (id : ℕ) (time delta : ℤ) (h : RtmpMsgHeader) (p : RtmpParser)
    → (h.chunk_stream_id == id) ≡ false
    → IsAt id time delta p
    → (m : RtmpMsgHeader) × (q : RtmpParser) × (on_msg_header_parsed h p ≡ (ok m, q))
      × ((m.chunk_stream_id == id) ≡ false)
      × IsAt id time delta q
unfolding on_msg_header_parsed apply_context
other_step id time delta h p other at = elim (Bool-cases (uses_context h)) [
  | inr e ↦ (whole_length_left h, p, rw e refl, other, at)
  | inl e ↦
      let r = apply_context h (context_of h p.stream_contexts) in
      let k : ℕ = h.chunk_stream_id in
      (
        whole_length_left r.0,
        record p { stream_contexts = put_stream_context k r.1 p.stream_contexts },
        rw e refl,
        ap (λ i. i == id) (same_stream h (context_of h p.stream_contexts)) ∙ other,
        record {
          sc = at.sc;
          found = put-get_other id k r.1 p.stream_contexts other ∙ at.found;
          time_of = at.time_of;
          last_of = at.last_of;
        },
      )
]

-- The last difference after a step.
abbrev step_delta : ℤ → Step → ℤ
step_delta delta same = delta
step_delta delta (by d) = d

next-step :
    (h : RtmpMsgHeader) (sc : StreamContext) (delta : ℤ)
    → follows h ≡ true
    → delta_of sc ≡ delta
    → next_delta h sc ≡ step_delta delta (step_of h)
next-step h sc delta f last = elim (Bool-cases (h.chunk_type == 3)) [
  | inl three ↦
      let not_one : (h.chunk_type == 1) ≡ false = ground arith in
      let not_two : (h.chunk_type == 2) ≡ false = ground arith in
      rw (three, not_one, not_two)
        (elim (Bool-cases (sc.prev_msg.chunk_type == 0)) [
          | inl e ↦ rw e (sym (rw e refl) ∙ last)
          | inr e ↦ rw e (sym (rw e refl) ∙ last)
        ])
  | inr not_three ↦
      let short : (h.chunk_type == 1 || h.chunk_type == 2) ≡ true = ground arith in
      rw (not_three, short)
        (elim (Bool-cases (sc.prev_msg.chunk_type == 0)) [ inl e ↦ rw e refl | inr e ↦ rw e refl ])
]

-- A header that follows on the one before it.
own_step :
    (id : ℕ) (time delta : ℤ) (h : RtmpMsgHeader) (p : RtmpParser)
    → (h.chunk_stream_id == id) ≡ true
    → follows h ≡ true
    → IsAt id time delta p
    → (m : RtmpMsgHeader) × (q : RtmpParser) × (on_msg_header_parsed h p ≡ (ok m, q))
      × ((m.chunk_stream_id == id) ≡ true)
      × (m.timestamp ≡ time +ℤ step_delta delta (step_of h))
      × IsAt id (time +ℤ step_delta delta (step_of h)) (step_delta delta (step_of h)) q
unfolding on_msg_header_parsed apply_context context_of
own_step id time delta h p mine f at =
    let sc : StreamContext = at.sc in
    let k : ℕ = h.chunk_stream_id in
    let same_id : k ≡ id = ground arith in
    let used : uses_context h ≡ true = ground arith in
    let not_first : (h.chunk_type == 0) ≡ false = ground arith in
    let next : next_delta h sc ≡ step_delta delta (step_of h) = next-step h sc delta f at.last_of in
    let found : get_stream_context k p.stream_contexts ≡ some sc =
      ap (λ i. get_stream_context i p.stream_contexts) same_id ∙ at.found in
    let new : StreamContext = record {
      timestamp = sc.timestamp +ℤ next_delta h sc;
      timestamp_delta = next_delta h sc;
      prev_msg = complete_header h sc;
    } in
    let sum : sc.timestamp +ℤ next_delta h sc ≡ time +ℤ step_delta delta (step_of h) =
      ap (λ t. t +ℤ next_delta h sc) at.time_of ∙ ap (λ d. time +ℤ d) next in
    (
      whole_length_left (complete_header h sc),
      record p { stream_contexts = put_stream_context k new p.stream_contexts },
      rw used (rw (found, context_of) (rw not_first refl)),
      mine,
      sum,
      record {
        sc = new;
        found =
            ap (λ i. get_stream_context i (put_stream_context k new p.stream_contexts))
              (sym same_id)
            ∙ put-get k new p.stream_contexts;
        time_of = sum;
        last_of = rw not_first next;
      },
    )
