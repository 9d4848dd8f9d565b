-- ===== src/Parser.antt =====
-- rtmpparser.h and rtmpparser.cpp: from the byte stream to messages.
--
-- The parser owns the stream contexts and the messages that were completed inside another one. The
-- chain of `prevMsgHeader` is `open_msgs`, the innermost message first: it is the messages that the
-- nested calls of parseMsgHeader are at. A context keeps a copy of its last header: of that object
-- only fields are read that do not change any more once it is the last one.
pub mod Times
pub mod Transaction
pub mod Header
pub mod Chunk
pub mod Commands
pub mod MetaData
use tvie_rtmp.Base.{
  ℕ, zero, suc, ◌+◌, ◌-◌, ◌*◌, ◌/◌, ◌%◌, Bool, true, false, not, ◌&&◌, ◌||◌, Option, none, some,
  List, [], ◌∷◌, ◌++◌, ltb, leb, ◌==◌, if◌then◌else◌, length, get_elem?, set, memcpy, zeros,
}
use tvie_rtmp.Base.Int.{ℤ, pos, negsuc, ◌+ℤ◌, ◌-ℤ◌, ltb_ℤ, leb_ℤ, eq_ℤ, signed32, to_int32}
use tvie_rtmp.Exception.{
  Thrown, bad_protocal_data, bad_alloc, fault, hang, Result, ok, err, M, pure, throw, throw_if,
  gets, modify, ◌>>=◌, ◌>>◌, on, on_local,
}
use tvie_rtmp.ReadBuffer
use tvie_rtmp.ReadBuffer.{
  ReadBuffer, big, little, unread_size, read_byte, read_bytes, read, read_all, peek,
}
use tvie_rtmp.Message.{
  RtmpMsgHeader, new_header, minus_one, set_chunk_size, audio, video, data_amf0,
}

pub record StreamContext : Type 0 where
  pub timestamp : ℤ
  pub timestamp_delta : ℤ
  pub prev_msg : RtmpMsgHeader

pub record RtmpParser : Type 0 where
  pub rb : ReadBuffer
  pub stream_contexts : List (ℕ × StreamContext)
  pub saved_stream_contexts : List (ℕ × StreamContext)
  pub msgs_buffer : List RtmpMsgHeader
  pub saved_msgs_buffer : List RtmpMsgHeader
  pub open_msgs : List RtmpMsgHeader

-- Pushing copies one by one, as copyStreamContext and the loops over the messages do.
unfoldable pub push_all {ℓ} : {A : Type ℓ} → List A → List A → List A
push_all dst [] = dst
push_all dst (x ∷ xs) = push_all (dst ++ (x ∷ [])) xs

unfoldable pub save_context : RtmpParser → RtmpParser
save_context p = record p {
  saved_stream_contexts = push_all [] p.stream_contexts;
  saved_msgs_buffer = push_all [] p.msgs_buffer;
}

unfoldable pub restore_context : RtmpParser → RtmpParser
restore_context p = record p {
  stream_contexts = push_all [] p.saved_stream_contexts;
  msgs_buffer = push_all [] p.saved_msgs_buffer;
}

-- getStreamContext
unfoldable pub get_stream_context : ℕ → List (ℕ × StreamContext) → Option StreamContext
get_stream_context id [] = none
get_stream_context id ((k, sc) ∷ rest) = if k == id then some sc else get_stream_context id rest

-- A write through the pointer that getStreamContext returns, or push_back of a new pair.
unfoldable pub put_stream_context :
    ℕ → StreamContext → List (ℕ × StreamContext) → List (ℕ × StreamContext)
put_stream_context id new [] = (id, new) ∷ []
put_stream_context id new ((k, sc) ∷ rest) =
    if k == id then (k, new) ∷ rest else (k, sc) ∷ put_stream_context id new rest

-- A call on the parser's ReadBuffer.
unfoldable pub rd : {A : Type 0} → M ReadBuffer A → M RtmpParser A
rd = on (λ p. p.rb) (λ rb p. record p { rb = rb })

-- The chunk stream id behind the six bits of the first byte.
unfoldable pub parse_chunk_stream_id : ℕ → M RtmpParser ℕ
parse_chunk_stream_id low =
    if low == 0
    then (do b ← rd read_byte; pure (b + 64))
    else (if low == 1 then (do n ← rd (read_all 2 little); pure (n + 64)) else pure low)

-- A chunk of type 3 has no fields, but FMLE repeats the extended timestamp of the last message.
unfoldable pub parse_type_three : RtmpMsgHeader → Option StreamContext → M RtmpParser RtmpMsgHeader
parse_type_three mh none = pure mh
parse_type_three mh (some sc) =
    if eq_ℤ sc.prev_msg.extendted_timestamp minus_one then pure mh else (do
      next ← rd (peek 4 big)
      pure (
          if eq_ℤ sc.prev_msg.extendted_timestamp (pos next)
          then record mh { timestamp = pos 0x00ffffff }
          else mh))

-- The fields behind the basic header, by the chunk type.
unfoldable pub parse_fields : RtmpMsgHeader → M RtmpParser RtmpMsgHeader
parse_fields mh =
    if mh.chunk_type == 0
    then (do
      ts ← rd (read 4 big (pos 3))
      len ← rd (read 4 big (pos 3))
      tid ← rd read_byte
      sid ← rd (read_all 4 little)
      pure (record mh {
        timestamp = pos ts;
        length = pos len;
        type_id = tid;
        stream_id = signed32 sid;
      }))
    else (if mh.chunk_type == 1
        then (do
          ts ← rd (read 4 big (pos 3))
          len ← rd (read 4 big (pos 3))
          tid ← rd read_byte
          pure (record mh { timestamp = pos ts; length = pos len; type_id = tid }))
        else (if mh.chunk_type == 2
            then (do ts ← rd (read 4 big (pos 3)); pure (record mh { timestamp = pos ts }))
            else (do
              found ← gets (λ p. get_stream_context mh.chunk_stream_id p.stream_contexts)
              parse_type_three mh found)))

unfoldable pub parse_extended : RtmpMsgHeader → M RtmpParser RtmpMsgHeader
parse_extended mh =
    if eq_ℤ mh.timestamp (pos 0x00ffffff)
    then (do
      ext ← rd (read_all 4 big)
      pure (record mh { extendted_timestamp = pos ext; timestamp = pos (0x00ffffff + ext) }))
    else pure mh

-- parseMsgHeaderOnly
unfoldable pub parse_msg_header_only : M RtmpParser RtmpMsgHeader
parse_msg_header_only = do
  first ← rd read_byte
  throw_if (ltb 3 (first / 64)) bad_protocal_data
  id ← parse_chunk_stream_id (first % 64)
  mh ← parse_fields (record new_header { chunk_type = first / 64; chunk_stream_id = id })
  parse_extended mh

-- Whether onMsgHeaderParsed looks at the stream's context.
abbrev pub uses_context : RtmpMsgHeader → Bool
uses_context mh =
    mh.type_id == audio
    || mh.type_id == video
    || mh.chunk_type == 2
    || mh.chunk_type == 3
    || mh.type_id == data_amf0

-- `sc->timestampDelta` after the first step.
abbrev pub next_delta : RtmpMsgHeader → StreamContext → ℤ
next_delta mh sc =
    if sc.prev_msg.chunk_type == 0 && mh.chunk_type == 3
    then to_int32 sc.prev_msg.timestamp
    else (if mh.chunk_type == 1 || mh.chunk_type == 2
        then to_int32 mh.timestamp
        else sc.timestamp_delta)

-- The header of a chunk that is not of type 0, completed from the context.
abbrev pub complete_header : RtmpMsgHeader → StreamContext → RtmpMsgHeader
complete_header mh sc =
    let ext =
      if eq_ℤ mh.extendted_timestamp minus_one && mh.chunk_type == 3
      then sc.prev_msg.extendted_timestamp
      else mh.extendted_timestamp in
    record mh {
      timestamp = sc.timestamp +ℤ next_delta mh sc;
      stream_id = sc.prev_msg.stream_id;
      extendted_timestamp = ext;
      length = if mh.chunk_type == 1 then mh.length else sc.prev_msg.length;
      type_id = if mh.chunk_type == 1 then mh.type_id else sc.prev_msg.type_id;
    }

-- The message and its context after the two steps.
unfoldable pub apply_context : RtmpMsgHeader → StreamContext → RtmpMsgHeader × StreamContext
apply_context mh sc =
    if mh.chunk_type == 0
    then (
      mh,
      record { timestamp = mh.timestamp; timestamp_delta = next_delta mh sc; prev_msg = mh },
    )
    else (
      complete_header mh sc,
      record {
        timestamp = sc.timestamp +ℤ next_delta mh sc;
        timestamp_delta = next_delta mh sc;
        prev_msg = complete_header mh sc;
      },
    )

abbrev pub new_context : RtmpMsgHeader → StreamContext
new_context mh = record { timestamp = minus_one; timestamp_delta = minus_one; prev_msg = mh }

unfoldable pub context_of : RtmpMsgHeader → List (ℕ × StreamContext) → StreamContext
context_of mh contexts = elim (get_stream_context mh.chunk_stream_id contexts) [
  | none ↦ new_context mh
  | some sc ↦ sc
]

abbrev pub whole_length_left : RtmpMsgHeader → RtmpMsgHeader
whole_length_left mh = record mh { un_parsed_size = mh.length }

unfoldable pub on_msg_header_parsed : RtmpMsgHeader → M RtmpParser RtmpMsgHeader
on_msg_header_parsed mh p =
    if uses_context mh
    then (let (mh', sc) = apply_context mh (context_of mh p.stream_contexts) in
        (
          ok (whole_length_left mh'),
          record p { stream_contexts = put_stream_context mh.chunk_stream_id sc p.stream_contexts },
        ))
    else (ok (whole_length_left mh), p)
