-- ===== src/Connection/Exchange/Media.antt =====
-- rtmpconnection.cpp and livereceiveractor.cpp, normalExchange at audio and video: from the client's chunks to
-- the bytes of the stream that the push thread reads.
use tvie_rtmp.Base.{
  ℕ, ◌%◌, ◌^◌, ◌≤◌, ◌<◌, ◌≡◌, refl, ap, ◌∙◌, Bool, true, false, some, List, [], ◌∷◌, ◌++◌, IsBytes,
  arith, length,
}
use native.Mathlib.Nat.{mod-eq_of_lt}
use tvie_rtmp.Base.Int.{pos, eq_ℤ, signed32}
use tvie_rtmp.Exception.{ok, gets, >>=-ok, on-ok}
use tvie_rtmp.ReadBuffer.View.{unread}
use tvie_rtmp.ReadBuffer.Number.{little_value}
use tvie_rtmp.Message.{RtmpMsgHeader, audio, video}
use tvie_rtmp.Parser.{RtmpParser}
use tvie_rtmp.Parser.Header.{header, header_bytes}
use tvie_rtmp.Parser.Chunk.{parse_msg_header}
use tvie_rtmp.Parser.Chunk.Pieces.{IsCut, whole, on_wire, IsPlain}
use tvie_rtmp.Parser.Chunk.Several.{parse_msg_header-IsCut}
use tvie_rtmp.Connection.{Connection, Environment, on_parser, on_actor}
use tvie_rtmp.Connection.Handshake.Exact.{Holds}
use tvie_rtmp.Connection.Exchange.{agreed, on_receive, normal_exchange_msg, normal_exchange}
use tvie_rtmp.LiveReceiver.{LiveReceiverActor, on_receive_stream}
use tvie_rtmp.LiveReceiver.StreamSetup.{StreamSetupInfo}
use tvie_rtmp.LiveReceiver.Fifo.{IsWhole}
use tvie_rtmp.LiveReceiver.Tags.{tag, FitsTag, IsOpen}
use tvie_rtmp.LiveReceiver.Streams.Next.{on_receive_stream_next}

abbrev pub media_type : Bool → ℕ
media_type true = video
media_type false = audio

dispatched :
    (env : Environment LiveReceiverActor) (is_video : Bool) (mh : RtmpMsgHeader)
    → normal_exchange_msg env (record mh { type_id = media_type is_video })
      ≡ on_receive env is_video (record mh { type_id = media_type is_video })
unfolding normal_exchange_msg
dispatched env true mh = refl
dispatched env false mh = refl

received :
    (env : Environment LiveReceiverActor) (is_video : Bool) (mh : RtmpMsgHeader)
    (conn : Connection LiveReceiverActor) (actor : LiveReceiverActor)
    → env.methods.on_receive_stream mh.stream_id is_video mh conn.actor ≡ (ok true, actor)
    → on_receive env is_video mh conn ≡ (ok tt, record conn { actor = actor })
unfolding on_receive agreed on_actor
received env is_video mh conn actor e =
    >>=-ok (on_actor (env.methods.on_receive_stream mh.stream_id is_video mh)) _ conn
      (on-ok _ _ (env.methods.on_receive_stream mh.stream_id is_video mh) conn e)

-- The first stream of the receiver: open, with its header written, and the message's.
pub record IsReceiving (actor : LiveReceiverActor) (i : StreamSetupInfo) (is : List StreamSetupInfo)
    : Type 0 where
  pub running : actor.push_thread_done ≡ false
  pub first : actor.streams ≡ i ∷ is
  pub written : i.flv_header_written ≡ true
  pub is_open : IsOpen i

media-IsWhole :
    (is_video : Bool) (mh : RtmpMsgHeader) (body : List ℕ)
    → FitsTag 32 body
    → IsWhole
        (record mh { type_id = media_type is_video; length = pos (length body); body = some body })
media-IsWhole true mh body fits = record {
  content = body;
  has_body = refl;
  has_length = refl;
  has_type = omega arith;
  fits = fits;
}
media-IsWhole false mh body fits = record {
  content = body;
  has_body = refl;
  has_length = refl;
  has_type = omega arith;
  fits = fits;
}

module _ (env : Environment LiveReceiverActor) (a b c d : ℕ)
    (bytes : IsBytes (a ∷ b ∷ c ∷ d ∷ [])) where
  -- An audio or video message for the receiver's first stream, in any number of chunks that come one behind
  -- the other, with a header of type 0 on a chunk stream from 2 to 10 and a timestamp below 0xffffff,
  -- where the actor is the receiver, the stream is open, its header is written and the push thread has not
  -- ended: normalExchange takes exactly the message's bytes, and its tag of FLV, with the message's timestamp
  -- and whole body, goes behind the bytes that the push thread has not read yet. The body is not empty and
  -- shorter than 2 ^ 24, the eleven bytes of a tag's header and the body do not end one byte behind a
  -- doubling of 32, no other message is waiting in the parser, and the chunk stream has no extended
  -- timestamp from an earlier one.
  pub normal_exchange_forwards :
      (is_video : Bool) (size id timestamp : ℕ) (first : List ℕ) (others : List (List ℕ))
      (rest : List ℕ) (conn : Connection LiveReceiverActor) (i : StreamSetupInfo)
      (is : List StreamSetupInfo)
      → env.methods.on_receive_stream ≡ on_receive_stream
      → 2 ≤ id
      → id ≤ 10
      → timestamp < 0x00ffffff
      → length (whole first others) < 2 ^ 24
      → IsCut size first others
      → FitsTag 32 (whole first others)
      → conn.chunk_size ≡ pos size
      → IsPlain id conn.parser
      → conn.parser.msgs_buffer ≡ []
      → Holds conn (
          header_bytes id timestamp
            (length (whole first others))
            (media_type is_video)
            (a ∷ b ∷ c ∷ d ∷ [])
          ++ (on_wire id first others ++ rest))
      → IsReceiving conn.actor i is
      → eq_ℤ i.stream_id (signed32 (little_value (a ∷ b ∷ c ∷ d ∷ []))) ≡ true
      → (q : RtmpParser) × (i' : StreamSetupInfo) × (normal_exchange env conn ≡ (
        ok tt,
        record conn {
          parser = q;
          actor = record conn.actor { streams = i' ∷ is; thread_started = true };
        },
      ))
        × (unread q.rb ≡ rest)
        × IsOpen i'
        × (unread i'.rb ≡ unread i.rb ++ tag (media_type is_video) timestamp (whole first others))
  unfolding normal_exchange on_parser
  normal_exchange_forwards is_video size id timestamp first others rest conn i is actor_is lo hi ht
        hl cut fits chunk plain none_left holds receiving mine =
      let body : List ℕ = whole first others in
      let (q, read, left) =
        parse_msg_header-IsCut a b c d bytes size id timestamp (media_type is_video) first others
          rest conn.parser lo hi ht hl cut plain holds.valid none_left holds.bytes in
      let mh : RtmpMsgHeader =
        record (header id timestamp (length body) (media_type is_video) (a ∷ b ∷ c ∷ d ∷ [])) {
          body = some body;
          un_parsed_size = pos 0;
        } in
      let next : Connection LiveReceiverActor = record conn { parser = q } in
      let parsed : on_parser (parse_msg_header conn.chunk_size) conn ≡ (ok mh, next) =
        on-ok _ _ (parse_msg_header conn.chunk_size) conn
          (ap (λ s. parse_msg_header s conn.parser) chunk ∙ read) in
      let (i', taken, stays, more) =
        on_receive_stream_next mh.stream_id is_video mh conn.actor i is receiving.running
          receiving.first mine receiving.written (media-IsWhole is_video mh body fits)
          receiving.is_open in
      let after = record conn.actor { streams = i' ∷ is; thread_started = true } in
      let small : timestamp % 2 ^ 64 ≡ timestamp = mod-eq_of_lt (omega arith) in
      (
        q,
        i',
        >>=-ok (gets (λ c. c.chunk_size)) _ conn refl
            ∙ >>=-ok (on_parser (parse_msg_header conn.chunk_size)) _ conn parsed
            ∙ ap (λ m. m next) (dispatched env is_video mh)
            ∙ received env is_video mh next after
                (ap (λ m. m mh.stream_id is_video mh conn.actor) actor_is ∙ taken),
        left,
        stays,
        more ∙ ap (λ t. unread i.rb ++ tag (media_type is_video) t body) small,
      )
