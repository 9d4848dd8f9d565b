-- ===== src/Tests/Chunks.antt =====
-- Messages in chunks of two bytes, as the parser reads them and as the server writes them.
use tvie_rtmp.Base.{ℕ, ◌≡◌, refl, false, some, List, [], ◌∷◌, ◌++◌, arith, length, take_all}
use tvie_rtmp.Base.Int.{pos}
use tvie_rtmp.Exception.{ok}
use tvie_rtmp.ReadBuffer.View.{IsValid, unread}
use tvie_rtmp.WriteBuffer
use tvie_rtmp.WriteBuffer.{WriteBuffer, get_buffer}
use tvie_rtmp.WriteBuffer.Bytes.{Writes}
use tvie_rtmp.Parser.{RtmpParser, get_stream_context}
use tvie_rtmp.Parser.Header.{header}
use tvie_rtmp.Parser.Chunk.{parse_msg_header}
use tvie_rtmp.Parser.Chunk.Pieces.{IsCut, whole, on_wire}
use tvie_rtmp.Parser.Chunk.Several.{parse_msg_header-on_wire}
use tvie_rtmp.Connection.Output.{write_chunks, write_message, message_header}
use tvie_rtmp.Connection.Output.Pieces.{write_chunks-on_wire, write_message-ReadsBack}

-- A parser in front of the bytes.
abbrev pub at_bytes : List ℕ → RtmpParser
at_bytes bs = record {
  rb = record {
    buffer = bs;
    capacity = length bs;
    cout = length bs;
    bi = 0;
    in_snap = false;
    snap_bi = 0;
  };
  stream_contexts = [];
  saved_stream_contexts = [];
  msgs_buffer = [];
  saved_msgs_buffer = [];
  open_msgs = [];
}

at_bytes-IsValid : (bs : List ℕ) → IsValid (at_bytes bs).rb
at_bytes-IsValid bs = record { read_le = omega arith; fits = omega arith; sized = refl }

at_bytes-unread : (bs : List ℕ) → unread (at_bytes bs).rb ≡ bs
at_bytes-unread bs = take_all (length bs) bs (omega arith)

abbrev body : List ℕ
body = 1 ∷ 2 ∷ 3 ∷ 4 ∷ 5 ∷ []

-- An audio message on the chunk stream 4, and one byte of the next message.
abbrev audio_bytes : List ℕ
audio_bytes = 4 ∷ 0 ∷ 0 ∷ 7 ∷ 0 ∷ 0 ∷ 5 ∷ 8 ∷ 1 ∷ 0 ∷ 0 ∷ 0 ∷ 1 ∷ 2 ∷ 196 ∷ 3 ∷ 4 ∷ 196 ∷ 5 ∷ 9 ∷ []

parse_msg_header-on_wire_example :
    (q : RtmpParser) × (parse_msg_header (pos 2) (at_bytes audio_bytes) ≡ (
      ok (record (header 4 7 5 8 (1 ∷ 0 ∷ 0 ∷ 0 ∷ [])) {
        body = some body;
        un_parsed_size = pos 0;
      }),
      q,
    ))
    × (unread q.rb ≡ 9 ∷ [])
unfolding get_stream_context
parse_msg_header-on_wire_example =
    parse_msg_header-on_wire 1 0 0 0 (omega arith, (omega arith, (omega arith, (omega arith, tt))))
      2 4 7 8 (1 ∷ 2 ∷ []) (3 ∷ 4 ∷ []) ((5 ∷ []) ∷ []) (9 ∷ []) (at_bytes audio_bytes)
      (omega arith) (omega arith) (omega arith) (omega arith)
      (refl, (refl, (omega arith, omega arith))) tt (at_bytes-IsValid audio_bytes) refl refl

write_chunks-on_wire_example :
    (c : List ℕ) × (cs : List (List ℕ)) × IsCut 2 c cs
    × (whole c cs ≡ body)
    × Writes (write_chunks 6 2 body) (on_wire 3 c cs)
write_chunks-on_wire_example = write_chunks-on_wire 2 body (omega arith) (omega arith)

-- A result on stream 1.
abbrev sent : List ℕ
sent = get_buffer (write_message 2 (message_header 3 5 20 (pos 1)) body (WriteBuffer.empty 64)).1

write_message-ReadsBack_example :
    ((write_message 2 (message_header 3 5 20 (pos 1)) body (WriteBuffer.empty 64)).0 ≡ ok tt)
    × (q : RtmpParser) × (parse_msg_header (pos 2) (at_bytes (sent ++ 8 ∷ [])) ≡ (
      ok (record (message_header 3 5 20 (pos 1)) { body = some body; un_parsed_size = pos 0 }),
      q,
    ))
    × (unread q.rb ≡ 8 ∷ [])
unfolding get_stream_context
write_message-ReadsBack_example =
    write_message-ReadsBack 64 2 20 1 body (8 ∷ []) (at_bytes (sent ++ 8 ∷ [])) (omega arith)
      (omega arith) (omega arith) (omega arith) (omega arith) (omega arith) tt
      (at_bytes-IsValid (sent ++ 8 ∷ [])) refl (at_bytes-unread (sent ++ 8 ∷ []))
