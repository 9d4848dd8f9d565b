-- ===== src/Tests.antt =====
-- The theorems about all parts of the server at concrete inputs.
pub mod Commands
pub mod Answers
pub mod Buffer
pub mod Chunks
pub mod Media
pub mod Push
pub mod Server
pub mod Times
pub mod Stream
pub mod Client
use tvie_rtmp.Base.{ℕ, ◌≡◌, refl, true, false, some, List, [], ◌∷◌, ◌++◌, inl, inr, length, arith}
use tvie_rtmp.Base.Int.{pos}
use tvie_rtmp.Base.Text.{codes}
use tvie_rtmp.Exception.{ok, err, fault, std_exception}
use tvie_rtmp.Exception.{◌>>=◌, on, try_catch, caught, refocus, then_do, no_enough_data}
use tvie_rtmp.ReadBuffer.{
  read_byte, read_bytes, read_loop, ReadBuffer, big, little, append_data, snap_start, snap_stop,
  read_byte, read_bytes, read_loop, read, peek, peek_count,
}
use tvie_rtmp.ReadBuffer.View.{IsValid, unread}
use tvie_rtmp.ReadBuffer.Append.{append_data-unread}
use tvie_rtmp.ReadBuffer.Snap.{byte, bytes, number, look, after_all, snap_rollback}
use tvie_rtmp.ReadBuffer.Number.{read_big-Reads, read_little-Reads, peek_big, peek_count_short}
use tvie_rtmp.WriteBuffer.{write_b, write_bytes, write_l_bits}
use tvie_rtmp.WriteBuffer.Bytes.{Writes, holding, write_bytes-Writes, write_bytes_overrun}
use tvie_rtmp.WriteBuffer.Words.{write_b-Writes, write_l_32-Writes}
use tvie_rtmp.Message.{RtmpMsgHeader, Amf0Command, new_header}
use tvie_rtmp.Amf.{
  parse_as_string, parse_as_number, parse_object_key, skip_type, write_string, write_number,
}
use tvie_rtmp.Amf.Format.{
  Value, number, string, object, null, end, field, encode, encode_key, write_string-Writes,
  write_number-Writes,
}
use tvie_rtmp.Amf.RoundTrip.{parse_as_string_round_trip}
use tvie_rtmp.Amf.NextType.{IsPlain}
use tvie_rtmp.Amf.Exact.{skip_type_takes}
use tvie_rtmp.Amf.Ends.{Ends, skip_type-Ends}
use tvie_rtmp.Parser.{
  apply_context, RtmpParser, rd, save_context, parse_msg_header_only, parse_chunk_stream_id,
  parse_fields, parse_extended, on_msg_header_parsed,
}
use tvie_rtmp.Parser.Chunk.{
  open_msg, push_open, parse_body_with, parse_new, next_msg, parse_msg_header,
}
use tvie_rtmp.Parser.Chunk.Spending.{EndsOn}
use tvie_rtmp.Parser.Chunk.Ends.{parse_msg_header-EndsOn}
use tvie_rtmp.Base.{IsBytes}
use tvie_rtmp.Parser.Header.{Takes, header, header_bytes, parse_msg_header_only-Takes}
use tvie_rtmp.Parser.Chunk.Whole.{parse_msg_header-header_bytes}
use tvie_rtmp.Base.{bytes_eq}
use tvie_rtmp.Parser.Commands.{connect_cmd}
use tvie_rtmp.Parser.Commands.Ends.{connect_cmd-Ends}
use tvie_rtmp.Parser.MetaData.{meta_data}
use tvie_rtmp.Parser.MetaData.Ends.{meta_data-Ends}
use tvie_rtmp.Parser.Transaction.{IsUndone, attempt, give_up, attempt-IsUndone}
use tvie_rtmp.Parser.Commands.{
  parse_release_stream_cmd, parse_fc_publish_cmd, parse_publish_cmd, peek_amf0_cmd,
  peek_amf0_data_type, parse_create_stream_cmd, parse_connect_cmd,
}
use tvie_rtmp.Parser.Commands.Errors.{ends_settled, parsers-ends_settled}
use tvie_rtmp.Parser.Commands.RoundTrip.{
  command, parse_stream_cmds_round_trip, parse_publish_cmd_round_trip,
}

-- Two bytes read, three unread, in a buffer of six.
abbrev some_read : ReadBuffer
some_read = record {
  buffer = 7 ∷ 8 ∷ 1 ∷ 2 ∷ 3 ∷ 0 ∷ [];
  capacity = 6;
  cout = 5;
  bi = 2;
  in_snap = false;
  snap_bi = 0;
}

some_read-IsValid : IsValid some_read
some_read-IsValid = record { read_le = omega arith; fits = omega arith; sized = refl }

abbrev name : List ℕ
name = codes "live"

snap_rollback_example :
    snap_stop (
      after_all
        (byte ∷ number 4 big (pos 4) ∷ bytes (pos 2) ∷ look 1 little ∷ [])
        (snap_start some_read).1)
    ≡ record some_read { snap_bi = 2 }
snap_rollback_example =
    snap_rollback (byte ∷ number 4 big (pos 4) ∷ bytes (pos 2) ∷ look 1 little ∷ []) some_read refl

append_data-unread_example :
    (rb' : ReadBuffer) × (append_data (4 ∷ 5 ∷ 6 ∷ []) some_read ≡ (ok tt, rb'))
    × IsValid rb'
    × (unread rb' ≡ 1 ∷ 2 ∷ 3 ∷ 4 ∷ 5 ∷ 6 ∷ [])
    × (rb'.in_snap ≡ false)
append_data-unread_example =
    append_data-unread (4 ∷ 5 ∷ 6 ∷ []) some_read some_read-IsValid refl (inl (omega arith))

peek_count_short_example : peek_count 4 big (pos 4) some_read ≡ (err std_exception, some_read)
peek_count_short_example = peek_count_short 4 big 4 some_read (omega arith) (omega arith)

write_bytes_overrun_example : (write_bytes name (holding (1 ∷ []) 3)).0 ≡ err fault
write_bytes_overrun_example = write_bytes_overrun name (1 ∷ []) 3 refl

write_l_32-Writes_example : Writes (write_l_bits 0x12345678 32) (0x78 ∷ 0x12 ∷ 0 ∷ 0 ∷ [])
write_l_32-Writes_example = write_l_32-Writes 0x12345678 (omega arith)

skip_type-Ends_example : Ends 1 some_read (skip_type 3 some_read)
skip_type-Ends_example = skip_type-Ends 3 some_read (omega arith)

-- A message of four bytes of which two have come.
abbrev partial_parser : RtmpParser
partial_parser = record {
  rb = record {
    buffer = 3 ∷ 0 ∷ 0 ∷ 7 ∷ 0 ∷ 0 ∷ 4 ∷ 8 ∷ 1 ∷ 0 ∷ 0 ∷ 0 ∷ 9 ∷ 9 ∷ [];
    capacity = 14;
    cout = 14;
    bi = 0;
    in_snap = false;
    snap_bi = 0;
  };
  stream_contexts = [];
  saved_stream_contexts = [];
  msgs_buffer = [];
  saved_msgs_buffer = [];
  open_msgs = [];
}

waits :
    attempt (pos 128) partial_parser ≡ (err no_enough_data, (attempt (pos 128) partial_parser).1)
unfolding attempt ◌>>=◌ rd on snap_start try_catch parse_msg_header next_msg save_context parse_new
    parse_msg_header_only read_byte parse_chunk_stream_id parse_fields read read_loop read_bytes
    parse_extended on_msg_header_parsed caught refocus then_do open_msg parse_body_with push_open
    give_up apply_context
waits = refl

attempt-IsUndone_example : IsUndone partial_parser (attempt (pos 128) partial_parser).1
attempt-IsUndone_example =
    attempt-IsUndone (pos 128) partial_parser (attempt (pos 128) partial_parser).1 refl waits

parse_msg_header-EndsOn_example :
    EndsOn 0 partial_parser (parse_msg_header (pos 128) partial_parser)
parse_msg_header-EndsOn_example = parse_msg_header-EndsOn (pos 128) partial_parser (omega arith)

-- A message of two bytes that have come, and one byte behind it.
abbrev whole_parser : RtmpParser
whole_parser = record {
  rb = record {
    buffer = 3 ∷ 0 ∷ 0 ∷ 7 ∷ 0 ∷ 0 ∷ 2 ∷ 8 ∷ 1 ∷ 0 ∷ 0 ∷ 0 ∷ 9 ∷ 9 ∷ 4 ∷ [];
    capacity = 15;
    cout = 15;
    bi = 0;
    in_snap = false;
    snap_bi = 0;
  };
  stream_contexts = [];
  saved_stream_contexts = [];
  msgs_buffer = [];
  saved_msgs_buffer = [];
  open_msgs = [];
}

whole_parser-IsValid : IsValid (whole_parser.rb)
whole_parser-IsValid = record { read_le = omega arith; fits = omega arith; sized = refl }

abbrev one_bytes : IsBytes (1 ∷ 0 ∷ 0 ∷ 0 ∷ [])
one_bytes = (omega arith, (omega arith, (omega arith, (omega arith, tt))))

parse_msg_header_only-Takes_example :
    Takes parse_msg_header_only
      (header_bytes 3 7 2 8 (1 ∷ 0 ∷ 0 ∷ 0 ∷ []))
      (header 3 7 2 8 (1 ∷ 0 ∷ 0 ∷ 0 ∷ []))
parse_msg_header_only-Takes_example =
    parse_msg_header_only-Takes 1 0 0 0 one_bytes 3 7 2 8 (omega arith) (omega arith) (omega arith)
      (omega arith)

parse_msg_header-header_bytes_example :
    (q : RtmpParser) × (parse_msg_header (pos 128) whole_parser ≡ (
      ok (record (header 3 7 2 8 (1 ∷ 0 ∷ 0 ∷ 0 ∷ [])) {
        body = some (9 ∷ 9 ∷ []);
        un_parsed_size = pos 0;
      }),
      q,
    ))
    × (unread q.rb ≡ 4 ∷ [])
parse_msg_header-header_bytes_example =
    parse_msg_header-header_bytes 1 0 0 0 one_bytes 128 3 7 8 (9 ∷ 9 ∷ []) (4 ∷ []) whole_parser
      (omega arith) (omega arith) (omega arith) (omega arith) (omega arith) whole_parser-IsValid
      refl refl

connect_cmd-Ends_example : Ends 0 some_read (connect_cmd bytes_eq some_read)
connect_cmd-Ends_example = connect_cmd-Ends bytes_eq some_read (omega arith)

meta_data-Ends_example : Ends 0 some_read (meta_data (λ v. []) some_read)
meta_data-Ends_example = meta_data-Ends (λ v. []) some_read (omega arith)
