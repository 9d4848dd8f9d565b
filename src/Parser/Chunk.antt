-- ===== src/Parser/Chunk.antt =====
-- rtmpparser.cpp, parseMsgHeader and parseMsgHeaderPartial: a message from its chunks, with the
-- messages of other streams that come between them.
pub mod Spending
pub mod Ends
pub mod Whole
pub mod Pieces
pub mod Several
use tvie_rtmp.Base.{
  ℕ, zero, suc, ◌+◌, ◌&&◌, Option, none, some, List, [], ◌∷◌, ◌++◌, ltb, ◌==◌, if◌then◌else◌,
  length, get_elem?, set, memcpy, zeros,
}
use tvie_rtmp.Base.Int.{ℤ, pos, negsuc, ◌-ℤ◌, ltb_ℤ, leb_ℤ, signed32}
use tvie_rtmp.Exception.{
  bad_protocal_data, bad_alloc, fault, hang, ok, err, M, pure, throw, throw_if, gets, modify, ◌>>=◌,
  ◌>>◌, on_local,
}
use tvie_rtmp.ReadBuffer.{big, empty, append_data, unread_size, read_bytes, read_all}
use tvie_rtmp.Message.{RtmpMsgHeader, set_chunk_size}
use tvie_rtmp.Parser.{RtmpParser, rd, parse_msg_header_only, on_msg_header_parsed}

-- appendType3 and appendData: memcpy(body + length - unParsedSize, data, len).
unfoldable pub append_bytes : List ℕ → RtmpMsgHeader → Option RtmpMsgHeader
append_bytes bytes mh = elim mh.body [
  | none ↦ none
  | some body ↦ elim (mh.length -ℤ mh.un_parsed_size) [
    | negsuc _ ↦ none
    | pos at ↦ elim (memcpy body at bytes) [
      | none ↦ none
      | some body' ↦ some (record mh {
        body = some body';
        un_parsed_size = mh.un_parsed_size -ℤ pos (length bytes);
      })
    ]
  ]
]

-- The `i`-th of the open messages; there is none where the pointer would be null.
unfoldable pub open_msg : ℕ → M RtmpParser RtmpMsgHeader
open_msg i p = elim (get_elem? p.open_msgs i) [ none ↦ (err fault, p) | some mh ↦ (ok mh, p) ]

unfoldable pub set_open_msg : ℕ → RtmpMsgHeader → M RtmpParser (Unit {0})
set_open_msg i mh = modify (λ p. record p { open_msgs = set p.open_msgs i mh })

-- The message with the bytes in it, where they fit into its body.
unfoldable pub keep_appended : ℕ → Option RtmpMsgHeader → M RtmpParser (Unit {0})
keep_appended i none = throw fault
keep_appended i (some mh) = set_open_msg i mh

unfoldable pub append_open : ℕ → List ℕ → M RtmpParser (Unit {0})
append_open i bytes = do mh ← open_msg i; keep_appended i (append_bytes bytes mh)

abbrev pub tail : List RtmpMsgHeader → List RtmpMsgHeader
tail [] = []
tail (x ∷ xs) = xs

unfoldable pub push_open : RtmpMsgHeader → M RtmpParser (Unit {0})
push_open mh = modify (λ p. record p { open_msgs = mh ∷ p.open_msgs })

unfoldable pub pop_open : M RtmpParser (Unit {0})
pop_open = modify (λ p. record p { open_msgs = tail p.open_msgs })

-- findPrev: the place of the first message of the stream that is not complete.
unfoldable pub find_prev : ℕ → ℕ → List RtmpMsgHeader → Option ℕ
find_prev id i [] = none
find_prev id i (m ∷ ms) =
    if (m.chunk_stream_id == id) && ltb_ℤ (pos 0) m.un_parsed_size
    then some i
    else find_prev id (i + 1) ms

-- The message that a chunk of type 3 goes on with: the innermost, or the one that findPrev finds.
unfoldable pub continued : ℕ → List RtmpMsgHeader → Option ℕ
continued id [] = none
continued id (m ∷ ms) = if m.chunk_stream_id == id then some 0 else find_prev id 1 ms

-- A chunk of type 3 of the open message `i`.
unfoldable pub continue_msg : ℕ → ℤ → M RtmpParser ℤ
continue_msg i chunk_size = do
  tmp ← open_msg i
  bytes ←
      rd (
        read_bytes (if ltb_ℤ tmp.un_parsed_size chunk_size then tmp.un_parsed_size else chunk_size))
  append_open i bytes
  pure chunk_size

-- ReadBuffer::read<int32_t> of a message's body.
unfoldable pub body_value : Option (List ℕ) → M RtmpParser ℤ
body_value none = throw fault
body_value (some bytes) = do
  v ← on_local (empty (length bytes)) (append_data bytes >> read_all 4 big)
  pure (signed32 v)

-- `set chunk size impact chunksize immediately`: the chunk size of the call that is running.
unfoldable pub chunk_size_after : RtmpMsgHeader → ℤ → M RtmpParser ℤ
chunk_size_after another chunk_size =
    if another.type_id == set_chunk_size then body_value another.body else pure chunk_size

-- A message of its own between the chunks of the open ones. `parse_body` parses its body.
unfoldable pub between : (ℤ → M RtmpParser RtmpMsgHeader) → RtmpMsgHeader → ℤ → M RtmpParser ℤ
between parse_body mh chunk_size = do
  mh' ← on_msg_header_parsed mh
  push_open mh'
  another ← parse_body chunk_size
  size ← chunk_size_after another chunk_size
  modify (λ p. record p { msgs_buffer = p.msgs_buffer ++ (another ∷ []) })
  pure size

-- Whether a chunk goes on with an open message, and with which one.
unfoldable pub part_of :
    (ℤ → M RtmpParser RtmpMsgHeader) → RtmpMsgHeader → ℤ → Option ℕ → M RtmpParser ℤ
part_of parse_body mh chunk_size (some i) = continue_msg i chunk_size
part_of parse_body mh chunk_size none = between parse_body mh chunk_size

-- parseMsgHeaderPartial: the chunk size afterwards.
unfoldable pub parse_partial : (ℤ → M RtmpParser RtmpMsgHeader) → ℤ → M RtmpParser ℤ
parse_partial parse_body chunk_size = do
  mh ← parse_msg_header_only
  opened ← gets (λ p. p.open_msgs)
  part_of parse_body mh chunk_size
      (if mh.chunk_type == 3 then continued mh.chunk_stream_id opened else none)

-- `if(!mh->body) mh->body = new uint8_t[mh->length];`
unfoldable pub allocate : RtmpMsgHeader → Option (List ℕ) → ℤ → M RtmpParser (Unit {0})
allocate mh (some body) len = pure tt
allocate mh none (negsuc _) = throw bad_alloc
allocate mh none (pos n) = set_open_msg 0 (record mh { body = some (zeros n) })

unfoldable pub allocate_body : RtmpMsgHeader → M RtmpParser (Unit {0})
allocate_body mh = allocate mh mh.body mh.length

-- The second half of parseMsgHeader, for the innermost open message. `loop` is its `while`.
unfoldable pub parse_body_with : (ℤ → M RtmpParser RtmpMsgHeader) → ℤ → M RtmpParser RtmpMsgHeader
parse_body_with loop chunk_size = do
  mh ← open_msg 0
  let whole = (do
    bytes ← rd (read_bytes mh.length)
    pop_open
    pure (record mh { body = some bytes; un_parsed_size = pos 0 }))
  let chunked = (do
    allocate_body mh
    bytes ← rd (read_bytes chunk_size)
    append_open 0 bytes
    throw_if (ltb 10 mh.chunk_stream_id) bad_protocal_data
    loop chunk_size)
  if leb_ℤ mh.length chunk_size then whole else chunked

-- while(mh->unParsedSize > 0) parseMsgHeaderPartial(chunkSize, mh); return mh;
unfoldable pub parse_chunks : ℕ → ℤ → M RtmpParser RtmpMsgHeader
parse_chunks zero chunk_size = throw hang
parse_chunks (suc fuel) chunk_size = do
  mh ← open_msg 0
  let again = (do
    size ← parse_partial (parse_body_with (parse_chunks fuel)) chunk_size
    parse_chunks fuel size)
  let done = (do pop_open; pure mh)
  if ltb_ℤ (pos 0) mh.un_parsed_size then again else done

-- parseMsgHeader(chunkSize, NULL). Every chunk takes a byte at least.
unfoldable pub parse_new : ℤ → M RtmpParser RtmpMsgHeader
parse_new chunk_size = do
  modify (λ p. record p { open_msgs = [] })
  fuel ← gets (λ p. suc (unread_size p.rb))
  mh ← parse_msg_header_only
  mh' ← on_msg_header_parsed mh
  push_open mh'
  parse_body_with (parse_chunks fuel) chunk_size

-- A message that was completed inside another one is handed out first.
unfoldable pub next_msg : ℤ → List RtmpMsgHeader → M RtmpParser RtmpMsgHeader
next_msg chunk_size [] = parse_new chunk_size
next_msg chunk_size (h ∷ rest) = do modify (λ p. record p { msgs_buffer = rest }); pure h

-- parseMsgHeader(chunkSize)
unfoldable pub parse_msg_header : ℤ → M RtmpParser RtmpMsgHeader
parse_msg_header chunk_size = do buffered ← gets (λ p. p.msgs_buffer); next_msg chunk_size buffered
