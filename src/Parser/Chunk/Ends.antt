-- ===== src/Parser/Chunk/Ends.antt =====
-- rtmpparser.cpp: the loop over the chunks of a message, with the messages inside it.
use tvie_rtmp.Base.{
  ℕ, zero, suc, ◌≤◌, refl, Option, none, some, List, [], ◌∷◌, arith, ltb, length, ◌==◌,
}
use tvie_rtmp.Base.Int.{ℤ, pos, negsuc, leb_ℤ, ltb_ℤ, signed32}
use tvie_rtmp.Exception.{
  bad_protocal_data, bad_alloc, fault, Result, ok, err, M, then_do, ◌>>=◌, ◌>>◌, on_local,
  local_result,
}
use tvie_rtmp.ReadBuffer.{ReadBuffer, big, empty, append_data, unread_size, read_all}
use tvie_rtmp.ReadBuffer.Append.{append_data-empty}
use tvie_rtmp.Amf.Ends.{Ends, read-Spends}
use tvie_rtmp.Message.{RtmpMsgHeader, set_chunk_size}
use tvie_rtmp.Parser.{RtmpParser, parse_msg_header_only, on_msg_header_parsed}
use tvie_rtmp.Parser.Chunk.{
  push_open, body_value, chunk_size_after, between, part_of, parse_partial, allocate, allocate_body,
  parse_body_with, parse_chunks, parse_new, next_msg, parse_msg_header,
}
use tvie_rtmp.Parser.Chunk.Spending.{
  EndsOn, Lasts, then_any, then_less, if-Lasts, spent, fewer, pure-Lasts, throw-Lasts,
  throw_if-Lasts, modify-Lasts, gets-Lasts, parse_msg_header_only-Lasts, on_msg_header_parsed-Lasts,
  open_msg-Lasts, set_open_msg-Lasts, push_open-Lasts, pop_open-Lasts, append_open-Lasts,
  read_bytes-Lasts, continue_msg-Lasts,
}

-- What is left of a call on a local buffer.
local_result-Ends :
    (p : RtmpParser)
    → p.rb.bi ≤ p.rb.cout
    → (rb : ReadBuffer) (r : Result ℕ × ReadBuffer) → Ends 4 rb r
    → EndsOn 0 p (local_result p r)
unfolding local_result
local_result-Ends p v rb (ok n, rb') e = omega arith
local_result-Ends p v rb (err x, rb') e = e

module _ {b : ℕ} where
  -- The local buffer of ReadBuffer::read(data, size, mode).
  body_value-Lasts : (o : Option (List ℕ)) → Lasts b 0 (body_value o)
  unfolding body_value on_local local_result ◌>>=◌ then_do
  body_value-Lasts none = throw-Lasts fault (λ e. cc)
  body_value-Lasts (some bs) =
      then_any (record { at = λ p v u. value p v }) λ v. pure-Lasts (signed32 v)
    where
      value :
          (p : RtmpParser)
          → p.rb.bi ≤ p.rb.cout
          → EndsOn 0 p (on_local (empty (length bs)) (append_data bs >> read_all 4 big) p)
      value p v =
          let (rb, made, valid, _, _) = append_data-empty bs in
          rw (made, then_do)
            (local_result-Ends p v rb (read_all 4 big rb) (read-Spends 4 big 4 rb valid.read_le))

  chunk_size_after-Lasts : (mh : RtmpMsgHeader) (size : ℤ) → Lasts b 0 (chunk_size_after mh size)
  unfolding chunk_size_after
  chunk_size_after-Lasts mh size =
      if-Lasts (mh.type_id == set_chunk_size) (body_value-Lasts mh.body) (pure-Lasts size)

  allocate-Lasts : (mh : RtmpMsgHeader) (o : Option (List ℕ)) (n : ℤ) → Lasts b 0 (allocate mh o n)
  unfolding allocate
  allocate-Lasts mh (some bs) n = pure-Lasts tt
  allocate-Lasts mh none (negsuc n) = throw-Lasts bad_alloc (λ e. cc)
  allocate-Lasts mh none (pos n) = set_open_msg-Lasts 0 _

module _ {b : ℕ} (loop : ℤ → M RtmpParser RtmpMsgHeader)
    (h : (size : ℤ) → Lasts b 0 (loop size)) where
  between-Lasts : (mh : RtmpMsgHeader) (size : ℤ) → Lasts b 0 (between loop mh size)
  unfolding between
  between-Lasts mh size = then_any (on_msg_header_parsed-Lasts mh) λ mh'.
      then_any (push_open-Lasts mh') λ _. then_any (h size) λ another.
        then_any (chunk_size_after-Lasts another size)
          λ after_it. then_any (modify-Lasts _ λ p. refl) λ _. pure-Lasts after_it

  parse_partial-Lasts : (size : ℤ) → Lasts (suc b) 1 (parse_partial loop size)
  unfolding parse_partial part_of
  parse_partial-Lasts size =
      then_less parse_msg_header_only-Lasts λ mh. then_any (gets-Lasts _) λ opened. part mh _
    where
      part : (mh : RtmpMsgHeader) (o : Option ℕ) → Lasts b 0 (part_of loop mh size o)
      part mh none = between-Lasts mh size
      part mh (some i) = continue_msg-Lasts i size

  parse_body_with-Lasts : (size : ℤ) → Lasts b 0 (parse_body_with loop size)
  unfolding parse_body_with allocate_body
  parse_body_with-Lasts size = then_any (open_msg-Lasts 0) λ mh.
      if-Lasts (leb_ℤ mh.length size)
        (then_any (read_bytes-Lasts mh.length) λ _. then_any pop_open-Lasts λ _. pure-Lasts _)
        (then_any (allocate-Lasts mh mh.body mh.length) λ _. then_any (read_bytes-Lasts size) λ bs.
          then_any (append_open-Lasts 0 bs) λ _.
            then_any (throw_if-Lasts (ltb 10 mh.chunk_stream_id) bad_protocal_data (λ e. cc))
              λ _. h size)

parse_chunks-Lasts : (fuel : ℕ) (size : ℤ) → Lasts fuel 0 (parse_chunks fuel size)
unfolding parse_chunks
parse_chunks-Lasts zero size = record { at = λ p v u. absurd (omega arith) }
parse_chunks-Lasts (suc fuel) size = then_any (open_msg-Lasts 0) λ mh.
    if-Lasts (ltb_ℤ (pos 0) mh.un_parsed_size)
      (spent (
        then_less
          (parse_partial-Lasts (parse_body_with (parse_chunks fuel))
            (parse_body_with-Lasts _ (parse_chunks-Lasts fuel)) size)
          λ size'. parse_chunks-Lasts fuel size'))
      (then_any pop_open-Lasts λ _. pure-Lasts mh)

-- The message behind the first header, on as much fuel as there are bytes.
from_header-Lasts :
    (n : ℕ) (size : ℤ)
    → Lasts (suc n) 1 (
        parse_msg_header_only >>= λ mh. on_msg_header_parsed mh >>= λ mh'.
        push_open mh' >>= λ _. parse_body_with (parse_chunks (suc n)) size)
from_header-Lasts n size = then_less parse_msg_header_only-Lasts λ mh.
    then_any (on_msg_header_parsed-Lasts mh) λ mh'. then_any (push_open-Lasts mh') λ _.
      parse_body_with-Lasts (parse_chunks (suc n)) (λ s. fewer (parse_chunks-Lasts (suc n) s)) size

-- parseMsgHeader ends on every input, in every state and at every chunk size: it returns a message,
-- having moved the read position forward or not at all and not past the bytes that have come, or it
-- throws. Its loops never run on for ever, however messages stand inside each other.
pub parse_msg_header-EndsOn :
    (chunk_size : ℤ) (p : RtmpParser)
    → p.rb.bi ≤ p.rb.cout
    → EndsOn 0 p (parse_msg_header chunk_size p)
unfolding parse_msg_header next_msg parse_new ◌>>=◌ then_do
parse_msg_header-EndsOn chunk_size p v = go p.msgs_buffer
  where
    go : (buffered : List RtmpMsgHeader) → EndsOn 0 p (next_msg chunk_size buffered p)
    go [] =
        (spent (from_header-Lasts (unread_size p.rb) chunk_size)).at (record p { open_msgs = [] }) v
          (omega arith)
    go (h ∷ rest) = omega arith
