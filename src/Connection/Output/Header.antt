-- ===== src/Connection/Output/Header.antt =====
-- rtmpconnection.cpp, writeHeader and chunkedSentMsg: the messages of the server, as bytes and read back.
use tvie_rtmp.Base.{
  ℕ, suc, ◌+◌, ◌-◌, ◌*◌, ◌/◌, ◌%◌, ◌^◌, ◌≤◌, ◌<◌, ◌≡◌, refl, sym, ap, subst, ◌∙◌, Bool, true, false,
  not, some, List, [], ◌∷◌, ◌++◌, append-nil, append_assoc, arith, ltb, lt→ltb, le→ltb, length,
  length-append, take, drop, take_all, drop_all,
}
use tvie_rtmp.Base.Int.{pos, ◌-ℤ◌, eq_ℤ, signed32}
use tvie_rtmp.Exception.{ok, M, pure, ◌>>◌, >>-assoc}
use tvie_rtmp.ReadBuffer.View.{IsValid, unread}
use tvie_rtmp.ReadBuffer.Number.{little_value}
use tvie_rtmp.WriteBuffer
use tvie_rtmp.WriteBuffer.{
  WriteBuffer, write_b_bits, write_l_bits, write_b, write_bytes, get_buffer,
}
use tvie_rtmp.WriteBuffer.Bytes.{
  holding, Writes, Writes->>, write_bytes-Writes, get_buffer-holding, holding-empty,
}
use tvie_rtmp.WriteBuffer.Words.{big_bytes, Writes-pure, write_b_bits-Writes, write_l_32-Writes}
use tvie_rtmp.WriteBuffer.Parts.{write_parts}
use tvie_rtmp.Message.{minus_one}
use tvie_rtmp.Parser.{RtmpParser}
use tvie_rtmp.Parser.Header.{header_bytes}
use tvie_rtmp.Parser.Chunk.{parse_msg_header}
use tvie_rtmp.Parser.Chunk.Whole.{parse_msg_header-header_bytes}
use tvie_rtmp.Connection.Output.{
  pattern64, write_chunk_stream_id, written_if, write_header, write_chunks, write_message,
  message_header,
}

-- The stream id as it comes out of writeL.
abbrev pub stream_bytes : ℕ → List ℕ
stream_bytes s = s % 256 ∷ s / 2 ^ 24 ∷ 0 ∷ 0 ∷ []

written_if-true :
    {m : M WriteBuffer (Unit {0})} {bs : List ℕ} (b : Bool)
    → b ≡ true
    → Writes m bs
    → Writes (written_if b m) bs
written_if-true {m} {bs} b e p = subst (λ b. Writes (written_if b m) bs) (sym e) p

written_if-false :
    (m : M WriteBuffer (Unit {0})) (b : Bool) → b ≡ false → Writes (written_if b m) []
written_if-false m b e = subst (λ b. Writes (written_if b m) []) (sym e) Writes-pure

first_byte-Writes :
    (id : ℕ) → id < 64 → Writes (write_b_bits 1 0 2 >> write_chunk_stream_id id) (id ∷ [])
unfolding write_chunk_stream_id
first_byte-Writes id hi = rw (lt→ltb id 64 hi) (
    write_parts 1 4 id 2 6 refl (omega arith) (omega arith) (omega arith) (omega arith) hi
      (omega arith))

-- A field of whole bytes, of a value that they hold.
field-Writes :
    (n width s v : ℕ)
    → n ≤ 4
    → n ≤ width
    → s % 2 ^ (8 * n) ≡ v
    → Writes (write_b_bits width s (8 * n)) (big_bytes n v)
field-Writes n width s v h w e =
    subst (λ x. Writes (write_b_bits width s (8 * n)) (big_bytes n x)) e
      (write_b_bits-Writes n width s h w)

-- writeHeader of a message of the server, on a chunk stream from 2 to 63: the first byte is the id, and
-- the other fields follow whole, but for the stream id.
pub write_header-Writes :
    (id len type stream : ℕ)
    → id < 64
    → len < 2 ^ 24
    → type < 256
    → stream < 2 ^ 31
    → Writes
        (write_header (message_header id len type (pos stream)))
        (header_bytes id 0 len type (stream_bytes stream))
unfolding write_header
write_header-Writes id len type stream hi hl ht hs =
    let has_stream : eq_ℤ (pos stream) minus_one ≡ false = ground arith in
    let one : type % 2 ^ 8 / 2 ^ 0 % 256 ≡ type = omega arith in
    let pattern : stream % 2 ^ 32 ≡ stream = omega arith in
    subst (λ m. Writes m (header_bytes id 0 len type (stream_bytes stream)))
      (sym (>>-assoc (write_b_bits 1 0 2) (write_chunk_stream_id id) _))
      (Writes->> (id ∷ []) _ (first_byte-Writes id hi) (
        Writes->> (big_bytes 3 0) _ (field-Writes 3 8 0 0 (omega arith) (omega arith) refl) (
          Writes->> (big_bytes 3 len) _
            (field-Writes 3 4 (len % 2 ^ 32) len (omega arith) (omega arith) (omega arith))
            (Writes->> (type ∷ []) _
              (subst (λ t. Writes (write_b_bits 1 type 8) (t ∷ [])) one
                (write_b_bits-Writes 1 1 type (omega arith) (omega arith)))
              (Writes->> (stream_bytes stream) []
                (written_if-true (not (eq_ℤ (pos stream) minus_one)) (ap not has_stream) (
                  subst (λ x. Writes (write_l_bits x 32) (stream_bytes stream)) (sym pattern)
                    (write_l_32-Writes stream hs)))
                (written_if-false (write_b_bits 8 (pattern64 (pos 0 -ℤ pos 0x00ffffff)) 32) _
                  refl))))))

-- The loop of chunkedSentMsg at what one chunk holds.
pub last_chunk-Writes :
    (fuel size : ℕ) (c : List ℕ)
    → 0 < length c
    → length c ≤ size
    → Writes (write_chunks (suc (suc fuel)) size c) c
unfolding write_chunks
last_chunk-Writes fuel size [] some_bytes fits = absurd (omega arith)
last_chunk-Writes fuel size (b ∷ bs) some_bytes fits =
    let all : take size (b ∷ bs) ≡ b ∷ bs = take_all size (b ∷ bs) fits in
    let nothing : drop size (b ∷ bs) ≡ [] = drop_all size (b ∷ bs) fits in
    let last : ltb size (length (b ∷ bs)) ≡ false = le→ltb size (length (b ∷ bs)) fits in
    rw (all, nothing, last)
      (subst (λ l. Writes (write_bytes (b ∷ bs) >> (pure tt >> pure tt)) l) (append-nil (b ∷ bs))
        (Writes->> (b ∷ bs) [] (write_bytes-Writes (b ∷ bs))
          (Writes->> [] [] Writes-pure Writes-pure)))

write_chunks-Writes :
    (size : ℕ) (body : List ℕ)
    → length body ≤ size
    → Writes (write_chunks (suc (length body)) size body) body
unfolding write_chunks
write_chunks-Writes size [] fits = Writes-pure
write_chunks-Writes size (b ∷ bs) fits =
    last_chunk-Writes (length bs) size (b ∷ bs) (omega arith) fits

pub stream_bytes-signed32 : (s : ℕ) → s < 256 → signed32 (little_value (stream_bytes s)) ≡ pos s
stream_bytes-signed32 s h =
    let v : little_value (stream_bytes s) ≡ s = omega arith in
    rw (v, lt→ltb s (2 ^ 31) (omega arith))

module _ (size id type stream : ℕ) (body : List ℕ) where
  -- What chunkedSentMsg writes of a message that one chunk holds.
  pub write_message-Writes :
      id < 64
      → type < 256
      → stream < 2 ^ 31
      → length body < 2 ^ 24
      → length body ≤ size
      → Writes
          (write_message size (message_header id (length body) type (pos stream)) body)
          (header_bytes id 0 (length body) type (stream_bytes stream) ++ body)
  unfolding write_message
  write_message-Writes hi ht hs hl fits =
      Writes->> _ body (write_header-Writes id (length body) type stream hi hl ht hs)
        (write_chunks-Writes size body fits)

  -- A message of the server, on a chunk stream from 2 to 63, for a stream below 256 and in one chunk,
  -- is written into an empty buffer with ten bytes to spare without an error, and the parser reads it
  -- back with all its fields and its body, whatever follows. No other message may be waiting in it.
  pub parse_msg_header-write_message :
      (n chunk_size : ℕ) (rest : List ℕ) (p : RtmpParser)
      → 2 ≤ id
      → id < 64
      → type < 256
      → stream < 256
      → length body < 2 ^ 24
      → length body ≤ size
      → length body ≤ chunk_size
      → 22 + length body ≤ n
      → IsValid p.rb
      → p.msgs_buffer ≡ []
      → unread p.rb
        ≡ get_buffer
            (write_message size
              (message_header id (length body) type (pos stream))
              body
              (WriteBuffer.empty n)).1
          ++ rest
      → ((write_message size
            (message_header id (length body) type (pos stream))
            body
            (WriteBuffer.empty n)).0
          ≡ ok tt)
        × (q : RtmpParser) × (parse_msg_header (pos chunk_size) p ≡ (
          ok (record (message_header id (length body) type (pos stream)) {
            body = some body;
            un_parsed_size = pos 0;
          }),
          q,
        ))
        × (unread q.rb ≡ rest)
  parse_msg_header-write_message n chunk_size rest p lo hi ht hs hl fits fits' room v none_left e =
      let bs : List ℕ = header_bytes id 0 (length body) type (stream_bytes stream) ++ body in
      let k : ℕ = n - length bs in
      let wm : M WriteBuffer (Unit {0}) =
        write_message size (message_header id (length body) type (pos stream)) body in
      let ready : WriteBuffer.empty n ≡ holding [] (length bs + k) =
        holding-empty n
        ∙ ap (λ x. holding [] x)
            (omega (
              arith,
              length-append {0} (header_bytes id 0 (length body) type (stream_bytes stream)) body,
            )) in
      let wrote : wm (WriteBuffer.empty n) ≡ (ok tt, holding bs k) =
        ap wm ready
        ∙ (write_message-Writes hi ht (omega arith) hl fits).run [] k (
            omega (
              arith,
              length-append {0} (header_bytes id 0 (length body) type (stream_bytes stream)) body,
            )) in
      let content : get_buffer (wm (WriteBuffer.empty n)).1 ≡ bs =
        ap (λ r. get_buffer r.1) wrote ∙ get_buffer-holding bs k in
      let on_wire =
        e
        ∙ ap (λ l. l ++ rest) content
        ∙ append_assoc (header_bytes id 0 (length body) type (stream_bytes stream)) body rest in
      let (q, read, left) =
        parse_msg_header-header_bytes (stream % 256) (stream / 2 ^ 24) 0 0
          (omega arith, (omega arith, (omega arith, (omega arith, tt)))) chunk_size id 0 type body
          rest p lo hi (omega arith) hl fits' v none_left on_wire in
      (
        ap (λ r. r.0) wrote,
        q,
        read
            ∙ ap
                (λ z. (
                  ok (record (message_header id (length body) type z) {
                    body = some body;
                    un_parsed_size = pos 0;
                  }),
                  q,
                ))
                (stream_bytes-signed32 stream hs),
        left,
      )
