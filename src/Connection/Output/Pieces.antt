-- ===== src/Connection/Output/Pieces.antt =====
-- rtmpconnection.cpp, chunkedSentMsg: a message of the server in several chunks, and read back.
use tvie_rtmp.Base.{
  ℕ, zero, suc, ◌+◌, ◌-◌, ◌*◌, ◌/◌, ◌%◌, ◌^◌, ◌≤◌, ◌<◌, ◌≡◌, refl, sym, ap, subst, ◌∙◌, ◌⊎◌, inl,
  inr, true, some, List, [], ◌∷◌, ◌++◌, append_assoc, arith, ltb, lt→ltb, length, length-append,
  length-take, length-drop, take, drop, take_prefix, drop_prefix, take-append-drop,
}
use tvie_rtmp.Base.Int.{pos}
use tvie_rtmp.Exception.{Result, ok, M}
use tvie_rtmp.ReadBuffer.View.{IsValid, unread}
use tvie_rtmp.WriteBuffer
use tvie_rtmp.WriteBuffer.{WriteBuffer, write_byte, write_bytes, get_buffer}
use tvie_rtmp.WriteBuffer.Bytes.{
  holding, Writes, Writes->>, write_byte-WritesIn, write_bytes-Writes, get_buffer-holding,
  holding-empty,
}
use tvie_rtmp.Parser.{RtmpParser}
use tvie_rtmp.Parser.Header.{header_bytes}
use tvie_rtmp.Parser.Chunk.{parse_msg_header}
use tvie_rtmp.Parser.Chunk.Pieces.{IsCut, whole, on_wire, whole-nonempty, IsPlain}
use tvie_rtmp.Parser.Chunk.Several.{parse_msg_header-on_wire}
use tvie_rtmp.Connection.Output.{write_chunks, write_message, message_header}
use tvie_rtmp.Connection.Output.Header.{
  stream_bytes, stream_bytes-signed32, write_header-Writes, last_chunk-Writes,
}

IsCut-positive : (size : ℕ) (c : List ℕ) (cs : List (List ℕ)) → IsCut size c cs → 0 < size
IsCut-positive size c [] cut = omega (arith, cut.0, cut.1)
IsCut-positive size c (d ∷ ds) cut = IsCut-positive size d ds cut.1

first_chunk-Writes :
    (fuel size : ℕ) (c left out : List ℕ)
    → 0 < size
    → length c ≡ size
    → 0 < length left
    → Writes (write_chunks fuel size left) out
    → Writes (write_chunks (suc fuel) size (c ++ left)) (c ++ 0xc3 ∷ out)
unfolding write_chunks
first_chunk-Writes fuel size [] left out positive len some_left w = absurd (omega arith)
first_chunk-Writes fuel size (b ∷ bs) left out positive len some_left w =
    let c : List ℕ = b ∷ bs in
    let front : take size (b ∷ bs ++ left) ≡ b ∷ bs = take_prefix size (b ∷ bs) left (sym len) in
    let behind : drop size (b ∷ bs ++ left) ≡ left = drop_prefix size (b ∷ bs) left (sym len) in
    let more : ltb size (length (b ∷ bs ++ left)) ≡ true =
      lt→ltb _ _ (omega (arith, length-append {0} (b ∷ bs) left, len)) in
    rw (front, behind, more)
      (Writes->> (b ∷ bs) (0xc3 ∷ out) (write_bytes-Writes (b ∷ bs))
        (Writes->> (0xc3 ∷ []) out (write_byte-WritesIn 0xc3 (omega arith) (omega arith)) w))

-- The loop of chunkedSentMsg writes the chunks of the body, each further one behind the header of type 3
-- of the chunk stream 3.
chunks-Writes :
    (fuel size : ℕ) (c : List ℕ) (cs : List (List ℕ))
    → length (whole c cs) < fuel
    → IsCut size c cs
    → Writes (write_chunks fuel size (whole c cs)) (on_wire 3 c cs)
chunks-Writes zero size c cs enough cut = absurd (omega arith)
chunks-Writes (suc zero) size c cs enough cut = absurd (omega (arith, whole-nonempty size c cs cut))
chunks-Writes (suc (suc fuel)) size c [] enough cut = last_chunk-Writes fuel size c cut.0 cut.1
chunks-Writes (suc (suc fuel)) size c (d ∷ ds) enough cut =
    let positive : 0 < size = IsCut-positive size d ds cut.1 in
    first_chunk-Writes (suc fuel) size c (whole d ds) (on_wire 3 d ds) positive cut.0
      (whole-nonempty size d ds cut.1)
      (chunks-Writes (suc fuel) size d ds
        (omega (arith, length-append {0} c (whole d ds), cut.0, positive)) cut.1)

-- Every chunk but the last has a byte, so that the headers take no more room than the body.
length-on_wire-le :
    (size : ℕ) (c : List ℕ) (cs : List (List ℕ))
    → IsCut size c cs
    → length (on_wire 3 c cs) ≤ 2 * length (whole c cs)
length-on_wire-le size c [] cut = omega arith
length-on_wire-le size c (d ∷ ds) cut = omega (
  arith,
  length-append {0} c (0xc3 ∷ on_wire 3 d ds),
  length-append {0} c (whole d ds),
  length-on_wire-le size d ds cut.1,
  IsCut-positive size d ds cut.1,
  cut.0,
)

-- Every body that is not empty has its chunks.
body-IsCut :
    (n size : ℕ) (body : List ℕ)
    → length body ≤ n
    → 0 < size
    → 0 < length body
    → (c : List ℕ) × (cs : List (List ℕ)) × IsCut size c cs × (whole c cs ≡ body)
body-IsCut zero size body h positive some_bytes = absurd (omega arith)
body-IsCut (suc n) size body h positive some_bytes = elim (le_or_lt (length body) size) [
  | inl fits ↦ (body, [], (some_bytes, fits), refl)
  | inr longer ↦
      let (c, cs, cut, e) =
        body-IsCut n size (drop size body) (omega (arith, length-drop {0} size body)) positive
          (omega (arith, length-drop {0} size body)) in
      (
        take size body,
        c ∷ cs,
        (omega (arith, length-take {0} size body), cut),
        ap (λ l. take size body ++ l) e ∙ take-append-drop size body,
      )
]
  where
    le_or_lt : (a b : ℕ) → (a ≤ b) ⊎ (b < a)
    le_or_lt a b = ground arith

-- The loop of chunkedSentMsg ends on every body that is not empty, at every chunk size but 0, where the
-- buffer is at a byte boundary and what is written fits with ten bytes to spare (Writes). It writes the
-- body cut into chunks of that size, but for the last, which is not empty and has no more: each further
-- chunk is behind the one byte of a header of type 3 of the chunk stream 3.
pub write_chunks-on_wire :
    (size : ℕ) (body : List ℕ)
    → 0 < size
    → 0 < length body
    → (c : List ℕ) × (cs : List (List ℕ)) × IsCut size c cs
      × (whole c cs ≡ body)
      × Writes (write_chunks (suc (length body)) size body) (on_wire 3 c cs)
write_chunks-on_wire size body positive some_bytes =
    let (c, cs, cut, same) = body-IsCut (length body) size body (omega arith) positive some_bytes in
    (
      c,
      cs,
      cut,
      same,
      subst (λ b. Writes (write_chunks (suc (length b)) size b) (on_wire 3 c cs)) same
          (chunks-Writes (suc (length (whole c cs))) size c cs (omega arith) cut),
    )

-- What chunkedSentMsg leaves in a buffer of `n` bytes, for a message of the chunk stream 3.
abbrev written : ℕ → ℕ → ℕ → ℕ → List ℕ → Result (Unit {0}) × WriteBuffer
written n size type stream body =
    write_message size (message_header 3 (length body) type (pos stream)) body (WriteBuffer.empty n)

-- The buffer is written without an error, and the parser reads the message back from it.
abbrev ReadsBack : ℕ → ℕ → ℕ → ℕ → List ℕ → List ℕ → RtmpParser → Type 0
ReadsBack n size type stream body rest p =
    ((written n size type stream body).0 ≡ ok tt)
    × (q : RtmpParser) × (parse_msg_header (pos size) p ≡ (
      ok (record (message_header 3 (length body) type (pos stream)) {
        body = some body;
        un_parsed_size = pos 0;
      }),
      q,
    ))
    × (unread q.rb ≡ rest)

cut-ReadsBack :
    (n size type stream : ℕ) (c d : List ℕ) (ds : List (List ℕ)) (rest : List ℕ) (p : RtmpParser)
    → type < 256
    → stream < 256
    → length (whole c (d ∷ ds)) < 2 ^ 24
    → IsCut size c (d ∷ ds)
    → 22 + 2 * length (whole c (d ∷ ds)) ≤ n
    → IsPlain 3 p
    → IsValid p.rb
    → p.msgs_buffer ≡ []
    → unread p.rb ≡ get_buffer (written n size type stream (whole c (d ∷ ds))).1 ++ rest
    → ReadsBack n size type stream (whole c (d ∷ ds)) rest p
unfolding write_message
cut-ReadsBack n size type stream c d ds rest p ht hs hl cut room plain v none_left e =
    let body : List ℕ = whole c (d ∷ ds) in
    let chunks : List ℕ = on_wire 3 c (d ∷ ds) in
    let front : List ℕ = header_bytes 3 0 (length body) type (stream_bytes stream) in
    let k : ℕ = n - length (front ++ chunks) in
    let sum = length-append {0} front chunks in
    let short = length-on_wire-le size c (d ∷ ds) cut in
    let wm : M WriteBuffer (Unit {0}) =
      write_message size (message_header 3 (length body) type (pos stream)) body in
    let writes : Writes wm (front ++ chunks) =
      Writes->> front chunks
        (write_header-Writes 3 (length body) type stream (omega arith) hl ht (omega arith))
        (chunks-Writes (suc (length body)) size c (d ∷ ds) (omega arith) cut) in
    let ready : WriteBuffer.empty n ≡ holding [] (length (front ++ chunks) + k) =
      holding-empty n ∙ ap (λ x. holding [] x) (omega (arith, sum, short)) in
    let wrote : wm (WriteBuffer.empty n) ≡ (ok tt, holding (front ++ chunks) k) =
      ap wm ready ∙ writes.run [] k (omega (arith, sum, short)) in
    let content : get_buffer (wm (WriteBuffer.empty n)).1 ≡ front ++ chunks =
      ap (λ r. get_buffer r.1) wrote ∙ get_buffer-holding (front ++ chunks) k in
    let (q, read, left) =
      parse_msg_header-on_wire (stream % 256) (stream / 2 ^ 24) 0 0
        (omega arith, (omega arith, (omega arith, (omega arith, tt)))) size 3 0 type c d ds rest p
        (omega arith) (omega arith) (omega arith) hl cut plain v none_left
        (e ∙ ap (λ l. l ++ rest) content ∙ append_assoc front chunks rest) in
    (
      ap (λ r. r.0) wrote,
      q,
      read
          ∙ ap
              (λ z. (
                ok (record (message_header 3 (length body) type z) {
                  body = some body;
                  un_parsed_size = pos 0;
                }),
                q,
              ))
              (stream_bytes-signed32 stream hs),
      left,
    )

-- A message of the server on the chunk stream 3, for a stream below 256 and with a body that is longer
-- than a chunk, is written into an empty buffer without an error, where that has room for 22 bytes and
-- twice the body, and the parser reads it back with the same chunk size, with all its fields and its whole
-- body, whatever follows. No other message may be waiting in the parser, and the chunk stream may have
-- no extended timestamp from an earlier message.
pub write_message-ReadsBack :
    (n size type stream : ℕ) (body rest : List ℕ) (p : RtmpParser)
    → type < 256
    → stream < 256
    → 0 < size
    → size < length body
    → length body < 2 ^ 24
    → 22 + 2 * length body ≤ n
    → IsPlain 3 p
    → IsValid p.rb
    → p.msgs_buffer ≡ []
    → unread p.rb ≡ get_buffer (written n size type stream body).1 ++ rest
    → ReadsBack n size type stream body rest p
write_message-ReadsBack n size type stream body rest p ht hs positive long hl room plain v none_left
      e =
    go (body-IsCut (length body) size body (omega arith) positive (omega arith))
  where
    go :
        (c : List ℕ) × (cs : List (List ℕ)) × IsCut size c cs × (whole c cs ≡ body)
        → ReadsBack n size type stream body rest p
    go (c, [], cut, same) = absurd (omega (arith, cut.1, ap (λ (l : List ℕ). length l) same))
    go (c, d ∷ ds, cut, same) =
        subst
          (λ b.
            length b < 2 ^ 24
            → 22 + 2 * length b ≤ n
            → unread p.rb ≡ get_buffer (written n size type stream b).1 ++ rest
            → ReadsBack n size type stream b rest p)
          same
          (λ hl room e.
            cut-ReadsBack n size type stream c d ds rest p ht hs hl cut room plain v none_left e)
          hl room e
