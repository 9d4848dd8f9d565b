-- ===== src/Parser/Chunk/Pieces.antt =====
-- rtmpparser.cpp, parseMsgHeaderPartial: a message whose body is cut into chunks.
use tvie_rtmp.Base.{
  ℕ, zero, suc, ◌+◌, ◌/◌, ◌%◌, ◌≤◌, ◌<◌, ◌≡◌, refl, ap, ◌∙◌, true, false, Option, none, some, List,
  [], ◌∷◌, ◌++◌, append_assoc, arith, ◌==◌, if◌then◌else◌, length, length-append, zeros,
}
use tvie_rtmp.Base.Int.{ℤ, pos, ◌-ℤ◌, ltb_ℤ, eq_ℤ}
use tvie_rtmp.Exception.{ok, M, ◌>>=◌, then_do}
use tvie_rtmp.ReadBuffer.{advance, read_byte, read_bytes}
use tvie_rtmp.ReadBuffer.View.{
  IsValid, unread, read_byte-Reads, read_bytes-Reads, prefix-IsValid, prefix_rest,
}
use tvie_rtmp.WriteBuffer.Bytes.{memcpy-zeros}
use tvie_rtmp.Message.{RtmpMsgHeader, new_header, minus_one}
use tvie_rtmp.Parser.{
  RtmpParser, StreamContext, rd, get_stream_context, parse_chunk_stream_id, parse_type_three,
  parse_fields, parse_extended, parse_msg_header_only,
}
use tvie_rtmp.Parser.Header.{rd-Takes, on_from}
use tvie_rtmp.Parser.Chunk.{
  append_bytes, open_msg, set_open_msg, keep_appended, append_open, pop_open, continued,
  continue_msg, part_of, parse_partial, parse_body_with, parse_chunks,
}

-- The chunks `c ∷ cs` of a body: `size` bytes each, but for the last, which has no more and is not empty.
abbrev pub IsCut : ℕ → List ℕ → List (List ℕ) → Type 0
IsCut size c [] = (0 < length c) × (length c ≤ size)
IsCut size c (d ∷ ds) = (length c ≡ size) × IsCut size d ds

abbrev pub whole : List ℕ → List (List ℕ) → List ℕ
whole c [] = c
whole c (d ∷ ds) = c ++ whole d ds

-- The chunks behind the header of the first: each further one has the one byte of a header of type 3.
abbrev pub on_wire : ℕ → List ℕ → List (List ℕ) → List ℕ
on_wire id c [] = c
on_wire id c (d ∷ ds) = c ++ ((192 + id) ∷ on_wire id d ds)

pub length-on_wire :
    (id : ℕ) (c : List ℕ) (cs : List (List ℕ)) → length cs ≤ length (on_wire id c cs)
length-on_wire id c [] = omega arith
length-on_wire id c (d ∷ ds) =
    omega (arith, length-append {0} c ((192 + id) ∷ on_wire id d ds), length-on_wire id d ds)

abbrev pub HasPlain : Option StreamContext → Type 0
HasPlain none = Unit
HasPlain (some sc) = eq_ℤ sc.prev_msg.extendted_timestamp minus_one ≡ true

-- The last message of the chunk stream, if there is one, had no extended timestamp.
abbrev pub IsPlain : ℕ → RtmpParser → Type 0
IsPlain id p = HasPlain (get_stream_context id p.stream_contexts)

abbrev pub type_three : ℕ → RtmpMsgHeader
type_three id = record new_header { chunk_type = 3; chunk_stream_id = id }

chunk_stream_id_low :
    (low : ℕ) (p : RtmpParser) → 2 ≤ low → parse_chunk_stream_id low p ≡ (ok low, p)
unfolding parse_chunk_stream_id
chunk_stream_id_low low p h =
    let not_zero : (low == 0) ≡ false = ground arith in
    let not_one : (low == 1) ≡ false = ground arith in rw (not_zero, not_one) refl

type_three_plain :
    (mh : RtmpMsgHeader) (found : Option StreamContext) (p : RtmpParser)
    → HasPlain found
    → parse_type_three mh found p ≡ (ok mh, p)
unfolding parse_type_three
type_three_plain mh none p h = refl
type_three_plain mh (some sc) p h = rw h refl

-- The one byte of a header of type 3.
type_three_header :
    (id : ℕ) (rest : List ℕ) (p : RtmpParser)
    → 2 ≤ id
    → id < 64
    → IsPlain id p
    → IsValid p.rb
    → unread p.rb ≡ (192 + id) ∷ rest
    → parse_msg_header_only p ≡ (ok (type_three id), on_from 1 p)
unfolding parse_msg_header_only parse_fields parse_extended ◌>>=◌ then_do
type_three_header id rest p lo hi plain v e =
    let low : (192 + id) % 64 ≡ id = omega arith in
    let kind : (192 + id) / 64 ≡ 3 = omega arith in
    let taken : rd read_byte p ≡ (ok (192 + id), on_from 1 p) =
      (rd-Takes (read_byte-Reads (192 + id))).run p rest v e in
    rw (taken, then_do)
      (rw (kind, low)
        (rw (chunk_stream_id_low id (on_from 1 p) lo, then_do)
          (rw
            (
              type_three_plain (type_three id) (get_stream_context id p.stream_contexts)
                  (on_from 1 p) plain,
              then_do,
            )
            refl)))

-- The message with the bytes `got` of its body, when `k` are missing.
abbrev pub filled : RtmpMsgHeader → List ℕ → ℕ → RtmpMsgHeader
filled mh got k = record mh { body = some (got ++ zeros k); un_parsed_size = pos k }

abbrev pub opening : RtmpMsgHeader → List RtmpMsgHeader → RtmpParser → RtmpParser
opening mh outer p = record p { open_msgs = mh ∷ outer }

minus_part : (a b : ℕ) → pos (a + b) -ℤ pos b ≡ pos a
unfolding ◌-ℤ◌
minus_part a b = ground arith

append_filled :
    (mh : RtmpMsgHeader) (got bs : List ℕ) (k : ℕ)
    → mh.length ≡ pos (length got + (length bs + k))
    → append_bytes bs (filled mh got (length bs + k)) ≡ some (filled mh (got ++ bs) k)
unfolding append_bytes
append_filled mh got bs k h =
    let swap : length bs + k ≡ k + length bs = omega arith in
    let rest : pos (length bs + k) -ℤ pos (length bs) ≡ pos k =
      ap (λ n. pos n -ℤ pos (length bs)) swap ∙ minus_part k (length bs) in
    rw h (
      rw (minus_part (length got) (length bs + k), append_bytes)
        (rw (memcpy-zeros bs got k, append_bytes) (rw rest refl)))

pub append_step :
    (mh : RtmpMsgHeader) (got bs : List ℕ) (k : ℕ) (outer : List RtmpMsgHeader) (p : RtmpParser)
    → mh.length ≡ pos (length got + (length bs + k))
    → append_open 0 bs (opening (filled mh got (length bs + k)) outer p)
      ≡ (ok tt, opening (filled mh (got ++ bs) k) outer p)
unfolding append_open open_msg set_open_msg keep_appended ◌>>=◌ then_do
append_step mh got bs k outer p h = rw (append_filled mh got bs k h, keep_appended) refl

-- A piece is what is missing, where that is less than a chunk.
abbrev IsPiece : ℕ → ℕ → ℕ → Type 0
IsPiece size n k = (if ltb_ℤ (pos (n + k)) (pos size) then pos (n + k) else pos size) ≡ pos n

last-IsPiece : (size n : ℕ) → n ≤ size → IsPiece size n 0
last-IsPiece size n h = ground arith

whole-IsPiece : (size n k : ℕ) → n ≡ size → IsPiece size n k
whole-IsPiece size n k h = ground arith

-- A chunk of type 3 goes on with the innermost message.
round_step :
    (loop : ℤ → M RtmpParser RtmpMsgHeader) (size : ℕ) (mh : RtmpMsgHeader) (got d : List ℕ) (k : ℕ)
    (outer : List RtmpMsgHeader) (rest : List ℕ) (p : RtmpParser)
    → IsPiece size (length d) k
    → 2 ≤ mh.chunk_stream_id
    → mh.chunk_stream_id < 64
    → mh.length ≡ pos (length got + (length d + k))
    → IsPlain mh.chunk_stream_id p
    → IsValid p.rb
    → unread p.rb ≡ (192 + mh.chunk_stream_id) ∷ (d ++ rest)
    → parse_partial loop (pos size) (opening (filled mh got (length d + k)) outer p)
      ≡ (ok (pos size), opening (filled mh (got ++ d) k) outer (on_from (length d) (on_from 1 p)))
unfolding parse_partial part_of continued continue_msg open_msg ◌>>=◌ then_do
round_step loop size mh got d k outer rest p piece lo hi len plain v e =
    let id : ℕ = mh.chunk_stream_id in
    let now : RtmpParser = opening (filled mh got (length d + k)) outer p in
    let v1 : IsValid (advance 1 p.rb) = prefix-IsValid p.rb ((192 + id) ∷ []) (d ++ rest) v e in
    let e1 : unread (advance 1 p.rb) ≡ d ++ rest =
      prefix_rest p.rb ((192 + id) ∷ []) (d ++ rest) v e in
    let mine : (id == id) ≡ true = ground arith in
    let taken : rd (read_bytes (pos (length d))) (on_from 1 now)
        ≡ (ok d, on_from (length d) (on_from 1 now)) =
      (rd-Takes (read_bytes-Reads d)).run (on_from 1 now) rest v1 e1 in
    rw (type_three_header id (d ++ rest) now lo hi plain v e, then_do)
      (rw (mine, part_of, continued)
        (rw (piece) (
          rw (taken, then_do)
            (rw (append_step mh got d k outer (on_from (length d) (on_from 1 p)) len, then_do)
              refl))))

pub whole-nonempty :
    (size : ℕ) (c : List ℕ) (cs : List (List ℕ)) → IsCut size c cs → 0 < length (whole c cs)
whole-nonempty size c [] cut = cut.0
whole-nonempty size c (d ∷ ds) cut =
    omega (arith, length-append {0} c (whole d ds), whole-nonempty size d ds cut.1)

-- The message is complete: the rest of the loop.
last_round :
    (fuel : ℕ) (size : ℤ) (mh : RtmpMsgHeader) (body : List ℕ) (outer : List RtmpMsgHeader)
    (p : RtmpParser)
    → parse_chunks (suc fuel) size (opening (filled mh body 0) outer p)
      ≡ (ok (filled mh body 0), record p { open_msgs = outer })
unfolding parse_chunks open_msg pop_open ◌>>=◌ then_do
last_round fuel size mh body outer p = refl

next_round :
    (fuel : ℕ) (size : ℤ) (mh : RtmpMsgHeader) (got : List ℕ) (k : ℕ) (outer : List RtmpMsgHeader)
    (p q : RtmpParser)
    → 0 < k
    → parse_partial (parse_body_with (parse_chunks fuel)) size (opening (filled mh got k) outer p)
      ≡ (ok size, q)
    → parse_chunks (suc fuel) size (opening (filled mh got k) outer p) ≡ parse_chunks fuel size q
unfolding parse_chunks open_msg ◌>>=◌ then_do
next_round fuel size mh got k outer p q h e =
    let more : ltb_ℤ (pos 0) (pos k) ≡ true = ground arith in
    rw (more, parse_chunks) (rw (e, then_do) refl)

-- The loop over the chunks `d ∷ ds` that are left, each behind a header of type 3.
pub reassembled :
    (fuel size : ℕ) (mh : RtmpMsgHeader) (got d : List ℕ) (ds : List (List ℕ))
    (outer : List RtmpMsgHeader) (rest : List ℕ) (p : RtmpParser)
    → length ds + 2 ≤ fuel
    → IsCut size d ds
    → 2 ≤ mh.chunk_stream_id
    → mh.chunk_stream_id < 64
    → mh.length ≡ pos (length got + length (whole d ds))
    → IsPlain mh.chunk_stream_id p
    → IsValid p.rb
    → unread p.rb ≡ (192 + mh.chunk_stream_id) ∷ (on_wire mh.chunk_stream_id d ds ++ rest)
    → (q : RtmpParser) × (parse_chunks fuel
          (pos size)
          (opening (filled mh got (length (whole d ds))) outer p)
        ≡ (ok (filled mh (got ++ whole d ds) 0), q))
      × (unread q.rb ≡ rest)
reassembled zero size mh got d ds outer rest p enough cut lo hi len plain v e = absurd (omega arith)
reassembled (suc zero) size mh got d ds outer rest p enough cut lo hi len plain v e =
    absurd (omega arith)
reassembled (suc (suc fuel)) size mh got d [] outer rest p enough cut lo hi len plain v e =
    let at : ℕ = 192 + mh.chunk_stream_id in
    let v1 : IsValid (advance 1 p.rb) = prefix-IsValid p.rb (at ∷ []) (d ++ rest) v e in
    let e1 : unread (advance 1 p.rb) ≡ d ++ rest = prefix_rest p.rb (at ∷ []) (d ++ rest) v e in
    let q : RtmpParser = on_from (length d) (on_from 1 p) in
    let whole_len : length d ≡ length d + 0 = omega arith in
    let round =
      round_step (parse_body_with (parse_chunks (suc fuel))) size mh got d 0 outer rest p
        (last-IsPiece size (length d) cut.1) lo hi (len ∙ ap (λ n. pos (length got + n)) whole_len)
        plain v e in
    (
      record q { open_msgs = outer },
      ap (λ n. parse_chunks (suc (suc fuel)) (pos size) (opening (filled mh got n) outer p))
            whole_len
          ∙ next_round (suc fuel) (pos size) mh got (length d + 0) outer p
              (opening (filled mh (got ++ d) 0) outer q) (omega (arith, cut.0)) round
          ∙ last_round fuel (pos size) mh (got ++ d) outer q,
      prefix_rest (advance 1 p.rb) d rest v1 e1,
    )
reassembled (suc (suc fuel)) size mh got d (f ∷ fs) outer rest p enough cut lo hi len plain v e =
    let id : ℕ = mh.chunk_stream_id in
    let left : List ℕ = (192 + id) ∷ (on_wire id f fs ++ rest) in
    let k : ℕ = length (whole f fs) in
    let e0 : unread p.rb ≡ (192 + id) ∷ (d ++ left) =
      e ∙ ap (λ l. (192 + id) ∷ l) (append_assoc d ((192 + id) ∷ on_wire id f fs) rest) in
    let v1 : IsValid (advance 1 p.rb) = prefix-IsValid p.rb ((192 + id) ∷ []) (d ++ left) v e0 in
    let e1 : unread (advance 1 p.rb) ≡ d ++ left =
      prefix_rest p.rb ((192 + id) ∷ []) (d ++ left) v e0 in
    let q : RtmpParser = on_from (length d) (on_from 1 p) in
    let some_left : 0 < k = whole-nonempty size f fs cut.1 in
    let sum : length (d ++ whole f fs) ≡ length d + k = length-append {0} d (whole f fs) in
    let len0 : mh.length ≡ pos (length got + (length d + k)) =
      len ∙ ap (λ n. pos (length got + n)) sum in
    let sum1 : length got + (length d + k) ≡ length (got ++ d) + k =
      omega (arith, length-append {0} got d) in
    let round =
      round_step (parse_body_with (parse_chunks (suc fuel))) size mh got d k outer left p
        (whole-IsPiece size (length d) k cut.0) lo hi len0 plain v e0 in
    let (r, more, at_end) =
      reassembled (suc fuel) size mh (got ++ d) f fs outer rest q (omega arith) cut.1 lo hi
        (len0 ∙ ap pos sum1) plain (prefix-IsValid (advance 1 p.rb) d left v1 e1)
        (prefix_rest (advance 1 p.rb) d left v1 e1) in
    (
      r,
      ap (λ n. parse_chunks (suc (suc fuel)) (pos size) (opening (filled mh got n) outer p)) sum
          ∙ next_round (suc fuel) (pos size) mh got (length d + k) outer p
              (opening (filled mh (got ++ d) k) outer q) (omega arith) round
          ∙ more
          ∙ ap (λ b. (ok (filled mh b 0), r)) (append_assoc got d (whole f fs)),
      at_end,
    )
