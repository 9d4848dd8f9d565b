-- ===== src/Parser/Header.antt =====
-- rtmpparser.cpp, parseMsgHeaderOnly: a chunk header of type 0, read from the bytes that stand for it.
use tvie_rtmp.Base.{
  ℕ, ◌/◌, ◌%◌, ◌^◌, ◌≤◌, ◌<◌, ◌≡◌, refl, sym, ap, subst, ◌∙◌, Bool, false, List, [], ◌∷◌, ◌++◌,
  append_assoc, length, length-append, IsBytes, arith, ltb, ◌==◌,
}
use tvie_rtmp.Base.Int.{pos, eq_ℤ, signed32}
use tvie_rtmp.Exception.{
  Thrown, bad_protocal_data, ok, M, pure, throw_if, ◌>>=◌, ◌>>◌, >>=-ok, on, refocus,
}
use tvie_rtmp.ReadBuffer.{ReadBuffer, advance, big, read}
use tvie_rtmp.ReadBuffer.View.{
  IsValid, unread, Reads, read_byte-Reads, prefix-IsValid, prefix_rest, advance-advance,
  advance-zero,
}
use tvie_rtmp.ReadBuffer.Number.{little_value, read_big-Reads, read_little-Reads}
use tvie_rtmp.WriteBuffer.Words.{big_bytes, big_bytes-IsBytes, big_value-big_bytes}
use tvie_rtmp.Message.{RtmpMsgHeader, new_header}
use tvie_rtmp.Parser.{
  RtmpParser, rd, parse_chunk_stream_id, parse_fields, parse_extended, parse_msg_header_only,
}

abbrev pub on_from : ℕ → RtmpParser → RtmpParser
on_from n p = record p { rb = advance n p.rb }

-- The call takes exactly the bytes `bs` from the buffer, returns `a` and changes nothing else.
pub record Takes {A : Type 0} (m : M RtmpParser A) (bs : List ℕ) (a : A) : Type 0 where
  pub run :
      (p : RtmpParser) (rest : List ℕ)
      → IsValid p.rb
      → unread p.rb ≡ bs ++ rest
      → m p ≡ (ok a, on_from (length bs) p)

pub rd-Takes :
    {A : Type 0} {m : M ReadBuffer A} {bs : List ℕ} {a : A} → Reads m bs a → Takes (rd m) bs a
unfolding rd on refocus
rd-Takes h = record { run = λ p rest v e. rw (h.run p.rb rest v e, refocus) refl }

Takes->>= :
    {A B : Type 0} {m : M RtmpParser A} (f : A → M RtmpParser B) {bs : List ℕ} (cs : List ℕ) {a : A}
    {b : B}
    → Takes m bs a
    → Takes (f a) cs b
    → Takes (m >>= f) (bs ++ cs) b
Takes->>= {m = m} f {bs = bs} cs {b = b} h k = record {
  run = λ p rest v e.
      let e' : unread p.rb ≡ bs ++ (cs ++ rest) = e ∙ append_assoc bs cs rest in
      >>=-ok m f p (h.run p (cs ++ rest) v e')
      ∙ k.run (on_from (length bs) p) rest (prefix-IsValid p.rb bs (cs ++ rest) v e')
          (prefix_rest p.rb bs (cs ++ rest) v e')
      ∙ ap {A = ReadBuffer} (λ rb. (ok b, record p { rb = rb }))
          (advance-advance (length bs) (length cs) (length (bs ++ cs)) p.rb (length-append bs cs));
}

pure-Takes : {A : Type 0} (a : A) → Takes (pure a) [] a
pure-Takes a = record {
  run = λ p rest v e. ap {A = ReadBuffer} (λ rb. (ok a, record p { rb = rb })) (advance-zero p.rb);
}

throw_if-Takes : (b : Bool) (e : Thrown) → b ≡ false → Takes (throw_if b e) [] tt
throw_if-Takes b e h = subst (λ c. Takes (throw_if c e) [] tt) (sym h) (pure-Takes tt)

-- Three bytes, as a timestamp or a length.
three-Takes : (n : ℕ) → n < 2 ^ 24 → Takes (rd (read 4 big (pos 3))) (big_bytes 3 n) n
three-Takes n h =
    subst (λ v. Takes (rd (read 4 big (pos 3))) (big_bytes 3 n) v)
      (big_value-big_bytes 3 0 n h ∙ omega arith)
      (rd-Takes (read_big-Reads 4 (big_bytes 3 n) (big_bytes-IsBytes 3 n) (omega arith)))

-- A header of type 0 on a chunk stream from 2 to 63.
abbrev pub header_bytes : ℕ → ℕ → ℕ → ℕ → List ℕ → List ℕ
header_bytes id timestamp len type_id stream =
    id ∷ (big_bytes 3 timestamp ++ (big_bytes 3 len ++ (type_id ∷ stream)))

abbrev pub header : ℕ → ℕ → ℕ → ℕ → List ℕ → RtmpMsgHeader
header id timestamp len type_id stream = record new_header {
  chunk_type = 0;
  chunk_stream_id = id;
  timestamp = pos timestamp;
  length = pos len;
  type_id = type_id;
  stream_id = signed32 (little_value stream);
}

chunk_stream_id-Takes : (low : ℕ) → 2 ≤ low → Takes (parse_chunk_stream_id low) [] low
unfolding parse_chunk_stream_id
chunk_stream_id-Takes low h =
    let not_zero : (low == 0) ≡ false = ground arith in
    let not_one : (low == 1) ≡ false = ground arith in rw (not_zero, not_one) (pure-Takes low)

-- A timestamp below 0xffffff is not extended.
extended-Takes :
    (mh : RtmpMsgHeader)
    → eq_ℤ mh.timestamp (pos 0x00ffffff) ≡ false
    → Takes (parse_extended mh) [] mh
unfolding parse_extended
extended-Takes mh h = rw h (pure-Takes mh)

-- What follows the first byte, by its two parts.
abbrev behind_first : ℕ → ℕ → M RtmpParser RtmpMsgHeader
behind_first kind id = do
  throw_if (ltb 3 kind) bad_protocal_data
  i ← parse_chunk_stream_id id
  mh ← parse_fields (record new_header { chunk_type = kind; chunk_stream_id = i })
  parse_extended mh

module _ (a b c d : ℕ) (bytes : IsBytes (a ∷ b ∷ c ∷ d ∷ [])) where
  fields-Takes :
      (id timestamp len type_id : ℕ)
      → timestamp < 2 ^ 24
      → len < 2 ^ 24
      → Takes
          (parse_fields (record new_header { chunk_type = 0; chunk_stream_id = id }))
          (big_bytes 3 timestamp ++ (big_bytes 3 len ++ (type_id ∷ a ∷ b ∷ c ∷ d ∷ [])))
          (header id timestamp len type_id (a ∷ b ∷ c ∷ d ∷ []))
  unfolding parse_fields
  fields-Takes id timestamp len type_id ht hl = Takes->>= _ _ (three-Takes timestamp ht) (
      Takes->>= _ _ (three-Takes len hl) (
        Takes->>= _ (a ∷ b ∷ c ∷ d ∷ []) (rd-Takes (read_byte-Reads type_id)) (
          Takes->>= _ [] (rd-Takes (read_little-Reads 4 (a ∷ b ∷ c ∷ d ∷ []) bytes (omega arith)))
            (pure-Takes _))))

  parts-Takes :
      (kind id timestamp len type_id : ℕ)
      → kind ≡ 0
      → 2 ≤ id
      → timestamp < 0x00ffffff
      → len < 2 ^ 24
      → Takes
          (behind_first kind id)
          (big_bytes 3 timestamp ++ (big_bytes 3 len ++ (type_id ∷ a ∷ b ∷ c ∷ d ∷ [])))
          (header id timestamp len type_id (a ∷ b ∷ c ∷ d ∷ []))
  parts-Takes kind id timestamp len type_id zero_kind lo ht hl =
      let bs : List ℕ =
        big_bytes 3 timestamp ++ (big_bytes 3 len ++ (type_id ∷ a ∷ b ∷ c ∷ d ∷ [])) in
      subst
        (λ k. Takes (behind_first k id) bs (header id timestamp len type_id (a ∷ b ∷ c ∷ d ∷ [])))
        (sym zero_kind)
        (Takes->>= _ _ (throw_if-Takes (ltb 3 0) bad_protocal_data refl) (
          Takes->>= _ _ (chunk_stream_id-Takes id lo) (
            Takes->>= _ [] (fields-Takes id timestamp len type_id (omega arith) hl)
              (extended-Takes _ (ground arith)))))

  -- parseMsgHeaderOnly reads a header of type 0, on a chunk stream from 2 to 63 and with a timestamp
  -- below 0xffffff, from its twelve bytes, takes no byte more and changes nothing else.
  pub parse_msg_header_only-Takes :
      (id timestamp len type_id : ℕ)
      → 2 ≤ id
      → id < 64
      → timestamp < 0x00ffffff
      → len < 2 ^ 24
      → Takes parse_msg_header_only
          (header_bytes id timestamp len type_id (a ∷ b ∷ c ∷ d ∷ []))
          (header id timestamp len type_id (a ∷ b ∷ c ∷ d ∷ []))
  unfolding parse_msg_header_only
  parse_msg_header_only-Takes id timestamp len type_id lo hi ht hl =
      let low : id % 64 ≡ id = omega arith in
      let bs : List ℕ =
        big_bytes 3 timestamp ++ (big_bytes 3 len ++ (type_id ∷ a ∷ b ∷ c ∷ d ∷ [])) in
      Takes->>= _ _ (rd-Takes (read_byte-Reads id)) (
        subst
          (λ i.
            Takes (behind_first (id / 64) i) bs
              (header id timestamp len type_id (a ∷ b ∷ c ∷ d ∷ [])))
          (sym low) (parts-Takes (id / 64) id timestamp len type_id (omega arith) lo ht hl))
