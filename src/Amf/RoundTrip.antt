-- ===== src/Amf/RoundTrip.antt =====
-- amf0.cpp: the parsers of single values, at the bytes that the format has for them.
use tvie_rtmp.Base.{
  ℕ, ◌+◌, ◌^◌, ◌≤◌, ◌<◌, ◌≡◌, refl, sym, ap, subst, ◌∙◌, inl, inr, Bool, true, false, not,
  Bool-cases, List, [], ◌∷◌, ◌++◌, append-nil, arith, length, ◌==◌, ltb, ltb→lt, if◌then◌else◌,
}
use tvie_rtmp.Base.Int.{pos}
use tvie_rtmp.Exception.{
  Thrown, throw_if, pure, ok, err, fault, ◌>>=◌, >>=-ok, >>=-err, invalid_amf_data,
}
use tvie_rtmp.ReadBuffer.{ReadBuffer, advance, big, read, read_chars}
use tvie_rtmp.ReadBuffer.View.{
  IsValid, unread, prefix-IsValid, prefix_rest, advance-advance, Reads, Reads->>=, Reads-pure,
  read_byte-Reads, read_bytes-Reads,
}
use tvie_rtmp.ReadBuffer.Inside.{
  ReadsInside, Reads-ReadsInside, ReadsInside->>=, ReadsInside-last, read_chars-ReadsInside,
  read_chars_overrun, Overruns,
}
use tvie_rtmp.ReadBuffer.Number.{big_value, little_value, read_big-Reads}
use tvie_rtmp.WriteBuffer.Words.{big_bytes, big_bytes-IsBytes, big_value-big_bytes}
use tvie_rtmp.Utility.{reverse_bytes, reverse_bytes_eight}
use tvie_rtmp.Amf.{
  c_string, expect, parse_object_key, parse_as_string, parse_as_bool, parse_as_number,
}
use tvie_rtmp.Amf.Format.{number, boolean, string, encode, encode_key}

pub throw_if-Reads : (b : Bool) (e : Thrown) → b ≡ false → Reads (throw_if b e) [] tt
throw_if-Reads b e h = subst (λ c. Reads (throw_if c e) [] tt) (sym h) (Reads-pure tt)

-- The value that is left for a test to be stated at.
pub expect-Reads : (t : ℕ) → Reads (expect t) (t ∷ []) tt
unfolding expect
expect-Reads t =
    Reads->>= _ [] (read_byte-Reads t)
      (throw_if-Reads (not (t == t)) invalid_amf_data (ground arith))

read_16 : (n : ℕ) → n < 2 ^ 16 → Reads (read 2 big (pos 2)) (big_bytes 2 n) n
read_16 n h =
    subst (λ v. Reads (read 2 big (pos 2)) (big_bytes 2 n) v)
      (big_value-big_bytes 2 0 n h ∙ omega arith)
      (read_big-Reads 2 (big_bytes 2 n) (big_bytes-IsBytes 2 n) (omega arith))

-- A length of two bytes and the characters, of which those behind the first 0 are lost.
key_ReadsInside :
    (s : List ℕ)
    → length s < 2 ^ 16
    → ReadsInside
        (read 2 big (pos 2) >>= λ len. read_chars len >>= λ chars. pure (c_string chars))
        (encode_key s)
        (c_string s)
key_ReadsInside s len =
    ReadsInside->>= _ s (Reads-ReadsInside (read_16 (length s) len))
      (ReadsInside-last _ (read_chars-ReadsInside s) (Reads-pure (c_string s)))

-- parseObjectKey reads a key of up to 65535 characters in the format, and takes no byte more.
pub parse_object_key-ReadsInside :
    (s : List ℕ) → length s < 2 ^ 16 → ReadsInside parse_object_key (encode_key s) (c_string s)
unfolding parse_object_key
parse_object_key-ReadsInside s len = key_ReadsInside s len

pub parse_as_string-ReadsInside :
    (s : List ℕ) → length s < 2 ^ 16 → ReadsInside parse_as_string (encode (string s)) (c_string s)
unfolding parse_as_string encode
parse_as_string-ReadsInside s len =
    ReadsInside->>= _ (encode_key s) (Reads-ReadsInside (expect-Reads 2)) (key_ReadsInside s len)

-- What stands in front of the characters.
module _ (s rest : List ℕ) (rb : ReadBuffer) (len : length s < 2 ^ 16) (v : IsValid rb)
    (e : unread rb ≡ encode (string s) ++ rest) where
  at_characters :
      IsValid (advance 3 rb)
      × (unread (advance 3 rb) ≡ s ++ rest)
      × (parse_as_string rb
          ≡ (read_chars (length s) >>= λ chars. pure (c_string chars)) (advance 3 rb))
  unfolding parse_as_string encode
  at_characters =
      let e1 : unread rb ≡ (2 ∷ []) ++ (encode_key s ++ rest) = e in
      let v1 : IsValid (advance 1 rb) = prefix-IsValid rb (2 ∷ []) (encode_key s ++ rest) v e1 in
      let e2 : unread (advance 1 rb) ≡ big_bytes 2 (length s) ++ (s ++ rest) =
        prefix_rest rb (2 ∷ []) (encode_key s ++ rest) v e1 in
      let three : advance 2 (advance 1 rb) ≡ advance 3 rb = advance-advance 1 2 3 rb refl in
      (
        subst IsValid three
            (prefix-IsValid (advance 1 rb) (big_bytes 2 (length s)) (s ++ rest) v1 e2),
        subst (λ r. unread r ≡ s ++ rest) three
            (prefix_rest (advance 1 rb) (big_bytes 2 (length s)) (s ++ rest) v1 e2),
        >>=-ok (expect 2) _ rb ((expect-Reads 2).run rb (encode_key s ++ rest) v e1)
            ∙ >>=-ok (read 2 big (pos 2)) _ (advance 1 rb)
                ((read_16 (length s) len).run (advance 1 rb) (s ++ rest) v1 e2)
            ∙ ap (λ r. (read_chars (length s) >>= λ chars. pure (c_string chars)) r) three,
      )

  -- parseAsString at a string of up to 65535 characters in the format: where the byte behind it lies in the
  -- allocation it returns the characters before the first 0 and takes the string and no byte more; where
  -- the string ends with the allocation, it reads past the end of the allocation.
  pub parse_as_string_round_trip : parse_as_string rb ≡ (
      if ltb (rb.bi + length (encode (string s))) rb.capacity
      then (ok (c_string s), advance (length (encode (string s))) rb)
      else (err fault, advance 3 rb))
  unfolding encode
  parse_as_string_round_trip =
      let (v3, e3, start) = at_characters in
      elim (Bool-cases (ltb (rb.bi + length (encode (string s))) rb.capacity)) [
        | inl inside ↦
            rw inside ((parse_as_string-ReadsInside s len).run rb rest v e (ltb→lt _ _ inside))
        | inr outside ↦
            let full : rb.capacity ≤ rb.bi + 3 + length s = ground arith in
            rw outside (
              start
              ∙ >>=-err (read_chars (length s)) _ (advance 3 rb)
                  (read_chars_overrun s rest (advance 3 rb) v3 e3 full))
      ]

-- Where a string of up to 65535 characters ends with the allocation.
pub parse_as_string-Overruns :
    (s : List ℕ) → length s < 2 ^ 16 → Overruns parse_as_string (encode (string s))
unfolding encode
parse_as_string-Overruns s len = record {
  run = λ rb v e full.
      let outside : ltb (rb.bi + length (encode (string s))) rb.capacity ≡ false = ground arith in
      let at_end : parse_as_string rb ≡ (err fault, advance 3 rb) =
        parse_as_string_round_trip s [] rb len v (e ∙ sym (append-nil (encode (string s))))
        ∙ rw outside refl in
      ap (λ r. r.0) at_end;
}

-- parseAsBool reads a boolean.
pub parse_as_bool-Reads : (b : Bool) → Reads parse_as_bool (encode (boolean b)) b
unfolding parse_as_bool encode
parse_as_bool-Reads true =
    Reads->>= _ (1 ∷ []) (expect-Reads 1) (Reads->>= _ [] (read_byte-Reads 1) (Reads-pure true))
parse_as_bool-Reads false =
    Reads->>= _ (0 ∷ []) (expect-Reads 1) (Reads->>= _ [] (read_byte-Reads 0) (Reads-pure false))

reversed_value :
    (a b c d e f g h : ℕ)
    → little_value (h ∷ g ∷ f ∷ e ∷ d ∷ c ∷ b ∷ a ∷ [])
      ≡ big_value 0 (a ∷ b ∷ c ∷ d ∷ e ∷ f ∷ g ∷ h ∷ [])
reversed_value a b c d e f g h = omega arith

little_value_memory : (v : ℕ) → v < 2 ^ 64 → little_value (reverse_bytes (big_bytes 8 v) 8) ≡ v
little_value_memory v h =
    ap little_value (reverse_bytes_eight _ _ _ _ _ _ _ _)
    ∙ reversed_value _ _ _ _ _ _ _ _
    ∙ big_value-big_bytes 8 0 v h
    ∙ omega arith

-- parseAsNumber reads a number in the format, as the 64 bits that were sent, and takes no byte more.
pub parse_as_number-Reads : (v : ℕ) → v < 2 ^ 64 → Reads parse_as_number (encode (number v)) v
unfolding parse_as_number encode
parse_as_number-Reads v h = Reads->>= _ (big_bytes 8 v) (expect-Reads 0) (
    Reads->>= _ [] (read_bytes-Reads (big_bytes 8 v)) (
      subst (λ x. Reads (pure (little_value (reverse_bytes (big_bytes 8 v) 8))) [] x)
        (little_value_memory v h) (Reads-pure _)))
