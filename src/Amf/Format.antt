-- ===== src/Amf/Format.antt =====
-- The AMF0 format as an independent description: values, and the bytes that stand for them.
use tvie_rtmp.Base.{
  ℕ, ◌%◌, ◌^◌, ◌<◌, ◌≡◌, refl, sym, subst, ◌∙◌, Bool, true, false, List, [], ◌∷◌, ◌++◌, arith,
  length, if◌then◌else◌,
}
use tvie_rtmp.Exception.{◌>>◌}
use tvie_rtmp.WriteBuffer.{write_b, write_bytes}
use tvie_rtmp.WriteBuffer.Bytes.{Writes, Writes->>, write_bytes-Writes}
use tvie_rtmp.WriteBuffer.Words.{big_bytes, write_b-Writes}
use tvie_rtmp.Utility.{reverse_bytes, reverse_bytes_eight}
use tvie_rtmp.Amf.{
  little_bytes, c_string, write_string, write_number, write_object_end, write_object_key,
  write_bool, write_null, write_undefined,
}

-- What `skip` and the serializer know: a number is its 64-bit pattern, a string its characters.
mutual
  pub data Value : Type 0 where
    number : ℕ → Value
    boolean : Bool → Value
    string : List ℕ → Value
    object : Fields → Value
    null undefined : Value

  pub data Fields : Type 0 where
    end : Fields
    field : List ℕ → Value → Fields → Fields

-- A length of two bytes, and the characters.
abbrev pub encode_key : List ℕ → List ℕ
encode_key k = big_bytes 2 (length k) ++ k

unfoldable mutual
  pub encode : Value → List ℕ
  encode (number v) = 0 ∷ big_bytes 8 v
  encode (boolean b) = 1 ∷ (if b then 1 else 0) ∷ []
  encode (string s) = 2 ∷ encode_key s
  encode (object fs) = 3 ∷ encode_fields fs
  encode null = 5 ∷ []
  encode undefined = 6 ∷ []

  pub encode_fields : Fields → List ℕ
  encode_fields end = 0 ∷ 0 ∷ 9 ∷ []
  encode_fields (field k v fs) = encode_key k ++ (encode v ++ encode_fields fs)

-- The characters of a C string: bytes, and none of them 0.
abbrev pub IsText : List ℕ → Type 0
IsText [] = Unit {0}
IsText (c ∷ cs) = (0 < c) × (c < 256) × IsText cs

pub c_string-IsText : (s : List ℕ) → IsText s → c_string s ≡ s
c_string-IsText [] h = refl
c_string-IsText (c ∷ cs) h = ground (arith, c_string-IsText cs h.2)

write_key_bytes :
    (s : List ℕ)
    → length s < 2 ^ 16
    → Writes (write_b 2 (length s % 2 ^ 16) >> write_bytes s) (encode_key s)
write_key_bytes s h =
    Writes->> (big_bytes 2 (length s)) s
      (subst (λ n. Writes (write_b 2 n) (big_bytes 2 (length s))) fits
        (write_b-Writes 2 (length s) (omega arith) h))
      (write_bytes-Writes s)
  where
    fits : length s ≡ length s % 2 ^ 16
    fits = omega arith

pub write_object_key-Writes :
    (s : List ℕ) → length s < 2 ^ 16 → Writes (write_object_key s) (encode_key s)
unfolding write_object_key
write_object_key-Writes s h = write_key_bytes s h

-- writeString of up to 65535 characters at a byte boundary writes the format of a string, where it
-- fits with ten bytes to spare.
pub write_string-Writes :
    (s : List ℕ) → length s < 2 ^ 16 → Writes (write_string s) (encode (string s))
unfolding write_string encode
write_string-Writes s h =
    Writes->> (2 ∷ []) (encode_key s) (write_b-Writes 1 2 (omega arith) (omega arith))
      (write_key_bytes s h)

memory_order : (v : ℕ) → v < 2 ^ 64 → reverse_bytes (little_bytes 8 v) 8 ≡ big_bytes 8 v
memory_order v h = reverse_bytes_eight _ _ _ _ _ _ _ _ ∙ ground arith

-- writeNumber at a byte boundary writes the format of a number, where it fits with ten bytes to spare.
pub write_number-Writes : (v : ℕ) → v < 2 ^ 64 → Writes (write_number v) (encode (number v))
unfolding write_number encode
write_number-Writes v h =
    Writes->> (0 ∷ []) (big_bytes 8 v) (write_b-Writes 1 0 (omega arith) (omega arith)) (
      subst (λ d. Writes (write_bytes d) (big_bytes 8 v)) (sym (memory_order v h))
        (write_bytes-Writes (big_bytes 8 v)))

pub write_bool-Writes : (b : Bool) → Writes (write_bool b) (encode (boolean b))
unfolding write_bool encode
write_bool-Writes true =
    Writes->> (1 ∷ []) (1 ∷ []) (write_b-Writes 1 1 (omega arith) (omega arith))
      (write_b-Writes 1 1 (omega arith) (omega arith))
write_bool-Writes false =
    Writes->> (1 ∷ []) (0 ∷ []) (write_b-Writes 1 1 (omega arith) (omega arith))
      (write_b-Writes 1 0 (omega arith) (omega arith))

pub write_null-Writes : Writes write_null (encode null)
unfolding encode
write_null-Writes = write_b-Writes 1 5 (omega arith) (omega arith)

pub write_undefined-Writes : Writes write_undefined (encode undefined)
unfolding encode
write_undefined-Writes = write_b-Writes 1 6 (omega arith) (omega arith)

pub write_object_end-Writes : Writes write_object_end (encode_fields end)
unfolding write_object_end encode_fields
write_object_end-Writes =
    Writes->> (0 ∷ 0 ∷ []) (9 ∷ []) (write_b-Writes 2 0 (omega arith) (omega arith))
      (write_b-Writes 1 9 (omega arith) (omega arith))
