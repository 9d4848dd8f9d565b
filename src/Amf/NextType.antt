-- ===== src/Amf/NextType.antt =====
-- amf0.cpp, getNextType: the type in front of a value, where nothing is mistaken for an end mark.
use tvie_rtmp.Base.{
  ℕ, suc, ◌+◌, ◌*◌, ◌/◌, ◌%◌, ◌^◌, ◌<◌, ◌≡◌, ◌≢◌, refl, ap, ◌∙◌, Bool, true, false, not, List, [],
  ◌∷◌, ◌++◌, arith, length, Bool-cases, ==_iff, inl, inr, ◌==◌, IsBytes,
}
use tvie_rtmp.Base.Int.{pos}
use tvie_rtmp.Exception.{ok, >>=-ok}
use tvie_rtmp.ReadBuffer.{ReadBuffer, advance, big, peek, peek_count}
use tvie_rtmp.ReadBuffer.View.{IsValid, unread}
use tvie_rtmp.ReadBuffer.Inside.{ReadsInside}
use tvie_rtmp.ReadBuffer.Number.{peek_big, peek_count_big}
use tvie_rtmp.Amf.{end_or, get_next_type, skip_object_with, skip_item, object_loop}
use tvie_rtmp.Amf.Format.{
  Value, number, boolean, string, object, null, undefined, Fields, end, field, encode, encode_key,
}

-- What the format can express, less what the search for the end mark mistakes for an end: a key of
-- 2304 to 2559 characters, and a number whose bits begin with 0x0009. Strings and keys are bytes of any
-- kind, fewer than 65536 of them.
unfoldable mutual
  pub IsPlain : Value → Type 0
  IsPlain (number v) = (v < 2 ^ 64) × (v / 2 ^ 48 ≢ 9)
  IsPlain (boolean b) = Unit {0}
  IsPlain (string s) = length s < 2 ^ 16
  IsPlain (object fs) = ArePlain fs
  IsPlain null = Unit {0}
  IsPlain undefined = Unit {0}

  pub ArePlain : Fields → Type 0
  ArePlain end = Unit {0}
  ArePlain (field k v fs) =
      IsBytes k × (length k < 2 ^ 16) × (length k / 256 ≢ 9) × IsPlain v × ArePlain fs

abbrev pub type_of : Value → ℕ
type_of (number v) = 0
type_of (boolean b) = 1
type_of (string s) = 2
type_of (object fs) = 3
type_of null = 5
type_of undefined = 6

-- getNextType(true) at a first byte that is not 0.
next_type_nonzero :
    (p : ℕ) (rest : List ℕ) (rb : ReadBuffer)
    → IsValid rb
    → p < 256
    → p ≢ 0
    → unread rb ≡ p ∷ rest
    → get_next_type true rb ≡ (ok p, rb)
unfolding get_next_type
next_type_nonzero p rest rb v h nz e =
    let same : 0 * 256 + p ≡ p = omega arith in
    let other : (p == 0) ≡ false = ground arith in
    >>=-ok (peek 1 big) _ rb (peek_big (p ∷ []) rest rb v (h, tt) e) ∙ rw (same, other)

-- getNextType(true) at a 0: the end mark is looked for.
next_type_zero :
    (a b : ℕ) (rest : List ℕ) (rb : ReadBuffer)
    → IsValid rb
    → a < 256
    → b < 256
    → unread rb ≡ 0 ∷ a ∷ b ∷ rest
    → a * 256 + b ≢ 9
    → get_next_type true rb ≡ (ok 0, rb)
unfolding get_next_type end_or
next_type_zero a b rest rb v ha hb e ne =
    let other : (((0 * 256 + 0) * 256 + a) * 256 + b == 9) ≡ false = ground arith in
    >>=-ok (peek 1 big) _ rb (peek_big (0 ∷ []) (a ∷ b ∷ rest) rb v (omega arith, tt) e)
    ∙ >>=-ok (peek_count 4 big (pos 3)) _ rb
        (peek_count_big 4 (0 ∷ a ∷ b ∷ []) rest rb v (omega arith, (ha, (hb, tt))) (omega arith) e)
    ∙ rw other

pub next_type_end :
    (rest : List ℕ) (rb : ReadBuffer)
    → IsValid rb
    → unread rb ≡ 0 ∷ 0 ∷ 9 ∷ rest
    → get_next_type true rb ≡ (ok 9, rb)
unfolding get_next_type end_or
next_type_end rest rb v e =
    >>=-ok (peek 1 big) _ rb (peek_big (0 ∷ []) (0 ∷ 9 ∷ rest) rb v (omega arith, tt) e)
    ∙ >>=-ok (peek_count 4 big (pos 3)) _ rb (
        peek_count_big 4 (0 ∷ 0 ∷ 9 ∷ []) rest rb v (omega arith, (omega arith, (omega arith, tt)))
          (omega arith) e)

-- One pass of the loop over `bs`, where the byte behind them lies in the allocation.
pub loop_item :
    (fuel : ℕ) (key : Bool) (t : ℕ) (bs rest : List ℕ) (rb : ReadBuffer)
    → IsValid rb
    → get_next_type true rb ≡ (ok t, rb)
    → t ≢ 9
    → ReadsInside (skip_item (skip_object_with (object_loop fuel)) key t) bs tt
    → unread rb ≡ bs ++ rest
    → rb.bi + length bs < rb.capacity
    → object_loop (suc fuel) key rb ≡ object_loop fuel (not key) (advance (length bs) rb)
unfolding object_loop
loop_item fuel key t bs rest rb v type ne p e inside =
    let other : (t == 9) ≡ false = ground arith in
    >>=-ok (get_next_type true) _ rb type
    ∙ rw other (
        >>=-ok (skip_item (skip_object_with (object_loop fuel)) key t) _ rb
          (p.run rb rest v e inside))

-- getNextType(true) in front of a value in a field finds its type.
pub next_type_value :
    (v : Value) (rest : List ℕ) (rb : ReadBuffer)
    → IsValid rb
    → IsPlain v
    → unread rb ≡ encode v ++ rest
    → get_next_type true rb ≡ (ok (type_of v), rb)
unfolding encode IsPlain
next_type_value (number n) rest rb v h e =
    next_type_zero (n / 2 ^ 56 % 256) (n % 2 ^ 56 / 2 ^ 48 % 256) _ rb v (omega arith) (omega arith)
      e (λ q. h.1 (omega arith))
next_type_value (boolean b) rest rb v h e = next_type_nonzero 1 _ rb v (omega arith) (omega arith) e
next_type_value (string s) rest rb v h e = next_type_nonzero 2 _ rb v (omega arith) (omega arith) e
next_type_value (object fs) rest rb v h e = next_type_nonzero 3 _ rb v (omega arith) (omega arith) e
next_type_value null rest rb v h e = next_type_nonzero 5 _ rb v (omega arith) (omega arith) e
next_type_value undefined rest rb v h e = next_type_nonzero 6 _ rb v (omega arith) (omega arith) e

-- A value's first byte is its type, and never the code of an object's end.
pub first_byte : (v : Value) → (bs : List ℕ) × (encode v ≡ type_of v ∷ bs) × (type_of v < 9)
unfolding encode
first_byte (number n) = (_, refl, omega arith)
first_byte (boolean b) = (_, refl, omega arith)
first_byte (string s) = (_, refl, omega arith)
first_byte (object fs) = (_, refl, omega arith)
first_byte null = (_, refl, omega arith)
first_byte undefined = (_, refl, omega arith)

-- getNextType(true) in front of a key, at which a value follows, finds no end mark.
pub next_type_key :
    (k : List ℕ) (v : Value) (rest : List ℕ) (rb : ReadBuffer)
    → IsValid rb
    → IsBytes k
    → length k < 2 ^ 16
    → length k / 256 ≢ 9
    → unread rb ≡ encode_key k ++ (encode v ++ rest)
    → (t : ℕ) × (get_next_type true rb ≡ (ok t, rb)) × (t ≢ 9)
next_type_key [] v rest rb valid h lt ne e =
    let (bs, first, small) = first_byte v in
    (
      0,
      next_type_zero 0 (type_of v) (bs ++ rest) rb valid (omega arith) (omega arith)
          (e ∙ ap (λ (l : List ℕ). 0 ∷ 0 ∷ (l ++ rest)) first) (omega arith),
      omega arith,
    )
next_type_key (c ∷ cs) v rest rb valid h lt ne e =
    let n : ℕ = suc (length cs) in
    let hi : ℕ = n / 2 ^ 8 % 256 in
    let lo : ℕ = n % 2 ^ 8 / 2 ^ 0 % 256 in
    elim (Bool-cases (hi == 0)) [
      | inl short ↦
          let zero_hi : hi ≡ 0 = (==_iff hi 0).0 short in
          (
            0,
            next_type_zero lo c (cs ++ (encode v ++ rest)) rb valid (omega arith) h.0
                (e ∙ ap (λ (x : ℕ). x ∷ lo ∷ c ∷ (cs ++ (encode v ++ rest))) zero_hi)
                (λ q. absurd (omega arith)),
            omega arith,
          )
      | inr long ↦
          let positive : hi ≢ 0 = ground arith in
          let other : hi ≢ 9 = λ q. ne (omega arith) in
          (
            hi,
            next_type_nonzero hi (lo ∷ c ∷ (cs ++ (encode v ++ rest))) rb valid (omega arith)
                positive e,
            other,
          )
    ]
