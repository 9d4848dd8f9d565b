-- ===== src/Amf/Exact.antt =====
-- amf0.cpp, skip and skipObject, at a value in the format.
use tvie_rtmp.Base.{
  ℕ, zero, suc, ◌+◌, ◌≤◌, ◌<◌, ◌≡◌, ◌≢◌, refl, ap, subst, ◌∙◌, Bool, true, false, List, [], ◌∷◌,
  ◌++◌, append-nil, append_assoc, arith, length, length-append,
}
use tvie_rtmp.Exception.{M, ok, gets, >>=-ok}
use tvie_rtmp.ReadBuffer.{ReadBuffer, advance, unread_size, skip}
use tvie_rtmp.ReadBuffer.View.{
  IsValid, unread, Reads, Reads->>=, Reads-pure, skip-Reads, prefix-IsValid, prefix_rest, prefix_le,
  advance-advance, advance-zero, skip_enough,
}
use tvie_rtmp.ReadBuffer.Inside.{ReadsInside, Reads-ReadsInside, ReadsInside-last, followed}
use tvie_rtmp.Amf.{
  ignore, get_next_type, skip_with, skip_object_with, skip_item, object_loop, skip_object,
  skip_type,
}
use tvie_rtmp.Amf.Format.{
  Value, number, boolean, string, object, null, undefined, Fields, end, field, encode,
  encode_fields, encode_key,
}
use tvie_rtmp.Amf.RoundTrip.{
  expect-Reads, parse_object_key-ReadsInside, parse_as_string-ReadsInside, parse_as_bool-Reads,
  parse_as_number-Reads,
}
use tvie_rtmp.Amf.NextType.{
  first_byte, IsPlain, ArePlain, next_type_end, loop_item, next_type_value, next_type_key, type_of,
}

ignore-Reads :
    {A : Type 0} {m : M ReadBuffer A} {bs : List ℕ} {a : A} → Reads m bs a → Reads (ignore m) bs tt
unfolding ignore
ignore-Reads {m = m} {bs = bs} p =
    subst (λ l. Reads (ignore m) l tt) (append-nil bs) (Reads->>= _ [] p (Reads-pure tt))

ignore-ReadsInside :
    {A : Type 0} {m : M ReadBuffer A} {bs : List ℕ} {a : A}
    → ReadsInside m bs a
    → ReadsInside (ignore m) bs tt
unfolding ignore
ignore-ReadsInside p = ReadsInside-last _ p (Reads-pure tt)

-- The bytes of the fields in front of the end mark.
abbrev body_length : Fields → ℕ
body_length end = 0
body_length (field k v fs) = length (encode_key k) + (length (encode v) + body_length fs)

length-encode_fields : (fs : Fields) → length (encode_fields fs) ≡ body_length fs + 3
unfolding encode
length-encode_fields end = refl
length-encode_fields (field k v fs) = omega (
  arith,
  length-append {0} (encode_key k) (encode v ++ encode_fields fs),
  length-append {0} (encode v) (encode_fields fs),
  length-encode_fields fs,
)

length-encode_key : (k : List ℕ) → length (encode_key k) ≡ length k + 2
length-encode_key k = omega arith

length-encode : (v : Value) → 1 ≤ length (encode v)
length-encode v = let (bs, e, _) = first_byte v in rw e (omega arith)

-- The loop has read all fields and stands at the end mark.
AtEnd : (Bool → M ReadBuffer (Unit {0})) → Fields → Type 0
AtEnd loop fs =
    (rb : ReadBuffer) (rest : List ℕ)
    → IsValid rb
    → unread rb ≡ encode_fields fs ++ rest
    → loop true rb ≡ (ok tt, advance (body_length fs) rb)

-- skipObject over a loop that reads the fields.
skip_object_with-Reads :
    (loop : Bool → M ReadBuffer (Unit {0})) (fs : Fields)
    → AtEnd loop fs
    → Reads (skip_object_with loop) (encode (object fs)) tt
unfolding skip_object_with AtEnd encode
skip_object_with-Reads loop fs at_end = record {
  run = λ rb rest v e.
      let e' : unread rb ≡ (3 ∷ []) ++ (encode_fields fs ++ rest) = e in
      let rb1 : ReadBuffer = advance 1 rb in
      let v1 : IsValid rb1 = prefix-IsValid rb (3 ∷ []) (encode_fields fs ++ rest) v e' in
      let e1 : unread rb1 ≡ encode_fields fs ++ rest =
        prefix_rest rb (3 ∷ []) (encode_fields fs ++ rest) v e' in
      let room : length (encode_fields fs) ≤ unread_size rb1 =
        prefix_le rb1 (encode_fields fs) rest v1 e1 in
      let rb2 : ReadBuffer = advance (body_length fs) rb1 in
      >>=-ok (skip 1) _ rb ((skip-Reads (3 ∷ [])).run rb (encode_fields fs ++ rest) v e')
      ∙ >>=-ok (loop true) _ rb1 (at_end rb1 rest v1 e1)
      ∙ skip_enough 3 rb2 (omega (arith, length-encode_fields fs))
      ∙ ap (λ (r : ReadBuffer). (ok tt, r))
          (advance-advance (body_length fs) 3 (length (encode_fields fs)) rb1
              (length-encode_fields fs)
            ∙ advance-advance 1 (length (encode_fields fs)) (suc (length (encode_fields fs))) rb
                (omega arith));
}

end-AtEnd : (fuel : ℕ) → AtEnd (object_loop (suc fuel)) end
unfolding AtEnd object_loop encode
end-AtEnd fuel rb rest v e =
    >>=-ok (get_next_type true) _ rb (next_type_end rest rb v e)
    ∙ ap (λ (r : ReadBuffer). (ok tt, r)) (advance-zero rb)

field-AtEnd :
    (k : List ℕ) (v : Value) (fs : Fields) (fuel : ℕ)
    → ArePlain (field k v fs)
    → ReadsInside (skip_with (skip_object_with (object_loop fuel)) (type_of v)) (encode v) tt
    → AtEnd (object_loop fuel) fs
    → AtEnd (object_loop (suc (suc fuel))) (field k v fs)
unfolding AtEnd encode IsPlain skip_item
field-AtEnd k v fs fuel h item at_end rb rest valid e =
    let after_v : List ℕ = encode_fields fs ++ rest in
    let after_k : List ℕ = encode v ++ after_v in
    let e0 : unread rb ≡ encode_key k ++ after_k =
      e
      ∙ append_assoc (encode_key k) (encode v ++ encode_fields fs) rest
      ∙ ap (λ l. encode_key k ++ l) (append_assoc (encode v) (encode_fields fs) rest) in
    let (t, type, ne) = next_type_key k v after_v rb valid h.0 h.1 h.2 e0 in
    let rb1 : ReadBuffer = advance (length (encode_key k)) rb in
    let v1 : IsValid rb1 = prefix-IsValid rb (encode_key k) after_k valid e0 in
    let e1 : unread rb1 ≡ after_k = prefix_rest rb (encode_key k) after_k valid e0 in
    let rb2 : ReadBuffer = advance (length (encode v)) rb1 in
    let v2 : IsValid rb2 = prefix-IsValid rb1 (encode v) after_v v1 e1 in
    let e2 : unread rb2 ≡ after_v = prefix_rest rb1 (encode v) after_v v1 e1 in
    let more : 0 < length after_v =
      omega (arith, length-append {0} (encode_fields fs) rest, length-encode_fields fs) in
    let inside : rb.bi + length (encode_key k) < rb.capacity =
      followed rb (encode_key k) after_k valid e0
        (omega (arith, length-append {0} (encode v) after_v, more)) in
    loop_item (suc fuel) true t (encode_key k) after_k rb valid type ne
      (ignore-ReadsInside (parse_object_key-ReadsInside k h.1)) e0 inside
    ∙ loop_item fuel false (type_of v) (encode v) after_v rb1 v1
        (next_type_value v after_v rb1 v1 h.3 e1) (type-ne v) item e1
        (followed rb1 (encode v) after_v v1 e1 more)
    ∙ at_end rb2 rest v2 e2
    ∙ ap (λ (r : ReadBuffer). (ok tt, r))
        (advance-advance (length (encode v)) (body_length fs) (length (encode v) + body_length fs)
            rb1 refl
          ∙ advance-advance (length (encode_key k)) (length (encode v) + body_length fs)
              (body_length (field k v fs)) rb refl)
  where
    type-ne : (w : Value) → type_of w ≢ 9
    type-ne w = let (_, _, small) = first_byte w in omega arith

mutual
  unfolding encode IsPlain AtEnd skip_with

  skip_value-ReadsInside :
      (v : Value) (fuel : ℕ)
      → IsPlain v
      → length (encode v) ≤ fuel
      → ReadsInside (skip_with (skip_object_with (object_loop fuel)) (type_of v)) (encode v) tt
  skip_value-ReadsInside (number n) fuel h f =
      Reads-ReadsInside (ignore-Reads (parse_as_number-Reads n h.0))
  skip_value-ReadsInside (boolean b) fuel h f =
      Reads-ReadsInside (ignore-Reads (parse_as_bool-Reads b))
  skip_value-ReadsInside (string s) fuel h f = ignore-ReadsInside (parse_as_string-ReadsInside s h)
  skip_value-ReadsInside (object fs) fuel h f =
      Reads-ReadsInside
        (skip_object_with-Reads (object_loop fuel) fs (fields-AtEnd fs fuel h (omega arith)))
  skip_value-ReadsInside null fuel h f = Reads-ReadsInside (expect-Reads 5)
  skip_value-ReadsInside undefined fuel h f = Reads-ReadsInside (expect-Reads 6)

  fields-AtEnd :
      (fs : Fields) (fuel : ℕ)
      → ArePlain fs
      → length (encode_fields fs) ≤ fuel
      → AtEnd (object_loop fuel) fs
  fields-AtEnd end zero h f = absurd (omega arith)
  fields-AtEnd end (suc fuel) h f = end-AtEnd fuel
  fields-AtEnd (field k v fs) zero h f = absurd (omega (arith, length-encode_fields (field k v fs)))
  fields-AtEnd (field k v fs) (suc zero) h f =
      absurd (omega (arith, length-encode_fields (field k v fs)))
  fields-AtEnd (field k v fs) (suc (suc fuel)) h f =
      let total : length (encode_fields (field k v fs)) ≡ body_length (field k v fs) + 3 =
        length-encode_fields (field k v fs) in
      field-AtEnd k v fs fuel h
        (skip_value-ReadsInside v fuel h.3 (omega (arith, length-encode_key k)))
        (fields-AtEnd fs fuel h.4
          (omega (arith, length-encode_key k, length-encode v, length-encode_fields fs)))

-- skipObject takes exactly an object in the format, its nested objects included, whatever follows
-- it; AMF0Parser::skip does so for every value that it knows.
pub skip_object-Reads : (fs : Fields) → ArePlain fs → Reads skip_object (encode (object fs)) tt
unfolding skip_object encode
skip_object-Reads fs h = record {
  run = λ rb rest v e.
      let n : ℕ = unread_size rb in
      let room : length (encode (object fs)) ≤ n = prefix_le rb (encode (object fs)) rest v e in
      >>=-ok (gets unread_size) (λ m. skip_object_with (object_loop (suc m))) rb refl
      ∙ (skip_object_with-Reads (object_loop (suc n)) fs
            (fields-AtEnd fs (suc n) h (omega arith))).run
          rb rest v e;
}

-- AMF0Parser::skip at the type of a value in the format, whose numbers and keys are not mistaken for an
-- end mark (IsPlain), takes exactly that value, its nested objects included, whatever follows it. Only
-- where the value is itself a string, the byte behind it must lie in the allocation.
pub skip_type_takes :
    (v : Value) (rb : ReadBuffer) (rest : List ℕ)
    → IsPlain v
    → IsValid rb
    → unread rb ≡ encode v ++ rest
    → (type_of v ≡ 2 → rb.bi + length (encode v) < rb.capacity)
    → skip_type (type_of v) rb ≡ (ok tt, advance (length (encode v)) rb)
unfolding skip_type skip_with encode IsPlain
skip_type_takes (number n) rb rest h v e inside =
    (ignore-Reads (parse_as_number-Reads n h.0)).run rb rest v e
skip_type_takes (boolean b) rb rest h v e inside =
    (ignore-Reads (parse_as_bool-Reads b)).run rb rest v e
skip_type_takes (string s) rb rest h v e inside =
    (ignore-ReadsInside (parse_as_string-ReadsInside s h)).run rb rest v e (inside refl)
skip_type_takes (object fs) rb rest h v e inside = (skip_object-Reads fs h).run rb rest v e
skip_type_takes null rb rest h v e inside = (expect-Reads 5).run rb rest v e
skip_type_takes undefined rb rest h v e inside = (expect-Reads 6).run rb rest v e
