-- ===== src/ReadBuffer/Safe.antt =====
-- readbuffer.h and readbuffer.cpp: the buffer stays well formed, and nothing outside of it is accessed.
pub mod Uses
pub mod Kept
use tvie_rtmp.Base.{
  ℕ, zero, suc, ◌+◌, ◌*◌, ◌^◌, ◌≤◌, ◌<◌, ◌≡◌, refl, sym, ap, ◌∙◌, inl, inr, Bool, true, false, not,
  ◌||◌, Bool-cases, some, List, [], ◌∷◌, arith, ltb, le→ltb, ltb→lt, bit_or, length, get_elem?,
  take, drop, if◌then◌else◌,
}
use tvie_rtmp.Base.Int.{ℤ, pos, negsuc}
use tvie_rtmp.Exception.{
  Thrown, no_enough_data, invalid_arg, std_exception, fault, hang, Result, ok, err, M, pure, throw,
  throw_if, gets, modify, then_do, caught, ◌>>=◌, try_catch,
}
use tvie_rtmp.ReadBuffer.{
  ReadBuffer, Mode, shift, advance, unread_size, read_byte, read_bytes, read_chars, copy_out, skip,
  read, read_loop, peek, peek_count, set_bi,
}
use tvie_rtmp.ReadBuffer.View.{IsValid}

-- Neither an access outside of the allocation nor a loop without end.
abbrev pub is_exception : Thrown → Bool
is_exception fault = false
is_exception hang = false
is_exception other = true

abbrev pub is_sound : {A : Type 0} → Result A → Bool
is_sound (ok a) = true
is_sound (err e) = is_exception e

-- A call whose buffer stays well formed and keeps what was received, and which ends soundly.
pub record IsFine {A : Type 0} (rb : ReadBuffer) (r : Result A × ReadBuffer) : Type 0 where
  pub valid : IsValid r.1
  pub same : r.1.cout ≡ rb.cout
  pub sound : is_sound r.0 ≡ true

-- The same at every well-formed buffer that has received `k` bytes at least.
pub record Safe {A : Type 0} (k : ℕ) (m : M ReadBuffer A) : Type 0 where
  pub at : (rb : ReadBuffer) → IsValid rb → k ≤ rb.cout → IsFine rb (m rb)

module _ {A : Type 0} {k : ℕ} where
  pub pure-Safe : (a : A) → Safe k (pure a)
  pure-Safe a = record { at = λ rb v h. record { valid = v; same = refl; sound = refl } }

  pub throw-Safe : (e : Thrown) → is_exception e ≡ true → Safe {A = A} k (throw e)
  throw-Safe e s = record { at = λ rb v h. record { valid = v; same = refl; sound = s } }

  >>=-Safe :
      {B : Type 0} {m : M ReadBuffer A} {f : A → M ReadBuffer B}
      → Safe k m
      → ((a : A) → Safe k (f a))
      → Safe k (m >>= f)
  unfolding ◌>>=◌ then_do
  >>=-Safe {B} {m = m} {f = f} p q = record { at = λ rb v h. go rb h (m rb) (p.at rb v h) }
    where
      go :
          (rb : ReadBuffer)
          → k ≤ rb.cout
          → (r : Result A × ReadBuffer) → IsFine rb r
          → IsFine rb (then_do f r)
      go rb h (ok a, rb') fine =
          let next = (q a).at rb' fine.valid (omega (arith, fine.same)) in
          record { valid = next.valid; same = next.same ∙ fine.same; sound = next.sound }
      go rb h (err e, rb') fine = record {
        valid = fine.valid;
        same = fine.same;
        sound = fine.sound;
      }

  try_catch-Safe :
      {m : M ReadBuffer A} {f : Thrown → M ReadBuffer A}
      → Safe k m
      → ((e : Thrown) → is_exception e ≡ true → Safe k (f e))
      → Safe k (try_catch m f)
  unfolding try_catch caught
  try_catch-Safe {m = m} {f = f} p q = record { at = λ rb v h. go rb h (m rb) (p.at rb v h) }
    where
      go :
          (rb : ReadBuffer)
          → k ≤ rb.cout
          → (r : Result A × ReadBuffer) → IsFine rb r
          → IsFine rb (caught f r)
      go rb h (ok a, rb') fine = fine
      go rb h (err e, rb') fine =
          let next = (q e fine.sound).at rb' fine.valid (omega (arith, fine.same)) in
          record { valid = next.valid; same = next.same ∙ fine.same; sound = next.sound }

throw_if-Safe : {k : ℕ} (b : Bool) (e : Thrown) → is_exception e ≡ true → Safe k (throw_if b e)
throw_if-Safe true e s = record { at = λ rb v h. record { valid = v; same = refl; sound = s } }
throw_if-Safe false e s = record { at = λ rb v h. record { valid = v; same = refl; sound = refl } }

set_bi-Safe : {k : ℕ} (n : ℕ) → n ≤ k → Safe k (set_bi n)
unfolding set_bi
set_bi-Safe n h = record {
  at = λ rb v le. record {
    valid = record { read_le = omega arith; fits = v.fits; sized = v.sized };
    same = refl;
    sound = refl;
  };
}

inside : {A : Type 0} (xs : List A) (i : ℕ) → i < length xs → (x : A) × (get_elem? xs i ≡ some x)
inside [] i h = absurd (omega arith)
inside (x ∷ xs) zero h = (x, refl)
inside (x ∷ xs) (suc i) h = inside xs i (omega arith)

pub read_byte-Safe : {k : ℕ} → Safe k read_byte
unfolding read_byte
read_byte-Safe = record {
  at = λ rb v h. elim (Bool-cases (ltb (unread_size rb) 1)) [
    | inl short ↦ rw (short, read_byte) (record { valid = v; same = refl; sound = refl })
    | inr enough ↦
        let within : rb.bi < length rb.buffer = ground (arith, v.sized, v.fits) in
        let (b, found) = inside rb.buffer rb.bi within in
        rw (enough, read_byte)
          (rw (found, read_byte)
            (record {
              valid = record { read_le = ground arith; fits = v.fits; sized = v.sized };
              same = refl;
              sound = refl;
            }))
  ];
}

read_loop-Safe : {k : ℕ} (mode : Mode) (size i left v : ℕ) → Safe k (read_loop mode size i left v)
unfolding read_loop
read_loop-Safe mode size i zero v = pure-Safe v
read_loop-Safe mode size i (suc left) v =
    >>=-Safe read_byte-Safe
      λ b. read_loop-Safe mode size (i + 1) left (bit_or v (b * 2 ^ shift mode size i))

gets-Safe : {A : Type 0} {k : ℕ} (f : ReadBuffer → A) → Safe k (gets f)
gets-Safe f = record { at = λ rb v h. record { valid = v; same = refl; sound = refl } }

pub read-Safe : {k : ℕ} (width : ℕ) (mode : Mode) (n : ℤ) → Safe k (read width mode n)
unfolding read
read-Safe width mode (negsuc n) = throw-Safe invalid_arg refl
read-Safe width mode (pos n) = >>=-Safe (throw_if-Safe (ltb width n) invalid_arg refl) λ _.
    >>=-Safe (gets-Safe unread_size)
      λ s. >>=-Safe (throw_if-Safe (ltb s n) no_enough_data refl) λ _. read_loop-Safe mode n 0 n 0

pub skip-Safe : {k : ℕ} (n : ℕ) → Safe k (skip n)
unfolding skip
skip-Safe n = record {
  at = λ rb v h. elim (Bool-cases (ltb (unread_size rb) n)) [
    | inl short ↦ rw (short, skip) (record { valid = v; same = refl; sound = refl })
    | inr enough ↦
        rw (enough, skip)
          (record {
            valid = record { read_le = ground arith; fits = v.fits; sized = v.sized };
            same = refl;
            sound = refl;
          })
  ];
}

-- A copy of unread bytes stays inside of the allocation.
copy_out_enough :
    (n : ℕ) (rb : ReadBuffer)
    → IsValid rb
    → ltb (unread_size rb) n ≡ false
    → (bs : List ℕ) × (copy_out n rb ≡ (ok bs, rb))
unfolding copy_out
copy_out_enough n rb v enough =
    let within : ltb (length rb.buffer) (rb.bi + n) ≡ false = ground (arith, v.sized, v.fits) in
    (take n (drop rb.bi rb.buffer), rw within refl)

taken-IsFine :
    (n : ℕ) (rb : ReadBuffer)
    → IsValid rb
    → IsFine rb (
        (throw_if (ltb (unread_size rb) n) no_enough_data >>= λ _.
        copy_out n >>= λ bytes. modify (advance n) >>= λ _. pure bytes)
          rb)
unfolding ◌>>=◌ then_do
taken-IsFine n rb v = elim (Bool-cases (ltb (unread_size rb) n)) [
  | inl short ↦ rw short (record { valid = v; same = refl; sound = refl })
  | inr enough ↦
      let (bs, copied) = copy_out_enough n rb v enough in
      rw enough (
        rw (copied, then_do)
          (record {
            valid = record { read_le = ground arith; fits = v.fits; sized = v.sized };
            same = refl;
            sound = refl;
          }))
]

pub read_bytes-Safe : {k : ℕ} (n : ℤ) → Safe k (read_bytes n)
unfolding read_bytes ◌>>=◌ then_do
read_bytes-Safe (negsuc n) = throw-Safe _ refl
read_bytes-Safe (pos n) = record { at = λ rb v h. taken-IsFine n rb v }

-- Whether readChars stays in the allocation: it throws, or the byte behind the characters is there.
abbrev pub has_byte_behind : ℕ → ReadBuffer → Bool
has_byte_behind n rb = ltb (unread_size rb) n || ltb (rb.bi + n) rb.capacity

pub read_chars-IsFine :
    (n : ℕ) (rb : ReadBuffer)
    → IsValid rb
    → has_byte_behind n rb ≡ true
    → IsFine rb (read_chars n rb)
unfolding read_chars copy_out ◌>>=◌ then_do
read_chars-IsFine n rb v behind = elim (Bool-cases (ltb (unread_size rb) n)) [
  | inl short ↦ rw short (record { valid = v; same = refl; sound = refl })
  | inr enough ↦
      let within : ltb (length rb.buffer) (rb.bi + (n + 1)) ≡ false =
        ground (arith, v.sized, v.fits) in
      rw enough (
        rw (within, then_do)
          (record {
            valid = record { read_le = ground arith; fits = v.fits; sized = v.sized };
            same = refl;
            sound = refl;
          }))
]

-- A number that is read, and the position set back.
looked-Safe : (o : ℕ) (m : M ReadBuffer ℕ) → Safe o m → Safe o (m >>= λ v. set_bi o >>= λ _. pure v)
looked-Safe o m p = >>=-Safe p λ v. >>=-Safe (set_bi-Safe o (omega arith)) λ _. pure-Safe v

back-Safe :
    (o : ℕ) (e : Thrown) → is_exception e ≡ true → Safe {A = ℕ} o (set_bi o >>= λ _. throw e)
back-Safe o e s = >>=-Safe (set_bi-Safe o (omega arith)) λ _. throw-Safe e s

pub peek-Safe : {k : ℕ} (width : ℕ) (mode : Mode) → Safe k (peek width mode)
unfolding peek ◌>>=◌ then_do
peek-Safe width mode = record {
  at = λ rb v h.
      (try_catch-Safe (looked-Safe rb.bi _ (read-Safe width mode (pos width))) (elim [
        | no_enough_data ↦ λ s. back-Safe rb.bi no_enough_data refl
        | other ↦ λ s. throw-Safe other s
      ])).at
        rb v v.read_le;
}

pub peek_count-Safe : {k : ℕ} (width : ℕ) (mode : Mode) (n : ℤ) → Safe k (peek_count width mode n)
unfolding peek_count ◌>>=◌ then_do
peek_count-Safe width mode n = record {
  at = λ rb v h.
      (try_catch-Safe (looked-Safe rb.bi _ (read-Safe width mode n)) (elim [
        | fault ↦ λ s. throw-Safe fault s
        | hang ↦ λ s. throw-Safe hang s
        | other ↦ λ s. back-Safe rb.bi std_exception refl
      ])).at
        rb v v.read_le;
}
