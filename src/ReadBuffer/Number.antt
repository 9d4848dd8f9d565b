-- ===== src/ReadBuffer/Number.antt =====
-- `read` and `peek`: the numbers that a ReadBuffer yields, most or least significant byte first.
use tvie_rtmp.Base.{
  ℕ, zero, suc, ◌+◌, ◌-◌, ◌*◌, ◌^◌, ◌≤◌, ◌<◌, ◌≡◌, ap, ◌∙◌, bit_or, List, [], ◌∷◌, ◌++◌, arith,
  lt→ltb, le→ltb, length, IsBytes,
}
use tvie_rtmp.Base.Bits.{bit_or-disjoint, bit_or-disjoint_low}
use tvie_rtmp.Base.Int.{pos}
use tvie_rtmp.Exception.{ok, err, no_enough_data, std_exception, then_do, ◌>>=◌, try_catch, caught}
use tvie_rtmp.ReadBuffer.{
  ReadBuffer, Mode, big, little, shift, read_loop, read, peek, peek_count, set_bi, unread_size,
}
use tvie_rtmp.ReadBuffer.View.{
  IsValid, unread, Reads, Reads->>=, Reads-pure, read_byte-Reads, enough,
}
use native.Mathlib.Numerals.{towards_suc}
use native.Mathlib.Nat.{pow-suc}

-- The number with these digits to base 256.
abbrev pub big_value : ℕ → List ℕ → ℕ
big_value acc [] = acc
big_value acc (b ∷ bs) = big_value (acc * 256 + b) bs

abbrev pub little_value : List ℕ → ℕ
little_value [] = 0
little_value (b ∷ bs) = b + 256 * little_value bs

-- What the loop of `read` makes of the bytes.
abbrev loop_value : Mode → ℕ → ℕ → ℕ → List ℕ → ℕ
loop_value mode size i v [] = v
loop_value mode size i v (b ∷ bs) =
    loop_value mode size (i + 1) (bit_or v (b * 2 ^ shift mode size i)) bs

read_loop-Reads :
    (mode : Mode) (size i v : ℕ) (bs : List ℕ)
    → Reads (read_loop mode size i (length bs) v) bs (loop_value mode size i v bs)
unfolding read_loop
read_loop-Reads mode size i v [] = Reads-pure v
read_loop-Reads mode size i v (b ∷ bs) =
    Reads->>= _ bs (read_byte-Reads b)
      (read_loop-Reads mode size (i + 1) (bit_or v (b * 2 ^ shift mode size i)) bs)

pub pow_byte : (n : ℕ) → 2 ^ (8 * suc n) ≡ 256 * 2 ^ (8 * n)
pow_byte n = let e : 8 * suc n ≡ 8 * n + 8 = omega arith in rw e (simp towards_suc (omega arith))

pub pow-pos : (n : ℕ) → 0 < 2 ^ n
pow-pos zero = omega arith
pow-pos (suc n) = omega (arith, pow-suc 2 n, pow-pos n)

digit_le : (b p : ℕ) → b < 256 → b * p + p ≤ 256 * p
digit_le b p h = omega (arith, mul_mono (suc b) 256 p h)
  where
    mul_mono : (m n q : ℕ) → m ≤ n → m * q ≤ n * q
    mul_mono m n q le = grind arith

loop_value-big :
    (bs : List ℕ) (size i acc : ℕ)
    → IsBytes bs
    → i + length bs ≡ size
    → loop_value big size i (acc * 2 ^ (8 * length bs)) bs ≡ big_value acc bs
loop_value-big [] size i acc h e = omega arith
loop_value-big (b ∷ bs) size i acc (hb, hs) e =
    let s : 8 * (size - i - 1) ≡ 8 * length bs = omega arith in
    let n : ℕ = length bs in
    let w : 2 ^ (8 * suc n) ≡ 256 * 2 ^ (8 * n) = pow_byte n in
    let small : b * 2 ^ (8 * n) < 2 ^ (8 * suc n) =
      omega (arith, digit_le b (2 ^ (8 * n)) hb, pow-pos (8 * n)) in
    let digit : bit_or (acc * 2 ^ (8 * suc n)) (b * 2 ^ (8 * n)) ≡ (acc * 256 + b) * 2 ^ (8 * n) =
      bit_or-disjoint (8 * suc n) acc (b * 2 ^ (8 * n)) small ∙ rw w (omega arith) in
    rw (s, digit) (loop_value-big bs size (i + 1) (acc * 256 + b) hs (omega arith))

loop_value-little :
    (bs : List ℕ) (size i v : ℕ)
    → IsBytes bs
    → v < 2 ^ (8 * i)
    → loop_value little size i v bs ≡ v + 2 ^ (8 * i) * little_value bs
loop_value-little [] size i v h lt = omega arith
loop_value-little (b ∷ bs) size i v (hb, hs) lt =
    let p : 2 ^ (8 * suc i) ≡ 256 * 2 ^ (8 * i) = pow_byte i in
    let e : i + 1 ≡ suc i = omega arith in
    rw (bit_or-disjoint_low (8 * i) b v lt, e)
      (loop_value-little bs size (suc i) (v + b * 2 ^ (8 * i)) hs
          (omega (arith, digit_le b (2 ^ (8 * i)) hb))
        ∙ rw p (omega arith))

read-loop_value-Reads :
    (width : ℕ) (mode : Mode) (bs : List ℕ)
    → length bs ≤ width
    → Reads (read width mode (pos (length bs))) bs (loop_value mode (length bs) 0 0 bs)
unfolding read ◌>>=◌ then_do
read-loop_value-Reads width mode bs h = record {
  run = λ rb rest v e.
      rw (le→ltb width (length bs) h, then_do)
        (rw (enough bs rest rb v e, then_do)
          ((read_loop-Reads mode (length bs) 0 0 bs).run rb rest v e));
}

-- read<T>(BIG, n) with n at most the size of T and n bytes there takes the next n bytes, and they are
-- the digits of its value to base 256, the first the most significant.
pub read_big-Reads :
    (width : ℕ) (bs : List ℕ)
    → IsBytes bs
    → length bs ≤ width
    → Reads (read width big (pos (length bs))) bs (big_value 0 bs)
read_big-Reads width bs h le =
    let z : 0 ≡ 0 * 2 ^ (8 * length bs) = omega arith in
    let e : loop_value big (length bs) 0 0 bs ≡ big_value 0 bs =
      ap (λ v. loop_value big (length bs) 0 v bs) z ∙ loop_value-big bs (length bs) 0 0 h refl' in
    rw (← e) (read-loop_value-Reads width big bs le)
  where
    refl' : 0 + length bs ≡ length bs
    refl' = omega arith

-- read<T>(LITTLE, n) with n at most the size of T and n bytes there takes the next n bytes, the first
-- the least significant digit to base 256.
pub read_little-Reads :
    (width : ℕ) (bs : List ℕ)
    → IsBytes bs
    → length bs ≤ width
    → Reads (read width little (pos (length bs))) bs (little_value bs)
read_little-Reads width bs h le =
    let e : loop_value little (length bs) 0 0 bs ≡ little_value bs =
      loop_value-little bs (length bs) 0 0 h (omega arith) ∙ omega arith in
    rw (← e) (read-loop_value-Reads width little bs le)

-- With fewer bytes than asked for, `read` throws and leaves the buffer as it was.
pub read_short :
    (width : ℕ) (mode : Mode) (n : ℕ) (rb : ReadBuffer)
    → n ≤ width
    → unread_size rb < n
    → read width mode (pos n) rb ≡ (err no_enough_data, rb)
unfolding read ◌>>=◌ then_do
read_short width mode n rb h short =
    rw (le→ltb width n h, then_do) (rw (lt→ltb (unread_size rb) n short, then_do))

-- peek<T>(BIG) with enough bytes there shows the number that `read` would take, the digits to base
-- 256 of it, and leaves the buffer as it was.
pub peek_big :
    (bs rest : List ℕ) (rb : ReadBuffer)
    → IsValid rb
    → IsBytes bs
    → unread rb ≡ bs ++ rest
    → peek (length bs) big rb ≡ (ok (big_value 0 bs), rb)
unfolding peek ◌>>=◌ then_do try_catch set_bi
peek_big bs rest rb v h e =
    rw ((read_big-Reads (length bs) bs h (omega arith)).run rb rest v e, then_do, caught)

-- With too few bytes, peek<T>(BIG) throws RtmpNoEnoughData and leaves the buffer as it was.
pub peek_short :
    (width : ℕ) (mode : Mode) (rb : ReadBuffer)
    → unread_size rb < width
    → peek width mode rb ≡ (err no_enough_data, rb)
unfolding peek ◌>>=◌ then_do try_catch set_bi
peek_short width mode rb h = rw (read_short width mode width rb (omega arith) h, then_do, caught)

-- peek<T>(mode, n) with n at most the size of T and too few bytes throws a plain std::exception and
-- leaves the buffer as it was: the class RtmpNoEnoughData, by which callers tell that they must wait,
-- is lost.
pub peek_count_short :
    (width : ℕ) (mode : Mode) (n : ℕ) (rb : ReadBuffer)
    → n ≤ width
    → unread_size rb < n
    → peek_count width mode (pos n) rb ≡ (err std_exception, rb)
unfolding peek_count ◌>>=◌ then_do try_catch set_bi
peek_count_short width mode n rb le h = rw (read_short width mode n rb le h, then_do, caught)

pub peek_count_big :
    (width : ℕ) (bs rest : List ℕ) (rb : ReadBuffer)
    → IsValid rb
    → IsBytes bs
    → length bs ≤ width
    → unread rb ≡ bs ++ rest
    → peek_count width big (pos (length bs)) rb ≡ (ok (big_value 0 bs), rb)
unfolding peek_count ◌>>=◌ then_do try_catch set_bi
peek_count_big width bs rest rb v h le e =
    rw ((read_big-Reads width bs h le).run rb rest v e, then_do, caught)
