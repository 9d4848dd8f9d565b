-- ===== src/WriteBuffer/Words.antt =====
-- writeB and writeL: a number as its bytes.
use tvie_rtmp.Base.{
  ℕ, zero, suc, ◌+◌, ◌-◌, ◌*◌, ◌/◌, ◌%◌, ◌^◌, ◌≤◌, ◌<◌, ◌≡◌, refl, sym, ap, subst, ◌∙◌, false, List,
  [], ◌∷◌, ◌++◌, append-nil, arith, Bool, ltb, leb, lt→ltb, length, ◌==◌, IsBytes,
}
use tvie_rtmp.Exception.{Thrown, fault, invalid_arg, ok, M, pure, throw_if, ◌>>◌, >>=-ok}
use tvie_rtmp.WriteBuffer.{
  WriteBuffer, chunk_bits, shift_right, realloc_for_write, write_byte, write_b_loop, write_b_bits,
  write_b, write_l_loop, write_l_bits,
}
use tvie_rtmp.WriteBuffer.Bytes.{
  holding, holding-cong, Writes, WritesIn, Writes->>, write_byte-WritesIn,
}
use native.Mathlib.Nat.{mod-eq_of_lt, mod-lt, div-add-mod', div-lt_iff_lt-mul}
use tvie_rtmp.ReadBuffer.Number.{big_value, pow_byte, pow-pos}

-- The lowest `n` bytes of `v`, most significant first.
abbrev pub big_bytes : ℕ → ℕ → List ℕ
big_bytes zero v = []
big_bytes (suc n) v = (v / 2 ^ (8 * n) % 256) ∷ big_bytes n (v % 2 ^ (8 * n))

pub length-big_bytes : (n v : ℕ) → length (big_bytes n v) ≡ n
length-big_bytes zero v = refl
length-big_bytes (suc n) v = ap suc (length-big_bytes n (v % 2 ^ (8 * n)))

pub big_bytes-IsBytes : (n v : ℕ) → IsBytes (big_bytes n v)
big_bytes-IsBytes zero v = tt
big_bytes-IsBytes (suc n) v = (omega arith, big_bytes-IsBytes n (v % 2 ^ (8 * n)))

pub realloc_for_write_idle :
    (out : List ℕ) (k : ℕ) → 10 ≤ k → realloc_for_write (holding out k) ≡ (ok tt, holding out k)
unfolding realloc_for_write
realloc_for_write_idle out k h = rw (lt→ltb (length out + 9) (length out + k) (omega arith))

pub Writes-pure : {spare : ℕ} → WritesIn spare (pure tt) []
Writes-pure = record {
  run = λ out k room.
      ap (λ w. (ok tt, w))
        (holding-cong out (out ++ []) (0 + k) k (sym (append-nil out)) (omega arith));
}

-- A test that passes, and what follows.
throw_if-Writes :
    {spare : ℕ} (b : Bool) (e : Thrown) {m : M WriteBuffer (Unit {0})} {bs : List ℕ}
    → b ≡ false
    → WritesIn spare m bs
    → WritesIn spare (throw_if b e >> m) bs
throw_if-Writes b e {m = m} {bs = bs} pass p = record {
  run = λ out k room.
      >>=-ok (throw_if b e) (λ _. m) (holding out (length bs + k)) (rw pass) ∙ p.run out k room;
}

whole_byte : (n : ℕ) → chunk_bits (8 * suc n) ≡ 8
whole_byte zero = refl
whole_byte (suc n) = ground arith

write_b_round :
    (fuel t n : ℕ)
    → write_b_loop (suc fuel) t (8 * suc n) ≡ (
        write_byte (t / 2 ^ (8 * n) % 256)
        >> (throw_if (leb 31 (8 * n)) fault >> write_b_loop fuel (t % 2 ^ (8 * n)) (8 * n)))
unfolding write_b_loop
write_b_round fuel t n =
    let left : 8 * suc n - 8 ≡ 8 * n = omega arith in
    let more : (8 * suc n == 0) ≡ false = ground arith in rw (more, whole_byte n, left)

pub write_b_loop-Writes :
    {spare : ℕ} (n fuel t : ℕ)
    → 1 ≤ spare
    → n ≤ 4
    → 8 * n ≤ fuel
    → WritesIn spare (write_b_loop (suc fuel) t (8 * n)) (big_bytes n t)
write_b_loop-Writes zero fuel t sp h f = unfold write_b_loop in Writes-pure
write_b_loop-Writes (suc n) zero t sp h f = absurd (omega arith)
write_b_loop-Writes (suc n) (suc fuel) t sp h f = rw (write_b_round (suc fuel) t n) (
    Writes->> (t / 2 ^ (8 * n) % 256 ∷ []) (big_bytes n (t % 2 ^ (8 * n)))
      (write_byte-WritesIn (t / 2 ^ (8 * n) % 256) sp (omega arith))
      (throw_if-Writes (leb 31 (8 * n)) fault (ground arith)
        (write_b_loop-Writes n fuel (t % 2 ^ (8 * n)) sp (omega arith) (omega arith))))

-- The idle reallocation in front of a loop.
reserved-Writes :
    {m : M WriteBuffer (Unit {0})} {bs : List ℕ} → Writes m bs → Writes (realloc_for_write >> m) bs
reserved-Writes {m} {bs} p = record {
  run = λ out k room.
      >>=-ok realloc_for_write (λ _. m) (holding out (length bs + k))
        (realloc_for_write_idle out (length bs + k) (omega arith))
      ∙ p.run out k room;
}

-- writeB<T>(s) at a T of up to four bytes and at a byte boundary appends the bytes of `s`, most
-- significant first, where they fit with ten bytes to spare.
pub write_b-Writes : (n s : ℕ) → n ≤ 4 → s < 2 ^ (8 * n) → Writes (write_b n s) (big_bytes n s)
unfolding write_b_bits
write_b-Writes n s h small =
    let w : n * 8 ≡ 8 * n = omega arith in
    let narrow : (8 * n == 64) ≡ false = ground arith in
    let fits : s % 2 ^ (8 * n) ≡ s = mod-eq_of_lt small in
    rw (w, narrow, fits)
      (throw_if-Writes (ltb (8 * n) (8 * n)) invalid_arg (ground arith)
        (reserved-Writes (write_b_loop-Writes n (8 * n) s (omega arith) h (omega arith))))

-- writeB(s, 8 * n) of the low `n` bytes of a wider value.
pub write_b_bits-Writes :
    (n width s : ℕ)
    → n ≤ 4
    → n ≤ width
    → Writes (write_b_bits width s (8 * n)) (big_bytes n (s % 2 ^ (8 * n)))
unfolding write_b_bits
write_b_bits-Writes n width s h le =
    let narrow : (8 * n == 64) ≡ false = ground arith in
    rw narrow (
      throw_if-Writes (ltb (width * 8) (8 * n)) invalid_arg (ground arith) (
        reserved-Writes
          (write_b_loop-Writes n (8 * n) (s % 2 ^ (8 * n)) (omega arith) h (omega arith))))

write_l_round :
    (fuel t n : ℕ)
    → write_l_loop (suc fuel) t (8 * suc n) ≡ (
        write_byte (t % 256)
        >> (throw_if (leb 31 (8 * n)) fault
            >> write_l_loop fuel (shift_right t (8 * n) % 2 ^ (8 * n)) (8 * n)))
unfolding write_l_loop
write_l_round fuel t n =
    let left : 8 * suc n - 8 ≡ 8 * n = omega arith in
    let more : (8 * suc n == 0) ≡ false = ground arith in rw (more, whole_byte n, left)

-- A round appends the low byte of `t`, and goes on with `t'`.
write_l_round-Writes :
    (fuel t t' n : ℕ) (b : ℕ) {bs : List ℕ}
    → n ≤ 3
    → shift_right t (8 * n) % 2 ^ (8 * n) ≡ t'
    → t % 256 ≡ b
    → Writes (write_l_loop fuel t' (8 * n)) bs
    → Writes (write_l_loop (suc fuel) t (8 * suc n)) (b ∷ bs)
write_l_round-Writes fuel t t' n b {bs} h e low p =
    subst (λ m. Writes m (b ∷ bs)) (sym (write_l_round fuel t n))
      (Writes->> (b ∷ []) bs
        (subst (λ x. Writes (write_byte x) (b ∷ [])) (sym low)
          (write_byte-WritesIn b (omega arith) (omega arith)))
        (throw_if-Writes (leb 31 (8 * n)) fault (ground arith)
          (subst (λ x. Writes (write_l_loop fuel x (8 * n)) bs) (sym e) p)))

write_l_done : (fuel t : ℕ) → Writes (write_l_loop (suc fuel) t 0) []
unfolding write_l_loop
write_l_done fuel t = Writes-pure

-- The checks in front of the loop of writeL.
write_l_bits-Writes :
    (s bits : ℕ) {bs : List ℕ}
    → bits ≤ 32
    → Writes (write_l_loop (suc bits) (s % 2 ^ bits) bits) bs
    → Writes (write_l_bits s bits) bs
unfolding write_l_bits
write_l_bits-Writes s bits h p =
    throw_if-Writes (ltb 32 bits) invalid_arg (ground arith) (reserved-Writes p)

-- writeL of 16 bits at a byte boundary appends the low byte, then the high one, where they fit with
-- ten bytes to spare.
write_l_16-Writes : (s : ℕ) → s < 2 ^ 16 → Writes (write_l_bits s 16) (s % 256 ∷ s / 256 ∷ [])
write_l_16-Writes s h =
    let high : shift_right (s % 2 ^ 16) 8 % 2 ^ 8 ≡ s / 256 = ground arith in
    write_l_bits-Writes s 16 (omega arith) (
      write_l_round-Writes 16 _ (s / 256) 1 _ (omega arith) high (omega arith) (
        write_l_round-Writes 15 _ 0 0 _ (omega arith) (omega arith) (omega arith)
          (write_l_done 14 0)))

-- writeL of 32 bits at a byte boundary, at a value that is not negative, with room for four bytes and
-- ten to spare: behind the low byte stands the high one, and the two in between are lost.
pub write_l_32-Writes :
    (s : ℕ) → s < 2 ^ 31 → Writes (write_l_bits s 32) (s % 256 ∷ s / 2 ^ 24 ∷ 0 ∷ 0 ∷ [])
write_l_32-Writes s h =
    let high : shift_right (s % 2 ^ 32) 24 % 2 ^ 24 ≡ s / 2 ^ 24 = ground arith in
    let lost : shift_right (s / 2 ^ 24) 16 % 2 ^ 16 ≡ 0 = ground arith in
    write_l_bits-Writes s 32 (omega arith) (
      write_l_round-Writes 32 _ (s / 2 ^ 24) 3 _ (omega arith) high (omega arith) (
        write_l_round-Writes 31 _ 0 2 _ (omega arith) lost (omega arith) (
          write_l_round-Writes 30 0 0 1 0 (omega arith) refl refl
            (write_l_round-Writes 29 0 0 0 0 (omega arith) refl refl (write_l_done 28 0)))))

first_digit : (v p : ℕ) → 0 < p → v < 256 * p → v / p % 256 ≡ v / p
first_digit v p h lt = mod-eq_of_lt ((div-lt_iff_lt-mul h).1 lt)

digits_sum : (acc v p : ℕ) → (acc * 256 + v / p) * p + v % p ≡ acc * (256 * p) + v
digits_sum acc v p = omega (arith, div-add-mod' v p)

-- Reading back what writeB wrote.
pub big_value-big_bytes :
    (n acc v : ℕ) → v < 2 ^ (8 * n) → big_value acc (big_bytes n v) ≡ acc * 2 ^ (8 * n) + v
big_value-big_bytes zero acc v h = omega arith
big_value-big_bytes (suc n) acc v h =
    let p : ℕ = 2 ^ (8 * n) in
    let digit : v / p % 256 ≡ v / p =
      first_digit v p (pow-pos (8 * n)) (omega (arith, pow_byte n)) in
    big_value-big_bytes n (acc * 256 + v / p % 256) (v % p) (mod-lt v (pow-pos (8 * n)))
    ∙ rw (pow_byte n, digit) (digits_sum acc v p)
