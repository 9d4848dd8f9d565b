-- ===== src/WriteBuffer/Parts.antt =====
-- writebuffer.cpp: a byte that is written in two parts, the first of them 0.
use tvie_rtmp.Base.{
  ℕ, zero, suc, ◌+◌, ◌-◌, ◌*◌, ◌/◌, ◌%◌, ◌^◌, ◌≤◌, ◌<◌, ◌≡◌, refl, sym, ap, ◌∙◌, false, true, List,
  [], ◌∷◌, ◌++◌, append_assoc, arith, lt→ltb, ltb, leb, length, zeros, length-append, ◌==◌,
}
use tvie_rtmp.Base.Bits.{bit_and-zero}
use tvie_rtmp.Exception.{fault, invalid_arg, ok, throw_if, then_do, ◌>>=◌, ◌>>◌, >>=-ok}
use tvie_rtmp.WriteBuffer.{
  WriteBuffer, chunk_bits, realloc_for_write, store, step_on, write_bits, write_b_loop,
  write_b_bits, mask_modulus,
}
use tvie_rtmp.WriteBuffer.Bytes.{holding, holding-eq, Writes, or_store_end, store_end}
use tvie_rtmp.WriteBuffer.Words.{realloc_for_write_idle}
use tvie_rtmp.ReadBuffer.Number.{pow-pos}
use native.Mathlib.Nat.{mod-eq_of_lt}

-- `bs` was written, and `b` bits are free of the byte behind, all of them clear.
abbrev pub partly : List ℕ → ℕ → ℕ → WriteBuffer
partly bs k b = record {
  buffer = bs ++ zeros k;
  bi = length bs;
  bits_left = b;
  size = length bs + k;
}

zero_shifted : (a d : ℕ) → d ≡ 0 → 0 % 2 ^ a / 2 ^ d ≡ 0
zero_shifted a d e = rw (mod-eq_of_lt (pow-pos a), e) refl

write_bits_first :
    (a b : ℕ) (out : List ℕ) (j : ℕ)
    → a + b ≡ 8
    → 0 < b
    → write_bits 0 a (holding out (suc j)) ≡ (ok tt, partly out (suc j) b)
unfolding write_bits step_on ◌>>=◌ then_do
write_bits_first a b out j h pos =
    let few : ltb 8 a ≡ false = ground arith in
    let v : 0 % 2 ^ a / 2 ^ (a - 8) ≡ 0 = zero_shifted a (a - 8) (omega arith) in
    let more : leb 8 a ≡ false = ground arith in
    let left : 8 - a ≡ b = omega arith in
    rw (few, v, or_store_end out 0 (length out) 8 (length out + suc j) (zeros j), then_do)
      (rw (more, left))

shifted_none : (v b d : ℕ) → v < 2 ^ b → d ≡ 0 → v % 2 ^ b / 2 ^ d ≡ v
shifted_none v b d low e = rw (mod-eq_of_lt low, e) (omega arith)

write_bits_second :
    (v b : ℕ) (out : List ℕ) (j : ℕ)
    → 0 < b
    → b < 8
    → v < 2 ^ b
    → write_bits v b (partly out (suc (suc j)) b) ≡ (ok tt, holding (out ++ v ∷ []) (suc j))
unfolding write_bits step_on ◌>>=◌ then_do
write_bits_second v b out j pos h low =
    let few : ltb 8 b ≡ false = ground arith in
    let e : v % 2 ^ b / 2 ^ (b - b) ≡ v = shifted_none v b (b - b) low (omega arith) in
    let no_shift : b - b ≡ 0 = omega arith in
    let more : out ++ v ∷ 0 ∷ zeros j ≡ (out ++ v ∷ []) ++ 0 ∷ zeros j =
      sym (append_assoc out (v ∷ []) (0 ∷ zeros j)) in
    rw (few, e, or_store_end out v (length out) b (length out + suc (suc j)) (0 ∷ zeros j), then_do)
      (rw (le→ltb' b, no_shift, bit_and-zero (v % 2 ^ b), more)
        (rw (stored, then_do)
          (ap (λ w. (ok tt, w))
            (holding-eq (out ++ v ∷ []) (suc j) refl next
              (omega (arith, length-append {0} out (v ∷ [])))))))
  where
    le→ltb' : (b : ℕ) → leb b b ≡ true
    le→ltb' b = ground arith

    next : length out + 1 ≡ length (out ++ v ∷ [])
    next = omega (arith, length-append {0} out (v ∷ []))

    stored :
        store (length out + 1) 0 (record {
          buffer = (out ++ v ∷ []) ++ 0 ∷ zeros j;
          bi = length out;
          bits_left = b;
          size = length out + suc (suc j);
        })
        ≡ (
          ok tt,
          record {
            buffer = (out ++ v ∷ []) ++ 0 ∷ zeros j;
            bi = length out;
            bits_left = b;
            size = length out + suc (suc j);
          },
        )
    stored =
        rw next (store_end (out ++ v ∷ []) 0 (length out) b (length out + suc (suc j)) (zeros j))

-- The one round of a loop of at most a byte, and its end.
write_b_once :
    (v b : ℕ)
    → suc b < 8
    → v < 256
    → write_b_loop (suc (suc b)) v (suc b)
      ≡ (write_bits v (suc b) >> (throw_if false fault >> write_b_loop (suc b) (v % 1) 0))
unfolding write_b_loop
write_b_once v b h low =
    let one_round : chunk_bits (suc b) ≡ suc b = ground arith in
    let nothing : suc b - suc b ≡ 0 = omega arith in
    let byte : v / 2 ^ 0 % 256 ≡ v = omega arith in
    let more : (suc b == 0) ≡ false = ground arith in rw (one_round, nothing, more, byte)

write_b_stop :
    (b v : ℕ) (wb : WriteBuffer)
    → (throw_if false fault >> write_b_loop (suc b) (v % 1) 0) wb ≡ (ok tt, wb)
unfolding write_b_loop ◌>>=◌ then_do
write_b_stop b v wb = refl

-- The checks and the one round of a write of at most a byte.
write_b_few :
    (w v b : ℕ) (wb wb' : WriteBuffer)
    → 0 < b
    → b < 8
    → b ≤ w * 8
    → v < 2 ^ b
    → v < 256
    → realloc_for_write wb ≡ (ok tt, wb)
    → write_bits v b wb ≡ (ok tt, wb')
    → write_b_bits w v b wb ≡ (ok tt, wb')
unfolding write_b_bits
write_b_few w v zero wb wb' pos h fits low small idle e = absurd (omega arith)
write_b_few w v (suc b) wb wb' pos h fits low small idle e =
    let wide : ltb (w * 8) (suc b) ≡ false = ground arith in
    let mask : mask_modulus (suc b) ≡ 2 ^ suc b = ground arith in
    let same : v % 2 ^ suc b ≡ v = mod-eq_of_lt low in
    >>=-ok (throw_if (ltb (w * 8) (suc b)) invalid_arg) _ wb (rw wide)
    ∙ >>=-ok realloc_for_write _ wb idle
    ∙ ap (λ t. write_b_loop (suc (suc b)) t (suc b) wb) (ap (λ n. v % n) mask ∙ same)
    ∙ ap (λ m. m wb) (write_b_once v b h small)
    ∙ >>=-ok (write_bits v (suc b)) _ wb e
    ∙ write_b_stop b v wb'

realloc_for_write-partly :
    (out : List ℕ) (k b : ℕ) → 10 ≤ k → realloc_for_write (partly out k b) ≡ (ok tt, partly out k b)
unfolding realloc_for_write
realloc_for_write-partly out k b h = rw (lt→ltb (length out + 9) (length out + k) (omega arith))

-- writeB(0, a) and writeB(v, b) of eight bits together append the byte `v`.
pub write_parts :
    (w w' v a b : ℕ)
    → a + b ≡ 8
    → 0 < a
    → 0 < b
    → a ≤ w * 8
    → b ≤ w' * 8
    → v < 2 ^ b
    → v < 256
    → Writes (write_b_bits w 0 a >> write_b_bits w' v b) (v ∷ [])
write_parts w w' v a b h pa pb fa fb low small = record { run = λ out k room. at out k room }
  where
    at :
        (out : List ℕ) (k : ℕ)
        → 10 ≤ k
        → (write_b_bits w 0 a >> write_b_bits w' v b) (holding out (1 + k))
          ≡ (ok tt, holding (out ++ v ∷ []) k)
    at out zero room = absurd (omega arith)
    at out (suc j) room =
        let e : 1 + suc j ≡ suc (suc j) = omega arith in
        ap (λ n. (write_b_bits w 0 a >> write_b_bits w' v b) (holding out n)) e
        ∙ >>=-ok (write_b_bits w 0 a) (λ _. write_b_bits w' v b) (holding out (suc (suc j)))
            (write_b_few w 0 a (holding out (suc (suc j))) (partly out (suc (suc j)) b) pa
              (omega arith) fa (pow-pos a) (omega arith)
              (realloc_for_write_idle out (suc (suc j)) (omega arith))
              (write_bits_first a b out (suc j) h pb))
        ∙ write_b_few w' v b (partly out (suc (suc j)) b) (holding (out ++ v ∷ []) (suc j)) pb
            (omega arith) fb low small (realloc_for_write-partly out (suc (suc j)) b (omega arith))
            (write_bits_second v b out j pb (omega arith) low)
