-- ===== src/WriteBuffer/Growth.antt =====
-- writebuffer.cpp: writing where the buffer has to grow.
use tvie_rtmp.Base.{
  ℕ, zero, suc, ◌+◌, ◌-◌, ◌*◌, ◌%◌, ◌^◌, ◌≤◌, ◌<◌, ◌≡◌, refl, sym, ap, subst, ◌∙◌, inl, inr, false,
  List, ◌++◌, append_assoc, arith, Bool-cases, ltb, lt→ltb, le→ltb, ltb→lt, length, zeros,
  length-append, take_prefix, ◌==◌,
}
use tvie_rtmp.Exception.{ok, invalid_arg, M, throw_if, gets, ◌>>=◌, ◌>>◌, then_do, >>=-ok}
use tvie_rtmp.WriteBuffer.{
  WriteBuffer, realloc, realloc_for_write, make_room, copy_in, write_bytes, write_b_loop,
  write_b_bits, write_b,
}
use tvie_rtmp.WriteBuffer.Bytes.{holding, holding-eq, WritesIn, make_room_enough, copy_in-holding}
use tvie_rtmp.WriteBuffer.Words.{
  big_bytes, length-big_bytes, realloc_for_write_idle, write_b_loop-Writes,
}
use native.Mathlib.Nat.{pow-suc, mod-eq_of_lt}

double_power : (s m : ℕ) → s * 2 * 2 ^ m ≡ s * 2 ^ suc m
double_power s m = rw (pow-suc 2 m) (omega arith)

-- Doublings one behind the other.
pub power_sum : (s a b : ℕ) → s * 2 ^ a * 2 ^ b ≡ s * 2 ^ (a + b)
power_sum s zero b =
    let e : 0 + b ≡ b = omega arith in let f : s * 2 ^ 0 ≡ s = omega arith in rw (e, f)
power_sum s (suc a) b =
    let e : suc a + b ≡ suc (a + b) = omega arith in
    rw (e, ← double_power s a, ← double_power s (a + b)) (power_sum (s * 2) a b)

-- No doubling of a buffer of `size` bytes ends one byte before the `n` bytes do.
abbrev pub NeverOneShort : ℕ → ℕ → Type 0
NeverOneShort size n = (m : ℕ) → ¬ (n ≡ size * 2 ^ m + 1)

pub NeverOneShort-double : (size n : ℕ) → NeverOneShort size n → NeverOneShort (size * 2) n
NeverOneShort-double size n h m e = h (suc m) (e ∙ ap (λ x. x + 1) (double_power size m))

-- A method that, called behind `out` with `k` bytes free, appends `bs`, and how far the buffer has
-- grown.
pub record Grows (m : M WriteBuffer (Unit {0})) (out : List ℕ) (k : ℕ) (bs : List ℕ) : Type 0 where
  pub room : ℕ
  pub doublings : ℕ
  pub run : m (holding out k) ≡ (ok tt, holding (out ++ bs) room)
  pub sized : length (out ++ bs) + room ≡ (length out + k) * 2 ^ doublings

realloc-holding :
    (out : List ℕ) (k : ℕ) → realloc (holding out k) ≡ (ok tt, holding out (k + (length out + k)))
unfolding realloc
realloc-holding out k =
    let free : (length out + k) * 2 - length out ≡ k + (length out + k) = omega arith in
    rw
      (
        le→ltb (length out + k) (length out) (omega arith),
        take_prefix (length out) out (zeros k) refl,
        free,
      )
      (ap (λ w. (ok tt, w)) (holding-eq out (k + (length out + k)) refl refl (omega arith)))

make_room_more :
    (fuel n : ℕ) (out : List ℕ) (k : ℕ)
    → length out + k + 1 < length out + n
    → make_room (suc fuel) n (holding out k) ≡ make_room fuel n (holding out (k + (length out + k)))
unfolding make_room ◌>>=◌ then_do
make_room_more fuel n out k h =
    rw (lt→ltb (length out + k + 1) (length out + n) h) (rw (realloc-holding out k, then_do))

-- The loop of writeBytes ends with enough room, unless some doubling ends one byte short.
make_room_grows :
    (out : List ℕ) (n fuel k : ℕ)
    → 0 < length out + k
    → length out + n ≤ fuel + (length out + k)
    → NeverOneShort (length out + k) (length out + n)
    → (k' : ℕ) × (j : ℕ) × (make_room (suc fuel) n (holding out k) ≡ (ok tt, holding out k'))
      × (length out + k' ≡ (length out + k) * 2 ^ j)
      × (n ≤ k')
make_room_grows out n zero k pos h lucky =
    let now : ¬ (length out + n ≡ (length out + k) * 2 ^ 0 + 1) = lucky 0 in
    (k, 0, make_room_enough n 0 out k (omega arith), omega arith, omega arith)
make_room_grows out n (suc fuel) k pos h lucky =
    elim (Bool-cases (ltb (length out + k + 1) (length out + n))) [
      | inr enough ↦
          let now : ¬ (length out + n ≡ (length out + k) * 2 ^ 0 + 1) = lucky 0 in
          let le : n ≤ k + 1 = ground arith in
          (k, 0, make_room_enough n (suc fuel) out k le, omega arith, grind arith)
      | inl more ↦
          let less : length out + k + 1 < length out + n = ltb→lt _ _ more in
          let twice : length out + (k + (length out + k)) ≡ (length out + k) * 2 = omega arith in
          let (k', j, e, sized, room) =
            make_room_grows out n fuel (k + (length out + k)) (omega arith) (omega arith) (
              subst (λ s. NeverOneShort s (length out + n)) (sym twice)
                (NeverOneShort-double (length out + k) (length out + n) lucky)) in
          (
            k',
            suc j,
            make_room_more (suc fuel) n out k less ∙ e,
            sized ∙ ap (λ s. s * 2 ^ j) twice ∙ double_power (length out + k) j,
            room,
          )
    ]

-- writeBytes at a byte boundary: the buffer is doubled until the bytes fit and they are copied
-- behind the others, unless some doubling ends one byte before they do.
pub write_bytes-Grows :
    (d out : List ℕ) (k : ℕ)
    → 0 < length out + k
    → NeverOneShort (length out + k) (length out + length d)
    → Grows (write_bytes d) out k d
unfolding write_bytes
write_bytes-Grows d out k pos lucky =
    let (k', j, e, sized, fits) =
      make_room_grows out (length d) (length out + length d) k pos (omega arith) lucky in
    let left : k' ≡ length d + (k' - length d) = omega arith in
    record {
      room = k' - length d;
      doublings = j;
      run =
          >>=-ok (gets (λ w. w)) _ (holding out k) refl
          ∙ >>=-ok (make_room (suc (length out + length d)) (length d)) _ (holding out k) e
          ∙ >>=-ok (gets (λ w. w)) _ (holding out k') refl
          ∙ ap (λ x. copy_in d (holding out x)) left
          ∙ copy_in-holding d out (k' - length d);
      sized = omega (arith, length-append {0} out d, sized);
    }

realloc_for_write_grows :
    (out : List ℕ) (k : ℕ)
    → 10 ≤ length out + k
    → (k' : ℕ) × (j : ℕ) × (realloc_for_write (holding out k) ≡ (ok tt, holding out k'))
      × (length out + k' ≡ (length out + k) * 2 ^ j)
      × (10 ≤ k')
realloc_for_write_grows out k h = elim (Bool-cases (ltb (length out + 9) (length out + k))) [
  | inl roomy ↦
      let enough : 10 ≤ k = ground arith in
      (k, 0, realloc_for_write_idle out k enough, omega arith, enough)
  | inr tight ↦ (
    k + (length out + k),
    1,
    unfold realloc_for_write in (rw tight (realloc-holding out k)),
    omega arith,
    omega arith,
  )
]

-- writeB of up to four bytes at a byte boundary: with less than ten bytes free the buffer is doubled.
pub write_b-Grows :
    (n s : ℕ) (out : List ℕ) (k : ℕ)
    → n ≤ 4
    → s < 2 ^ (8 * n)
    → 10 ≤ length out + k
    → Grows (write_b n s) out k (big_bytes n s)
unfolding write_b_bits
write_b-Grows n s out k h small size =
    let (k', j, e, sized, room) = realloc_for_write_grows out k size in
    let w : n * 8 ≡ 8 * n = omega arith in
    let narrow : (8 * n == 64) ≡ false = ground arith in
    let fits : s % 2 ^ (8 * n) ≡ s = mod-eq_of_lt small in
    let length_n : length (big_bytes n s) ≡ n = length-big_bytes n s in
    let left : k' ≡ length (big_bytes n s) + (k' - n) = omega arith in
    record {
      room = k' - n;
      doublings = j;
      run =
          rw (w, narrow, fits)
            (>>=-ok (throw_if (ltb (8 * n) (8 * n)) invalid_arg) _ (holding out k) (ground arith)
              ∙ >>=-ok realloc_for_write _ (holding out k) e
              ∙ ap (λ x. write_b_loop (suc (8 * n)) s (8 * n) (holding out x)) left
              ∙ (write_b_loop-Writes {spare = 1} n (8 * n) s (omega arith) h (omega arith)).run out
                  (k' - n) (omega arith));
      sized = omega (arith, length-append {0} out (big_bytes n s), sized);
    }

-- A method that needs no more room, and one behind another.
pub Writes-Grows :
    {spare : ℕ} {m : M WriteBuffer (Unit {0})} {bs : List ℕ} (out : List ℕ) (k : ℕ)
    → WritesIn spare m bs
    → length bs + spare ≤ k
    → Grows m out k bs
Writes-Grows {m = m} {bs = bs} out k p h =
    let left : k ≡ length bs + (k - length bs) = omega arith in
    record {
      room = k - length bs;
      doublings = 0;
      run = ap (λ x. m (holding out x)) left ∙ p.run out (k - length bs) (omega arith);
      sized = omega (arith, length-append {0} out bs);
    }

pub Grows->> :
    {m n : M WriteBuffer (Unit {0})} (out : List ℕ) (k : ℕ) (bs cs : List ℕ) (p : Grows m out k bs)
    → Grows n (out ++ bs) p.room cs
    → Grows (m >> n) out k (bs ++ cs)
Grows->> {m = m} {n = n} out k bs cs p q = record {
  room = q.room;
  doublings = p.doublings + q.doublings;
  run =
      >>=-ok m (λ _. n) (holding out k) p.run
      ∙ q.run
      ∙ ap (λ l. (ok tt, holding l q.room)) (append_assoc out bs cs);
  sized =
      ap (λ (l : List ℕ). length l + q.room) (sym (append_assoc out bs cs))
      ∙ q.sized
      ∙ ap (λ s. s * 2 ^ q.doublings) p.sized
      ∙ power_sum (length out + k) p.doublings q.doublings;
}

pub grown_le : (s d : ℕ) → s ≤ s * 2 ^ d
grown_le s zero = omega arith
grown_le s (suc d) =
    let twice : s * 2 * 2 ^ d ≡ s * 2 ^ suc d = double_power s d in
    omega (arith, grown_le (s * 2) d)

pub NeverOneShort-power : (s d n : ℕ) → NeverOneShort s n → NeverOneShort (s * 2 ^ d) n
NeverOneShort-power s d n h m e = h (d + m) (e ∙ ap (λ x. x + 1) (power_sum s d m))

-- What holds of the size before holds of it after.
module _ {m : M WriteBuffer (Unit {0})} {out : List ℕ} {k : ℕ} {bs : List ℕ}
    (p : Grows m out k bs) where
  pub Grows-size : length out + k ≤ length (out ++ bs) + p.room
  Grows-size = omega (arith, grown_le (length out + k) p.doublings, p.sized)

  pub Grows-NeverOneShort :
      (n : ℕ) → NeverOneShort (length out + k) n → NeverOneShort (length (out ++ bs) + p.room) n
  Grows-NeverOneShort n h =
      subst (λ s. NeverOneShort s n) (sym p.sized)
        (NeverOneShort-power (length out + k) p.doublings n h)
