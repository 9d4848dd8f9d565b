-- ===== src/Base/Bits.antt =====
-- `bit_or` and `bit_and` as arithmetic.
use Prim.Native.Nat.{
  ℕ, zero, suc, ◌+◌, ◌*◌, ◌/◌, ◌%◌, ◌^◌, ◌≤◌, ◌<◌, max, min, bit_and, bit_or, digits,
  bit_or-bitwise, bit_and-bitwise,
}
use mathlib.Core.Path.{◌≡◌, refl, ◌∙◌}
use native.Mathlib.Omega.{arith}
use native.Mathlib.Nat.{pow-suc}

abbrev or_digits : ℕ → ℕ → ℕ → ℕ
or_digits n a b = digits (λ b. b) max n a b

or_digits_fuel : (n m a b : ℕ) → a ≤ n → a ≤ m → or_digits n a b ≡ or_digits m a b
or_digits_fuel zero zero a b p q = refl
or_digits_fuel zero (suc m) zero b p q = refl
or_digits_fuel zero (suc m) (suc a) b p q = absurd (omega arith)
or_digits_fuel (suc n) zero zero b p q = refl
or_digits_fuel (suc n) zero (suc a) b p q = absurd (omega arith)
or_digits_fuel (suc n) (suc m) zero b p q = refl
or_digits_fuel (suc n) (suc m) (suc a) b p q =
    omega (arith, or_digits_fuel n m (suc a / 2) (b / 2) (omega arith) (omega arith))

pub zero-bit_or : (b : ℕ) → bit_or 0 b ≡ b
zero-bit_or b = bit_or-bitwise 0 b

bit_or_step : (a b : ℕ) → bit_or a b ≡ bit_or (a / 2) (b / 2) * 2 + max (a % 2) (b % 2)
bit_or_step zero b = omega (arith, zero-bit_or b, zero-bit_or (b / 2))
bit_or_step (suc a) b = omega (
  arith,
  bit_or-bitwise (suc a) b,
  bit_or-bitwise (suc a / 2) (b / 2),
  or_digits_fuel a (suc a / 2) (suc a / 2) (b / 2) (omega arith) (omega arith),
)

bit_or-zero_fuel : (n a : ℕ) → a ≤ n → bit_or a 0 ≡ a
bit_or-zero_fuel n zero h = zero-bit_or 0
bit_or-zero_fuel zero (suc a) h = absurd (omega arith)
bit_or-zero_fuel (suc n) (suc a) h =
    omega (arith, bit_or_step (suc a) 0, bit_or-zero_fuel n (suc a / 2) (omega arith))

pub bit_or-zero : (a : ℕ) → bit_or a 0 ≡ a
bit_or-zero a = bit_or-zero_fuel a a (omega arith)

double_shift : (a k : ℕ) → a * 2 ^ suc k ≡ a * 2 ^ k * 2
double_shift a k = rw (pow-suc 2 k) (omega arith)

-- Where the low `k` bits of one side and the others of the other are clear, `|` is `+`.
pub bit_or-disjoint : (k a b : ℕ) → b < 2 ^ k → bit_or (a * 2 ^ k) b ≡ a * 2 ^ k + b
bit_or-disjoint zero a b h = let e : b ≡ 0 = omega arith in rw e (bit_or-zero (a * 1) ∙ omega arith)
bit_or-disjoint (suc k) a b h =
    let e : a * 2 ^ suc k ≡ a * 2 ^ k * 2 = double_shift a k in
    let small : b / 2 < 2 ^ k = omega (arith, pow-suc 2 k) in
    let half : a * 2 ^ k * 2 / 2 ≡ a * 2 ^ k = omega arith in
    rw e
      (bit_or_step (a * 2 ^ k * 2) b ∙ rw half (omega (arith, bit_or-disjoint k a (b / 2) small)))

pub bit_or-disjoint_low : (k a b : ℕ) → b < 2 ^ k → bit_or b (a * 2 ^ k) ≡ b + a * 2 ^ k
bit_or-disjoint_low zero a b h =
    let e : b ≡ 0 = omega arith in rw e (zero-bit_or (a * 1) ∙ omega arith)
bit_or-disjoint_low (suc k) a b h =
    let e : a * 2 ^ suc k ≡ a * 2 ^ k * 2 = double_shift a k in
    let small : b / 2 < 2 ^ k = omega (arith, pow-suc 2 k) in
    let half : a * 2 ^ k * 2 / 2 ≡ a * 2 ^ k = omega arith in
    rw e (
      bit_or_step b (a * 2 ^ k * 2)
      ∙ rw half (omega (arith, bit_or-disjoint_low k a (b / 2) small)))

-- `x & 0` in the other order of arguments computes; this one does not.
abbrev and_digits : ℕ → ℕ → ℕ → ℕ
and_digits n a b = digits (λ b. zero) min n a b

and_digits-zero : (n a : ℕ) → a ≤ n → and_digits n a 0 ≡ 0
and_digits-zero zero a h = refl
and_digits-zero (suc n) zero h = refl
and_digits-zero (suc n) (suc a) h = omega (arith, and_digits-zero n (suc a / 2) (omega arith))

pub bit_and-zero : (a : ℕ) → bit_and a 0 ≡ 0
bit_and-zero a = bit_and-bitwise a 0 ∙ and_digits-zero a a (omega arith)
