-- ===== src/Util/Counter.antt =====
-- The two halves of the time stamp counter put together.
use Prim.Native.Nat.{bit_or, bit_or-bitwise, digits, max}
use native.Mathlib.Nat.{pow-succ', mul_assoc, mul_comm}
use os_rust.Shared.{ℕ, zero, suc, ◌+◌, ◌*◌, ◌/◌, ◌%◌, ◌^◌, ◌≤◌, ◌<◌, ◌≡◌, refl, sym, ap, ◌∙◌, arith}
use os_rust.Util.{read_tsc}

abbrev or_digits : ℕ → ℕ → ℕ → ℕ
or_digits n a b = digits (λ b. b) max n a b

or_digits_fuel : (n m a b : ℕ) → a ≤ n → a ≤ m → or_digits n a b ≡ or_digits m a b
or_digits_fuel zero zero a b p q = refl
or_digits_fuel zero (suc m) zero b p q = refl
or_digits_fuel zero (suc m) (suc a) b p q = absurd (omega arith)
or_digits_fuel (suc n) zero zero b p q = refl
or_digits_fuel (suc n) zero (suc a) b p q = absurd (omega arith)
or_digits_fuel (suc n) (suc m) zero b p q = refl
or_digits_fuel (suc n) (suc m) (suc a) b p q =
    let rest = or_digits_fuel n m (suc a / 2) (b / 2) (omega arith) (omega arith) in
    ap (λ (r : ℕ). r * 2 + max (suc a % 2) (b % 2)) rest

zero-bit_or : (b : ℕ) → bit_or 0 b ≡ b
zero-bit_or b = bit_or-bitwise 0 b

bit_or_step : (a b : ℕ) → bit_or a b ≡ bit_or (a / 2) (b / 2) * 2 + max (a % 2) (b % 2)
bit_or_step zero b = omega (arith, zero-bit_or b, zero-bit_or (b / 2))
bit_or_step (suc a) b = omega (
  arith,
  bit_or-bitwise (suc a) b,
  bit_or-bitwise (suc a / 2) (b / 2),
  or_digits_fuel a (suc a / 2) (suc a / 2) (b / 2) (omega arith) (omega arith),
)

bit_or-zero_fuel : (n a : ℕ) → a ≤ n → bit_or a 0 ≡ a
bit_or-zero_fuel n zero h = refl
bit_or-zero_fuel zero (suc a) h = absurd (omega arith)
bit_or-zero_fuel (suc n) (suc a) h =
    omega (arith, bit_or_step (suc a) 0, bit_or-zero_fuel n (suc a / 2) (omega arith))

-- Digits that do not overlap are added.
bit_or-apart : (k a b : ℕ) → b < 2 ^ k → bit_or (a * 2 ^ k) b ≡ a * 2 ^ k + b
bit_or-apart zero a b h =
    let none_left : b ≡ 0 = omega arith in
    rw none_left (omega (arith, bit_or-zero_fuel (a * 2 ^ 0) (a * 2 ^ 0) (omega arith)))
bit_or-apart (suc k) a b h = omega (
  arith,
  twice,
  bit_or_step (a * 2 ^ suc k) b,
  ap (λ (t : ℕ). bit_or t (b / 2)) half,
  bit_or-apart k a (b / 2) (omega (arith, pow-succ' 2 k)),
)
  where
    twice : a * 2 ^ suc k ≡ a * 2 ^ k * 2
    twice = ap (λ (d : ℕ). a * d) (pow-succ' 2 k ∙ mul_comm 2 (2 ^ k)) ∙ sym (mul_assoc a (2 ^ k) 2)

    half : a * 2 ^ suc k / 2 ≡ a * 2 ^ k
    half = omega (arith, twice)

-- read_tsc puts the halves of any value of the counter together again.
pub read_tsc-halves : (x : ℕ) → x < 2 ^ 64 → read_tsc (x / 2 ^ 32) (x % 2 ^ 32) ≡ x
unfolding read_tsc
read_tsc-halves x h =
    let kept : x / 2 ^ 32 * 2 ^ 32 % 2 ^ 64 ≡ x / 2 ^ 32 * 2 ^ 32 = omega arith in
    rw kept (omega (arith, bit_or-apart 32 (x / 2 ^ 32) (x % 2 ^ 32) (omega arith)))
