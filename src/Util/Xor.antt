-- ===== src/Util/Xor.antt =====
-- The laws of exclusive or on binary digits, lowest first, and how shifts of words distribute over it.
use Prim.Native.Nat.{bit_xor, bit_xor-bitwise, digits, differ}
use mathlib.Core.Path.{ap₂}
use native.Mathlib.Nat.{
  pow-succ', div-div-eq-div-mul, mod-eq-sub-div-mul, div-mul-le_self, mul_assoc,
}
use os_rust.Shared.{ℕ, zero, suc, ◌+◌, ◌*◌, ◌/◌, ◌%◌, ◌^◌, ◌≤◌, ◌<◌, ◌≡◌, refl, sym, ap, ◌∙◌, arith}

abbrev xor_digits : ℕ → ℕ → ℕ → ℕ
xor_digits n a b = digits (λ b. b) differ n a b

xor_digits_fuel : (n m a b : ℕ) → a ≤ n → a ≤ m → xor_digits n a b ≡ xor_digits m a b
xor_digits_fuel zero zero a b p q = refl
xor_digits_fuel zero (suc m) zero b p q = refl
xor_digits_fuel zero (suc m) (suc a) b p q = absurd (omega arith)
xor_digits_fuel (suc n) zero zero b p q = refl
xor_digits_fuel (suc n) zero (suc a) b p q = absurd (omega arith)
xor_digits_fuel (suc n) (suc m) zero b p q = refl
xor_digits_fuel (suc n) (suc m) (suc a) b p q =
    let rest = xor_digits_fuel n m (suc a / 2) (b / 2) (omega arith) (omega arith) in
    ap (λ (r : ℕ). r * 2 + differ (suc a % 2) (b % 2)) rest

differ_lem : (x y : ℕ) → x < 2 → y < 2 → differ x y ≡ (x + y) % 2
differ_lem zero zero p q = refl
differ_lem zero (suc zero) p q = refl
differ_lem (suc zero) zero p q = refl
differ_lem (suc zero) (suc zero) p q = refl
differ_lem zero (suc (suc y)) p q = absurd (omega arith)
differ_lem (suc zero) (suc (suc y)) p q = absurd (omega arith)
differ_lem (suc (suc x)) y p q = absurd (omega arith)

pub zero-bit_xor : (b : ℕ) → bit_xor 0 b ≡ b
zero-bit_xor b = bit_xor-bitwise 0 b

-- The lowest digit and the others.
bit_xor_step : (a b : ℕ) → bit_xor a b ≡ bit_xor (a / 2) (b / 2) * 2 + (a + b) % 2
bit_xor_step zero b = omega (arith, zero-bit_xor b, zero-bit_xor (b / 2))
bit_xor_step (suc a) b = omega (
  arith,
  bit_xor-bitwise (suc a) b,
  bit_xor-bitwise (suc a / 2) (b / 2),
  xor_digits_fuel a (suc a / 2) (suc a / 2) (b / 2) (omega arith) (omega arith),
  differ_lem (suc a % 2) (b % 2) (omega arith) (omega arith),
)

half-bit_xor : (a b : ℕ) → bit_xor a b / 2 ≡ bit_xor (a / 2) (b / 2)
half-bit_xor a b = omega (arith, bit_xor_step a b)

bit_xor-zero_fuel : (n a : ℕ) → a ≤ n → bit_xor a 0 ≡ a
bit_xor-zero_fuel n zero h = refl
bit_xor-zero_fuel zero (suc a) h = absurd (omega arith)
bit_xor-zero_fuel (suc n) (suc a) h =
    omega (arith, bit_xor_step (suc a) 0, bit_xor-zero_fuel n (suc a / 2) (omega arith))

self_fuel : (n a : ℕ) → a ≤ n → bit_xor a a ≡ 0
self_fuel n zero h = refl
self_fuel zero (suc a) h = absurd (omega arith)
self_fuel (suc n) (suc a) h =
    omega (arith, bit_xor_step (suc a) (suc a), self_fuel n (suc a / 2) (omega arith))

assoc_fuel : (n a b c : ℕ) → a + b + c ≤ n → bit_xor (bit_xor a b) c ≡ bit_xor a (bit_xor b c)
assoc_fuel zero a b c h =
    let za : a ≡ 0 = omega arith in
    let zb : b ≡ 0 = omega arith in let zc : c ≡ 0 = omega arith in rw (za, zb, zc) refl
assoc_fuel (suc n) a b c h = omega (
  arith,
  bit_xor_step (bit_xor a b) c,
  ap (λ (t : ℕ). bit_xor t (c / 2)) (half-bit_xor a b),
  bit_xor_step a b,
  bit_xor_step a (bit_xor b c),
  ap (bit_xor (a / 2)) (half-bit_xor b c),
  bit_xor_step b c,
  assoc_fuel n (a / 2) (b / 2) (c / 2) (omega arith),
)

pub bit_xor_zero : (a : ℕ) → bit_xor a 0 ≡ a
bit_xor_zero a = bit_xor-zero_fuel a a (omega arith)

pub bit_xor_self : (a : ℕ) → bit_xor a a ≡ 0
bit_xor_self a = self_fuel a a (omega arith)

pub bit_xor_assoc : (a b c : ℕ) → bit_xor (bit_xor a b) c ≡ bit_xor a (bit_xor b c)
bit_xor_assoc a b c = assoc_fuel (a + b + c) a b c (omega arith)

div_suc : (k x : ℕ) → x / 2 ^ suc k ≡ x / 2 / 2 ^ k
div_suc k x = ap (λ (d : ℕ). x / d) (pow-succ' 2 k) ∙ sym (div-div-eq-div-mul x 2 (2 ^ k))

mod_suc : (k x : ℕ) → x % 2 ^ suc k ≡ x / 2 % 2 ^ k * 2 + x % 2
mod_suc k x = omega (
  arith,
  mod-eq-sub-div-mul x (2 ^ suc k),
  div-mul-le_self x (2 ^ suc k),
  div_suc k x,
  mod-eq-sub-div-mul (x / 2) (2 ^ k),
  div-mul-le_self (x / 2) (2 ^ k),
  ap (λ (q : ℕ). q * 2 ^ suc k) (div_suc k x),
  ap (λ (d : ℕ). x / 2 / 2 ^ k * d) (pow-succ' 2 k),
  sym (mul_assoc (x / 2 / 2 ^ k) 2 (2 ^ k)),
)

pub shr-bit_xor : (k a b : ℕ) → bit_xor a b / 2 ^ k ≡ bit_xor (a / 2 ^ k) (b / 2 ^ k)
shr-bit_xor zero a b =
    let one : (x : ℕ) → x / 2 ^ 0 ≡ x = λ x. omega arith in
    rw (one a, one b, one (bit_xor a b)) refl
shr-bit_xor (suc k) a b =
    rw (div_suc k (bit_xor a b), div_suc k a, div_suc k b, half-bit_xor a b)
      (shr-bit_xor k (a / 2) (b / 2))

pub mod-bit_xor : (k a b : ℕ) → bit_xor a b % 2 ^ k ≡ bit_xor (a % 2 ^ k) (b % 2 ^ k)
mod-bit_xor zero a b =
    let none_left : (x : ℕ) → x % 2 ^ 0 ≡ 0 = λ x. omega arith in
    rw (none_left a, none_left b, none_left (bit_xor a b), zero-bit_xor 0) refl
mod-bit_xor (suc k) a b = omega (
  arith,
  mod_suc k (bit_xor a b),
  ap (λ (t : ℕ). t % 2 ^ k) (half-bit_xor a b),
  mod-bit_xor k (a / 2) (b / 2),
  bit_xor_step a b,
  bit_xor_step (a % 2 ^ suc k) (b % 2 ^ suc k),
  ap₂ bit_xor (half a) (half b),
  mod_suc k a,
  mod_suc k b,
)
  where
    half : (x : ℕ) → x % 2 ^ suc k / 2 ≡ x / 2 % 2 ^ k
    half x = omega (arith, mod_suc k x)

mul_suc : (k x : ℕ) → x * 2 ^ suc k ≡ x * 2 * 2 ^ k
mul_suc k x = ap (λ (d : ℕ). x * d) (pow-succ' 2 k) ∙ sym (mul_assoc x 2 (2 ^ k))

bit_xor-double : (a b : ℕ) → bit_xor (a * 2) (b * 2) ≡ bit_xor a b * 2
bit_xor-double a b = omega (arith, bit_xor_step (a * 2) (b * 2), ap₂ bit_xor (half a) (half b))
  where
    half : (x : ℕ) → x * 2 / 2 ≡ x
    half x = omega arith

pub mul-bit_xor : (k a b : ℕ) → bit_xor a b * 2 ^ k ≡ bit_xor (a * 2 ^ k) (b * 2 ^ k)
mul-bit_xor zero a b =
    let one : (x : ℕ) → x * 2 ^ 0 ≡ x = λ x. omega arith in
    rw (one a, one b, one (bit_xor a b)) refl
mul-bit_xor (suc k) a b =
    rw (mul_suc k (bit_xor a b), mul_suc k a, mul_suc k b, sym (bit_xor-double a b))
      (mul-bit_xor k (a * 2) (b * 2))
