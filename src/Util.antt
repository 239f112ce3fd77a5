-- ===== src/Util.antt =====
-- src/util.rs: the time stamp counter and the random numbers that are made of it.
pub mod Xor
pub mod Counter
pub mod Random
mod Tests
use Prim.Native.Nat.{bit_or, bit_xor}
use os_rust.Shared.{ℕ, ◌*◌, ◌/◌, ◌%◌, ◌^◌}

-- `high` and `low` stand for the halves that the instruction `rdtsc` leaves in its registers.
unfoldable pub read_tsc : ℕ → ℕ → ℕ
read_tsc high low = bit_or (high * 2 ^ 32 % 2 ^ 64) low

-- `x >> k` and `x << k` for `u64`
abbrev pub shr : ℕ → ℕ → ℕ
shr k x = x / 2 ^ k

abbrev pub shl : ℕ → ℕ → ℕ
shl k x = x * 2 ^ k % 2 ^ 64

-- `tsc` stands for the result of `read_tsc`.
unfoldable pub random_u64 : ℕ → ℕ
random_u64 tsc =
    let x₁ = bit_xor tsc (shr 13 tsc) in let x₂ = bit_xor x₁ (shl 7 x₁) in bit_xor x₂ (shr 17 x₂)
