-- ===== src/Memory/Addr.antt =====
-- What the kernel uses of the `x86_64` crate's addresses. A `PhysAddr` or `VirtAddr` is the number
-- that `as_u64` returns; its constructors and sums are parameters, with the crate's documented
-- behaviour where the kernel relies on it.
use os_rust.Shared.{ℕ, ◌+◌, ◌-◌, ◌%◌, ◌^◌, ◌≤◌, ◌<◌, ◌≡◌, Bool, ◌==◌, Outcome, ok, panic}

pub record AddrApi : Type 0 where
  -- `PhysAddr::new` panics if one of the bits 52 to 63 is set.
  pub phys_new : ℕ → Outcome ℕ
  pub phys_new_valid : (a : ℕ) → a < 2 ^ 52 → phys_new a ≡ ok a
  pub phys_new_invalid : (a : ℕ) → 2 ^ 52 ≤ a → phys_new a ≡ panic
  -- `PhysAddr + u64`
  pub phys_add : ℕ → ℕ → Outcome ℕ
  pub phys_add_valid : (a b : ℕ) → a + b < 2 ^ 52 → phys_add a b ≡ ok (a + b)
  -- `PhysAddr::is_aligned`, at the alignment that the kernel asks for
  pub is_aligned : ℕ → ℕ → Bool
  pub is_aligned_frame : (a : ℕ) → is_aligned a 4096 ≡ (a % 4096 == 0)
  -- `VirtAddr::new` panics if the address is not canonical.
  pub virt_new : ℕ → Outcome ℕ
  pub virt_new_low : (a : ℕ) → a < 2 ^ 47 → virt_new a ≡ ok a
  pub virt_new_high : (a : ℕ) → 2 ^ 64 - 2 ^ 47 ≤ a → a < 2 ^ 64 → virt_new a ≡ ok a
