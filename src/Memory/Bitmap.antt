-- ===== src/Memory/Bitmap.antt =====
-- src/memory/bitmap.rs, `BitmapView`: one bit per frame in a slice of bytes, 1 for used, 0 for
-- free. Indexing the slice out of bounds panics.
pub mod Bits
pub mod Runs
use Prim.Native.Nat.{bit_and, bit_or}
use os_rust.Shared
use os_rust.Shared.{ℕ, zero, suc, ◌+◌, ◌-◌, ◌/◌, ◌%◌, ◌^◌, List, index, Bool, not, ◌==◌}
use os_rust.Shared.{Outcome, ok, ◌>>=◌, add64}

pub record BitmapView : Type 0 where
  pub size : ℕ
  pub bytes : List ℕ

unfoldable pub new : ℕ → List ℕ → BitmapView
new size bytes = record { size = size; bytes = bytes }

-- `1 << (index % 8)`, and its complement as a `u8`
abbrev pub mask : ℕ → ℕ
mask i = 2 ^ (i % 8)

abbrev pub not_mask : ℕ → ℕ
not_mask i = 255 - mask i

unfoldable pub set : BitmapView → ℕ → Outcome BitmapView
set b i = do
  byte ← index b.bytes (i / 8)
  ok (record b { bytes = Shared.set b.bytes (i / 8) (bit_or byte (mask i)) })

unfoldable pub clear : BitmapView → ℕ → Outcome BitmapView
clear b i = do
  byte ← index b.bytes (i / 8)
  ok (record b { bytes = Shared.set b.bytes (i / 8) (bit_and byte (not_mask i)) })

unfoldable pub is_set : BitmapView → ℕ → Outcome Bool
is_set b i = do byte ← index b.bytes (i / 8); ok (not (bit_and byte (mask i) == 0))

-- `for j in i..i + n { self.bitmap.set(j) }`, by the rounds left
unfoldable pub set_run : BitmapView → ℕ → ℕ → Outcome BitmapView
set_run b i zero = ok b
set_run b i (suc n) = do b' ← set b i; set_run b' (i + 1) n

-- `for i in i..i + n { self.bitmap.clear(i) }`
unfoldable pub clear_run : BitmapView → ℕ → ℕ → Outcome BitmapView
clear_run b i zero = ok b
clear_run b i (suc n) = do b' ← clear b i; clear_run b' (i + 1) n

-- The rounds of `for j in start..start + count`: the bound wraps, and a range that ends before it
-- starts is empty.
abbrev pub rounds : ℕ → ℕ → ℕ
rounds start count = add64 start count - start
