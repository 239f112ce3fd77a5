-- ===== src/Memory/Allocator/Count.antt =====
-- `free_frames` and `total_frames`, and how allocations and returns change the number of free
-- frames.
use os_rust.Shared.{
  ℕ, ◌+◌, ◌*◌, ◌%◌, ◌^◌, ◌≤◌, ◌<◌, ◌≡◌, ◌∙◌, ap, List, [], ◌∷◌, true, refl, some, ok, arith, length,
  add64,
}
use os_rust.Memory.Frame.{FrameRange}
use os_rust.Memory.Bitmap.Bits.{bit}
use os_rust.Memory.Region
use os_rust.Memory.Region.{MemoryRegion}
use os_rust.Memory.Region.Free.{
  region_free, region_free-Claims, region_free-le, free_frames_lem, region_free-blocked,
}
use os_rust.Memory.Allocator.{sum_total, sum_free, free_frames, total_frames}
use os_rust.Memory.Allocator.Alloc.{Takes, here, later, AreFull}
use os_rust.Memory.Allocator.States.{AreValid}

unfoldable pub total_free : List MemoryRegion → ℕ
total_free [] = 0
total_free (r ∷ rs) = region_free r + total_free rs

unfoldable pub total_size : List MemoryRegion → ℕ
total_size [] = 0
total_size (r ∷ rs) = r.bitmap.size + total_size rs

-- An allocation of `count` frames takes `count` off the number of free frames.
pub total_free-Takes :
    {count : ℕ} {f : FrameRange} {rs rs' : List MemoryRegion}
    → Takes count f rs rs'
    → total_free rs' + count ≡ total_free rs
unfolding total_free
total_free-Takes (here first least c) = omega (arith, region_free-Claims c)
total_free-Takes (later full t) = omega (arith, total_free-Takes t)

-- Where no single frame is free, the count of free frames is 0.
pub total_free-AreFull : (rs : List MemoryRegion) → AreFull rs 1 → total_free rs ≡ 0
unfolding total_free
total_free-AreFull [] full = refl
total_free-AreFull (r ∷ rs) (first, full) =
    omega (arith, region_free-blocked r used, total_free-AreFull rs full)
  where
    used : (j : ℕ) → j < r.bitmap.size → bit r.bitmap j ≡ true
    used j h =
        let (k, low, high, set) = first j (omega arith) in
        let same : k ≡ j = omega arith in rw same at set

sum_free_lem :
    (rs : List MemoryRegion) (acc : ℕ)
    → AreValid rs
    → acc < 2 ^ 64
    → sum_free acc rs ≡ ok ((acc + total_free rs) % 2 ^ 64)
unfolding sum_free total_free
sum_free_lem [] acc v h = ap ok (omega arith)
sum_free_lem (r ∷ rs) acc v h =
    rw (free_frames_lem r v.0)
      (sum_free_lem rs (add64 acc (region_free r)) v.2 (omega arith) ∙ ap ok (omega arith))

sum_total_lem :
    (rs : List MemoryRegion) (acc : ℕ)
    → acc < 2 ^ 64
    → sum_total acc rs ≡ (acc + total_size rs) % 2 ^ 64
unfolding sum_total total_size Region.total_frames
sum_total_lem [] acc h = omega arith
sum_total_lem (r ∷ rs) acc h =
    sum_total_lem rs (add64 acc r.bitmap.size) (omega arith) ∙ omega arith

-- A physical address has 52 bits, so a region has fewer than 2^40 frames.
total_size-lt : (rs : List MemoryRegion) → AreValid rs → total_size rs ≤ length rs * 2 ^ 40
unfolding total_size
total_size-lt [] v = omega arith
total_size-lt (r ∷ rs) v = omega (arith, total_size-lt rs v.2, v.0.frames_inside, v.0.end_physical)

pub total_free-le : (rs : List MemoryRegion) → total_free rs ≤ total_size rs
unfolding total_free total_size
total_free-le [] = omega arith
total_free-le (r ∷ rs) = omega (arith, total_free-le rs, region_free-le r)

module _ (rs : List MemoryRegion) (v : AreValid rs) (few : length rs ≤ 2 ^ 23) where
  -- On at most 2^23 valid regions `free_frames` and `total_frames` return the number of clear bits and
  -- of all bits of the regions: neither sum wraps, and the first is at most the second.
  pub frame_counts :
      (free_frames (some rs) ≡ ok (total_free rs))
      × (total_frames (some rs) ≡ total_size rs)
      × (total_free rs ≤ total_size rs)
  unfolding free_frames total_frames
  frame_counts = (
    sum_free_lem rs 0 v (omega arith) ∙ ap ok (omega (arith, total_free-le rs, total_size-lt rs v)),
    sum_total_lem rs 0 (omega arith) ∙ omega (arith, total_size-lt rs v),
    total_free-le rs,
  )
