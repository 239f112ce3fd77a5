-- ===== src/Memory/Region.antt =====
-- src/memory/bitmap.rs, `MemoryRegion`: a range of physical memory with its bitmap.
pub mod Scan
pub mod Reference
pub mod Alloc
pub mod Free
use os_rust.Shared.{
  ℕ, zero, suc, ◌+◌, ◌-◌, ◌/◌, List, Bool, true, false, ◌&&◌, Option, none, some, Outcome, ok,
  ◌>>=◌, add64, sub64, mul64, leb, ltb, ◌==◌, if◌then◌else◌,
}
use os_rust.Memory.Addr.{AddrApi}
use os_rust.Memory.Frame.{frame_size, FrameRange, range_new}
use os_rust.Memory.Bitmap
use os_rust.Memory.Bitmap.{BitmapView, is_set, set_run, clear_run, rounds}

pub record MemoryRegion : Type 0 where
  pub start : ℕ
  pub end : ℕ
  pub bitmap : BitmapView

unfoldable pub contains : MemoryRegion → ℕ → Bool
contains r addr = leb r.start addr && ltb addr r.end

unfoldable pub total_frames : MemoryRegion → ℕ
total_frames r = r.bitmap.size

-- `for i in i..i + k { if !is_set(i) { n += 1 } }`, by the rounds left. `n` is at most the number of
-- rounds and cannot wrap.
pub count_free : BitmapView → ℕ → ℕ → ℕ → Outcome ℕ
count_free b i zero n = ok n
count_free b i (suc k) n = do used ← is_set b i; count_free b (i + 1) k (if used then n else n + 1)

pub free_frames : MemoryRegion → Outcome ℕ
free_frames r = count_free r.bitmap 0 r.bitmap.size 0

-- The index of the first frame of a range, counted from the region's start.
abbrev pub start_index : MemoryRegion → FrameRange → ℕ
start_index r frames = sub64 frames.start r.start / frame_size

pub dealloc : MemoryRegion → FrameRange → Outcome MemoryRegion
dealloc r frames = do
  b ← clear_run r.bitmap (start_index r frames) (rounds (start_index r frames) frames.count)
  ok (record r { bitmap = b })

pub reserve : MemoryRegion → FrameRange → Outcome MemoryRegion
reserve r frames = do
  b ← set_run r.bitmap (start_index r frames) (rounds (start_index r frames) frames.count)
  ok (record r { bitmap = b })

module _ (x : AddrApi) where
  pub new : ℕ → ℕ → List ℕ → Outcome MemoryRegion
  new start length bytes = do
    first ← x.phys_new start
    last ← x.phys_new (add64 start length)
    ok (record { start = first; end = last; bitmap = Bitmap.new (length / frame_size) bytes })

  -- What `alloc` does once `count` free bits in a row are found.
  unfoldable pub claim : MemoryRegion → ℕ → ℕ → Outcome (Option FrameRange × MemoryRegion)
  claim r first count = do
    b ← set_run r.bitmap first (rounds first count)
    addr ← x.phys_add r.start (mul64 first frame_size)
    frames ← range_new x addr count
    ok (some frames, record r { bitmap = b })

  -- The scan from index `i` on, by the rounds left. `free` (`consecutive_free`) counts at most the
  -- rounds made and cannot wrap.
  unfoldable pub scan :
      MemoryRegion → ℕ → ℕ → ℕ → ℕ → ℕ → Outcome (Option FrameRange × MemoryRegion)
  scan r count zero i free first = ok (none, r)
  scan r count (suc k) i free first = do
    used ← is_set r.bitmap i
    elim used [
      | true ↦ scan r count k (i + 1) 0 first
      | false ↦
          let first' = if free == 0 then i else first in
          let rest = scan r count k (i + 1) (free + 1) first' in
          if free + 1 == count then claim r first' count else rest
    ]

  unfoldable pub alloc : MemoryRegion → ℕ → Outcome (Option FrameRange × MemoryRegion)
  alloc r count = scan r count r.bitmap.size 0 0 0
