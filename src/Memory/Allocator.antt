-- ===== src/Memory/Allocator.antt =====
-- src/memory/bitmap.rs, `BitmapFrameAllocator`, with the default methods of the trait
-- `FrameAllocator` (src/memory/frame.rs). Each operation runs with the allocator's lock held: it
-- takes what the lock guards, the slot, and returns the new one.
pub mod States
pub mod Alloc
pub mod Dealloc
pub mod Count
pub mod Clients
use os_rust.Shared.{
  ℕ, List, [], ◌∷◌, Bool, true, false, Option, none, some, Outcome, ok, ◌>>=◌, ◌>>◌, add64,
  if◌then◌else◌,
}
use os_rust.Memory.Addr.{AddrApi}
use os_rust.Memory.Frame.{
  Frame, FrameRange, FrameAllocError, out_of_memory, not_initialized, AllocResult, success, failure,
  frame_new, range_new,
}
use os_rust.Memory.Region
use os_rust.Memory.Region.{MemoryRegion}

-- `Option<Inner>`: the regions once `init` has run
abbrev pub Slot : Type 0
Slot = Option (List MemoryRegion)

-- `BitmapFrameAllocator::new`
pub new : Slot
new = none

pub dealloc_regions : List MemoryRegion → FrameRange → Outcome (List MemoryRegion)
dealloc_regions [] frames = ok []
dealloc_regions (r ∷ rs) frames =
    let here = (do r' ← Region.dealloc r frames; ok (r' ∷ rs)) in
    let later = (do rs' ← dealloc_regions rs frames; ok (r ∷ rs')) in
    if Region.contains r frames.start then here else later

pub dealloc : Slot → FrameRange → Outcome Slot
dealloc none frames = ok none
dealloc (some rs) frames = do rs' ← dealloc_regions rs frames; ok (some rs')

-- `.map(|r| r.total_frames()).sum()`
pub sum_total : ℕ → List MemoryRegion → ℕ
sum_total acc [] = acc
sum_total acc (r ∷ rs) = sum_total (add64 acc (Region.total_frames r)) rs

pub total_frames : Slot → ℕ
total_frames none = 0
total_frames (some rs) = sum_total 0 rs

-- `.map(|r| r.free_frames()).sum()`
pub sum_free : ℕ → List MemoryRegion → Outcome ℕ
sum_free acc [] = ok acc
sum_free acc (r ∷ rs) = do n ← Region.free_frames r; sum_free (add64 acc n) rs

pub free_frames : Slot → Outcome ℕ
free_frames none = ok 0
free_frames (some rs) = sum_free 0 rs

module _ (x : AddrApi) where
  -- The loop of `alloc` over the regions.
  pub alloc_regions : List MemoryRegion → ℕ → Outcome (Option FrameRange × List MemoryRegion)
  alloc_regions [] count = ok (none, [])
  alloc_regions (r ∷ rs) count = do
    (found, r') ← Region.alloc x r count
    elim found [
      | some frames ↦ ok (some frames, r' ∷ rs)
      | none ↦ do (found', rs') ← alloc_regions rs count; ok (found', r' ∷ rs')
    ]

  pub alloc : Slot → ℕ → Outcome (AllocResult FrameRange × Slot)
  alloc none count = ok (failure not_initialized, none)
  alloc (some rs) count = do
    (found, rs') ← alloc_regions rs count
    elim found [
      | some frames ↦ ok (success frames, some rs')
      | none ↦ ok (failure out_of_memory, some rs')
    ]

  -- `self.alloc(1).map(|r| Frame::new(r.start_addr()))`
  unfoldable pub alloc_one : Slot → Outcome (AllocResult Frame × Slot)
  alloc_one slot = do
    (result, slot') ← alloc slot 1
    elim result [
      | success frames ↦ do frame ← frame_new x frames.start; ok (success frame, slot')
      | failure e ↦ ok (failure e, slot')
    ]

  -- `self.dealloc(FrameRange::new(frame.addr(), 1))`
  pub dealloc_one : Slot → Frame → Outcome Slot
  dealloc_one slot frame = do frames ← range_new x frame.addr 1; dealloc slot frames
