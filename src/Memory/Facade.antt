-- ===== src/Memory/Facade.antt =====
-- src/memory/mod.rs: the allocator and the direct map together, as the rest of the kernel uses them.
pub mod Laws
pub mod Counts
pub mod Tests
use os_rust.Shared.{ℕ, List, Option, some, Outcome, ok, ◌>>=◌, unwrap}
use os_rust.Memory.Addr.{AddrApi}
use os_rust.Memory.Frame.{Frame, FrameRange, AllocResult}
use os_rust.Memory.Allocator
use os_rust.Memory.Allocator.{Slot}
use os_rust.Memory.Boot
use os_rust.Memory.Boot.{Entry, Placement}

-- `FRAME_ALLOCATOR` and `HHDM_OFFSET`
pub record Physical : Type 0 where
  pub slot : Slot
  pub hhdm_offset : ℕ

unfoldable pub total_frames : Physical → ℕ
total_frames p = Allocator.total_frames p.slot

unfoldable pub free_frames : Physical → Outcome ℕ
free_frames p = Allocator.free_frames p.slot

module _ (x : AddrApi) where
  -- With the regions that it wrote to memory and where.
  unfoldable pub init :
      (ℕ → ℕ → List ℕ)
      → ℕ
      → Option (List Entry)
      → Option ℕ
      → Physical
      → Outcome (List Placement × Physical)
  init raw region_size mm_resp hhdm_resp p = do
    offset ← unwrap hhdm_resp
    (placements, slot) ← Boot.init x raw region_size mm_resp (some offset) p.slot
    ok (placements, record { slot = slot; hhdm_offset = offset })

  unfoldable pub alloc_frames : ℕ → Physical → Outcome (AllocResult FrameRange × Physical)
  alloc_frames count p = do
    (result, slot) ← Allocator.alloc x p.slot count
    ok (result, record p { slot = slot })

  unfoldable pub dealloc_frames : FrameRange → Physical → Outcome Physical
  dealloc_frames frames p = do slot ← Allocator.dealloc p.slot frames; ok (record p { slot = slot })

  unfoldable pub alloc_frame : Physical → Outcome (AllocResult Frame × Physical)
  alloc_frame p = do
    (result, slot) ← Allocator.alloc_one x p.slot
    ok (result, record p { slot = slot })

  unfoldable pub dealloc_frame : Frame → Physical → Outcome Physical
  dealloc_frame frame p = do
    slot ← Allocator.dealloc_one x p.slot frame
    ok (record p { slot = slot })
