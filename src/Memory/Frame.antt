-- ===== src/Memory/Frame.antt =====
-- src/memory/frame.rs: frames, ranges of frames, and the allocator's errors.
use os_rust.Shared.{ℕ, Outcome, ok, ◌>>◌, assert, mul64}
use os_rust.Memory.Addr.{AddrApi}

abbrev pub frame_size : ℕ
frame_size = 4096

pub record Frame : Type 0 where
  pub addr : ℕ

pub record FrameRange : Type 0 where
  pub start : ℕ
  pub count : ℕ

pub data FrameAllocError : Type 0 where
  out_of_memory not_initialized : FrameAllocError

-- `Result<A, FrameAllocError>`
pub data AllocResult (A : Type 0) : Type 0 where
  success : A → AllocResult A
  failure : FrameAllocError → AllocResult A

module _ (x : AddrApi) where
  unfoldable pub frame_new : ℕ → Outcome Frame
  frame_new a = do assert (x.is_aligned a frame_size); ok (record { addr = a })

  unfoldable pub range_new : ℕ → ℕ → Outcome FrameRange
  range_new start count = do
    assert (x.is_aligned start frame_size)
    ok (record { start = start; count = count })

  pub end_addr : FrameRange → Outcome ℕ
  end_addr f = x.phys_add f.start (mul64 f.count frame_size)
