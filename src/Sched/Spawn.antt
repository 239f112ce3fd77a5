-- ===== src/Sched/Spawn.antt =====
-- src/sched/thread.rs: the creation of threads. `x` and `offset` are the address types and the direct
-- map; `slot_addr` gives the address of a slot of the thread table.
pub mod Stacks
pub mod Laws
pub mod Tests
use os_rust.Shared.{
  ℕ, ◌+◌, ◌*◌, ◌<◌, List, Bool, Option, none, some, Outcome, ok, panic, ◌>>=◌, ◌>>◌, assert, unwrap,
  add64, sub64, mul64, set, index, if◌then◌else◌, ltb, ◌==◌,
}
use os_rust.Memory.Addr.{AddrApi}
use os_rust.Memory.Frame.{FrameRange, Frame, AllocResult, success, failure}
use os_rust.Memory.Allocator
use os_rust.Memory.Allocator.{Slot}
use os_rust.Memory.Translate.{phys_to_virt}
use os_rust.Arch.Words.{Words, write, write_struct}
use os_rust.Arch.Cpu.{TlsData}
use os_rust.Sched.Registers.{CpuRegsOnStack, layout, new_inside_kernel}
use os_rust.Sched.Thread.{Thread, Stack, ThreadState}
use os_rust.Sched.Table.{ThreadTable, add_thread, get_thread_mut}
use os_rust.Sched.Switch.{push_or_panic}

-- `get_top_address`
unfoldable pub get_top_address : Stack → ℕ
get_top_address s = add64 s.base s.size

-- `size_of::<CpuRegsOnStack>()`
abbrev pub regs_size : ℕ
regs_size = 160

-- `Thread::ready`, at the address `addr` of the thread
unfoldable pub ready : ℕ → Thread → TlsData → Outcome (Thread × TlsData)
ready addr t cpu = do
  q ← push_or_panic cpu.ready_queue addr
  ok (
    record t { sched_state = record { cpu = some cpu.cpu_id; state = ThreadState.ready } },
    record cpu { ready_queue = q },
  )

-- What thread creation works on: the frame allocator, memory, the thread table and the counter of ids,
-- and the page of the CPU that creates the thread.
pub record Kernel : Type 0 where
  pub frames : Slot
  pub memory : Words
  pub table : ThreadTable
  pub next_id : ℕ
  pub cpu : TlsData

module _ (x : AddrApi) (offset : ℕ) where
  unfoldable pub stack_new : Slot → ℕ → Outcome (Stack × Slot)
  stack_new slot num_pages = do
    (result, slot') ← Allocator.alloc x slot num_pages
    elim result [
      | failure e ↦ panic
      | success f ↦ do
        stack_addr ← phys_to_virt x offset f.start
        ok (record { base = stack_addr; size = mul64 num_pages 4096 }, slot')
    ]

  -- The registers of a new thread, written to the top of its stack; their address.
  unfoldable pub place_regs : Words → Stack → ℕ → ℕ → Outcome (Words × ℕ)
  place_regs m stack entry arg = do
    regs ← new_inside_kernel entry (get_top_address stack)
    let regs_addr = sub64 (get_top_address stack) regs_size
    ok (write_struct m regs_addr (layout (record regs { rdi = arg })), regs_addr)

  -- Its `rdi` stays 0.
  unfoldable pub new_idle : ℕ → Slot → Words → Outcome (Thread × Slot × Words)
  new_idle entry slot m = do
    (stack, slot') ← stack_new slot 1
    (m', regs_addr) ← place_regs m stack entry 0
    ok (
      record {
        regs = regs_addr;
        id = 0;
        kernel_stack = stack;
        sched_state = record { cpu = none; state = ThreadState.ready };
      },
      slot',
      m',
    )

  module _ (slot_addr : ℕ → ℕ) where
    -- The thread with the id becomes ready.
    unfoldable pub make_ready : Kernel → ℕ → Outcome Kernel
    make_ready k id = do
      slot ← unwrap (get_thread_mut k.table id)
      entry ← index k.table slot
      t ← unwrap entry
      (t', cpu) ← ready (slot_addr slot) t k.cpu
      ok (record k { table = set k.table slot (some t'); cpu = cpu })

    unfoldable pub spawn_raw : ℕ → ℕ → Kernel → Outcome (Option ℕ × Kernel)
    spawn_raw entry arg k = do
      (stack, frames) ← stack_new k.frames 4
      (memory, regs_addr) ← place_regs k.memory stack entry arg
      let thread : Thread = record {
        regs = regs_addr;
        id = k.next_id;
        kernel_stack = stack;
        sched_state = record { cpu = none; state = ThreadState.born };
      }
      let (added, table) = add_thread k.table thread
      let k' = record k {
        frames = frames;
        memory = memory;
        table = table;
        next_id = add64 k.next_id 1;
      }
      if added then (do k'' ← make_ready k' k.next_id; ok (some k.next_id, k'')) else ok (none, k')
