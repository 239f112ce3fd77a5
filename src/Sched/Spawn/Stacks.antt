-- ===== src/Sched/Spawn/Stacks.antt =====
-- The stack of a new thread, and the registers at its top.
use mathlib.Core.Path.{fun_ext}
use os_rust.Shared.{
  none, ℕ, ◌+◌, ◌-◌, ◌*◌, ◌%◌, ◌^◌, ◌≤◌, ◌<◌, ◌≡◌, ◌⊎◌, inl, inr, refl, ◌∙◌, List, some, ok, panic,
  arith, add64, sub64, mul64, ==_iff,
}
use os_rust.Memory.Addr.{AddrApi}
use os_rust.Memory.Frame.{FrameRange}
use os_rust.Memory.Region.{MemoryRegion}
use os_rust.Memory.Allocator.States.{AreValid}
use os_rust.Memory.Allocator.Alloc.{Takes, Effect, AreFull, alloc-first_fit}
use os_rust.Memory.Pages.{IsMapped, Takes-in}
use os_rust.Memory.Translate.{phys_to_virt_high}
use os_rust.Arch.Words.{Words, write_struct, write_struct_outside}
use os_rust.Sched.Registers.{
  CpuRegsOnStack, layout, new_inside_kernel, Register, r15, r14, r13, r12, rbp, rbx, r11, r10, r9,
  r8, rax, rcx, rdx, rsi, rdi, Context, restore,
}
use os_rust.Sched.Registers.Frames.{context_of, general_of, restore-Holds, write_struct-Holds}
use os_rust.Sched.Thread.{Stack, Thread, ThreadState}
use os_rust.Sched.Spawn.{get_top_address, stack_new, place_regs, new_idle}

-- A thread about to call `entry` with `arg`: interrupts on, the stack empty.
abbrev pub start_general : ℕ → ℕ → Register → ℕ
start_general arg top rdi = arg
start_general arg top rbp = top
start_general arg top _ = 0

abbrev pub start_context : ℕ → ℕ → ℕ → Context
start_context entry arg top = record {
  general = start_general arg top;
  rip = entry;
  cs = 8;
  rflags = 0x202;
  rsp = top;
  ss = 16;
}

-- A new stack: frames that were free, seen through the direct map.
pub record NewStack (rs : List MemoryRegion) (offset num_pages : ℕ) (s : Stack)
    (rs' : List MemoryRegion) : Type 0 where
  pub frames : FrameRange
  pub taken : Takes num_pages frames rs rs'
  pub effect : Effect rs num_pages frames rs'
  pub base_at : s.base ≡ frames.start + offset
  pub size_at : s.size ≡ num_pages * 4096
  pub top_below : s.base + s.size < 2 ^ 64
  pub aligned : s.base % 4096 ≡ 0

-- The idle thread on a stack.
abbrev pub idle_thread : Stack → Thread
idle_thread s = record {
  regs = s.base + s.size - 160;
  id = 0;
  kernel_stack = s;
  sched_state = record { cpu = none; state = ThreadState.ready };
}

abbrev start_regs : ℕ → ℕ → ℕ → CpuRegsOnStack
start_regs entry arg top = record {
  r15 = 0;
  r14 = 0;
  r13 = 0;
  r12 = 0;
  rbp = top;
  rbx = 0;
  r11 = 0;
  r10 = 0;
  r9 = 0;
  r8 = 0;
  rax = 0;
  rcx = 0;
  rdx = 0;
  rsi = 0;
  rdi = arg;
  rip = entry;
  cs = 8;
  rflags = 0x202;
  rsp = top;
  ss = 16;
}

start_register :
    (entry arg top : ℕ) (r : Register)
    → general_of (start_regs entry arg top) r ≡ start_general arg top r
start_register entry arg top r15 = refl
start_register entry arg top r14 = refl
start_register entry arg top r13 = refl
start_register entry arg top r12 = refl
start_register entry arg top rbp = refl
start_register entry arg top rbx = refl
start_register entry arg top r11 = refl
start_register entry arg top r10 = refl
start_register entry arg top r9 = refl
start_register entry arg top r8 = refl
start_register entry arg top rax = refl
start_register entry arg top rcx = refl
start_register entry arg top rdx = refl
start_register entry arg top rsi = refl
start_register entry arg top rdi = refl

context_start :
    (entry arg top : ℕ) → context_of (start_regs entry arg top) ≡ start_context entry arg top
context_start entry arg top =
    λ i. record (start_context entry arg top) { general = fun_ext (start_register entry arg top) i }

module _ (x : AddrApi) (offset : ℕ) where
  pub stack_new_lem :
      (rs : List MemoryRegion) (num_pages : ℕ)
      → AreValid rs
      → IsMapped offset rs
      → 0 < num_pages
      → num_pages < 2 ^ 32
      → ((s : Stack) × (rs' : List MemoryRegion) × (stack_new x offset (some rs) num_pages
            ≡ ok (s, some rs'))
          × NewStack rs offset num_pages s rs')
        ⊎ ((stack_new x offset (some rs) num_pages ≡ panic) × AreFull rs num_pages)
  unfolding stack_new
  stack_new_lem rs n v mapped pos few = elim (alloc-first_fit x rs n v pos) [
    | inl (f, rs', run, t, e) ↦
        let bound = Takes-in offset mapped.covers t in
        let there = phys_to_virt_high x offset f.start mapped.high (omega arith) in
        let size : mul64 n 4096 ≡ n * 4096 = omega arith in
        inl (
          record { base = f.start + offset; size = n * 4096 },
          rs',
          rw (run, there, size) refl,
          record {
            frames = f;
            taken = t;
            effect = e;
            base_at = refl;
            size_at = refl;
            top_below = omega arith;
            aligned = omega (arith, e.aligned, mapped.aligned);
          },
        )
    | inr (run, full) ↦ inr (rw run refl, full)
  ]

  -- The registers of a new thread lie at the top of its stack, and a restore from there starts it.
  pub place_regs_lem :
      (m : Words) (stack : Stack) (entry arg : ℕ)
      → (stack.base + stack.size) % 16 ≡ 0
      → 160 ≤ stack.base + stack.size
      → stack.base + stack.size < 2 ^ 64
      → (m' : Words) × (place_regs x offset m stack entry arg
          ≡ ok (m', stack.base + stack.size - 160))
        × ((scratch : Register → ℕ)
            → restore scratch m' (stack.base + stack.size - 160)
              ≡ start_context entry arg (stack.base + stack.size))
        × ((a : ℕ)
            → (a < stack.base + stack.size - 160) ⊎ (stack.base + stack.size ≤ a)
            → m' a ≡ m a)
  unfolding place_regs get_top_address new_inside_kernel
  place_regs_lem m stack entry arg even room small =
      let top = stack.base + stack.size in
      let at_top : add64 stack.base stack.size ≡ top = omega arith in
      let at_regs : sub64 top 160 ≡ top - 160 = omega arith in
      let starts = (==_iff (top % 16) 0).1 even in
      (
        write_struct m (top - 160) (layout (start_regs entry arg top)),
        rw (at_top, starts, at_regs) refl,
        λ scratch.
            restore-Holds scratch (write_struct m (top - 160) (layout (start_regs entry arg top)))
              (top - 160) (context_of (start_regs entry arg top)) (omega arith)
              (write_struct-Holds m (top - 160) (start_regs entry arg top))
            ∙ context_start entry arg top,
        λ a out.
            write_struct_outside m (top - 160) (layout (start_regs entry arg top)) a (ground arith),
      )

  -- `new_idle` makes a stack of one page, and a restore from its registers starts at the entry.
  pub new_idle_lem :
      (entry : ℕ) (rs : List MemoryRegion) (m : Words)
      → AreValid rs
      → IsMapped offset rs
      → ((s : Stack) × (rs' : List MemoryRegion) × (m' : Words) × (new_idle x offset entry
              (some rs)
              m
            ≡ ok (idle_thread s, some rs', m'))
          × NewStack rs offset 1 s rs'
          × ((scratch : Register → ℕ)
              → restore scratch m' (idle_thread s).regs ≡ start_context entry 0 (s.base + s.size)))
        ⊎ ((new_idle x offset entry (some rs) m ≡ panic) × AreFull rs 1)
  unfolding new_idle
  new_idle_lem entry rs m v mapped =
      elim (stack_new_lem rs 1 v mapped (omega arith) (omega arith)) [
        | inr (run, full) ↦ inr (rw run refl, full)
        | inl (s, rs', run, stack) ↦
            let (m', placed, starts, same) =
              place_regs_lem m s entry 0 (omega (arith, stack.aligned, stack.size_at))
                (omega (arith, stack.size_at)) stack.top_below in
            inl (s, rs', m', rw (run, placed) refl, stack, starts)
      ]
