-- ===== src/Sched/Registers.antt =====
-- src/sched/thread.rs, `CpuRegsOnStack`, and src/sched/mod.rs, the assembly of `timer_interrupt` and
-- `force_switch_to_idle` that saves and restores registers. `push`, `pop` and `iretq` are the
-- processor's instructions; an interrupt aligns `rsp` to 16 bytes and pushes `ss`, `rsp`, `rflags`,
-- `cs` and `rip`.
pub mod Frames
use os_rust.Shared.{
  ℕ, zero, suc, ◌+◌, ◌-◌, ◌*◌, ◌%◌, List, [], ◌∷◌, Bool, ◌==◌, if◌then◌else◌, Outcome, ok, ◌>>◌,
  assert, add64,
}
use mathlib.Core.List.{map}
use os_rust.Arch.Words.{Words, push_words}

-- The fields are the words of the struct, lowest address first.
pub record CpuRegsOnStack : Type 0 where
  pub r15 : ℕ
  pub r14 : ℕ
  pub r13 : ℕ
  pub r12 : ℕ
  pub rbp : ℕ
  pub rbx : ℕ
  pub r11 : ℕ
  pub r10 : ℕ
  pub r9 : ℕ
  pub r8 : ℕ
  pub rax : ℕ
  pub rcx : ℕ
  pub rdx : ℕ
  pub rsi : ℕ
  pub rdi : ℕ
  pub rip : ℕ
  pub cs : ℕ
  pub rflags : ℕ
  pub rsp : ℕ
  pub ss : ℕ

-- `repr(C)`
abbrev pub layout : CpuRegsOnStack → List ℕ
layout r =
    r.r15 ∷ r.r14 ∷ r.r13 ∷ r.r12 ∷ r.rbp ∷ r.rbx ∷ r.r11 ∷ r.r10 ∷ r.r9 ∷ r.r8 ∷ r.rax ∷ r.rcx
    ∷ r.rdx ∷ r.rsi ∷ r.rdi ∷ r.rip ∷ r.cs ∷ r.rflags ∷ r.rsp ∷ r.ss ∷ []

-- `KERNEL_CS.0` and `KERNEL_DS.0`: selectors 1 and 2 at ring 0
abbrev pub kernel_cs : ℕ
kernel_cs = 8

abbrev pub kernel_ds : ℕ
kernel_ds = 16

unfoldable pub new_inside_kernel : ℕ → ℕ → Outcome CpuRegsOnStack
new_inside_kernel entry stack_top = do
  assert (stack_top % 16 == 0)
  ok (record {
    r15 = 0;
    r14 = 0;
    r13 = 0;
    r12 = 0;
    rbp = stack_top;
    rbx = 0;
    r11 = 0;
    r10 = 0;
    r9 = 0;
    r8 = 0;
    rax = 0;
    rcx = 0;
    rdx = 0;
    rsi = 0;
    rdi = 0;
    rip = entry;
    cs = kernel_cs;
    rflags = 0x202;
    rsp = stack_top;
    ss = kernel_ds;
  })

-- A general register that the assembly names.
pub data Register : Type 0 where
  r15 r14 r13 r12 rbp rbx r11 r10 r9 r8 rax rcx rdx rsi rdi : Register

-- Its place among the words of `CpuRegsOnStack`.
abbrev pub place : Register → ℕ
place r15 = 0
place r14 = 1
place r13 = 2
place r12 = 3
place rbp = 4
place rbx = 5
place r11 = 6
place r10 = 7
place r9 = 8
place r8 = 9
place rax = 10
place rcx = 11
place rdx = 12
place rsi = 13
place rdi = 14

-- What a thread computes with: the registers, and the five words of an interrupt frame.
pub record Context : Type 0 where
  pub general : Register → ℕ
  pub rip : ℕ
  pub cs : ℕ
  pub rflags : ℕ
  pub rsp : ℕ
  pub ss : ℕ

-- The order of the pushes of `timer_interrupt`.
abbrev pub pushed : List Register
pushed = rdi ∷ rsi ∷ rdx ∷ rcx ∷ rax ∷ r8 ∷ r9 ∷ r10 ∷ r11 ∷ rbx ∷ rbp ∷ r12 ∷ r13 ∷ r14 ∷ r15 ∷ []

-- The order of the pops of `timer_interrupt` and `force_switch_to_idle`.
abbrev pub popped : List Register
popped = r15 ∷ r14 ∷ r13 ∷ r12 ∷ rbp ∷ rbx ∷ r11 ∷ r10 ∷ r9 ∷ r8 ∷ rax ∷ rcx ∷ rdx ∷ rsi ∷ rdi ∷ []

-- `pop` of each register in turn
unfoldable pub pop_words : List Register → (Register → ℕ) → Words → ℕ → (Register → ℕ) × ℕ
pop_words [] g m sp = (g, sp)
pop_words (r ∷ rs) g m sp =
    pop_words rs (λ q. if place q == place r then m sp else g q) m (add64 sp 8)

unfoldable pub iretq : (Register → ℕ) → Words → ℕ → Context
iretq g m sp = record {
  general = g;
  rip = m sp;
  cs = m (add64 sp 8);
  rflags = m (add64 sp 16);
  rsp = m (add64 sp 24);
  ss = m (add64 sp 32);
}

-- The processor's part of an interrupt.
unfoldable pub interrupt_frame : Words → Context → Words × ℕ
interrupt_frame m c =
    push_words (c.ss ∷ c.rsp ∷ c.rflags ∷ c.cs ∷ c.rip ∷ []) m (c.rsp - c.rsp % 16)

-- `timer_interrupt` up to `mov [rax + regs], rsp`
unfoldable pub save : Words → Context → Words × ℕ
save m c = let (m', sp) = interrupt_frame m c in push_words (map (λ r. c.general r) pushed) m' sp

-- `timer_interrupt` and `force_switch_to_idle` from `mov rsp, ..` to `iretq`, at that `rsp`. The pops
-- overwrite all registers, whatever they hold.
unfoldable pub restore : (Register → ℕ) → Words → ℕ → Context
restore scratch m sp = let (g, sp') = pop_words popped scratch m sp in iretq g m sp'
