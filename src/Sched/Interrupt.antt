-- ===== src/Sched/Interrupt.antt =====
-- src/sched/mod.rs, `timer_interrupt`: the registers of the interrupted thread are pushed on its stack,
-- `timer_handler` chooses the thread to run, and its registers are popped from its stack.
pub mod Threads
pub mod Laws
mod Tests
use os_rust.Shared.{ℕ, List, Outcome, ok, ◌>>=◌, ◌==◌, if◌then◌else◌}
use os_rust.Memory.Addr.{AddrApi}
use os_rust.Arch.Words.{Words}
use os_rust.Arch.Cpu.{TlsData, CpuData}
use os_rust.Sched.Balance.{Store}
use os_rust.Sched.Timer.{Pages, timer_handler}
use os_rust.Sched.Registers.{Register, Context, save, restore}

-- `regs` is the field of that name of the thread at an address.
pub record World : Type 0 where
  pub stacks : Words
  pub regs : ℕ → ℕ
  pub pages : Pages
  pub store : Store

-- What a thread interrupted with these registers resumes as. `clobber` is what the calls of the
-- handler leave on the stack, `scratch` the registers after them; `device` are the registers of the
-- local APIC.
unfoldable pub timer_interrupt :
    AddrApi
    → ℕ
    → ℕ
    → (Words → Words)
    → (Register → ℕ)
    → ℕ
    → List CpuData
    → ℕ
    → ℕ
    → World
    → (ℕ → ℕ)
    → Context
    → Outcome (World × (ℕ → ℕ) × Context)
timer_interrupt x offset msr clobber scratch idle_addr cpus random here w device c = do
  let saved = save w.stacks c
  let thread = (w.pages here).thread_addr
  let regs = λ (t : ℕ). if t == thread then saved.1 else w.regs t
  (pages, store, device') ←
      timer_handler x offset msr idle_addr cpus random w.pages w.store here device
  let stacks = clobber saved.0
  ok (
    record { stacks = stacks; regs = regs; pages = pages; store = store },
    device',
    restore scratch stacks (regs (pages here).thread_addr),
  )

-- `force_switch_to_idle`, which runs before any thread: `idle_addr` is the address of the CPU's own
-- `idle_thread`.
unfoldable pub force_switch_to_idle : (Register → ℕ) → ℕ → ℕ → World → World × Context
force_switch_to_idle scratch idle_addr here w = (
  record w {
    pages = λ a. if a == here then record (w.pages here) { thread_addr = idle_addr } else w.pages a;
  },
  restore scratch w.stacks (w.regs idle_addr),
)
