-- ===== src/Arch/Cpu.antt =====
-- src/arch/x86_64/cpu.rs: the TLS page of each CPU, and the table by which CPUs find one another. A
-- `SpinLock<Queue<u64>>` is the queue that it guards; a thread is known by its address.
use os_rust.Shared.{
  ℕ, List, Option, none, some, Bool, false, Outcome, ok, ◌>>=◌, index, length, leb, if◌then◌else◌,
  replicate,
}
use os_rust.Sched.Queue.{Queue}
use os_rust.Sched.Thread.{Thread}

pub record TlsData : Type 0 where
  pub cpu_id : ℕ
  pub idt_addr : ℕ
  pub gdt_addr : ℕ
  pub thread_addr : ℕ
  pub idle_thread : Thread
  pub ready_queue : Queue ℕ

pub record CpuData : Type 0 where
  pub online : Bool
  pub tls : ℕ

-- `CPUS` at boot
unfoldable pub offline : List CpuData
offline = replicate 256 (record { online = false; tls = 0 })

-- The address of an online CPU's TLS page.
unfoldable pub get_cpu_tls : List CpuData → ℕ → Outcome (Option ℕ)
get_cpu_tls cpus cpu_id =
    if leb (length cpus) cpu_id
    then ok none
    else do entry ← index cpus cpu_id; ok (if entry.online then some entry.tls else none)
