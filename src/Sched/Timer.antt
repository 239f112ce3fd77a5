-- ===== src/Sched/Timer.antt =====
-- src/sched/mod.rs, `timer_handler`: a switch, load balancing with a random CPU, and the writes to the
-- local APIC. A `TlsData` is found by its address; the queue locks of both CPUs are held while
-- the queues change, so their order shows in no result.
pub mod Members
pub mod Owners
pub mod Sharing
pub mod Laws
pub mod Choice
use os_rust.Shared.{ℕ, ◌%◌, ◌^◌, List, Option, none, some, Outcome, ok, ◌>>=◌, ◌==◌, if◌then◌else◌}
use os_rust.Memory.Addr.{AddrApi}
use os_rust.Arch.Lapic.{rearm}
use os_rust.Arch.Cpu.{TlsData, CpuData, get_cpu_tls}
use os_rust.Sched.Switch.{switch}
use os_rust.Sched.Balance.{Store, do_load_balance}

abbrev pub Pages : Type 0
Pages = ℕ → TlsData

unfoldable pub set_queue : Pages → ℕ → TlsData → Pages
set_queue pages addr cpu a = if a == addr then cpu else pages a

-- `random` stands for the result of `random_u64`.
unfoldable pub get_random_online_cpu : List CpuData → ℕ → Outcome (Option ℕ)
get_random_online_cpu cpus random = get_cpu_tls cpus (random % 2 ^ 32 % 12)

-- The body of `maybe_load_balance` at the address of the current CPU's page and the other one's.
unfoldable pub balance_with : Pages → Store → ℕ → ℕ → Outcome (Pages × Store)
balance_with pages store here other =
    let cpu = pages here in
    let other_cpu = pages other in
    if cpu.cpu_id == other_cpu.cpu_id then ok (pages, store) else do
      (qa, qb, store') ←
          do_load_balance cpu.ready_queue other_cpu.ready_queue store cpu.cpu_id other_cpu.cpu_id
      let pages' = set_queue pages here (record cpu { ready_queue = qa })
      ok (set_queue pages' other (record other_cpu { ready_queue = qb }), store')

unfoldable pub maybe_load_balance : List CpuData → ℕ → Pages → Store → ℕ → Outcome (Pages × Store)
maybe_load_balance cpus random pages store here = do
  found ← get_random_online_cpu cpus random
  elim found [ none ↦ ok (pages, store) | some other ↦ balance_with pages store here other ]

-- The first two calls of `timer_handler`. `idle_addr` is the address of the current CPU's
-- `idle_thread`.
unfoldable pub reschedule : ℕ → List CpuData → ℕ → Pages → Store → ℕ → Outcome (Pages × Store)
reschedule idle_addr cpus random pages store here = do
  cpu ← switch idle_addr (pages here)
  maybe_load_balance cpus random (set_queue pages here cpu) store here

-- `offset` is that of the direct map, `msr` the base register of the local APIC, and `device` the
-- APIC's registers.
unfoldable pub timer_handler :
    AddrApi
    → ℕ
    → ℕ
    → ℕ
    → List CpuData
    → ℕ
    → Pages
    → Store
    → ℕ
    → (ℕ → ℕ)
    → Outcome (Pages × Store × (ℕ → ℕ))
timer_handler x offset msr idle_addr cpus random pages store here device = do
  (pages', store') ← reschedule idle_addr cpus random pages store here
  device' ← rearm x offset msr device
  ok (pages', store', device')
