-- ===== src/Sched/Switch.antt =====
-- src/sched/mod.rs, `switch`: the next ready thread of a CPU takes the place of the running one.
pub mod Turns
use os_rust.Shared.{
  ℕ, Option, none, some, Bool, not, ◌==◌, if◌then◌else◌, Outcome, ok, panic, ◌>>=◌,
}
use os_rust.Sched.Queue
use os_rust.Sched.Queue.{Queue, PushResult, pushed, rejected}
use os_rust.Arch.Cpu.{TlsData}

-- `push(..).expect("Ready queue is full")`
unfoldable pub push_or_panic {ℓ} : {A : Type ℓ} → Queue A → A → Outcome (Queue A)
push_or_panic q item = do
  (result, q') ← Queue.push q item
  elim result [ pushed ↦ ok q' | rejected _ ↦ panic ]

-- `idle_addr` is the address of the CPU's own `idle_thread`.
unfoldable pub switch : ℕ → TlsData → Outcome TlsData
switch idle_addr cpu = do
  (next, q) ← Queue.pop cpu.ready_queue
  elim next [
    | none ↦ ok (record cpu { ready_queue = q })
    | some next_thread_addr ↦ do
      q' ← if not (cpu.thread_addr == idle_addr) then push_or_panic q cpu.thread_addr else ok q
      ok (record cpu { ready_queue = q'; thread_addr = next_thread_addr })
  ]
