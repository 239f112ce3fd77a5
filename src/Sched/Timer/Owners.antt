-- ===== src/Sched/Timer/Owners.antt =====
-- Each thread is with one CPU: the invariant, and `switch`.

use mathlib.Core.List.{Nodup, Nodup-cons, perm_middle, append-nil}
use mathlib.Core.List.Perm
use os_rust.Shared.{
  ℕ, ◌≡◌, refl, List, [], ◌∷◌, ◌++◌, Bool, true, ok, ◌==◌, Bool-cases, inl, inr, arith,
}
use os_rust.Arch.Cpu.{TlsData}
use os_rust.Sched.Queue.Refines.{Represents}
use os_rust.Sched.Switch.{switch}
use os_rust.Sched.Switch.Turns.{preempted, switch-next, switch-empty}
use os_rust.Sched.Balance.Shares.{has}
use os_rust.Sched.Timer.{Pages}
use os_rust.Sched.Timer.Members.{has-append}

-- The threads of a CPU are the one that runs and those in its ready queue: all different, all live, and
-- owned by this CPU.
pub record IsSound (live : ℕ → Bool) (owner : ℕ → ℕ) (cpu : TlsData) (addr : ℕ) : Type 0 where
  pub items : List ℕ
  pub queue : Represents cpu.ready_queue items
  pub distinct : Nodup (cpu.thread_addr ∷ items)
  pub owned : (t : ℕ) → has (cpu.thread_addr ∷ items) t ≡ true → owner t ≡ addr
  pub alive : (t : ℕ) → has (cpu.thread_addr ∷ items) t ≡ true → live t ≡ true

-- So it is at every address that is in use for the page of a CPU. No thread is with two CPUs.
abbrev pub AreSound : (ℕ → Bool) → (ℕ → Bool) → (ℕ → ℕ) → Pages → Type 0
AreSound used live owner pages =
    (addr : ℕ) → used addr ≡ true → IsSound live owner (pages addr) addr

-- What runs and waits after a switch ran and waited before it.
requeued_perm :
    (idle_addr running x : ℕ) (xs : List ℕ)
    → Nodup (running ∷ x ∷ xs)
    → Nodup (x ∷ xs ++ preempted idle_addr running)
requeued_perm idle_addr running x xs n = elim (Bool-cases (running == idle_addr)) [
  | inl e ↦ rw e (rw append-nil (Nodup-cons.0 n).1)
  | inr e ↦ rw e (Perm.nodup (Perm.symm (perm_middle (x ∷ xs) [])) (rw append-nil n))
]

requeued_has :
    (idle_addr running x : ℕ) (xs : List ℕ) (t : ℕ)
    → has (x ∷ xs ++ preempted idle_addr running) t ≡ true
    → has (running ∷ x ∷ xs) t ≡ true
requeued_has idle_addr running x xs t h =
    ground (arith, has-append xs (preempted idle_addr running) t)

-- A switch keeps the threads of its CPU.
pub switch-IsSound :
    {live : ℕ → Bool} {owner : ℕ → ℕ} (idle_addr : ℕ) (cpu : TlsData) (addr : ℕ) (items : List ℕ)
    → Represents cpu.ready_queue items
    → Nodup (cpu.thread_addr ∷ items)
    → ((t : ℕ) → has (cpu.thread_addr ∷ items) t ≡ true → owner t ≡ addr)
    → ((t : ℕ) → has (cpu.thread_addr ∷ items) t ≡ true → live t ≡ true)
    → (cpu' : TlsData) × (switch idle_addr cpu ≡ ok cpu') × IsSound live owner cpu' addr
switch-IsSound idle_addr cpu addr [] q n o l = (
  cpu,
  switch-empty idle_addr cpu cpu.thread_addr (record { current = refl; queued = q }),
  record { items = []; queue = q; distinct = n; owned = o; alive = l },
)
switch-IsSound idle_addr cpu addr (x ∷ xs) q n o l =
    let running = cpu.thread_addr in
    let (cpu', e, s) =
      switch-next idle_addr cpu running x xs (record { current = refl; queued = q }) in
    (
      cpu',
      e,
      record {
        items = xs ++ preempted idle_addr running;
        queue = s.queued;
        distinct = rw s.current (requeued_perm idle_addr running x xs n);
        owned = λ t h. o t (requeued_has idle_addr running x xs t (rw s.current at h));
        alive = λ t h. l t (requeued_has idle_addr running x xs t (rw s.current at h));
      },
    )
