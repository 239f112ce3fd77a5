-- ===== src/Sched/Thread.antt =====
-- src/sched/thread.rs: threads as data. A `SpinLock<SchedState>` is the state that it guards.
use os_rust.Shared.{ℕ, Option}

pub data ThreadState : Type 0 where
  born : ThreadState
  ready : ThreadState
  running : ThreadState
  blocked : ThreadState
  zombie : ThreadState

pub record SchedState : Type 0 where
  pub cpu : Option ℕ
  pub state : ThreadState

pub record Stack : Type 0 where
  pub base : ℕ
  pub size : ℕ

pub record Thread : Type 0 where
  pub regs : ℕ
  pub id : ℕ
  pub kernel_stack : Stack
  pub sched_state : SchedState
