-- ===== src/Sched/Balance.antt =====
-- src/sched/mod.rs, `do_load_balance`: half of the imbalance between two ready queues moves to the
-- shorter one. The scheduling state of a thread is found by the thread's address.
pub mod Shares
pub mod Even
use os_rust.Shared.{
  ℕ, zero, suc, ◌-◌, ◌/◌, ◌^◌, Option, none, some, Bool, ◌&&◌, ◌||◌, ◌==◌, if◌then◌else◌, Outcome,
  ok, ◌>>=◌, ltb, leb, sub64,
}
use os_rust.Sched.Thread.{SchedState}
use os_rust.Sched.Queue
use os_rust.Sched.Queue.{Queue}
use os_rust.Sched.Switch.{push_or_panic}

abbrev pub Store : Type 0
Store = ℕ → SchedState

-- `thread.sched_state.lock().cpu = Some(cpu_id)`
unfoldable pub set_cpu : Store → ℕ → ℕ → Store
set_cpu store thread cpu_id t =
    if t == thread then record (store t) { cpu = some cpu_id } else store t

-- `for _ in 0..to_move { if let Some(thread_addr) = from.pop() { … to.push(thread_addr) … } }`, by
-- the rounds left
pub move_threads : ℕ → Queue ℕ → Queue ℕ → Store → ℕ → Outcome (Queue ℕ × Queue ℕ × Store)
move_threads zero from to store cpu_id = ok (from, to, store)
move_threads (suc n) from to store cpu_id = do
  (item, from') ← Queue.pop from
  elim item [
    | none ↦ move_threads n from' to store cpu_id
    | some thread ↦ do
      to' ← push_or_panic to thread
      move_threads n from' to' (set_cpu store thread cpu_id) cpu_id
  ]

-- An `isize` is its bit pattern, below 2^64. `d.abs()` keeps the least number, which wraps.
abbrev pub is_positive : ℕ → Bool
is_positive d = ltb 0 d && ltb d (2 ^ 63)

abbrev pub abs : ℕ → ℕ
abs d = if ltb d (2 ^ 63) then d else 2 ^ 64 - d

-- `a <= 1`: a pattern from 2^63 on is negative.
abbrev pub at_most_one : ℕ → Bool
at_most_one a = leb a 1 || leb (2 ^ 63) a

pub do_load_balance : Queue ℕ → Queue ℕ → Store → ℕ → ℕ → Outcome (Queue ℕ × Queue ℕ × Store)
do_load_balance qa qb store cpu_id other_cpu_id =
    let delta = sub64 qa.len qb.len in
    let to_move = abs delta / 2 in
    if at_most_one (abs delta)
    then ok (qa, qb, store)
    else if is_positive delta
    then move_threads to_move qa qb store other_cpu_id
    else do (qb', qa', store') ← move_threads to_move qb qa store cpu_id; ok (qa', qb', store')
