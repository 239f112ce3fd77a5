-- ===== src/Sync/Spinlock.antt =====
-- src/sync/spinlock.rs: one `SpinLock` that CPUs lock and unlock, interleaved in any order. A step is
-- one access to the lock's flag or to the CPU's interrupt flag. A CPU locks, drops the guard and locks
-- again, any number of times; the guarded data and interrupt handlers are left out.
pub mod Exclusion
pub mod Progress
use os_rust.Shared.{ℕ, List, [], ◌∷◌, Bool, true, false, ◌==◌, if◌then◌else◌}

-- Where a CPU stands; the flag is `interrupts_enabled`, later `interrupts_state` of the guard.
pub data Place : Type 0 where
  outside : Place
  sampled : Bool → Place
  spinning : Bool → Place
  holding : Bool → Place
  unlocked : Bool → Place

pub record Cpu : Type 0 where
  pub place : Place
  pub interrupts : Bool

-- `compare_exchange(false, true, ..)`: whether it succeeds, and the flag after it
abbrev pub compare_exchange : Bool → Bool × Bool
compare_exchange true = (false, true)
compare_exchange false = (true, true)

-- The next step of a CPU, at the lock's flag: `are_enabled`, `disable`, a round of the loop, then
-- `unlock` and `enable` when the guard is dropped.
unfoldable pub advance : Bool → Place → Bool → Bool × Cpu
advance lock outside interrupts =
    (lock, record { place = sampled interrupts; interrupts = interrupts })
advance lock (sampled state) interrupts =
    (lock, record { place = spinning state; interrupts = false })
advance lock (spinning state) interrupts =
    let (taken, lock') = compare_exchange lock in
    (
      lock',
      record { place = if taken then holding state else spinning state; interrupts = interrupts },
    )
advance lock (holding state) interrupts =
    (false, record { place = unlocked state; interrupts = interrupts })
advance lock (unlocked state) interrupts =
    (lock, record { place = outside; interrupts = if state then true else interrupts })

-- The lock's flag and the CPUs.
pub record System : Type 0 where
  pub lock : Bool
  pub cpus : ℕ → Cpu

-- `SpinLock::new`, with each CPU's interrupt flag
unfoldable pub start : (ℕ → Bool) → System
start flags = record { lock = false; cpus = λ i. record { place = outside; interrupts = flags i } }

unfoldable pub step : System → ℕ → System
step s i =
    let (lock', cpu) = advance s.lock (s.cpus i).place (s.cpus i).interrupts in
    record { lock = lock'; cpus = λ j. if j == i then cpu else s.cpus j }

-- The steps of a schedule, which names the CPU of each.
unfoldable pub run : System → List ℕ → System
run s [] = s
run s (i ∷ schedule) = run (step s i) schedule
