-- ===== src/Sched/Timer/Choice.antt =====
-- Which CPUs the random number of load balancing reaches.
use os_rust.Shared.{ℕ, ◌/◌, ◌%◌, ◌^◌, ◌<◌, ◌≡◌, ap, ◌∙◌, List, arith}
use os_rust.Util.{read_tsc, random_u64}
use os_rust.Util.Counter.{read_tsc-halves}
use os_rust.Util.Random.{random_u64-Permutes}
use os_rust.Arch.Cpu.{CpuData, get_cpu_tls}
use os_rust.Sched.Timer.{get_random_online_cpu}

-- Each of the twelve CPUs can be chosen to balance with: for any table and any id below twelve there
-- is a value of the time stamp counter at which get_random_online_cpu looks that id up.
pub get_random_online_cpu_reaches :
    (cpus : List CpuData) (id : ℕ)
    → id < 12
    → (high : ℕ) × (low : ℕ) × (high < 2 ^ 32)
      × (low < 2 ^ 32)
      × (get_random_online_cpu cpus (random_u64 (read_tsc high low)) ≡ get_cpu_tls cpus id)
unfolding get_random_online_cpu
get_random_online_cpu_reaches cpus id h =
    let word : id < 2 ^ 64 = omega arith in
    let tsc : ℕ = random_u64-Permutes.inverse id in
    let tsc_word : tsc < 2 ^ 64 = random_u64-Permutes.inverse_keeps id word in
    let drawn : random_u64 (read_tsc (tsc / 2 ^ 32) (tsc % 2 ^ 32)) ≡ id =
      ap random_u64 (read_tsc-halves tsc tsc_word) ∙ random_u64-Permutes.hits id word in
    let chosen : id % 2 ^ 32 % 12 ≡ id = omega arith in
    (
      tsc / 2 ^ 32,
      tsc % 2 ^ 32,
      omega arith,
      omega arith,
      ap (λ (r : ℕ). get_cpu_tls cpus (r % 2 ^ 32 % 12)) drawn ∙ ap (get_cpu_tls cpus) chosen,
    )
