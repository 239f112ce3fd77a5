-- ===== src/Sched/Tests.antt =====
-- The theorems of the scheduler at concrete queues.
use mathlib.Core.List.{Nodup-nil}
use os_rust.Shared.{
  zero, suc, ◌<◌, ◌^◌, Bool, ◌||◌, ◌==◌, if◌then◌else◌, ltb, Bool-cases, inl, inr, ==_iff,
  get_elem?, ℕ, ◌≡◌, ◌⊎◌, refl, List, [], ◌∷◌, ◌++◌, true, false, Option, none, some, ok, replicate,
  arith, set, ◌+◌, ◌-◌,
}
use os_rust.Sched.Thread.{Thread, ready}
use os_rust.Sched.Queue
use os_rust.Sched.Queue.{Queue, PushResult, pushed, rejected}
use os_rust.Sched.Queue.Fifo
use os_rust.Sched.Queue.Refines.{Represents, push_refines, pop_refines}
use os_rust.Sched.Switch.{switch}
use os_rust.Sched.Switch.Turns.{Runs, preempted, switch-next, switches, switches_turn}
use os_rust.Sched.Balance.{Store, do_load_balance}
use os_rust.Sched.Balance.Shares.{Balanced, do_load_balance_lem}
use os_rust.Sched.Balance.Even.{Even, do_load_balance-Even}
use os_rust.Sched.Table.{ThreadTable, add_thread, get_thread_mut}
use os_rust.Sched.Table.Laws.{IsUnused, IsFull, FirstFree, add_thread_lem}
use os_rust.Arch.Cpu.{TlsData, CpuData, get_cpu_tls}
use os_rust.Memory.Tests.{addr_model}
use os_rust.Arch.Machine.{Build}
use os_rust.Arch.Lapic.{lapic_phys_addr}
use os_rust.Arch.Lapic.Timer.{HasLapic, Rearmed}
use os_rust.Sched.Timer.{Pages, timer_handler, get_random_online_cpu}
use os_rust.Sched.Timer.Choice.{get_random_online_cpu_reaches}
use os_rust.Util.{read_tsc, random_u64}
use os_rust.Sched.Timer.Members.{cons-Nodup}
use os_rust.Sched.Timer.Owners.{IsSound, AreSound}
use os_rust.Sched.Timer.Laws.{NamesPages, timer_handler-AreSound}

-- A queue whose two items stand in the last slot and the first one.
abbrev slots : List (Option ℕ)
slots = some 5 ∷ (replicate 254 none ++ (some 4 ∷ []))

abbrev pub wrapped : Queue ℕ
wrapped = record { slots = slots; head = 255; tail = 1; len = 2 }

pub wrapped-Represents : Represents wrapped (4 ∷ 5 ∷ [])
wrapped-Represents = record {
  storage = refl;
  head_in = omega arith;
  tail_at = refl;
  counted = refl;
  bounded = omega arith;
  items = (refl, (refl, tt));
}

push_refines_example :
    (q : Queue ℕ) × (Queue.push wrapped 6 ≡ ok ((Fifo.push (4 ∷ 5 ∷ []) 6).0, q))
    × Represents q (Fifo.push (4 ∷ 5 ∷ []) 6).1
push_refines_example = push_refines wrapped (4 ∷ 5 ∷ []) 6 wrapped-Represents

pop_refines_example : (q : Queue ℕ) × (Queue.pop wrapped ≡ ok (some 4, q)) × Represents q (5 ∷ [])
pop_refines_example = pop_refines wrapped (4 ∷ 5 ∷ []) wrapped-Represents

abbrev pub empty : Queue ℕ
empty = record { slots = replicate 256 none; head = 0; tail = 0; len = 0 }

pub empty-Represents : Represents empty []
empty-Represents = record {
  storage = refl;
  head_in = omega arith;
  tail_at = refl;
  counted = refl;
  bounded = omega arith;
  items = tt;
}

abbrev pub idle_thread : Thread
idle_thread = record {
  regs = 0;
  id = 0;
  kernel_stack = record { base = 0; size = 4096 };
  sched_state = record { cpu = none; state = ready };
}

-- Thread 9 runs, 4 and 5 are ready; the idle thread is at address 1.
abbrev pub busy : TlsData
busy = record {
  cpu_id = 0;
  idt_addr = 0;
  gdt_addr = 0;
  thread_addr = 9;
  idle_thread = idle_thread;
  ready_queue = wrapped;
}

busy-Runs : Runs busy 9 (4 ∷ 5 ∷ [])
busy-Runs = record { current = refl; queued = wrapped-Represents }

switch-next_example :
    (cpu : TlsData) × (switch 1 busy ≡ ok cpu) × Runs cpu 4 ((5 ∷ []) ++ preempted 1 9)
switch-next_example = switch-next 1 busy 9 4 (5 ∷ []) busy-Runs

switches_turn_example :
    (cpu : TlsData) × (rest : List ℕ) × (switches 1 2 busy ≡ ok cpu) × Runs cpu 5 rest
switches_turn_example = switches_turn 1 busy 9 5 (4 ∷ []) [] busy-Runs

abbrev pub nowhere : Store
nowhere t = record { cpu = none; state = ready }

do_load_balance_lem_example :
    Balanced (4 ∷ 5 ∷ []) [] wrapped empty nowhere 0 1 (do_load_balance wrapped empty nowhere 0 1)
do_load_balance_lem_example =
    do_load_balance_lem wrapped empty (4 ∷ 5 ∷ []) [] nowhere 0 1 wrapped-Represents
      empty-Represents

do_load_balance-Even_example :
    (qa : Queue ℕ) × (qb : Queue ℕ) × (store : Store) × (do_load_balance wrapped empty nowhere 0 1
      ≡ ok (qa, qb, store))
    × Even (4 ∷ 5 ∷ []) [] qa qb
do_load_balance-Even_example =
    do_load_balance-Even wrapped empty (4 ∷ 5 ∷ []) [] nowhere 0 1 wrapped-Represents
      empty-Represents

-- The table with a thread in its first slot.
abbrev pub table : ThreadTable
table = some idle_thread ∷ replicate 255 none

abbrev thread : Thread
thread = record idle_thread { id = 7 }

add_thread_lem_example :
    ((i : ℕ) × (add_thread table thread ≡ (true, set table i (some thread)))
      × FirstFree table i
      × (IsUnused table 7 → get_thread_mut (set table i (some thread)) 7 ≡ some i))
    ⊎ ((add_thread table thread ≡ (false, table)) × IsFull table)
add_thread_lem_example = add_thread_lem table thread

-- Twelve entries, all for the CPU whose page is at 8192; the other page in use is at 4096.
abbrev pub cpus : List CpuData
cpus = replicate 12 (record { online = true; tls = 8192 })

abbrev pub used : ℕ → Bool
used a = a == 4096 || a == 8192

abbrev pub quiet : TlsData
quiet = record busy { cpu_id = 1; thread_addr = 10; ready_queue = empty }

abbrev pub pages : Pages
pages a = if a == 8192 then quiet else busy

abbrev pub owner : ℕ → ℕ
owner t = if t == 10 then 8192 else 4096

abbrev pub live : ℕ → Bool
live t = ltb t 16

busy-IsSound : IsSound live owner busy 4096
busy-IsSound = record {
  items = 4 ∷ 5 ∷ [];
  queue = wrapped-Represents;
  distinct =
      cons-Nodup 9 (4 ∷ 5 ∷ [])
        (cons-Nodup 4 (5 ∷ []) (cons-Nodup 5 [] Nodup-nil (λ h. cc)) (λ h. cc)) (λ h. cc);
  owned = λ t h. ground arith;
  alive = λ t h. ground arith;
}

quiet-IsSound : IsSound live owner quiet 8192
quiet-IsSound = record {
  items = [];
  queue = empty-Represents;
  distinct = cons-Nodup 10 [] Nodup-nil (λ h. cc);
  owned = λ t h. ground arith;
  alive = λ t h. ground arith;
}

pub pages-AreSound : AreSound used live owner pages
pages-AreSound a u = elim (Bool-cases (a == 8192)) [
  | inl e ↦ rw (e, (==_iff a 8192).0 e) quiet-IsSound
  | inr e ↦ let low : a ≡ 4096 = ground arith in rw low busy-IsSound
]

replicate_entry :
    (n i : ℕ) (e : CpuData)
    → get_elem? (replicate n (record { online = true; tls = 8192 })) i ≡ some e
    → used e.tls ≡ true
replicate_entry zero i e h = absurd cc
replicate_entry (suc n) zero e h =
    let same : record { online = true; tls = 8192 } ≡ e = cc in rw (← same) refl
replicate_entry (suc n) (suc i) e h = replicate_entry n i e h

pub cpus-NamesPages : NamesPages used cpus
cpus-NamesPages i e h on = replicate_entry 12 i e h

-- A build whose local APIC stands at its usual place.
abbrev pub apic_build : Build
apic_build = record {
  tls_size = 2400;
  gdt_size = 64;
  idt_size = 4096;
  idle_offset = 32;
  idle_entry = 77;
  apic_base = 4276095232;
}

pub apic_build-HasLapic : HasLapic (2 ^ 64 - 2 ^ 47) apic_build
apic_build-HasLapic = record { physical = omega arith; mapped = omega arith }

timer_handler-AreSound_example :
    (pages' : Pages) × (store : Store) × (device' : ℕ → ℕ) × (owner' : ℕ → ℕ) × (timer_handler
        addr_model
        (2 ^ 64 - 2 ^ 47)
        apic_build.apic_base
        1
        cpus
        7
        pages
        nowhere
        4096
        (λ a. 7)
      ≡ ok (pages', store, device'))
    × AreSound used live owner' pages'
    × Rearmed (λ a. 7) device' (lapic_phys_addr apic_build.apic_base + (2 ^ 64 - 2 ^ 47))
timer_handler-AreSound_example =
    timer_handler-AreSound addr_model (2 ^ 64 - 2 ^ 47) apic_build 1 cpus 7 pages nowhere 4096
      (λ a. 7) (omega arith) apic_build-HasLapic (omega arith) cpus-NamesPages refl pages-AreSound

get_random_online_cpu_reaches_example :
    (high : ℕ) × (low : ℕ) × (high < 2 ^ 32)
    × (low < 2 ^ 32)
    × (get_random_online_cpu cpus (random_u64 (read_tsc high low)) ≡ get_cpu_tls cpus 1)
get_random_online_cpu_reaches_example = get_random_online_cpu_reaches cpus 1 (omega arith)
