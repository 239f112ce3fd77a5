-- ===== src/Sched/Interrupt/Tests.antt =====
-- A timer interrupt among sixteen threads, each on a page of its own.
use os_rust.Shared.{
  ℕ, ◌+◌, ◌-◌, ◌^◌, ◌*◌, ◌<◌, ◌≡◌, ◌≢◌, refl, sym, true, ok, get_or-replicate, arith,
}
use os_rust.Sched.Tests.{
  used, cpus, cpus-NamesPages, pages, live, pages-AreSound, nowhere, apic_build,
  apic_build-HasLapic,
}
use os_rust.Memory.Tests.{addr_model}
use os_rust.Arch.Lapic.{lapic_phys_addr}
use os_rust.Arch.Lapic.Timer.{Rearmed}
use os_rust.Sched.Timer.Owners.{AreSound}
use os_rust.Sched.Registers.{Context}
use os_rust.Sched.Interrupt.{World, timer_interrupt}
use os_rust.Sched.Interrupt.Threads.{Threads, AreApart, IsParked, HasRoom, update}
use os_rust.Sched.Interrupt.Laws.{timer_interrupt_resumes}

abbrev threads : Threads
threads = record { live = live; bottom = λ t. 4096 * (t + 1); top = λ t. 4096 * (t + 2) }

live-lt : (t : ℕ) → live t ≡ true → t < 16
live-lt t h = ground arith

threads-AreApart : AreApart threads
threads-AreApart = record {
  small = λ t h. omega (arith, live-lt t h);
  apart = λ t u ne h k. ground arith;
}

-- All registers zero.
abbrev blank : Context
blank = record { general = λ r. 0; rip = 0; cs = 0; rflags = 0; rsp = 0; ss = 0 }

-- Every thread is parked at the blank context, 1024 bytes into its stack.
abbrev world : World
world = record {
  stacks = λ a. 0;
  regs = λ t. 4096 * (t + 1) + 1024;
  pages = pages;
  store = nowhere;
}

parked : (t : ℕ) → t ≢ 9 → live t ≡ true → IsParked threads world t blank
parked t ne h = record {
  low = omega arith;
  high = omega arith;
  holds = λ i below. sym (get_or-replicate 20 i 0);
}

-- Thread 9 is interrupted at the instruction 7, in the middle of its stack.
abbrev interrupted : Context
interrupted = record blank { rip = 7; rsp = 43008 }

room : HasRoom threads 9 interrupted
room = record { above = omega arith; below = omega arith; small = omega arith }

timer_interrupt_resumes_example :
    (w' : World) × (device' : ℕ → ℕ) × (owner' : ℕ → ℕ) × (next : ℕ) × (timer_interrupt addr_model
        (2 ^ 64 - 2 ^ 47)
        apic_build.apic_base
        (λ m. m)
        (λ r. 0)
        1
        cpus
        7
        4096
        world
        (λ a. 7)
        interrupted
      ≡ ok (w', device', update (λ t. blank) 9 interrupted next))
    × ((w'.pages 4096).thread_addr ≡ next)
    × (live next ≡ true)
    × ((t : ℕ) → live t ≡ true → IsParked threads w' t (update (λ t. blank) 9 interrupted t))
    × AreSound used live owner' w'.pages
    × Rearmed (λ a. 7) device' (lapic_phys_addr apic_build.apic_base + (2 ^ 64 - 2 ^ 47))
timer_interrupt_resumes_example =
    timer_interrupt_resumes {ts = threads} {contexts = λ t. blank} addr_model (2 ^ 64 - 2 ^ 47)
      apic_build (λ m. m) (λ r. 0) 1 cpus 7 4096 world (λ a. 7) interrupted (omega arith)
      apic_build-HasLapic (omega arith) cpus-NamesPages refl pages-AreSound threads-AreApart parked
      room (λ m a out. refl)
