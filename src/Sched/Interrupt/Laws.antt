-- ===== src/Sched/Interrupt/Laws.antt =====
-- A timer interrupt as a whole.
use os_rust.Shared.{
  ℕ, ◌+◌, ◌-◌, ◌^◌, ◌≤◌, ◌≡◌, ◌≢◌, refl, List, Bool, true, ok, length, ◌==◌, ==_iff, ap, ◌∷◌,
  if◌then◌else◌,
}
use os_rust.Memory.Addr.{AddrApi}
use os_rust.Arch.Words.{Words}
use os_rust.Arch.Machine.{Build}
use os_rust.Arch.Lapic.{lapic_phys_addr}
use os_rust.Arch.Lapic.Timer.{HasLapic, Rearmed}
use os_rust.Arch.Cpu.{CpuData}
use os_rust.Sched.Balance.Shares.{has}
use os_rust.Sched.Timer.Owners.{AreSound}
use os_rust.Sched.Timer.Laws.{NamesPages, timer_handler-AreSound}
use os_rust.Sched.Registers.{Register, Context, save}
use os_rust.Sched.Interrupt.{World, timer_interrupt}
use os_rust.Sched.Interrupt.Threads.{
  Threads, AreApart, IsParked, HasRoom, StaysBelow, update, all-IsParked, all_resume,
}

top_of : (t : ℕ) (xs : List ℕ) → has (t ∷ xs) t ≡ true
top_of t xs = let same = (==_iff t t).1 refl in rw same refl

-- The running thread is interrupted at the context `c`, and every other live thread is parked at a
-- context of its own on a stack of its own. Where the handler's calls stay below the frame on the
-- interrupted thread's stack, the interrupt returns, and resumes a live thread exactly at the context
-- at which that thread was interrupted last. All live threads are then parked so, and each is with one
-- CPU at most; with the local APIC in the direct map, the interrupt is acknowledged and the timer's
-- count starts again.
pub timer_interrupt_resumes :
    {used : ℕ → Bool} {owner : ℕ → ℕ} {ts : Threads} {contexts : ℕ → Context} (x : AddrApi)
    (offset : ℕ) (b : Build) (clobber : Words → Words) (scratch : Register → ℕ) (idle_addr : ℕ)
    (cpus : List CpuData) (random here : ℕ) (w : World) (device : ℕ → ℕ) (c : Context)
    → 2 ^ 64 - 2 ^ 47 ≤ offset
    → HasLapic offset b
    → 12 ≤ length cpus
    → NamesPages used cpus
    → used here ≡ true
    → AreSound used ts.live owner w.pages
    → AreApart ts
    → ((t : ℕ) → t ≢ (w.pages here).thread_addr → ts.live t ≡ true → IsParked ts w t (contexts t))
    → HasRoom ts (w.pages here).thread_addr c
    → StaysBelow ts (w.pages here).thread_addr c clobber
    → (w' : World) × (device' : ℕ → ℕ) × (owner' : ℕ → ℕ) × (next : ℕ) × (timer_interrupt x offset
          b.apic_base clobber scratch idle_addr cpus random here w device c
        ≡ ok (w', device', update contexts (w.pages here).thread_addr c next))
      × ((w'.pages here).thread_addr ≡ next)
      × (ts.live next ≡ true)
      × ((t : ℕ)
          → ts.live t ≡ true
          → IsParked ts w' t (update contexts (w.pages here).thread_addr c t))
      × AreSound used ts.live owner' w'.pages
      × Rearmed device device' (lapic_phys_addr b.apic_base + offset)
unfolding timer_interrupt
timer_interrupt_resumes {used} {owner} {ts} {contexts} x offset b clobber scratch idle_addr cpus
      random here w device c high apic enough names uh s apart parked room below =
    let running = (w.pages here).thread_addr in
    let first = s here uh in
    let alive = first.alive running (top_of running first.items) in
    let (pages', store', device', owner', run, s', rearmed) =
      timer_handler-AreSound {owner = owner} x offset b idle_addr cpus random w.pages w.store here
        device high apic enough names uh s in
    let w' : World = record {
      stacks = clobber (save w.stacks c).0;
      regs = λ t. if t == running then (save w.stacks c).1 else w.regs t;
      pages = pages';
      store = store';
    } in
    let next = (pages' here).thread_addr in
    let last = s' here uh in
    let alive' = last.alive next (top_of next last.items) in
    (
      w',
      device',
      owner',
      next,
      rw run (
          ap (λ (d : Context). ok (w', device', d))
            (all_resume apart alive parked room below w' refl refl scratch next alive')),
      refl,
      alive',
      all-IsParked apart alive parked room below w' refl refl,
      s',
      rearmed,
    )
