-- ===== src/Arch/Startup/Laws.antt =====
-- A CPU that runs `common_entry` comes up as its idle thread.
use os_rust.Shared.{
  ℕ, ◌+◌, ◌/◌, ◌<◌, ◌≡◌, ◌≢◌, ◌⊎◌, inl, inr, refl, sym, List, [], true, false, some, ok, panic, set,
  arith, add64, length, length-set, leb, ◌==◌, ==_iff, if◌then◌else◌, not_same, get_elem?,
  get_elem?-set_self, get_elem?-set_ne,
}
use os_rust.Memory.Addr.{AddrApi}
use os_rust.Memory.Region.{MemoryRegion}
use os_rust.Memory.Allocator.States.{AreValid}
use os_rust.Memory.Pages.{NoFrame, at_once, after_one, IsMapped, IsMapped-shape}
use os_rust.Arch.Words.{Words}
use os_rust.Arch.Cpu.{CpuData, get_cpu_tls}
use os_rust.Arch.Machine.{
  put, kernel_code_segment, kernel_data_segment, GdtApi, Handler, Machine, Build,
}
use os_rust.Arch.Lapic.{lapic_phys_addr, program_timer}
use os_rust.Arch.Lapic.Timer.{HasLapic, TimerSet, program_timer_lem, setup_lapic_timer_lem}
use os_rust.Arch.Startup.{current_cpu_id, common_entry}
use os_rust.Arch.Startup.Steps.{
  Fits, segments, with_tls, with_gdt, with_idt, setup_tls_lem, setup_gdt_lem, setup_idt_lem,
}
use os_rust.Sched.Queue.Refines.{Represents, new-Represents}
use os_rust.Sched.Registers.{Register, Context, restore}
use os_rust.Sched.Thread.{Stack}
use os_rust.Sched.Spawn.Stacks.{start_context}
use os_rust.Sched.Interrupt.{force_switch_to_idle}

get_cpu_tls-set :
    (cpus : List CpuData) (i tls : ℕ)
    → i < length cpus
    → get_cpu_tls (set cpus i (record { online = true; tls = tls })) i ≡ ok (some tls)
unfolding get_cpu_tls
get_cpu_tls-set cpus i tls h =
    let entry : CpuData = record { online = true; tls = tls } in
    let inside : leb (length (set cpus i entry)) i ≡ false =
      ground (arith, length-set cpus i entry) in
    rw (inside, get_elem?-set_self cpus i entry h) refl

get_cpu_tls-set_ne :
    (cpus : List CpuData) (i j : ℕ) (entry : CpuData)
    → i ≢ j
    → get_cpu_tls (set cpus i entry) j ≡ get_cpu_tls cpus j
unfolding get_cpu_tls
get_cpu_tls-set_ne cpus i j entry ne =
    rw (length-set cpus i entry, get_elem?-set_ne cpus i j entry ne) refl

-- A CPU that has come up: its page is found by its number, no other CPU's is lost; it is in the context
-- of its idle thread, with nothing ready; the selectors of that context name the kernel's segments in
-- the table loaded, and the vector of the timer names `timer_interrupt`.
pub record Started {T : Type 0} (api : GdtApi T) (offset : ℕ) (b : Build) (cpu_id : ℕ)
    (m m' : Machine T) (c : Context) : Type 0 where
  pub found : get_cpu_tls m'.cpus cpu_id ≡ ok (some m'.gs_base)
  pub others : (j : ℕ) → j ≢ cpu_id → get_cpu_tls m'.cpus j ≡ get_cpu_tls m.cpus j
  pub number : current_cpu_id m' ≡ ok cpu_id
  pub runs : (m'.pages m'.gs_base).thread_addr ≡ add64 m'.gs_base b.idle_offset
  pub queue : Represents (m'.pages m'.gs_base).ready_queue []
  pub tables :
      ((m'.pages m'.gs_base).gdt_addr ≡ m'.gdtr) × ((m'.pages m'.gs_base).idt_addr ≡ m'.idtr)
  pub pages_same : (a : ℕ) → a ≢ m'.gs_base → m'.pages a ≡ m.pages a
  pub stack : Stack
  pub idles : c ≡ start_context b.idle_entry 0 (stack.base + stack.size)
  pub code : get_elem? (api.entries (m'.gdts m'.gdtr)) (c.cs / 8) ≡ some kernel_code_segment
  pub stack_segment :
      get_elem? (api.entries (m'.gdts m'.gdtr)) (c.ss / 8) ≡ some kernel_data_segment
  pub timer : TimerSet m.lapic m'.lapic (lapic_phys_addr b.apic_base + offset)
  pub gate :
      m'.idts m'.idtr (m'.lapic (lapic_phys_addr b.apic_base + offset + 0x320))
      ≡ some (record { handler = Handler.timer_interrupt; privilege = 0 })

module _ (x : AddrApi) (offset : ℕ) (b : Build) (fits : Fits b) (apic : HasLapic offset b)
    {T : Type 0} (api : GdtApi T) where
  -- The machine before the switch to the idle thread, and after it.
  abbrev set_up : ℕ → Machine T → ℕ → Stack → List MemoryRegion → Words → ℕ → T → ℕ → Machine T
  set_up cpu_id m tls s rs memory gdt t idt =
      record (with_idt (with_gdt (with_tls cpu_id m tls s rs memory) gdt rs t) idt rs) {
        lapic = program_timer m.lapic (lapic_phys_addr b.apic_base + offset);
      }

  abbrev up : ℕ → Machine T → ℕ → Stack → List MemoryRegion → Words → ℕ → T → ℕ → Machine T
  up cpu_id m tls s rs memory gdt t idt =
      let n = set_up cpu_id m tls s rs memory gdt t idt in
      record n {
        pages = λ a.
            if a == tls
            then record (n.pages tls) { thread_addr = add64 tls b.idle_offset }
            else n.pages a;
      }

  up-Started :
      (cpu_id : ℕ) (m : Machine T) (tls : ℕ) (s : Stack) (rs : List MemoryRegion) (memory : Words)
      (gdt : ℕ) (t : T) (idt : ℕ) (c : Context)
      → cpu_id < length m.cpus
      → tls ≢ 0
      → api.entries t ≡ segments
      → c ≡ start_context b.idle_entry 0 (s.base + s.size)
      → Started api offset b cpu_id m (up cpu_id m tls s rs memory gdt t idt) c
  unfolding current_cpu_id
  up-Started cpu_id m tls s rs memory gdt t idt c inside nonzero has at =
      let here = (==_iff tls tls).1 refl in
      let here_gdt = (==_iff gdt gdt).1 refl in
      let here_idt = (==_iff idt idt).1 refl in
      let timer =
        program_timer_lem m.lapic (lapic_phys_addr b.apic_base + offset)
          (omega (arith, apic.mapped)) in
      record {
        found = get_cpu_tls-set m.cpus cpu_id tls inside;
        others = λ j ne. get_cpu_tls-set_ne m.cpus cpu_id j _ (λ e. ne (sym e));
        number = rw (not_same nonzero, here) refl;
        runs = rw here refl;
        queue = rw here new-Represents;
        tables = rw here (refl, refl);
        pages_same = λ a ne. rw (not_same ne) refl;
        stack = s;
        idles = at;
        code = rw (here_gdt, has, at) refl;
        stack_segment = rw (here_gdt, has, at) refl;
        timer = timer;
        gate = rw (timer.vector, here_idt) refl;
      }

  -- On valid regions that the direct map covers, with an entry of `CPUS` for the CPU, `common_entry`
  -- panics only where fewer than four frames are free. Otherwise the CPU goes on in the entry of
  -- its idle thread, on that thread's stack and with interrupts on. Its page is found by its number, and
  -- those of the other CPUs as before; nothing is ready. The code and stack selectors name the kernel's
  -- segments in the table loaded, the timer is set, and its vector names `timer_interrupt`.
  pub common_entry_lem :
      (scratch : Register → ℕ) (cpu_id : ℕ) (m : Machine T) (rs : List MemoryRegion)
      → m.frames ≡ some rs
      → AreValid rs
      → IsMapped offset rs
      → cpu_id < length m.cpus
      → ((common_entry x offset b api scratch cpu_id m ≡ panic) × NoFrame 4 rs)
        ⊎ ((m' : Machine T) × (c : Context) × (common_entry x offset b api scratch cpu_id m
              ≡ ok (m', c))
            × Started api offset b cpu_id m m' c)
  unfolding common_entry force_switch_to_idle
  common_entry_lem scratch cpu_id m rs held v mapped inside =
      elim (setup_tls_lem x offset b fits api cpu_id m rs held v mapped inside) [
        | inr (run, out) ↦ inl (rw run refl, omega (arith, out))
        | inl (tls, s, rs₁, memory, run₁, made) ↦
            let out =
              λ (o : NoFrame 2 rs₁). after_one made.page.taken (after_one made.stack.taken o) in
            let m₁ = with_tls cpu_id m tls s rs₁ memory in
            elim (setup_gdt_lem x offset b fits api m₁ rs₁ refl made.stack.effect.valid
              (IsMapped-shape made.stack.effect.shape_same made.page.mapped)) [
                | inr (run₂, full) ↦ inl (rw (run₁, run₂) refl, out (at_once _ full (omega arith)))
                | inl (gdt, rs₂, t, run₂, has, p₂) ↦
                    let m₂ = with_gdt m₁ gdt rs₂ t in
                    elim (setup_idt_lem x offset b fits api m₂ rs₂ refl p₂.effect.valid p₂.mapped) [
                      | inr (run₃, full) ↦ inl (
                        rw (run₁, run₂, run₃) refl,
                        out (after_one p₂.taken (at_once _ full (omega arith))),
                      )
                      | inl (idt, rs₃, run₃, p₃) ↦
                          let n = set_up cpu_id m tls s rs₃ memory gdt t idt in
                          let idle = add64 tls b.idle_offset in
                          let c =
                            restore scratch memory
                              (put m.regs idle (n.pages tls).idle_thread.regs idle) in
                          let here_idle = (==_iff idle idle).1 refl in
                          let here = (==_iff tls tls).1 refl in
                          let lapic = setup_lapic_timer_lem x offset b m.lapic mapped.high apic in
                          inr (
                            up cpu_id m tls s rs₃ memory gdt t idt,
                            c,
                            rw (run₁, run₂, run₃, lapic) refl,
                            up-Started cpu_id m tls s rs₃ memory gdt t idt c inside
                                (λ z. absurd (omega (arith, made.page.at, mapped.high))) has
                                (rw (here_idle, here) (made.starts scratch)),
                          )
                    ]
              ]
      ]
