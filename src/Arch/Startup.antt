-- ===== src/Arch/Startup.antt =====
-- src/arch/x86_64: `setup_tls` of cpu.rs, `setup_gdt` of gdt.rs, `setup_idt` of idt.rs, and
-- `common_entry` of init.rs, which every CPU runs.
pub mod Steps
pub mod Laws
pub mod Tests
use os_rust.Shared.{
  ℕ, List, ◌≡◌, Option, none, some, Bool, true, Outcome, ok, panic, ◌>>=◌, ◌>>◌, assert, index, set,
  add64, leb, ltb, ◌==◌, if◌then◌else◌,
}
use os_rust.Memory.Addr.{AddrApi}
use os_rust.Memory.Allocator.{Slot}
use os_rust.Memory.Pages.{alloc_page}
use os_rust.Arch.Cpu.{TlsData, CpuData}
use os_rust.Arch.Machine.{
  put, GdtApi, kernel_code_segment, kernel_data_segment, user_data_segment, user_code_segment,
  breakpoint_handler, page_fault_handler, Handler, Gate, Idt, Machine, Build,
}
use os_rust.Arch.Lapic.{setup_lapic_timer}
use os_rust.Sched.Queue
use os_rust.Sched.Registers.{Register, Context, kernel_cs, kernel_ds}
use os_rust.Sched.Spawn.{new_idle}
use os_rust.Sched.Interrupt.{World, force_switch_to_idle}

-- The number on the page that `gs` points to.
unfoldable pub current_cpu_id : {T : Type 0} → Machine T → Outcome ℕ
current_cpu_id m = if m.gs_base == 0 then panic else ok (m.pages m.gs_base).cpu_id

-- `reset`, then the three entries.
abbrev pub handlers : Idt
handlers =
    put
      (put (put (λ v. none) 3 (some (record { handler = breakpoint_handler; privilege = 3 }))) 14
        (some (record { handler = page_fault_handler; privilege = 0 })))
      32 (some (record { handler = Handler.timer_interrupt; privilege = 0 }))

module _ (x : AddrApi) (offset : ℕ) (b : Build) where
  -- The zeros that it writes are overwritten by `setup_tls`.
  unfoldable pub alloc_tls : Slot → Outcome (ℕ × Slot)
  alloc_tls frames = do
    (tls, frames') ← alloc_page x offset frames
    assert (leb b.tls_size 4096)
    ok (tls, frames')

  -- The table is written by `setup_gdt`.
  unfoldable pub alloc_gdt : Slot → Outcome (ℕ × Slot)
  alloc_gdt frames = do
    (gdt, frames') ← alloc_page x offset frames
    assert (ltb b.gdt_size 4096)
    ok (gdt, frames')

  unfoldable pub alloc_idt : Slot → Outcome (ℕ × Slot)
  alloc_idt frames = do
    (idt, frames') ← alloc_page x offset frames
    assert (b.idt_size == 4096)
    ok (idt, frames')

  module _ {T : Type 0} (api : GdtApi T) where
    unfoldable pub setup_tls : ℕ → Machine T → Outcome (Machine T)
    setup_tls cpu_id m = do
      (tls, frames) ← alloc_tls m.frames
      (idle, frames', memory) ← new_idle x offset b.idle_entry frames m.memory
      let tls_data : TlsData = record {
        cpu_id = cpu_id;
        idt_addr = 0;
        gdt_addr = 0;
        thread_addr = 0;
        idle_thread = idle;
        ready_queue = Queue.new;
      }
      base ← x.virt_new tls
      entry ← index m.cpus cpu_id
      ok (record m {
        frames = frames';
        memory = memory;
        pages = put m.pages tls tls_data;
        gs_base = base;
        cpus = set m.cpus cpu_id (record { online = true; tls = tls });
      })

    -- Writing `gs` clears the base.
    abbrev pub set_gs : ℕ → Machine T → Machine T
    set_gs selector m = record m { gs = selector; gs_base = 0 }

    unfoldable pub load_segments : Machine T → Machine T
    load_segments m =
        let loaded = record m {
          cs = kernel_cs;
          ds = kernel_ds;
          ss = kernel_ds;
          es = kernel_ds;
          fs = kernel_ds;
        } in
        let gs_base = loaded.gs_base in record (set_gs kernel_ds loaded) { gs_base = gs_base }

    unfoldable pub setup_gdt : Machine T → Outcome (Machine T)
    setup_gdt m = do
      (gdt, frames) ← alloc_gdt m.frames
      t₁ ← api.append api.empty kernel_code_segment
      t₂ ← api.append t₁ kernel_data_segment
      t₃ ← api.append t₂ user_data_segment
      t₄ ← api.append t₃ user_code_segment
      let m' = load_segments (record m { frames = frames; gdts = put m.gdts gdt t₄; gdtr = gdt })
      ok (record m' {
        pages = put m'.pages m'.gs_base (record (m'.pages m'.gs_base) { gdt_addr = gdt });
      })

    unfoldable pub setup_idt : Machine T → Outcome (Machine T)
    setup_idt m = do
      (idt, frames) ← alloc_idt m.frames
      ok (record m {
        frames = frames;
        idts = put m.idts idt handlers;
        idtr = idt;
        pages = put m.pages m.gs_base (record (m.pages m.gs_base) { idt_addr = idt });
      })

    -- The idle thread of the CPU, which is a field of its page.
    abbrev pub idle_addr : Machine T → ℕ
    idle_addr m = add64 m.gs_base b.idle_offset

    abbrev pub world_of : Machine T → World
    world_of m = record {
      stacks = m.memory;
      regs = put m.regs (idle_addr m) (m.pages m.gs_base).idle_thread.regs;
      pages = m.pages;
      store = m.store;
    }

    -- `common_entry`: what the CPU goes on with.
    unfoldable pub common_entry : (Register → ℕ) → ℕ → Machine T → Outcome (Machine T × Context)
    common_entry scratch cpu_id m = do
      m₁ ← setup_tls cpu_id m
      m₂ ← setup_gdt m₁
      m₃ ← setup_idt m₂
      lapic ← setup_lapic_timer x offset b.apic_base m₃.lapic
      let m₄ : Machine T = record m₃ { lapic = lapic }
      let (w, c) = force_switch_to_idle scratch (idle_addr m₄) m₄.gs_base (world_of m₄)
      ok (record m₄ { pages = w.pages; memory = w.stacks }, c)
