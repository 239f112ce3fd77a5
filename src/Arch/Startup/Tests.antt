-- ===== src/Arch/Startup/Tests.antt =====
-- CPU 1 started with four free frames.
use os_rust.Shared.{
  ◌-◌, ◌^◌, ◌<◌, ◌≡◌, ◌⊎◌, refl, List, [], ◌∷◌, ◌++◌, false, none, some, Outcome, ok, panic, arith,
  ltb, if◌then◌else◌, length, lt→ltb,
}
use os_rust.Memory.Tests.{addr_model}
use os_rust.Memory.Pages.{NoFrame}
use os_rust.Arch.Machine.{Descriptor, null, GdtApi, Machine, Build}
use os_rust.Arch.Lapic.Timer.{HasLapic}
use os_rust.Arch.Startup.{common_entry}
use os_rust.Arch.Startup.Steps.{Fits}
use os_rust.Arch.Startup.Laws.{Started, common_entry_lem}
use os_rust.Sched.Registers.{Context}
use os_rust.Sched.Tests.{pages, nowhere}
use os_rust.Sched.Spawn.Tests.{regions, regions-AreValid, regions-IsMapped}

abbrev append : List Descriptor → Descriptor → Outcome (List Descriptor)
append t d = if ltb (length t) 7 then ok (t ++ (d ∷ [])) else panic

pub append_room :
    (t : List Descriptor) (d : Descriptor)
    → length t < 7
    → (t' : List Descriptor) × (append t d ≡ ok t') × (t' ≡ t ++ (d ∷ []))
append_room t d h = (t ++ (d ∷ []), rw (lt→ltb (length t) 7 h) refl, refl)

abbrev pub gdt_model : GdtApi (List Descriptor)
gdt_model = record {
  empty = null ∷ [];
  append = append;
  entries = λ t. t;
  empty_entries = refl;
  append_entries = append_room;
}

abbrev pub build : Build
build = record {
  tls_size = 2400;
  gdt_size = 64;
  idt_size = 4096;
  idle_offset = 32;
  idle_entry = 77;
  apic_base = 4276095232;
}

pub build-Fits : Fits build
build-Fits = record { tls = omega arith; gdt = omega arith; idt = refl }

pub build-HasLapic : HasLapic (2 ^ 64 - 2 ^ 47) build
build-HasLapic = record { physical = omega arith; mapped = omega arith }

abbrev pub machine : Machine (List Descriptor)
machine = record {
  frames = some regions;
  memory = λ a. 0;
  regs = λ t. 0;
  store = nowhere;
  pages = pages;
  cpus = record { online = false; tls = 0 } ∷ record { online = false; tls = 0 } ∷ [];
  gdts = λ a. [];
  idts = λ a v. none;
  lapic = λ a. 0;
  gs_base = 0;
  gdtr = 0;
  idtr = 0;
  cs = 0;
  ds = 0;
  ss = 0;
  es = 0;
  fs = 0;
  gs = 0;
}

common_entry_lem_example :
    ((common_entry addr_model (2 ^ 64 - 2 ^ 47) build gdt_model (λ r. 0) 1 machine ≡ panic)
      × NoFrame 4 regions)
    ⊎ ((m' : Machine (List Descriptor)) × (c : Context) × (common_entry addr_model
            (2 ^ 64 - 2 ^ 47)
            build
            gdt_model
            (λ r. 0)
            1
            machine
          ≡ ok (m', c))
        × Started gdt_model (2 ^ 64 - 2 ^ 47) build 1 machine m' c)
common_entry_lem_example =
    common_entry_lem addr_model (2 ^ 64 - 2 ^ 47) build build-Fits build-HasLapic gdt_model (λ r. 0)
      1 machine regions refl regions-AreValid regions-IsMapped (omega arith)
