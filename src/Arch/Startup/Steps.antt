-- ===== src/Arch/Startup/Steps.antt =====
-- What each step of `common_entry` does to the machine.
use os_rust.Shared.{
  ℕ, ◌+◌, ◌-◌, ◌≤◌, ◌<◌, ◌≡◌, ◌⊎◌, inl, inr, refl, ap, ◌∙◌, List, [], ◌∷◌, ◌++◌, true, false, some,
  ok, panic, index_lem, set, arith, length, leb, ltb, ==_iff,
}
use os_rust.Memory.Addr.{AddrApi}
use os_rust.Memory.Region.{MemoryRegion}
use os_rust.Memory.Allocator.States.{AreValid}
use os_rust.Memory.Allocator.Alloc.{AreFull}
use os_rust.Memory.Pages.{NoFrame, at_once, after_one, IsMapped, NewPage, alloc_page_lem}
use os_rust.Arch.Words.{Words}
use os_rust.Arch.Machine.{
  put, Descriptor, null, kernel_code_segment, kernel_data_segment, user_data_segment,
  user_code_segment, GdtApi, Machine, Build,
}
use os_rust.Arch.Startup.{
  alloc_tls, alloc_gdt, alloc_idt, handlers, setup_tls, load_segments, setup_gdt, setup_idt,
}
use os_rust.Sched.Queue
use os_rust.Sched.Registers.{Register, restore}
use os_rust.Sched.Thread.{Stack}
use os_rust.Sched.Spawn.Stacks.{idle_thread, start_context, NewStack, new_idle_lem}

-- The asserts on the sizes of types hold.
pub record Fits (b : Build) : Type 0 where
  pub tls : b.tls_size ≤ 4096
  pub gdt : b.gdt_size < 4096
  pub idt : b.idt_size ≡ 4096

-- The entries of the table that `setup_gdt` loads.
abbrev pub segments : List Descriptor
segments =
    null ∷ kernel_code_segment ∷ kernel_data_segment ∷ user_data_segment ∷ user_code_segment ∷ []

module _ {T : Type 0} where
  abbrev pub with_tls : ℕ → Machine T → ℕ → Stack → List MemoryRegion → Words → Machine T
  with_tls cpu_id m tls s rs memory = record m {
    frames = some rs;
    memory = memory;
    pages = put m.pages tls (record {
      cpu_id = cpu_id;
      idt_addr = 0;
      gdt_addr = 0;
      thread_addr = 0;
      idle_thread = idle_thread s;
      ready_queue = Queue.new;
    });
    gs_base = tls;
    cpus = set m.cpus cpu_id (record { online = true; tls = tls });
  }

  abbrev pub with_gdt : Machine T → ℕ → List MemoryRegion → T → Machine T
  with_gdt m gdt rs t = record m {
    frames = some rs;
    gdts = put m.gdts gdt t;
    gdtr = gdt;
    cs = 8;
    ds = 16;
    ss = 16;
    es = 16;
    fs = 16;
    gs = 16;
    pages = put m.pages m.gs_base (record (m.pages m.gs_base) { gdt_addr = gdt });
  }

  abbrev pub with_idt : Machine T → ℕ → List MemoryRegion → Machine T
  with_idt m idt rs = record m {
    frames = some rs;
    idts = put m.idts idt handlers;
    idtr = idt;
    pages = put m.pages m.gs_base (record (m.pages m.gs_base) { idt_addr = idt });
  }

-- The idle thread starts from its registers; its stack and the CPU's page are of frames that were
-- free.
pub record TlsMade (offset entry : ℕ) (rs : List MemoryRegion) (tls : ℕ) (s : Stack)
    (rs' : List MemoryRegion) (memory : Words) : Type 0 where
  pub between : List MemoryRegion
  pub page : NewPage offset rs tls between
  pub stack : NewStack between offset 1 s rs'
  pub starts :
      (scratch : Register → ℕ)
      → restore scratch memory (s.base + s.size - 160) ≡ start_context entry 0 (s.base + s.size)

module _ (x : AddrApi) (offset : ℕ) (b : Build) (fits : Fits b) {T : Type 0} (api : GdtApi T) where
  append_next :
      (t : T) (ds : List Descriptor) (d : Descriptor)
      → api.entries t ≡ ds
      → length ds < 7
      → (t' : T) × (api.append t d ≡ ok t') × (api.entries t' ≡ ds ++ (d ∷ []))
  append_next t ds d has room =
      let (t', run, more) = api.append_entries t d (rw has room) in
      (t', run, more ∙ ap (λ (es : List Descriptor). es ++ (d ∷ [])) has)

  pub setup_tls_lem :
      (cpu_id : ℕ) (m : Machine T) (rs : List MemoryRegion)
      → m.frames ≡ some rs
      → AreValid rs
      → IsMapped offset rs
      → cpu_id < length m.cpus
      → ((tls : ℕ) × (s : Stack) × (rs' : List MemoryRegion) × (memory : Words) × (setup_tls x
              offset b api cpu_id m
            ≡ ok (with_tls cpu_id m tls s rs' memory))
          × TlsMade offset b.idle_entry rs tls s rs' memory)
        ⊎ ((setup_tls x offset b api cpu_id m ≡ panic) × NoFrame 2 rs)
  unfolding setup_tls alloc_tls
  setup_tls_lem cpu_id m rs held v mapped inside = elim (alloc_page_lem x offset rs v mapped) [
    | inr (run, full) ↦ inr (rw (held, run) refl, at_once _ full (omega arith))
    | inl (tls, rs', run, p) ↦
        let small : leb b.tls_size 4096 ≡ true = ground (arith, fits.tls) in
        let canonical =
          x.virt_new_high tls (omega (arith, p.at, mapped.high)) (omega (arith, p.below)) in
        let entry = index_lem m.cpus cpu_id (record { online = false; tls = 0 }) inside in
        elim (new_idle_lem x offset b.idle_entry rs' m.memory p.effect.valid p.mapped) [
          | inr (idle, full) ↦
              inr
                (rw (held, run, small, idle) refl, after_one p.taken (at_once _ full (omega arith)))
          | inl (s, rs'', memory, idle, stack, starts) ↦ inl (
            tls,
            s,
            rs'',
            memory,
            rw (held, run, small, idle, canonical, entry) refl,
            record { between = rs'; page = p; stack = stack; starts = starts },
          )
        ]
  ]

  pub setup_idt_lem :
      (m : Machine T) (rs : List MemoryRegion)
      → m.frames ≡ some rs
      → AreValid rs
      → IsMapped offset rs
      → ((idt : ℕ) × (rs' : List MemoryRegion) × (setup_idt x offset b api m
            ≡ ok (with_idt m idt rs'))
          × NewPage offset rs idt rs')
        ⊎ ((setup_idt x offset b api m ≡ panic) × AreFull rs 1)
  unfolding setup_idt alloc_idt
  setup_idt_lem m rs held v mapped = elim (alloc_page_lem x offset rs v mapped) [
    | inr (run, full) ↦ inr (rw (held, run) refl, full)
    | inl (idt, rs', run, p) ↦
        let whole = (==_iff b.idt_size 4096).1 fits.idt in
        inl (idt, rs', rw (held, run, whole) refl, p)
  ]

  pub setup_gdt_lem :
      (m : Machine T) (rs : List MemoryRegion)
      → m.frames ≡ some rs
      → AreValid rs
      → IsMapped offset rs
      → ((gdt : ℕ) × (rs' : List MemoryRegion) × (t : T) × (setup_gdt x offset b api m
            ≡ ok (with_gdt m gdt rs' t))
          × (api.entries t ≡ segments)
          × NewPage offset rs gdt rs')
        ⊎ ((setup_gdt x offset b api m ≡ panic) × AreFull rs 1)
  unfolding setup_gdt alloc_gdt load_segments
  setup_gdt_lem m rs held v mapped = elim (alloc_page_lem x offset rs v mapped) [
    | inr (run, full) ↦ inr (rw (held, run) refl, full)
    | inl (gdt, rs', run, p) ↦
        let small : ltb b.gdt_size 4096 ≡ true = ground (arith, fits.gdt) in
        let (t₁, run₁, has₁) =
          append_next api.empty (null ∷ []) kernel_code_segment api.empty_entries (omega arith) in
        let (t₂, run₂, has₂) =
          append_next t₁ (null ∷ kernel_code_segment ∷ []) kernel_data_segment has₁ (omega arith) in
        let (t₃, run₃, has₃) =
          append_next t₂ (null ∷ kernel_code_segment ∷ kernel_data_segment ∷ []) user_data_segment
            has₂ (omega arith) in
        let (t₄, run₄, has₄) =
          append_next t₃ (null ∷ kernel_code_segment ∷ kernel_data_segment ∷ user_data_segment ∷ [])
            user_code_segment has₃ (omega arith) in
        inl (gdt, rs', t₄, rw (held, run, small, run₁, run₂, run₃, run₄) refl, has₄, p)
  ]
