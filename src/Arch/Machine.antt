-- ===== src/Arch/Machine.antt =====
-- The state of a CPU that starts: its registers, the objects it has put on pages of their own, by
-- address, and the registers of its local APIC, by address. `T` stands for the package's
-- `GlobalDescriptorTable<7>`.
use os_rust.Shared.{
  ℕ, ◌<◌, ◌≡◌, ◌==◌, if◌then◌else◌, List, [], ◌∷◌, ◌++◌, Option, Outcome, ok, length,
}
use os_rust.Memory.Allocator.{Slot}
use os_rust.Arch.Words.{Words}
use os_rust.Arch.Cpu.{TlsData, CpuData}
use os_rust.Sched.Balance.{Store}

abbrev pub put {ℓ} : {A : Type ℓ} → (ℕ → A) → ℕ → A → ℕ → A
put f a v b = if b == a then v else f b

-- `Descriptor`, as far as src/arch/x86_64/gdt.rs names it
pub data Descriptor : Type 0 where
  null kernel_code_segment kernel_data_segment user_data_segment user_code_segment : Descriptor

-- What src/arch/x86_64/gdt.rs uses of the `x86_64` package's table of seven entries: it begins with
-- the null entry, and `append` fills the next one.
pub record GdtApi (T : Type 0) : Type 0 where
  pub empty : T
  pub append : T → Descriptor → Outcome T
  pub entries : T → List Descriptor
  pub empty_entries : entries empty ≡ null ∷ []
  pub append_entries :
      (t : T) (d : Descriptor)
      → length (entries t) < 7
      → (t' : T) × (append t d ≡ ok t') × (entries t' ≡ entries t ++ (d ∷ []))

-- The functions that src/arch/x86_64/idt.rs enters in the table.
pub data Handler : Type 0 where
  breakpoint_handler page_fault_handler timer_interrupt : Handler

-- An entry of the interrupt table; `privilege` is the ring that may call it.
pub record Gate : Type 0 where
  pub handler : Handler
  pub privilege : ℕ

abbrev pub Idt : Type 0
Idt = ℕ → Option Gate

pub record Machine (T : Type 0) : Type 0 where
  pub frames : Slot
  pub memory : Words
  pub regs : ℕ → ℕ
  pub store : Store
  pub pages : ℕ → TlsData
  pub cpus : List CpuData
  pub gdts : ℕ → T
  pub idts : ℕ → Idt
  pub lapic : ℕ → ℕ
  pub gs_base : ℕ
  pub gdtr : ℕ
  pub idtr : ℕ
  pub cs : ℕ
  pub ds : ℕ
  pub ss : ℕ
  pub es : ℕ
  pub fs : ℕ
  pub gs : ℕ

-- What the build and the hardware fix: the sizes of three types, the place of `idle_thread` in
-- `TlsData`, the address of `idle_thread_entry`, and the register `IA32_APIC_BASE`.
pub record Build : Type 0 where
  pub tls_size : ℕ
  pub gdt_size : ℕ
  pub idt_size : ℕ
  pub idle_offset : ℕ
  pub idle_entry : ℕ
  pub apic_base : ℕ
