-- ===== src/Boot/Main.antt =====
-- src/main.rs, `kmain` from its start on, with the answers to the requests of src/boot/requests.rs as a
-- record. What `memory::init` prints is left
-- out; it would change the terminal alone.

pub mod Tables
pub mod Prepare
pub mod Laws
mod Tests
use os_rust.Shared.{
  ℕ, List, [], ◌∷◌, ◌++◌, Bool, Option, none, some, Outcome, ok, ◌>>=◌, ◌>>◌, unwrap, assert,
}
use os_rust.Memory.Addr.{AddrApi}
use os_rust.Memory.Allocator.{Slot}
use os_rust.Memory.Boot.{Entry, Span, spans}
use os_rust.Memory.Facade
use os_rust.Memory.Facade.{Physical}
use os_rust.Memory.Paging.{EntryApi, map_page}
use os_rust.Console.Framebuffer.{LimineFramebuffer}
use os_rust.Console.Terminal.{Terminal}
use os_rust.Console.Log
use os_rust.Console.Log.{log}
use os_rust.Arch.Words.{Words}
use os_rust.Arch.Machine.{GdtApi, Machine, Build}
use os_rust.Arch.Lapic.{lapic_phys_addr, current_lapic}
use os_rust.Arch.Startup.{common_entry}
use os_rust.Sched.Registers.{Register, Context}
use os_rust.Boot.{MpCpu, MpResponse, start_cpus}

pub record BootloaderInfo : Type 0 where
  pub name : List ℕ
  pub version : List ℕ

-- The responses of the boot loader.
pub record Responses : Type 0 where
  pub is_supported : Bool
  pub loaded_revision : Option ℕ
  pub bootloader_info : Option BootloaderInfo
  pub framebuffer : Option LimineFramebuffer
  pub memory_map : Option (List Entry)
  pub hhdm : Option ℕ
  pub mp : Option MpResponse

-- `\x1b[93m`, the text, `\x1b[m` and the line break of `println!`
abbrev pub yellow : List ℕ → List ℕ
yellow text = (27 ∷ b'[' ∷ b'9' ∷ b'3' ∷ b'm' ∷ []) ++ (text ++ (27 ∷ b'[' ∷ b'm' ∷ 10 ∷ []))

abbrev pub bootloader_label : List ℕ
bootloader_label =
    b'B' ∷ b'o' ∷ b'o' ∷ b't' ∷ b'l' ∷ b'o' ∷ b'a' ∷ b'd' ∷ b'e' ∷ b'r' ∷ b':' ∷ b' ' ∷ []

abbrev pub revision_label : List ℕ
revision_label =
    b'P' ∷ b'r' ∷ b'o' ∷ b't' ∷ b'o' ∷ b'c' ∷ b'o' ∷ b'l' ∷ b' ' ∷ b'b' ∷ b'a' ∷ b's' ∷ b'e' ∷ b' '
    ∷ b'r' ∷ b'e' ∷ b'v' ∷ b'i' ∷ b's' ∷ b'i' ∷ b'o' ∷ b'n' ∷ b':' ∷ b' ' ∷ []

-- The first message, where the boot loader tells its name and version.
unfoldable pub print_bootloader :
    Option BootloaderInfo → Option Terminal → Outcome (Option Terminal)
print_bootloader none guard = ok guard
print_bootloader (some info) guard =
    log (yellow (bootloader_label ++ (info.name ++ (b' ' ∷ info.version)))) guard

-- The kernel when `kmain` calls `common_entry`.
pub record Booted : Type 0 where
  pub terminal : Option Terminal
  pub physical : Physical
  pub memory : Words
  pub cpus : List MpCpu
  pub bsp_cpu : MpCpu

-- `raw` is the memory that the metadata of the allocator takes, and `written` puts that metadata, as
-- the compiler lays it out, in the words of memory where `init` writes it. `entry` is the address of `common_entry`,
-- and `display` makes the text of a number.
module _ (x : AddrApi) (raw : ℕ → ℕ → List ℕ) (region_size : ℕ)
    (written : List Span → Slot → Words → Words) (api : EntryApi) (display : ℕ → List ℕ) (b : Build)
    (cr3 entry : ℕ) where
  unfoldable pub prepare : Responses → Option Terminal → Physical → Words → Outcome Booted
  prepare r guard physical memory = do
    assert r.is_supported
    let (found, terminal) = Log.init r.framebuffer guard
    assert found
    terminal₁ ← print_bootloader r.bootloader_info terminal
    revision ← unwrap r.loaded_revision
    terminal₂ ← log (yellow (revision_label ++ display revision)) terminal₁
    (placements, physical₁) ← Facade.init x raw region_size r.memory_map r.hhdm physical
    lapic ← current_lapic x physical₁.hhdm_offset b.apic_base
    (frames, memory₁) ←
        map_page x physical₁.hhdm_offset api cr3 (lapic_phys_addr b.apic_base) lapic physical₁.slot
          (written (spans placements region_size) physical₁.slot memory)
    (cpus, bsp_cpu) ← start_cpus entry r.mp
    ok (record {
      terminal = terminal₂;
      physical = record physical₁ { slot = frames };
      memory = memory₁;
      cpus = cpus;
      bsp_cpu = bsp_cpu;
    })

  module _ {T : Type 0} (gdt_api : GdtApi T) where
    -- `m` is the machine as the boot loader leaves it.
    unfoldable pub kmain :
        (Register → ℕ)
        → Responses
        → Option Terminal
        → Physical
        → Machine T
        → Outcome (Booted × Machine T × Context)
    kmain scratch r guard physical m = do
      booted ← prepare r guard physical m.memory
      (m', c) ←
          common_entry x booted.physical.hhdm_offset b gdt_api scratch booted.bsp_cpu.id
            (record m { frames = booted.physical.slot; memory = booted.memory })
      ok (booted, m', c)
