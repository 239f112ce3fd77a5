-- ===== src/Arch/Lapic.antt =====
-- src/arch/x86_64/lapic.rs. A `Lapic` is its address; a device is its registers by address.
pub mod Timer
use os_rust.Shared.{ℕ, ◌+◌, ◌*◌, ◌/◌, ◌%◌, Outcome, ok, ◌>>=◌, ◌==◌, if◌then◌else◌, add64}
use os_rust.Memory.Addr.{AddrApi}
use os_rust.Memory.Translate.{phys_to_virt}
use os_rust.Arch.Machine.{put}

abbrev pub read : (ℕ → ℕ) → ℕ → ℕ → ℕ
read device address offset = device (add64 address offset)

abbrev pub write : (ℕ → ℕ) → ℕ → ℕ → ℕ → ℕ → ℕ
write device address offset value = put device (add64 address offset) value

unfoldable pub send_eoi : (ℕ → ℕ) → ℕ → ℕ → ℕ
send_eoi device address = write device address 0xb0 0

-- `msr.read() & !0xfff`
abbrev pub lapic_phys_addr : ℕ → ℕ
lapic_phys_addr msr = msr / 4096 * 4096

unfoldable pub current_lapic : AddrApi → ℕ → ℕ → Outcome ℕ
current_lapic x offset msr = do phys ← x.phys_new (lapic_phys_addr msr); phys_to_virt x offset phys

-- `svr | (1 << 8)`
abbrev pub enabled : ℕ → ℕ
enabled svr = if svr / 256 % 2 == 1 then svr else svr + 256

-- The writes of `setup_lapic_timer` to the APIC at `lapic`.
unfoldable pub program_timer : (ℕ → ℕ) → ℕ → ℕ → ℕ
program_timer device lapic =
    let svr = read device lapic 0xf0 in
    let device₁ = write device lapic 0xf0 (enabled svr) in
    let device₂ = write device₁ lapic 0x3e0 3 in
    let device₃ = write device₂ lapic 0x320 32 in write device₃ lapic 0x380 0x0fff

unfoldable pub setup_lapic_timer : AddrApi → ℕ → ℕ → (ℕ → ℕ) → Outcome (ℕ → ℕ)
setup_lapic_timer x offset msr device = do
  lapic ← current_lapic x offset msr
  ok (program_timer device lapic)

-- The end of `timer_handler` in src/sched/mod.rs: the next interrupt.
unfoldable pub rearm : AddrApi → ℕ → ℕ → (ℕ → ℕ) → Outcome (ℕ → ℕ)
rearm x offset msr device = do
  lapic ← current_lapic x offset msr
  ok (send_eoi (write device lapic 0x380 0x0fff) lapic)
