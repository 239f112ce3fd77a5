-- ===== src/Arch/Lapic/Timer.antt =====
-- What `setup_lapic_timer` writes.
use os_rust.Shared.{ℕ, ◌+◌, ◌-◌, ◌^◌, ◌≤◌, ◌<◌, ◌≡◌, ◌≢◌, refl, ap, ok, arith, add64}
use os_rust.Memory.Addr.{AddrApi}
use os_rust.Memory.Translate.{phys_to_virt_high}
use os_rust.Arch.Machine.{Build}
use os_rust.Arch.Lapic.{
  lapic_phys_addr, current_lapic, enabled, program_timer, setup_lapic_timer, write, send_eoi, rearm,
}

-- The registers of the local APIC lie in the direct map.
pub record HasLapic (offset : ℕ) (b : Build) : Type 0 where
  pub physical : lapic_phys_addr b.apic_base < 2 ^ 52
  pub mapped : lapic_phys_addr b.apic_base + offset + 4096 ≤ 2 ^ 64

-- The timer of the local APIC at `lapic`: one shot after 0x0fff ticks of the divided clock, at vector
-- 32, with the APIC enabled.
pub record TimerSet (before device : ℕ → ℕ) (lapic : ℕ) : Type 0 where
  pub spurious : device (lapic + 0xf0) ≡ enabled (before (lapic + 0xf0))
  pub divider : device (lapic + 0x3e0) ≡ 3
  pub vector : device (lapic + 0x320) ≡ 32
  pub count : device (lapic + 0x380) ≡ 0x0fff

pub program_timer_lem :
    (device : ℕ → ℕ) (lapic : ℕ)
    → lapic + 4096 ≤ 2 ^ 64
    → TimerSet device (program_timer device lapic) lapic
unfolding program_timer
program_timer_lem device lapic h = record {
  spurious = ground (arith, ap device (there 0xf0 (omega arith)));
  divider = ground arith;
  vector = ground arith;
  count = ground arith;
}
  where
    there : (o : ℕ) → o < 4096 → add64 lapic o ≡ lapic + o
    there o h' = omega arith

pub setup_lapic_timer_lem :
    (x : AddrApi) (offset : ℕ) (b : Build) (device : ℕ → ℕ)
    → 2 ^ 64 - 2 ^ 47 ≤ offset
    → HasLapic offset b
    → setup_lapic_timer x offset b.apic_base device
      ≡ ok (program_timer device (lapic_phys_addr b.apic_base + offset))
unfolding setup_lapic_timer current_lapic
setup_lapic_timer_lem x offset b device high h =
    let phys = lapic_phys_addr b.apic_base in
    let there = phys_to_virt_high x offset phys high (omega (arith, h.mapped)) in
    rw (x.phys_new_valid phys h.physical, there) refl

rearmed :
    (before device : ℕ → ℕ) (lapic : ℕ)
    → lapic + 4096 ≤ 2 ^ 64
    → TimerSet before device lapic
    → TimerSet before (send_eoi (write device lapic 0x380 0x0fff) lapic) lapic
      × (send_eoi (write device lapic 0x380 0x0fff) lapic (lapic + 0xb0) ≡ 0)
unfolding send_eoi
rearmed before device lapic h timer = (
  record {
    spurious = ground (arith, timer.spurious);
    divider = ground (arith, timer.divider);
    vector = ground (arith, timer.vector);
    count = ground arith;
  },
  ground arith,
)

-- Once the timer is set, the end of `timer_handler` acknowledges the interrupt and starts the count
-- again; the divider, the vector and the spurious register stay set.
pub rearm-TimerSet :
    (x : AddrApi) (offset : ℕ) (b : Build) (before device : ℕ → ℕ)
    → 2 ^ 64 - 2 ^ 47 ≤ offset
    → HasLapic offset b
    → TimerSet before device (lapic_phys_addr b.apic_base + offset)
    → (device' : ℕ → ℕ) × (rearm x offset b.apic_base device ≡ ok device')
      × TimerSet before device' (lapic_phys_addr b.apic_base + offset)
      × (device' (lapic_phys_addr b.apic_base + offset + 0xb0) ≡ 0)
unfolding rearm current_lapic
rearm-TimerSet x offset b before device high h timer =
    let phys = lapic_phys_addr b.apic_base in
    let there = phys_to_virt_high x offset phys high (omega (arith, h.mapped)) in
    (
      send_eoi (write device (phys + offset) 0x380 0x0fff) (phys + offset),
      rw (x.phys_new_valid phys h.physical, there) refl,
      (rearmed before device (phys + offset) h.mapped timer).0,
      (rearmed before device (phys + offset) h.mapped timer).1,
    )

-- The interrupt is acknowledged and the count starts again; the other registers are as they were.
pub record Rearmed (device device' : ℕ → ℕ) (lapic : ℕ) : Type 0 where
  pub acknowledged : device' (lapic + 0xb0) ≡ 0
  pub count : device' (lapic + 0x380) ≡ 0x0fff
  pub others : (a : ℕ) → a ≢ lapic + 0xb0 → a ≢ lapic + 0x380 → device' a ≡ device a

send_eoi-Rearmed :
    (device : ℕ → ℕ) (lapic : ℕ)
    → lapic + 4096 ≤ 2 ^ 64
    → Rearmed device (send_eoi (write device lapic 0x380 0x0fff) lapic) lapic
unfolding send_eoi
send_eoi-Rearmed device lapic h = record {
  acknowledged = ground arith;
  count = ground arith;
  others = λ a ne ne'. ground (arith, ne, ne');
}

-- The end of `timer_handler`, whatever the registers were.
pub rearm-Rearmed :
    (x : AddrApi) (offset : ℕ) (b : Build) (device : ℕ → ℕ)
    → 2 ^ 64 - 2 ^ 47 ≤ offset
    → HasLapic offset b
    → (device' : ℕ → ℕ) × (rearm x offset b.apic_base device ≡ ok device')
      × Rearmed device device' (lapic_phys_addr b.apic_base + offset)
unfolding rearm current_lapic
rearm-Rearmed x offset b device high h =
    let phys = lapic_phys_addr b.apic_base in
    let there = phys_to_virt_high x offset phys high (omega (arith, h.mapped)) in
    (
      send_eoi (write device (phys + offset) 0x380 0x0fff) (phys + offset),
      rw (x.phys_new_valid phys h.physical, there) refl,
      send_eoi-Rearmed device (phys + offset) h.mapped,
    )
