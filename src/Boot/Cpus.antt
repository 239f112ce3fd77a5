-- ===== src/Boot/Cpus.antt =====
-- Which CPUs start.
use os_rust.Shared.{
  ℕ, zero, suc, ◌≡◌, ◌⊎◌, inl, inr, refl, List, [], ◌∷◌, false, Option, none, some, ok, panic, ◌==◌,
  ==_iff, if◌then◌else◌, Bool-cases, get_elem?,
}
use os_rust.Boot.{MpCpu, MpResponse, start_others, start_cpus}

-- The CPU is in the list and has the id.
pub record IsBsp (bsp_lapic_id : ℕ) (cpus : List MpCpu) (cpu : MpCpu) : Type 0 where
  pub place : ℕ
  pub listed : get_elem? cpus place ≡ some cpu
  pub same : cpu.lapic_id ≡ bsp_lapic_id

IsBsp-cons :
    {bsp_lapic_id : ℕ} {cpus : List MpCpu} {cpu : MpCpu} (other : MpCpu)
    → IsBsp bsp_lapic_id cpus cpu
    → IsBsp bsp_lapic_id (other ∷ cpus) cpu
IsBsp-cons other b = record { place = suc b.place; listed = b.listed; same = b.same }

-- The CPU after the loop.
abbrev pub sent : ℕ → ℕ → MpCpu → MpCpu
sent common_entry bsp_lapic_id cpu =
    if cpu.lapic_id == bsp_lapic_id then cpu else record cpu { goto_address = some common_entry }

module _ (common_entry bsp_lapic_id : ℕ) where
  all_sent :
      (cpus : List MpCpu) (bsp_cpu : Option MpCpu) (i : ℕ) (cpu : MpCpu)
      → get_elem? cpus i ≡ some cpu
      → get_elem? (start_others common_entry bsp_lapic_id cpus bsp_cpu).0 i
        ≡ some (sent common_entry bsp_lapic_id cpu)
  unfolding start_others
  all_sent [] bsp_cpu i cpu e = absurd cc
  all_sent (c ∷ cpus) bsp_cpu zero cpu e = let same : c ≡ cpu = cc in rw (← same) refl
  all_sent (c ∷ cpus) bsp_cpu (suc i) cpu e =
      all_sent cpus (if c.lapic_id == bsp_lapic_id then some c else bsp_cpu) i cpu e

  -- What the loop finds: a CPU of the list, or what it started with, if no CPU of the list has the id.
  found_cases :
      (cpus : List MpCpu) (bsp_cpu : Option MpCpu)
      → ((cpu : MpCpu) × ((start_others common_entry bsp_lapic_id cpus bsp_cpu).1 ≡ some cpu)
          × IsBsp bsp_lapic_id cpus cpu)
        ⊎ (((start_others common_entry bsp_lapic_id cpus bsp_cpu).1 ≡ bsp_cpu)
            × ((i : ℕ) (cpu : MpCpu)
                → get_elem? cpus i ≡ some cpu
                → (cpu.lapic_id == bsp_lapic_id) ≡ false))
  unfolding start_others
  found_cases [] bsp_cpu = inr (refl, λ i cpu e. absurd cc)
  found_cases (c ∷ cpus) bsp_cpu = elim (Bool-cases (c.lapic_id == bsp_lapic_id)) [
    | inl s ↦ elim (found_cases cpus (some c)) [
      | inl (cpu, e, b) ↦ inl (cpu, rw s e, IsBsp-cons c b)
      | inr (e, others) ↦ inl (
        c,
        rw s e,
        record { place = 0; listed = refl; same = (==_iff c.lapic_id bsp_lapic_id).0 s },
      )
    ]
    | inr s ↦ elim (found_cases cpus bsp_cpu) [
      | inl (cpu, e, b) ↦ inl (cpu, rw s e, IsBsp-cons c b)
      | inr (e, others) ↦ inr (rw s e, none_before c cpus s others)
    ]
  ]
    where
      none_before :
          (c : MpCpu) (cpus : List MpCpu)
          → (c.lapic_id == bsp_lapic_id) ≡ false
          → ((i : ℕ) (cpu : MpCpu)
              → get_elem? cpus i ≡ some cpu
              → (cpu.lapic_id == bsp_lapic_id) ≡ false)
          → (i : ℕ) (cpu : MpCpu) → get_elem? (c ∷ cpus) i ≡ some cpu
          → (cpu.lapic_id == bsp_lapic_id) ≡ false
      none_before c cpus s others zero cpu e = let same : c ≡ cpu = cc in rw (← same) s
      none_before c cpus s others (suc i) cpu e = others i cpu e

-- `kmain` goes on with a CPU that has the boot processor's id, and sends every CPU with another id to
-- `common_entry`; or it panics, where no CPU has that id.
pub start_cpus_lem :
    (common_entry : ℕ) (resp : MpResponse)
    → ((cpus : List MpCpu) × (cpu : MpCpu) × (start_cpus common_entry (some resp) ≡ ok (cpus, cpu))
        × IsBsp resp.bsp_lapic_id resp.cpus cpu
        × ((i : ℕ) (c : MpCpu)
            → get_elem? resp.cpus i ≡ some c
            → get_elem? cpus i ≡ some (sent common_entry resp.bsp_lapic_id c)))
      ⊎ ((start_cpus common_entry (some resp) ≡ panic)
          × ((i : ℕ) (c : MpCpu)
              → get_elem? resp.cpus i ≡ some c
              → (c.lapic_id == resp.bsp_lapic_id) ≡ false))
unfolding start_cpus
start_cpus_lem common_entry resp =
    elim (found_cases common_entry resp.bsp_lapic_id resp.cpus none) [
      | inl (cpu, e, b) ↦
          inl (_, cpu, rw e refl, b, all_sent common_entry resp.bsp_lapic_id resp.cpus none)
      | inr (e, others) ↦ inr (rw e refl, others)
    ]
