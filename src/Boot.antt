-- ===== src/Boot.antt =====
-- src/main.rs, the loop of `kmain` over the CPUs of the boot loader's response.
pub mod Cpus
pub mod Main
pub mod Tests
use os_rust.Shared.{
  ℕ, List, [], ◌∷◌, Option, none, some, Outcome, ok, ◌>>=◌, unwrap, ◌==◌, if◌then◌else◌,
}

-- What `kmain` uses of a CPU of the response. A CPU starts at the address that is written to
-- `goto_address`.
pub record MpCpu : Type 0 where
  pub id : ℕ
  pub lapic_id : ℕ
  pub goto_address : Option ℕ

pub record MpResponse : Type 0 where
  pub cpus : List MpCpu
  pub bsp_lapic_id : ℕ

-- The loop, with `bsp_cpu` so far.
unfoldable pub start_others : ℕ → ℕ → List MpCpu → Option MpCpu → List MpCpu × Option MpCpu
start_others common_entry bsp_lapic_id [] bsp_cpu = ([], bsp_cpu)
start_others common_entry bsp_lapic_id (cpu ∷ cpus) bsp_cpu =
    let is_bsp = cpu.lapic_id == bsp_lapic_id in
    let (cpus', found) =
      start_others common_entry bsp_lapic_id cpus (if is_bsp then some cpu else bsp_cpu) in
    ((if is_bsp then cpu else record cpu { goto_address = some common_entry }) ∷ cpus', found)

-- The CPUs after the loop, and the one that goes on.
unfoldable pub start_cpus : ℕ → Option MpResponse → Outcome (List MpCpu × MpCpu)
start_cpus common_entry resp = do
  mp_resp ← unwrap resp
  let (cpus, bsp_cpu) = start_others common_entry mp_resp.bsp_lapic_id mp_resp.cpus none
  cpu ← unwrap bsp_cpu
  ok (cpus, cpu)
