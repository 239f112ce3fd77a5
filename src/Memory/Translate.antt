-- ===== src/Memory/Translate.antt =====
-- src/memory/mod.rs: the direct map between physical and virtual addresses. `offset` is what `init`
-- stored in `HHDM_OFFSET`.
use os_rust.Shared.{ℕ, ◌+◌, ◌-◌, ◌^◌, ◌≤◌, ◌<◌, ◌≡◌, ap, ◌∙◌, Outcome, ok, add64, sub64, arith}
use os_rust.Memory.Addr.{AddrApi}

unfoldable pub phys_to_virt : AddrApi → ℕ → ℕ → Outcome ℕ
phys_to_virt x offset addr = x.virt_new (add64 addr offset)

unfoldable pub virt_to_phys : AddrApi → ℕ → ℕ → Outcome ℕ
virt_to_phys x offset addr = x.phys_new (sub64 addr offset)

pub phys_to_virt_high :
    (x : AddrApi) (offset addr : ℕ)
    → 2 ^ 64 - 2 ^ 47 ≤ offset
    → addr + offset < 2 ^ 64
    → phys_to_virt x offset addr ≡ ok (addr + offset)
unfolding phys_to_virt
phys_to_virt_high x offset addr high fits =
    let there : add64 addr offset ≡ addr + offset = omega arith in
    ap x.virt_new there ∙ x.virt_new_high (addr + offset) (omega arith) fits

-- Where the direct map lies in the upper half of the address space and does not run past its end,
-- `phys_to_virt` of a physical address below 2^52 returns, and `virt_to_phys` takes the result back.
pub virt_to_phys-phys_to_virt :
    (x : AddrApi) (offset addr : ℕ)
    → addr < 2 ^ 52
    → 2 ^ 64 - 2 ^ 47 ≤ offset
    → addr + offset < 2 ^ 64
    → (v : ℕ) × (phys_to_virt x offset addr ≡ ok v) × (virt_to_phys x offset v ≡ ok addr)
unfolding virt_to_phys
virt_to_phys-phys_to_virt x offset addr small high fits =
    let back : sub64 (addr + offset) offset ≡ addr = omega arith in
    (
      addr + offset,
      phys_to_virt_high x offset addr high fits,
      ap x.phys_new back ∙ x.phys_new_valid addr small,
    )
