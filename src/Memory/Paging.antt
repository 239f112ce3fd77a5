-- ===== src/Memory/Paging.antt =====
-- src/memory/vmm.rs: `map_page` over page tables in memory. `offset` is the direct map, and `cr3` the
-- physical address of the table in use.
pub mod Tables
pub mod Fresh
pub mod Steps
pub mod Laws
pub mod Tests
use os_rust.Shared.{
  ℕ, ◌+◌, ◌*◌, ◌/◌, ◌%◌, ◌^◌, ◌<◌, ◌≡◌, Bool, true, Outcome, ok, panic, ◌>>=◌, if◌then◌else◌,
}
use os_rust.Memory.Addr.{AddrApi}
use os_rust.Memory.Frame.{Frame, AllocResult, success, failure}
use os_rust.Memory.Allocator.{Slot, alloc_one}
use os_rust.Memory.Translate.{phys_to_virt}
use os_rust.Arch.Words.{Words, write}

-- What `map_page` uses of the `x86_64` package's `PageTableEntry`, which is one word, with the
-- behaviour that the package documents.
pub record EntryApi : Type 0 where
  pub addr : ℕ → ℕ
  -- `flags().contains(PageTableFlags::PRESENT)`
  pub is_present : ℕ → Bool
  -- `set_addr` with the flags `PRESENT` and `WRITABLE`: the new word. It panics where the address is
  -- not that of a page.
  pub set_addr : ℕ → Outcome ℕ
  pub set_addr_page :
      (a : ℕ)
      → a % 4096 ≡ 0
      → a < 2 ^ 52
      → (w : ℕ) × (set_addr a ≡ ok w) × (addr w ≡ a) × (is_present w ≡ true)

abbrev pub pml4_index : ℕ → ℕ
pml4_index virt = virt / 2 ^ 39 % 512

abbrev pub pdpt_index : ℕ → ℕ
pdpt_index virt = virt / 2 ^ 30 % 512

abbrev pub pd_index : ℕ → ℕ
pd_index virt = virt / 2 ^ 21 % 512

abbrev pub pt_index : ℕ → ℕ
pt_index virt = virt / 2 ^ 12 % 512

module _ (x : AddrApi) (offset : ℕ) (api : EntryApi) where
  -- Where an entry of the table at a physical address lies.
  unfoldable pub entry_at : ℕ → ℕ → Outcome ℕ
  entry_at table i = do base ← phys_to_virt x offset table; ok (base + 8 * i)

  unfoldable pub link : Words → ℕ → AllocResult Frame → Slot → Outcome (ℕ × Slot × Words)
  link m entry (failure e) frames = panic
  link m entry (success new_page) frames = do
    w ← api.set_addr new_page.addr
    ok (api.addr w, frames, write m entry w)

  -- The table below an entry, which is allocated where there is none.
  unfoldable pub child : Slot → Words → ℕ → Outcome (ℕ × Slot × Words)
  child frames m entry =
      if api.is_present (m entry)
      then ok (api.addr (m entry), frames, m)
      else do (result, frames') ← alloc_one x frames; link m entry result frames'

  unfoldable pub map_page : ℕ → ℕ → ℕ → Slot → Words → Outcome (Slot × Words)
  map_page cr3 phys virt frames m = do
    pml4_entry ← entry_at cr3 (pml4_index virt)
    pdpt_entry ← entry_at (api.addr (m pml4_entry)) (pdpt_index virt)
    (pd, frames', m') ← child frames m pdpt_entry
    pd_entry ← entry_at pd (pd_index virt)
    (pt, frames'', m'') ← child frames' m' pd_entry
    pt_entry ← entry_at pt (pt_index virt)
    page ← x.phys_new phys
    w ← api.set_addr page
    ok (frames'', write m'' pt_entry w)
