-- ===== src/Memory/Paging/Tests.antt =====
-- A root table with one entry, mapped to below from four free frames.
use os_rust.Shared.{
  ℕ, ◌+◌, ◌-◌, ◌*◌, ◌/◌, ◌%◌, ◌^◌, ◌<◌, ◌≡◌, refl, List, [], ◌∷◌, true, Outcome, ok, panic, ◌==◌,
  ==_iff, if◌then◌else◌, arith,
}
use os_rust.Memory.Region.{MemoryRegion}
use os_rust.Arch.Words.{Words}
use os_rust.Memory.Paging.{EntryApi}
use os_rust.Memory.Paging.Tables.{Levels}

-- An entry is an address with flags in its low bits.
abbrev set_address : ℕ → Outcome ℕ
set_address a = if a % 4096 == 0 then ok (a + 3) else panic

abbrev address : ℕ → ℕ
address w = w / 4096 * 4096 % 2 ^ 52

pub set_address_page :
    (a : ℕ)
    → a % 4096 ≡ 0
    → a < 2 ^ 52
    → (w : ℕ) × (set_address a ≡ ok w) × (address w ≡ a) × ((w % 2 == 1) ≡ true)
set_address_page a even small =
    let page = (==_iff (a % 4096) 0).1 even in (a + 3, rw page refl, omega arith, ground arith)

abbrev pub entry_model : EntryApi
entry_model = record {
  addr = address;
  is_present = λ w. w % 2 == 1;
  set_addr = set_address;
  set_addr_page = set_address_page;
}

abbrev region : MemoryRegion
region = record { start = 40960; end = 57344; bitmap = record { size = 4; bytes = 0 ∷ [] } }

abbrev regions : List MemoryRegion
regions = region ∷ []

abbrev offset : ℕ
offset = 2 ^ 64 - 2 ^ 47

abbrev pub level : ℕ → ℕ
level a = if a == 4096 then 4 else if a == 8192 then 3 else 0

abbrev pub memory : Words
memory b = if b == 4096 + offset + 8 * 256 then 8195 else 0

pub level-Levels : Levels offset entry_model level memory
level-Levels = record {
  aligned = λ a ne. ground arith;
  reach = λ a ne. ground arith;
  children = λ a l i at h p. ground arith;
}
