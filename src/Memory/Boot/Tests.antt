-- ===== src/Memory/Boot/Tests.antt =====
-- The theorems of `init` at a memory map of three entries, and of the direct map.
use os_rust.Shared.{
  ℕ, zero, suc, ◌<◌, ◌≡◌, ◌⊎◌, inl, List, [], ◌∷◌, true, false, some, none, ok, panic, arith,
  length, get_or, replicate, length-replicate,
}
use os_rust.Memory.Region.{MemoryRegion}
use os_rust.Memory.Tests.{addr_model}
use os_rust.Memory.Translate.{phys_to_virt, virt_to_phys, virt_to_phys-phys_to_virt}
use os_rust.Memory.Boot.{Entry, Placement, init}
use os_rust.Memory.Boot.Located.{Located}
use os_rust.Memory.Boot.Layout.{IsMap, metadata, TooSmall}
use os_rust.Memory.Boot.Init.{IsReady, init-IsReady, init_again}

-- A reserved page, a short usable part, and a longer one.
abbrev memory_map : List Entry
memory_map =
    record { base = 0; length = 4096; usable = false }
    ∷ record { base = 4096; length = 0; usable = true }
    ∷ record { base = 1048576; length = 1048576; usable = true }
    ∷ []

abbrev raw : ℕ → ℕ → List ℕ
raw a n = replicate n 255

raw_length : (a n : ℕ) → length (raw a n) ≡ n
raw_length a n = length-replicate {A = ℕ} n 255

byte_below : (n j : ℕ) → get_or (replicate n 255) j 0 < 256
byte_below zero j = omega arith
byte_below (suc n) zero = omega arith
byte_below (suc n) (suc j) = byte_below n j

memory_map-IsMap : IsMap memory_map
memory_map-IsMap = (
  (λ u. absurd cc),
  (
    λ u. (
      record { aligned = omega arith; whole = omega arith; physical = omega arith },
      (λ w. inl (omega arith), tt),
    ),
    (λ u. (record { aligned = omega arith; whole = omega arith; physical = omega arith }, tt), tt),
  ),
)

init-IsReady_example :
    ((ps : List Placement) × (rs : List MemoryRegion) × (init addr_model raw 40
          (some memory_map)
          (some 65536)
          none
        ≡ ok (ps, some rs))
      × IsReady 40 memory_map rs
      × Located 40 65536 memory_map ps rs)
    ⊎ ((init addr_model raw 40 (some memory_map) (some 65536) none ≡ panic)
        × TooSmall (metadata 40 memory_map) memory_map)
init-IsReady_example =
    init-IsReady addr_model raw raw_length (λ a n j. byte_below n j) 40 memory_map 65536
      memory_map-IsMap ((λ u. absurd cc), ((λ u. omega arith), ((λ u. omega arith), tt)))
      (omega arith) (omega arith)

init_again_example : init addr_model raw 40 (some memory_map) (some 65536) (some []) ≡ panic
init_again_example =
    init_again addr_model raw raw_length (λ a n j. byte_below n j) 40 memory_map 65536 []
      memory_map-IsMap (omega arith) (omega arith)

virt_to_phys-phys_to_virt_example :
    (v : ℕ) × (phys_to_virt addr_model 18446603336221196288 4096 ≡ ok v)
    × (virt_to_phys addr_model 18446603336221196288 v ≡ ok 4096)
virt_to_phys-phys_to_virt_example =
    virt_to_phys-phys_to_virt addr_model 18446603336221196288 4096 (omega arith) (omega arith)
      (omega arith)
