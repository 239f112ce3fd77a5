-- ===== src/Memory/Facade/Tests.antt =====
-- `init` on a map of one long entry.
use os_rust.Shared.{
  ℕ, zero, suc, ◌+◌, ◌-◌, ◌^◌, ◌<◌, ◌≡◌, ◌⊎◌, List, [], ◌∷◌, true, some, none, ok, panic, arith,
  length, get_or, replicate, length-replicate,
}
use os_rust.Memory.Region.{MemoryRegion}
use os_rust.Memory.Frame.{FrameRange, success, failure, out_of_memory}
use os_rust.Memory.Allocator.States.{AreValid, state_of}
use os_rust.Memory.Allocator.Alloc.{AreFull}
use os_rust.Memory.Tests.{addr_model, regions, regions-AreValid}
use os_rust.Memory.Boot.{Entry, Placement}
use os_rust.Memory.Boot.Layout.{IsMap, metadata, TooSmall}
use os_rust.Memory.Pages.{IsMapped}
use os_rust.Memory.Boot.Init.{IsReady}
use os_rust.Memory.Boot.Located.{Located, needed}
use os_rust.Memory.Facade.{Physical, init, total_frames, free_frames, alloc_frames, dealloc_frames}
use os_rust.Memory.Facade.Counts.{usable_frames, free_frames-init}
use os_rust.Memory.Facade.Laws.{init-IsMapped, dealloc_frames-alloc_frames}

abbrev pub memory_map : List Entry
memory_map = record { base = 1048576; length = 1048576; usable = true } ∷ []

pub memory_map-IsMap : IsMap memory_map
memory_map-IsMap =
    (λ u. (record { aligned = omega arith; whole = omega arith; physical = omega arith }, tt), tt)

abbrev pub raw : ℕ → ℕ → List ℕ
raw a n = replicate n 255

pub raw_length : (a n : ℕ) → length (raw a n) ≡ n
raw_length a n = length-replicate {A = ℕ} n 255

pub byte_below : (n j : ℕ) → get_or (replicate n 255) j 0 < 256
byte_below zero j = omega arith
byte_below (suc n) zero = omega arith
byte_below (suc n) (suc j) = byte_below n j

init-IsMapped_example :
    ((ps : List Placement) × (rs : List MemoryRegion) × (init addr_model raw 40
          (some memory_map)
          (some (2 ^ 64 - 2 ^ 47))
          (record { slot = none; hhdm_offset = 0 })
        ≡ ok (ps, record { slot = some rs; hhdm_offset = 2 ^ 64 - 2 ^ 47 }))
      × IsReady 40 memory_map rs
      × Located 40 (2 ^ 64 - 2 ^ 47) memory_map ps rs
      × IsMapped (2 ^ 64 - 2 ^ 47) rs)
    ⊎ ((init addr_model raw 40
            (some memory_map)
            (some (2 ^ 64 - 2 ^ 47))
            (record { slot = none; hhdm_offset = 0 })
          ≡ panic)
        × TooSmall (metadata 40 memory_map) memory_map)
init-IsMapped_example =
    init-IsMapped addr_model raw raw_length (λ a n j. byte_below n j) 40 memory_map
      (2 ^ 64 - 2 ^ 47) memory_map-IsMap (λ u. omega arith, tt) (omega arith) (omega arith)
      (omega arith) (omega arith)

free_frames-init_example :
    ((ps : List Placement) × (p : Physical) × (free : ℕ) × (init addr_model raw 40
          (some memory_map)
          (some (2 ^ 64 - 2 ^ 47))
          (record { slot = none; hhdm_offset = 0 })
        ≡ ok (ps, p))
      × (free_frames p ≡ ok free)
      × (total_frames p ≡ usable_frames memory_map)
      × (free + needed 40 memory_map ≡ usable_frames memory_map))
    ⊎ ((init addr_model raw 40
            (some memory_map)
            (some (2 ^ 64 - 2 ^ 47))
            (record { slot = none; hhdm_offset = 0 })
          ≡ panic)
        × TooSmall (metadata 40 memory_map) memory_map)
free_frames-init_example =
    free_frames-init addr_model raw raw_length (λ a n j. byte_below n j) 40 memory_map
      (2 ^ 64 - 2 ^ 47) memory_map-IsMap (λ u. omega arith, tt) (omega arith) (omega arith)
      (omega arith) (omega arith)

dealloc_frames-alloc_frames_example :
    ((f : FrameRange) × (rs' : List MemoryRegion) × (rs'' : List MemoryRegion) × (alloc_frames
          addr_model 2
          (record { slot = some regions; hhdm_offset = 4096 })
        ≡ ok (success f, record { slot = some rs'; hhdm_offset = 4096 }))
      × (dealloc_frames addr_model f (record { slot = some rs'; hhdm_offset = 4096 })
          ≡ ok (record { slot = some rs''; hhdm_offset = 4096 }))
      × AreValid rs''
      × ((a : ℕ) → state_of rs'' a ≡ state_of regions a))
    ⊎ ((alloc_frames addr_model 2 (record { slot = some regions; hhdm_offset = 4096 })
          ≡ ok (failure out_of_memory, record { slot = some regions; hhdm_offset = 4096 }))
        × AreFull regions 2)
dealloc_frames-alloc_frames_example =
    dealloc_frames-alloc_frames addr_model regions 2 4096 regions-AreValid (omega arith)
