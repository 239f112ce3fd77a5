-- ===== src/Sched/Spawn/Tests.antt =====
-- Threads made from four free frames.
use os_rust.Shared.{
  ℕ, zero, suc, ◌+◌, ◌-◌, ◌^◌, ◌<◌, ◌≡◌, ◌⊎◌, refl, List, [], ◌∷◌, none, some, ok, panic, get_or,
  get_elem?, arith,
}
use os_rust.Memory.Region.{MemoryRegion}
use os_rust.Memory.Region.Alloc.{IsValid}
use os_rust.Memory.Allocator.States.{AreValid}
use os_rust.Memory.Allocator.Alloc.{AreFull}
use os_rust.Memory.Tests.{addr_model}
use os_rust.Memory.Pages.{IsMapped}
use os_rust.Arch.Words.{Words}
use os_rust.Sched.Tests.{busy, empty, empty-Represents, table}
use os_rust.Sched.Table.Laws.{IsFull}
use os_rust.Sched.Thread.{Stack}
use os_rust.Sched.Spawn.{Kernel, spawn_raw}
use os_rust.Sched.Spawn.Laws.{Prepared, Queued, after, spawn_raw_lem}

abbrev region : MemoryRegion
region = record { start = 40960; end = 57344; bitmap = record { size = 4; bytes = 0 ∷ [] } }

is_byte : (j : ℕ) → get_or (0 ∷ []) j 0 < 256
is_byte zero = omega arith
is_byte (suc j) = omega arith

region-IsValid : IsValid region
region-IsValid = record {
  bitmap_valid = record { is_byte = is_byte; covers = omega arith };
  aligned = refl;
  frames_inside = omega arith;
  end_physical = omega arith;
}

abbrev pub regions : List MemoryRegion
regions = region ∷ []

pub regions-AreValid : AreValid regions
regions-AreValid = (region-IsValid, tt, tt)

covers :
    (i : ℕ) (r : MemoryRegion) → get_elem? regions i ≡ some r → r.end + (2 ^ 64 - 2 ^ 47) < 2 ^ 64
covers zero r e = let same : region ≡ r = cc in rw (← same) (omega arith)
covers (suc i) r e = absurd cc

pub regions-IsMapped : IsMapped (2 ^ 64 - 2 ^ 47) regions
regions-IsMapped = record { high = omega arith; aligned = omega arith; covers = covers }

abbrev kernel : Kernel
kernel = record {
  frames = some regions;
  memory = λ a. 0;
  table = table;
  next_id = 1;
  cpu = record busy { ready_queue = empty };
}

spawn_raw_lem_example :
    ((spawn_raw addr_model (2 ^ 64 - 2 ^ 47) (λ i. i) 4096 5 kernel ≡ panic) × AreFull regions 4)
    ⊎ ((s : Stack) × (rs' : List MemoryRegion) × (m' : Words) × Prepared regions
          (2 ^ 64 - 2 ^ 47)
          4096
          5
          kernel.memory
          s
          rs'
          m'
        × ((spawn_raw addr_model (2 ^ 64 - 2 ^ 47) (λ i. i) 4096 5 kernel
                ≡ ok (none, after kernel rs' m'))
              × IsFull table
            ⊎ ((k' : Kernel) × (spawn_raw addr_model (2 ^ 64 - 2 ^ 47) (λ i. i) 4096 5 kernel
                  ≡ ok (some 1, k'))
                × Queued (λ i. i) kernel [] s rs' m' k')))
spawn_raw_lem_example =
    spawn_raw_lem addr_model (2 ^ 64 - 2 ^ 47) (λ i. i) 4096 5 kernel regions [] refl
      regions-AreValid regions-IsMapped (λ e. cc, tt) empty-Represents (omega arith)
