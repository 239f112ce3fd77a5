-- ===== src/Memory/Tests.antt =====
-- The theorems of the frame allocator at concrete regions.
use mathlib.Core.Path.{subst}
use os_rust.Shared.{
  ℕ, zero, suc, ◌+◌, ◌-◌, ◌%◌, ◌^◌, ◌≤◌, ◌<◌, ◌≡◌, ◌⊎◌, refl, List, [], ◌∷◌, Bool, true, false,
  ◌||◌, some, Outcome, ok, panic, arith, ltb, leb, ◌==◌, if◌then◌else◌, get_or, lt→ltb,
}
use os_rust.Memory.Addr.{AddrApi}
use os_rust.Memory.Frame.{FrameRange, range_new, success, failure, out_of_memory}
use os_rust.Memory.Bitmap
use os_rust.Memory.Bitmap.{BitmapView}
use os_rust.Memory.Bitmap.Bits
use os_rust.Memory.Bitmap.Bits.{Writes}
use os_rust.Memory.Bitmap.Runs.{WritesRun, set_run_lem}
use os_rust.Memory.Region
use os_rust.Memory.Region.{MemoryRegion}
use os_rust.Memory.Region.Alloc.{IsValid, Claims, new-IsValid}
use os_rust.Memory.Region.Free.{Lies, Marks, free_count, reserve_lem}
use os_rust.Memory.Region.Free.Restore.{dealloc-alloc}
use os_rust.Memory.Region.Scan.{settle}
use os_rust.Memory.Region.Reference.{first_fit, alloc-first_fit_search}
use os_rust.Memory.Allocator
use os_rust.Memory.Allocator.States.{AreValid}
use os_rust.Memory.Allocator.Alloc.{Takes, Effect, AreFull, alloc-first_fit, alloc_zero}
use os_rust.Memory.Allocator.Dealloc.{first_region, Returns, dealloc-Returns}
use os_rust.Memory.Allocator.Count.{total_free, total_size, frame_counts}
use os_rust.Memory.Allocator.Clients.{Request, request, release, run, IsSound}
use os_rust.Memory.Allocator.Clients.Sound.{run-IsSound}

-- Addresses as the crate documents them.
abbrev pub checked : Bool → ℕ → Outcome ℕ
checked good a = if good then ok a else panic

abbrev pub canonical : ℕ → Bool
canonical a = ltb a (2 ^ 47) || leb (2 ^ 64 - 2 ^ 47) a

pub checked-true : (good : Bool) (a : ℕ) → good ≡ true → checked good a ≡ ok a
checked-true good a e = rw e

pub checked-false : (good : Bool) (a : ℕ) → good ≡ false → checked good a ≡ panic
checked-false good a e = rw e

pub too_large : (a : ℕ) → 2 ^ 52 ≤ a → ltb a (2 ^ 52) ≡ false
too_large a h = ground arith

pub canonical_low : (a : ℕ) → a < 2 ^ 47 → canonical a ≡ true
canonical_low a h = ground arith

pub canonical_high : (a : ℕ) → 2 ^ 64 - 2 ^ 47 ≤ a → canonical a ≡ true
canonical_high a h = ground arith

abbrev pub addr_model : AddrApi
addr_model = record {
  phys_new = λ a. checked (ltb a (2 ^ 52)) a;
  phys_new_valid = λ a h. checked-true (ltb a (2 ^ 52)) a (lt→ltb a (2 ^ 52) h);
  phys_new_invalid = λ a h. checked-false (ltb a (2 ^ 52)) a (too_large a h);
  phys_add = λ a b. checked (ltb (a + b) (2 ^ 52)) (a + b);
  phys_add_valid = λ a b h. checked-true (ltb (a + b) (2 ^ 52)) (a + b) (lt→ltb (a + b) (2 ^ 52) h);
  is_aligned = λ a n. a % n == 0;
  is_aligned_frame = λ a. refl;
  virt_new = λ a. checked (canonical a) a;
  virt_new_low = λ a h. checked-true (canonical a) a (canonical_low a h);
  virt_new_high = λ a h k. checked-true (canonical a) a (canonical_high a h);
}

-- Four frames from address 8192 on, the first one used.
abbrev region : MemoryRegion
region = record { start = 8192; end = 24576; bitmap = record { size = 4; bytes = 1 ∷ [] } }

region_bytes : (j : ℕ) → get_or (1 ∷ []) j 0 < 256
region_bytes zero = omega arith
region_bytes (suc j) = omega arith

region-bitmap : Bits.IsValid region.bitmap
region-bitmap = record { is_byte = region_bytes; covers = omega arith }

region-IsValid : IsValid region
region-IsValid = record {
  bitmap_valid = region-bitmap;
  aligned = refl;
  frames_inside = omega arith;
  end_physical = omega arith;
}

-- Three frames from address 40960 on, all free.
abbrev other : MemoryRegion
other = record { start = 40960; end = 53248; bitmap = record { size = 3; bytes = 0 ∷ [] } }

other_bytes : (j : ℕ) → get_or (0 ∷ []) j 0 < 256
other_bytes zero = omega arith
other_bytes (suc j) = omega arith

other-IsValid : IsValid other
other-IsValid = record {
  bitmap_valid = record { is_byte = other_bytes; covers = omega arith };
  aligned = refl;
  frames_inside = omega arith;
  end_physical = omega arith;
}

abbrev pub regions : List MemoryRegion
regions = region ∷ other ∷ []

pub regions-AreValid : AreValid regions
regions-AreValid = (region-IsValid, (omega arith, tt), (other-IsValid, tt, tt))

abbrev two_frames : FrameRange
two_frames = record { start = 12288; count = 2 }

two_frames-Lies : Lies region 1 two_frames
two_frames-Lies = record { frames_start = refl; inside = omega arith }

alloc-first_fit_search_example :
    Region.alloc addr_model region 2
    ≡ settle addr_model region 2 (first_fit (Bits.bit region.bitmap) 2 4)
alloc-first_fit_search_example =
    alloc-first_fit_search addr_model region 2 region-bitmap (omega arith)

new-IsValid_example :
    (r : MemoryRegion) × (Region.new addr_model 40960 12288 (0 ∷ []) ≡ ok r)
    × IsValid r
    × (r.start ≡ 40960)
    × (r.end ≡ 53248)
    × (r.bitmap.size ≡ 3)
    × (r.bitmap.bytes ≡ 0 ∷ [])
new-IsValid_example =
    new-IsValid addr_model 40960 12288 (0 ∷ []) refl (omega arith) refl other_bytes

reserve_lem_example :
    (r : MemoryRegion) × (Region.reserve region two_frames ≡ ok r) × Marks true region 1 2 r
reserve_lem_example = reserve_lem region-IsValid two_frames-Lies

-- The first two free frames of the region, claimed.
abbrev claimed_region : MemoryRegion
claimed_region = record region { bitmap = record { size = 4; bytes = 7 ∷ [] } }

one_free : (j : ℕ) → 1 ≤ j → j < 3 → Bits.bit region.bitmap j ≡ false
one_free zero h k = absurd (omega arith)
one_free (suc zero) h k = refl
one_free (suc (suc zero)) h k = refl
one_free (suc (suc (suc j))) h k = absurd (omega arith)

set_run_test : Bitmap.set_run region.bitmap 1 2 ≡ ok claimed_region.bitmap
unfolding Bitmap.set_run Bitmap.set
set_run_test = refl

claimed-Claims : Claims region 1 2 two_frames claimed_region
claimed-Claims =
    let (b, e, w) = set_run_lem region.bitmap 1 2 region-bitmap (omega arith) in
    let same : b ≡ claimed_region.bitmap = cc (e, set_run_test) in
    let w' : WritesRun true region.bitmap 1 2 claimed_region.bitmap =
      subst (WritesRun true region.bitmap 1 2) same w in
    record {
      was_free = one_free;
      inside = omega arith;
      frames_start = refl;
      frames_count = refl;
      start_same = refl;
      end_same = refl;
      writes = w';
      valid = record {
        bitmap_valid = w'.valid;
        aligned = refl;
        frames_inside = omega arith;
        end_physical = omega arith;
      };
    }

claimed_run : Region.alloc addr_model region 2 ≡ ok (some two_frames, claimed_region)
unfolding Region.alloc Region.scan Region.claim Bitmap.is_set Bitmap.set_run Bitmap.set range_new
claimed_run = refl

dealloc-alloc_example : Region.dealloc claimed_region two_frames ≡ ok region
dealloc-alloc_example =
    dealloc-alloc addr_model region claimed_region 2 two_frames region-IsValid (omega arith)
      claimed_run

alloc-first_fit_example :
    ((f : FrameRange) × (rs : List MemoryRegion) × (Allocator.alloc addr_model (some regions) 2
        ≡ ok (success f, some rs))
      × Takes 2 f regions rs
      × Effect regions 2 f rs)
    ⊎ ((Allocator.alloc addr_model (some regions) 2 ≡ ok (failure out_of_memory, some regions))
        × AreFull regions 2)
alloc-first_fit_example = alloc-first_fit addr_model regions 2 regions-AreValid (omega arith)

alloc_zero_example :
    Allocator.alloc addr_model (some regions) 0 ≡ ok (failure out_of_memory, some regions)
alloc_zero_example = alloc_zero addr_model regions regions-AreValid

dealloc-Returns_example :
    (rs : List MemoryRegion) × (Allocator.dealloc (some regions) two_frames ≡ ok (some rs))
    × Returns regions two_frames rs
dealloc-Returns_example =
    dealloc-Returns regions (first_region 1 two_frames-Lies) (omega arith) regions-AreValid

frame_counts_example :
    (Allocator.free_frames (some regions) ≡ ok (total_free regions))
    × (Allocator.total_frames (some regions) ≡ total_size regions)
    × (total_free regions ≤ total_size regions)
frame_counts_example = frame_counts regions regions-AreValid (omega arith)

regions-IsSound : IsSound 6 regions []
unfolding total_free free_count
regions-IsSound = record { valid = regions-AreValid; held_apart = tt; balance = refl }

abbrev requests : List Request
requests = request 2 ∷ request 9 ∷ request 3 ∷ release 1 ∷ request 1 ∷ []

run-IsSound_example :
    (rs : List MemoryRegion) × (held : List FrameRange) × (run addr_model
        (some regions, [])
        requests
      ≡ ok (some rs, held))
    × IsSound 6 rs held
run-IsSound_example = run-IsSound addr_model 6 regions [] requests regions-IsSound
