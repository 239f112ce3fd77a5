-- ===== src/Memory/Region/Free.antt =====
-- `MemoryRegion::dealloc`, `reserve` and `free_frames`, and how allocations change the count.
pub mod Restore
use Prim.Native.Nat.{min, max}
use os_rust.Shared.{
  ℕ, zero, suc, ◌+◌, ◌-◌, ◌*◌, ◌/◌, ◌%◌, ◌^◌, ◌≤◌, ◌<◌, ◌≡◌, refl, ◌∙◌, Bool, true, false, Outcome,
  ok, ◌>>=◌, arith, if◌then◌else◌, Bool-cases, inl, inr,
}
use os_rust.Memory.Frame.{FrameRange}
use os_rust.Memory.Bitmap.{BitmapView, is_set, rounds}
use os_rust.Memory.Bitmap.Bits
use os_rust.Memory.Bitmap.Bits.{bit, is_set_lem}
use os_rust.Memory.Bitmap.Runs.{within, WritesRun, set_run_lem, clear_run_lem}
use os_rust.Memory.Region.{MemoryRegion, start_index, dealloc, reserve, count_free, free_frames}
use os_rust.Memory.Region.Scan.{IsFree}
use os_rust.Memory.Region.Alloc.{IsValid, Claims}

-- `f` is the run of frames `first`, …, `first + f.count - 1` of `r`.
pub record Lies (r : MemoryRegion) (first : ℕ) (f : FrameRange) : Type 0 where
  pub frames_start : f.start ≡ r.start + first * 4096
  pub inside : first + f.count ≤ r.bitmap.size

-- `r'` is `r` with the bits of a run written to `v`.
pub record Marks (v : Bool) (r : MemoryRegion) (first count : ℕ) (r' : MemoryRegion) : Type 0 where
  pub start_same : r'.start ≡ r.start
  pub end_same : r'.end ≡ r.end
  pub writes : WritesRun v r.bitmap first count r'.bitmap
  pub valid : IsValid r'

module _ {r : MemoryRegion} {first : ℕ} {f : FrameRange} (v : IsValid r) (l : Lies r first f) where
  start_index_lem : start_index r f ≡ first
  start_index_lem = omega (arith, v.frames_inside, v.end_physical, l.frames_start, l.inside)

  rounds_lem : rounds first f.count ≡ f.count
  rounds_lem = omega (arith, v.frames_inside, v.end_physical, l.inside)

  marked :
      {value : Bool} {b : BitmapView}
      → WritesRun value r.bitmap first f.count b
      → Marks value r first f.count (record r { bitmap = b })
  marked w = record {
    start_same = refl;
    end_same = refl;
    writes = w;
    valid = record {
      bitmap_valid = w.valid;
      aligned = v.aligned;
      frames_inside = omega (arith, w.size_same, v.frames_inside);
      end_physical = v.end_physical;
    };
  }

  pub dealloc_lem : (r' : MemoryRegion) × (dealloc r f ≡ ok r') × Marks false r first f.count r'
  unfolding dealloc
  dealloc_lem =
      let (b, e, w) = clear_run_lem r.bitmap first f.count v.bitmap_valid l.inside in
      (record r { bitmap = b }, rw (start_index_lem, rounds_lem, e), marked w)

  -- `reserve` of a range inside a valid region returns, marks the frames of the range used, changes no
  -- other bit, and keeps the region valid.
  pub reserve_lem : (r' : MemoryRegion) × (reserve r f ≡ ok r') × Marks true r first f.count r'
  unfolding reserve
  reserve_lem =
      let (b, e, w) = set_run_lem r.bitmap first f.count v.bitmap_valid l.inside in
      (record r { bitmap = b }, rw (start_index_lem, rounds_lem, e), marked w)

-- How many of the `k` bits from `i` on are free.
unfoldable pub free_count : (ℕ → Bool) → ℕ → ℕ → ℕ
free_count bits i zero = 0
free_count bits i (suc k) = (if bits i then 0 else 1) + free_count bits (i + 1) k

count_free_lem :
    (b : BitmapView) (i k n : ℕ)
    → Bits.IsValid b
    → i + k ≤ b.size
    → count_free b i k n ≡ ok (n + free_count (bit b) i k)
unfolding count_free free_count
count_free_lem b i zero n v h = ground arith
count_free_lem b i (suc k) n v h =
    rw (is_set_lem b i v (omega arith), count_free_lem b (i + 1) k _ v (omega arith)) (ground arith)

-- The free frames of a region.
abbrev pub region_free : MemoryRegion → ℕ
region_free r = free_count (bit r.bitmap) 0 r.bitmap.size

-- `free_frames` counts the free bits.
pub free_frames_lem : (r : MemoryRegion) → IsValid r → free_frames r ≡ ok (region_free r)
unfolding free_frames
free_frames_lem r v =
    rw (count_free_lem r.bitmap 0 r.bitmap.size 0 v.bitmap_valid (omega arith)) (ground arith)

-- How many of the `k` indices from `i` on lie in the run of `n` from `s` on.
abbrev overlap : ℕ → ℕ → ℕ → ℕ → ℕ
overlap i k s n = min (i + k) (s + n) - max i s

-- Marking a free run takes its length off the count.
free_count-run :
    (bits bits' : ℕ → Bool) (s n i k : ℕ)
    → IsFree bits s n
    → ((j : ℕ) → bits' j ≡ (if within s n j then true else bits j))
    → free_count bits' i k + overlap i k s n ≡ free_count bits i k
unfolding free_count
free_count-run bits bits' s n i zero free new = omega arith
free_count-run bits bits' s n i (suc k) free new =
    ground (arith, free_count-run bits bits' s n (i + 1) k free new, new i, free i)

-- An allocation of `count` frames lowers the region's count of free frames by `count`.
pub region_free-Claims :
    {r r' : MemoryRegion} {first count : ℕ} {f : FrameRange}
    → Claims r first count f r'
    → region_free r' + count ≡ region_free r
region_free-Claims {r} {r'} {first} {count} c = rw c.writes.size_same (
    omega (
      arith,
      c.inside,
      free_count-run (bit r.bitmap) (bit r'.bitmap) first count 0 r.bitmap.size c.was_free
          c.writes.bits,
    ))

-- Freeing a run of used frames raises the count by their number.
pub region_free-Marks :
    {r r' : MemoryRegion} {first count : ℕ}
    → Marks false r first count r'
    → first + count ≤ r.bitmap.size
    → ((j : ℕ) → first ≤ j → j < first + count → bit r.bitmap j ≡ true)
    → region_free r' ≡ region_free r + count
region_free-Marks {r} {r'} {first} {count} m inside used = rw m.writes.size_same (
    omega (
      arith,
      free_count-run (bit r'.bitmap) (bit r.bitmap) first count 0 r.bitmap.size
          (λ j h l. ground (arith, m.writes.bits j)) (λ j. ground (arith, m.writes.bits j, used j)),
    ))

free_count-le : (bits : ℕ → Bool) (i k : ℕ) → free_count bits i k ≤ k
unfolding free_count
free_count-le bits i zero = omega arith
free_count-le bits i (suc k) = ground (arith, free_count-le bits (i + 1) k)

pub region_free-le : (r : MemoryRegion) → region_free r ≤ r.bitmap.size
region_free-le r = free_count-le (bit r.bitmap) 0 r.bitmap.size

-- Reserving a free run lowers the count by its length.
pub region_free-Reserved :
    {r r' : MemoryRegion} {first count : ℕ}
    → Marks true r first count r'
    → first + count ≤ r.bitmap.size
    → IsFree (bit r.bitmap) first count
    → region_free r' + count ≡ region_free r
region_free-Reserved {r} {r'} {first} {count} m inside free = rw m.writes.size_same (
    omega (
      arith,
      free_count-run (bit r.bitmap) (bit r'.bitmap) first count 0 r.bitmap.size free m.writes.bits,
    ))

free_count-clear :
    (bits : ℕ → Bool) (i k : ℕ) → ((j : ℕ) → bits j ≡ false) → free_count bits i k ≡ k
unfolding free_count
free_count-clear bits i zero clear = refl
free_count-clear bits i (suc k) clear =
    rw (clear i, free_count-clear bits (i + 1) k clear) (omega arith)

free_count-blocked :
    (bits : ℕ → Bool) (i k : ℕ) → ((j : ℕ) → j < i + k → bits j ≡ true) → free_count bits i k ≡ 0
unfolding free_count
free_count-blocked bits i zero used = refl
free_count-blocked bits i (suc k) used =
    rw (used i (omega arith), free_count-blocked bits (i + 1) k (λ j h. used j (omega arith))) refl

-- A region in which every frame is used has none free.
pub region_free-blocked :
    (r : MemoryRegion) → ((j : ℕ) → j < r.bitmap.size → bit r.bitmap j ≡ true) → region_free r ≡ 0
region_free-blocked r used =
    free_count-blocked (bit r.bitmap) 0 r.bitmap.size (λ j h. used j (omega arith))

pub region_free-clear :
    (r : MemoryRegion) → ((j : ℕ) → bit r.bitmap j ≡ false) → region_free r ≡ r.bitmap.size
region_free-clear r clear = free_count-clear (bit r.bitmap) 0 r.bitmap.size clear
