-- ===== src/Memory/Region/Alloc.antt =====
-- `MemoryRegion::new` and `MemoryRegion::alloc`: the invariant of a region, and what an allocation
-- takes.
use os_rust.Shared.{
  ℕ, ◌+◌, ◌*◌, ◌/◌, ◌%◌, ◌^◌, ◌≤◌, ◌<◌, ◌≡◌, refl, true, List, Option, none, some, Outcome, ok,
  arith, length, get_or, add64, mul64, div_ceil, ==_iff,
}
use os_rust.Memory.Addr.{AddrApi}
use os_rust.Memory.Frame.{FrameRange, range_new}
use os_rust.Memory.Bitmap
use os_rust.Memory.Bitmap.{BitmapView, rounds}
use os_rust.Memory.Bitmap.Bits
use os_rust.Memory.Bitmap.Bits.{bit}
use os_rust.Memory.Bitmap.Runs.{WritesRun, set_run_lem}
use os_rust.Memory.Region.{MemoryRegion, new, claim, alloc}
use os_rust.Memory.Region.Scan.{
  IsFree, IsBlocked, FirstFit, first_run, first_run-FirstFit, first_run-zero, settle,
  alloc-first_run,
}

-- The bitmap is valid, the region begins on a frame, its frames lie before its end, and its end is
-- a physical address.
pub record IsValid (r : MemoryRegion) : Type 0 where
  pub bitmap_valid : Bits.IsValid r.bitmap
  pub aligned : r.start % 4096 ≡ 0
  pub frames_inside : r.start + r.bitmap.size * 4096 ≤ r.end
  pub end_physical : r.end < 2 ^ 52

-- The frames `first`, …, `first + count - 1` of `r` were all free, and `r'` is `r` with exactly
-- these marked used; `f` is their address range.
pub record Claims (r : MemoryRegion) (first count : ℕ) (f : FrameRange) (r' : MemoryRegion)
    : Type 0 where
  pub was_free : IsFree (bit r.bitmap) first count
  pub inside : first + count ≤ r.bitmap.size
  pub frames_start : f.start ≡ r.start + first * 4096
  pub frames_count : f.count ≡ count
  pub start_same : r'.start ≡ r.start
  pub end_same : r'.end ≡ r.end
  pub writes : WritesRun true r.bitmap first count r'.bitmap
  pub valid : IsValid r'

rounds_lem : (i n : ℕ) → i + n < 2 ^ 64 → rounds i n ≡ n
rounds_lem i n h = omega arith

module _ (x : AddrApi) where
  claim-Claims :
      (r : MemoryRegion) (first count : ℕ)
      → IsValid r
      → IsFree (bit r.bitmap) first count
      → 0 < count
      → first + count ≤ r.bitmap.size
      → (f : FrameRange) × (r' : MemoryRegion) × (claim x r first count ≡ ok (some f, r'))
        × Claims r first count f r'
  unfolding claim range_new
  claim-Claims r first count v free pos le =
      let (b, e, w) = set_run_lem r.bitmap first count v.bitmap_valid le in
      (
        record { start = r.start + first * 4096; count = count },
        record r { bitmap = b },
        rw (
          rounds_lem first count (omega (arith, v.frames_inside, v.end_physical)),
          e,
          (let p : mul64 first 4096 ≡ first * 4096 =
                omega (arith, v.frames_inside, v.end_physical) in
              p),
          x.phys_add_valid r.start (first * 4096) (omega (arith, v.frames_inside, v.end_physical)),
          x.is_aligned_frame (r.start + first * 4096),
          (==_iff ((r.start + first * 4096) % 4096) 0).1 (omega (arith, v.aligned)),
        ),
        record {
          was_free = free;
          inside = le;
          frames_start = refl;
          frames_count = refl;
          start_same = refl;
          end_same = refl;
          writes = w;
          valid = record {
            bitmap_valid = w.valid;
            aligned = v.aligned;
            frames_inside = omega (arith, w.size_same, v.frames_inside);
            end_physical = v.end_physical;
          };
        },
      )

  -- What `alloc` may return: the first run of `count` free frames, claimed; or nothing, with the
  -- region unchanged, where every run of `count` frames has a used one.
  pub data Outcomes (r : MemoryRegion) (count : ℕ)
      : Outcome (Option FrameRange × MemoryRegion) → Type 0 where
    claimed :
        {f : FrameRange} {r' : MemoryRegion} (first : ℕ)
        → ((t : ℕ) → t < first → IsBlocked (bit r.bitmap) t count)
        → Claims r first count f r'
        → Outcomes r count (ok (some f, r'))
    exhausted :
        ((t : ℕ) → t + count ≤ r.bitmap.size → IsBlocked (bit r.bitmap) t count)
        → Outcomes r count (ok (none, r))

  settle-Outcomes :
      (r : MemoryRegion) (count : ℕ) (o : Option ℕ)
      → IsValid r
      → 0 < count
      → FirstFit (bit r.bitmap) count r.bitmap.size o
      → Outcomes r count (settle x r count o)
  settle-Outcomes r count none v pos h = exhausted h
  settle-Outcomes r count (some s) v pos (free, le, least) =
      let (f, r', e, c) = claim-Claims r s count v free pos le in rw e (claimed s least c)

  -- In a valid region `alloc` of at least one frame returns the first run of free frames of that
  -- length, marks it used and changes nothing else, or returns nothing where there is no such run.
  pub alloc_lem :
      (r : MemoryRegion) (count : ℕ) → IsValid r → 0 < count → Outcomes r count (alloc x r count)
  alloc_lem r count v pos = rw (alloc-first_run x r count v.bitmap_valid) (
      settle-Outcomes r count (first_run (bit r.bitmap) count r.bitmap.size) v pos
        (first_run-FirstFit (bit r.bitmap) count r.bitmap.size pos))

  -- A request for no frames finds nothing.
  pub alloc-zero : (r : MemoryRegion) → IsValid r → alloc x r 0 ≡ ok (none, r)
  alloc-zero r v = rw (alloc-first_run x r 0 v.bitmap_valid, first_run-zero)

  -- `new` of an aligned range below 2^52, with one bit per whole frame rounded up to bytes, returns a
  -- valid region of that range over those bytes, with a frame for each whole 4096 bytes of it.
  pub new-IsValid :
      (start size : ℕ) (bytes : List ℕ)
      → start % 4096 ≡ 0
      → start + size < 2 ^ 52
      → length bytes ≡ div_ceil (size / 4096) 8
      → ((j : ℕ) → get_or bytes j 0 < 256)
      → (r : MemoryRegion) × (new x start size bytes ≡ ok r)
        × IsValid r
        × (r.start ≡ start)
        × (r.end ≡ start + size)
        × (r.bitmap.size ≡ size / 4096)
        × (r.bitmap.bytes ≡ bytes)
  unfolding new Bitmap.new
  new-IsValid start size bytes al fits len isb = (
    record { start = start; end = start + size; bitmap = Bitmap.new (size / 4096) bytes },
    rw (
      x.phys_new_valid start (omega arith),
      (let p : add64 start size ≡ start + size = omega arith in p),
      x.phys_new_valid (start + size) fits,
    ),
    record {
      bitmap_valid = record { is_byte = isb; covers = omega arith };
      aligned = al;
      frames_inside = omega arith;
      end_physical = fits;
    },
    refl,
    refl,
    refl,
    refl,
  )
