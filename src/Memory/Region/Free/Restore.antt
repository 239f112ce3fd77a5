-- ===== src/Memory/Region/Free/Restore.antt =====
-- Returning an allocation to its region undoes it.
use os_rust.Shared.{ℕ, ◌<◌, ◌≡◌, ◌∙◌, false, Option, none, some, Outcome, ok, arith, ap}
use os_rust.Memory.Addr.{AddrApi}
use os_rust.Memory.Frame.{FrameRange}
use os_rust.Memory.Bitmap.Bits.{bit, eq_of_bit}
use os_rust.Memory.Region.{MemoryRegion, alloc, dealloc}
use os_rust.Memory.Region.Alloc.{IsValid, Claims, Outcomes, claimed, exhausted, alloc_lem}
use os_rust.Memory.Region.Free.{Lies, Marks, dealloc_lem}

taken_same :
    {f g : FrameRange} {r s : MemoryRegion}
    → ◌≡◌ {A = Outcome (Option FrameRange × MemoryRegion)} (ok (some f, r)) (ok (some g, s))
    → (f ≡ g) × (r ≡ s)
taken_same e = (cc, cc)

none_taken :
    {g : FrameRange} {r s : MemoryRegion}
    → ◌≡◌ {A = Outcome (Option FrameRange × MemoryRegion)} (ok (none, r)) (ok (some g, s))
    → ⊥
none_taken e = absurd cc

module _ {r r' : MemoryRegion} {first count : ℕ} {f : FrameRange} (v : IsValid r)
    (c : Claims r first count f r') where
  pub Claims-Lies : Lies r' first f
  Claims-Lies = record {
    frames_start = omega (arith, c.frames_start, c.start_same);
    inside = omega (arith, c.inside, c.frames_count, c.writes.size_same);
  }

  bits_restored :
      (r'' : MemoryRegion)
      → Marks false r' first f.count r''
      → (j : ℕ) → bit r''.bitmap j ≡ bit r.bitmap j
  bits_restored r'' m j =
      ground (arith, m.writes.bits j, c.writes.bits j, c.was_free j, c.frames_count)

  dealloc-Claims : dealloc r' f ≡ ok r
  dealloc-Claims =
      let (r'', e, m) = dealloc_lem c.valid Claims-Lies in
      e
      ∙ ap ok (λ i. record {
        start = (m.start_same ∙ c.start_same) i;
        end = (m.end_same ∙ c.end_same) i;
        bitmap =
            eq_of_bit r''.bitmap r.bitmap m.valid.bitmap_valid v.bitmap_valid
              (m.writes.size_same ∙ c.writes.size_same)
              (m.writes.length_same ∙ c.writes.length_same) (bits_restored r'' m) i;
      })

undone :
    {x : AddrApi} {r r' : MemoryRegion} {count : ℕ} {f : FrameRange}
    {o : Outcome (Option FrameRange × MemoryRegion)}
    → IsValid r
    → Outcomes x r count o
    → o ≡ ok (some f, r')
    → dealloc r' f ≡ ok r
undone v (claimed first least c) run =
    let (same, left) = taken_same run in rw (← same, ← left) (dealloc-Claims v c)
undone v (exhausted full) run = absurd (none_taken run)

-- In a valid region, where `alloc` of at least one frame returns a range, `dealloc` of that range
-- gives back the region as it was before the call, byte for byte.
pub dealloc-alloc :
    (x : AddrApi) (r r' : MemoryRegion) (count : ℕ) (f : FrameRange)
    → IsValid r
    → 0 < count
    → alloc x r count ≡ ok (some f, r')
    → dealloc r' f ≡ ok r
dealloc-alloc x r r' count f v pos run = undone v (alloc_lem x r count v pos) run
