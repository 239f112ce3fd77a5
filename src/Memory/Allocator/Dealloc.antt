-- ===== src/Memory/Allocator/Dealloc.antt =====
-- `BitmapFrameAllocator::dealloc` of a range that lies in one region.
use os_rust.Shared.{
  ℕ, ◌+◌, ◌*◌, ◌≤◌, ◌<◌, ◌≡◌, inl, inr, ◌∙◌, ap, List, [], ◌∷◌, Bool, true, false, Option, some, ok,
  arith, if◌then◌else◌, Bool-cases, ltb, leb, ◌&&◌,
}
use os_rust.Memory.Frame.{FrameRange}
use os_rust.Memory.Bitmap.Bits.{bit}
use os_rust.Memory.Region.{MemoryRegion, contains}
use os_rust.Memory.Region.Alloc.{IsValid}
use os_rust.Memory.Region.Free.{Lies, dealloc_lem, region_free-Marks}
use os_rust.Memory.Allocator.{dealloc_regions, dealloc}
use os_rust.Memory.Allocator.Count.{total_free}
use os_rust.Memory.Allocator.Alloc.{Takes, here, later}
use os_rust.Memory.Allocator.States.{
  ApartAll, AreValid, manages, frame_index, state_of, in_range, state-Marks, SameShape,
  SameShape-refl, AllSameShape, AllSameShape-refl, ApartAll-shape,
}

-- The range is a run of frames of one of the regions.
pub data Managed (f : FrameRange) : List MemoryRegion → Type 0 where
  first_region :
      {r : MemoryRegion} {rs : List MemoryRegion} (first : ℕ) → Lies r first f → Managed f (r ∷ rs)
  later_region : {r : MemoryRegion} {rs : List MemoryRegion} → Managed f rs → Managed f (r ∷ rs)

pub Managed-shape :
    {f : FrameRange} {rs : List MemoryRegion} (rs' : List MemoryRegion)
    → Managed f rs
    → AllSameShape rs rs'
    → Managed f rs'
Managed-shape [] (first_region first l) h = absurd h
Managed-shape (r' ∷ rs') (first_region first l) h = first_region first (record {
  frames_start = omega (arith, l.frames_start, h.0.start_same);
  inside = omega (arith, l.inside, h.0.size_same);
})
Managed-shape [] (later_region m) h = absurd h
Managed-shape (r' ∷ rs') (later_region m) h = later_region (Managed-shape rs' m h.1)

-- What an allocation returns is managed.
pub Takes-Managed :
    {count : ℕ} {f : FrameRange} {rs rs' : List MemoryRegion} → Takes count f rs rs' → Managed f rs
Takes-Managed (here first least c) =
    first_region first
      (record { frames_start = c.frames_start; inside = rw c.frames_count c.inside })
Takes-Managed (later full t) = later_region (Takes-Managed t)

-- Every frame of the range is used.
abbrev pub IsUsed : List MemoryRegion → FrameRange → Type 0
IsUsed rs f = (a : ℕ) → in_range f a ≡ true → state_of rs a ≡ some true

-- The range given back: its frames are free, all others are as they were, and
-- the number of free frames grows by the range if all of it was used.
pub record Returns (rs : List MemoryRegion) (f : FrameRange) (rs' : List MemoryRegion)
    : Type 0 where
  pub state_after : (a : ℕ) → state_of rs' a ≡ (if in_range f a then some false else state_of rs a)
  pub freed : IsUsed rs f → total_free rs' ≡ total_free rs + f.count
  pub shape_same : AllSameShape rs rs'
  pub valid : AreValid rs'

-- The range begins in a region of the list, so an earlier region does not contain its start.
Managed-bounds :
    {f : FrameRange} {r : MemoryRegion} (rs : List MemoryRegion)
    → Managed f rs
    → 0 < f.count
    → ApartAll r rs
    → AreValid rs
    → (contains r f.start ≡ false)
      × ((a : ℕ) → in_range f a ≡ true → IsValid r → manages r a ≡ false)
unfolding contains
Managed-bounds [] m pos ap v = elim m [ ]
Managed-bounds {f} {r} (s ∷ rs) (first_region first l) pos ap v = (
  ground (arith, ap.0, v.0.frames_inside, l.frames_start, l.inside),
  λ a h w. ground (arith, ap.0, v.0.frames_inside, w.frames_inside, l.frames_start, l.inside),
)
Managed-bounds (s ∷ rs) (later_region m) pos ap v = Managed-bounds rs m pos ap.1 v.2

-- The state at the address of a managed frame is that of its bit.
used_bit :
    {f : FrameRange} {r : MemoryRegion} (rs : List MemoryRegion) (first j : ℕ)
    → Lies r first f
    → IsUsed (r ∷ rs) f
    → first ≤ j
    → j < first + f.count
    → bit r.bitmap j ≡ true
unfolding state_of
used_bit {f} {r} rs first j l u h k = cc (e, u a inside)
  where
    a : ℕ
    a = r.start + j * 4096

    inside : in_range f a ≡ true
    inside = ground (arith, l.frames_start)

    e : state_of (r ∷ rs) a ≡ some (bit r.bitmap j)
    e =
        let p : manages r a ≡ true = ground (arith, l.inside) in
        let q : frame_index r a ≡ j = omega arith in rw (p, q)

-- Outside the region the range is used in the regions that follow.
IsUsed-tail :
    (f : FrameRange) (r : MemoryRegion) (rs : List MemoryRegion)
    → ((a : ℕ) → in_range f a ≡ true → manages r a ≡ false)
    → IsUsed (r ∷ rs) f
    → IsUsed rs f
unfolding state_of
IsUsed-tail f r rs outside u a h = rw (outside a h) at (u a h)

dealloc_first :
    {f : FrameRange} {r : MemoryRegion} (rs : List MemoryRegion) (first : ℕ)
    → Lies r first f
    → 0 < f.count
    → AreValid (r ∷ rs)
    → (rs' : List MemoryRegion) × (dealloc_regions (r ∷ rs) f ≡ ok rs') × Returns (r ∷ rs) f rs'
unfolding dealloc_regions contains total_free
dealloc_first {f} {r} rs first l pos v =
    let (r', e, m) = dealloc_lem v.0 l in
    let same : SameShape r r' = record {
      start_same = m.start_same;
      end_same = m.end_same;
      size_same = m.writes.size_same;
    } in
    let inside : (leb r.start f.start && ltb f.start r.end) ≡ true =
      ground (arith, l.frames_start, l.inside, v.0.frames_inside) in
    (
      r' ∷ rs,
      rw (inside, e),
      record {
        state_after = state-Marks l.frames_start l.inside m rs;
        freed =
            λ u. omega (arith, region_free-Marks m l.inside (λ j h k. used_bit rs first j l u h k));
        shape_same = (same, AllSameShape-refl rs);
        valid = (m.valid, ApartAll-shape rs rs same (AllSameShape-refl rs) v.1, v.2);
      },
    )

-- Giving back a range of at least one frame of a region returns, frees exactly its frames and keeps
-- the invariant.
pub dealloc_regions_lem :
    {f : FrameRange} (rs : List MemoryRegion)
    → Managed f rs
    → 0 < f.count
    → AreValid rs
    → (rs' : List MemoryRegion) × (dealloc_regions rs f ≡ ok rs') × Returns rs f rs'
unfolding dealloc_regions state_of total_free
dealloc_regions_lem [] m pos v = elim m [ ]
dealloc_regions_lem (r ∷ rs) (first_region first l) pos v = dealloc_first rs first l pos v
dealloc_regions_lem {f} (r ∷ rs) (later_region m) pos v =
    let (rs', e, t) = dealloc_regions_lem rs m pos v.2 in
    let (outside, elsewhere) = Managed-bounds rs m pos v.1 v.2 in
    (
      r ∷ rs',
      rw (outside, e),
      record {
        state_after = λ a. elim (Bool-cases (in_range f a)) [
          | inl h ↦ rw (h, elsewhere a h v.0) (t.state_after a ∙ rw h)
          | inr h ↦ rw h (
              ap
                (λ (o : Option Bool).
                  if manages r a then some (bit r.bitmap (frame_index r a)) else o)
                (t.state_after a ∙ rw h))
        ];
        freed = λ u. omega (arith, t.freed (IsUsed-tail f r rs (λ a h. elsewhere a h v.0) u));
        shape_same = (SameShape-refl r, t.shape_same);
        valid = (v.0, ApartAll-shape rs rs' (SameShape-refl r) t.shape_same v.1, t.valid);
      },
    )

-- `dealloc` of a nonempty range inside one of the valid regions returns: the frames of the range
-- are free afterwards, every other address is as before, the regions stay valid, and if the whole
-- range was used, the number of free frames grows by its count.
pub dealloc-Returns :
    {f : FrameRange} (rs : List MemoryRegion)
    → Managed f rs
    → 0 < f.count
    → AreValid rs
    → (rs' : List MemoryRegion) × (dealloc (some rs) f ≡ ok (some rs')) × Returns rs f rs'
unfolding dealloc
dealloc-Returns rs m pos v = let (rs', e, t) = dealloc_regions_lem rs m pos v in (rs', rw e, t)
