-- ===== src/Memory/Allocator/Alloc.antt =====
-- `BitmapFrameAllocator::alloc` over valid regions: first fit, and its effect on every frame.
use os_rust.Shared.{
  ℕ, ◌+◌, ◌%◌, ◌≤◌, ◌<◌, ◌≡◌, ◌⊎◌, inl, inr, refl, List, [], ◌∷◌, Bool, true, false, Option, none,
  some, Outcome, ok, ◌>>=◌, arith, if◌then◌else◌, Bool-cases, ap, ◌∙◌,
}
use os_rust.Memory.Addr.{AddrApi}
use os_rust.Memory.Frame.{FrameRange, AllocResult, success, failure, out_of_memory}
use os_rust.Memory.Bitmap.Bits.{bit}
use os_rust.Memory.Region
use os_rust.Memory.Region.{MemoryRegion}
use os_rust.Memory.Region.Scan.{IsBlocked}
use os_rust.Memory.Region.Alloc.{Claims, Outcomes, claimed, exhausted, alloc_lem, alloc-zero}
use os_rust.Memory.Region.Free.{Marks}
use os_rust.Memory.Allocator.{Slot, alloc_regions, alloc}
use os_rust.Memory.Allocator.States.{
  AreValid, manages, frame_index, state_of, in_range, state-Marks, SameShape, SameShape-refl,
  AllSameShape, AllSameShape-refl, ApartAll-shape, manages-of_later,
}

-- No run of `count` frames of the region is free.
abbrev pub IsFull : MemoryRegion → ℕ → Type 0
IsFull r count = (t : ℕ) → t + count ≤ r.bitmap.size → IsBlocked (bit r.bitmap) t count

abbrev pub AreFull : List MemoryRegion → ℕ → Type 0
AreFull [] count = Unit
AreFull (r ∷ rs) count = IsFull r count × AreFull rs count

-- First fit: the regions before the one that serves the request are full, and that one gives its
-- first free run.
pub data Takes (count : ℕ) (f : FrameRange) : List MemoryRegion → List MemoryRegion → Type 0 where
  here :
      {r r' : MemoryRegion} {rs : List MemoryRegion} (first : ℕ)
      → ((t : ℕ) → t < first → IsBlocked (bit r.bitmap) t count)
      → Claims r first count f r'
      → Takes count f (r ∷ rs) (r' ∷ rs)
  later :
      {r : MemoryRegion} {rs rs' : List MemoryRegion}
      → IsFull r count
      → Takes count f rs rs'
      → Takes count f (r ∷ rs) (r ∷ rs')

-- What a call may return, with the regions after it.
pub data Served (rs : List MemoryRegion) (count : ℕ)
    : Outcome (Option FrameRange × List MemoryRegion) → Type 0 where
  given :
      {f : FrameRange} {rs' : List MemoryRegion}
      → Takes count f rs rs'
      → Served rs count (ok (some f, rs'))
  refused : AreFull rs count → Served rs count (ok (none, rs))

module _ (x : AddrApi) where
  after_head :
      {r : MemoryRegion} {rs : List MemoryRegion} {count : ℕ}
      (o : Outcome (Option FrameRange × List MemoryRegion))
      → IsFull r count
      → Served rs count o
      → Served (r ∷ rs) count (o >>= λ p. ok (p.0, r ∷ p.1))
  after_head _ full (given t) = given (later full t)
  after_head _ full (refused h) = refused (full, h)

  serve :
      {r : MemoryRegion} {rs : List MemoryRegion} {count : ℕ}
      (o : Outcome (Option FrameRange × MemoryRegion))
      → Outcomes x r count o
      → Served rs count (alloc_regions x rs count)
      → Served (r ∷ rs) count (
          o >>= λ p. elim p.0 [
            | some frames ↦ ok (some frames, p.1 ∷ rs)
            | none ↦ alloc_regions x rs count >>= λ q. ok (q.0, p.1 ∷ q.1)
          ])
  serve _ (claimed first least c) ih = given (here first least c)
  serve {rs} {count} _ (exhausted full) ih = after_head (alloc_regions x rs count) full ih

  pub alloc_regions-Served :
      (rs : List MemoryRegion) (count : ℕ)
      → AreValid rs
      → 0 < count
      → Served rs count (alloc_regions x rs count)
  unfolding alloc_regions
  alloc_regions-Served [] count v pos = refused tt
  alloc_regions-Served (r ∷ rs) count v pos =
      serve (Region.alloc x r count) (alloc_lem x r count v.0 pos)
        (alloc_regions-Served rs count v.2 pos)

Claims-Marks :
    {r r' : MemoryRegion} {first count : ℕ} {f : FrameRange}
    → Claims r first count f r'
    → Marks true r first f.count r'
Claims-Marks c = record {
  start_same = c.start_same;
  end_same = c.end_same;
  writes = rw c.frames_count c.writes;
  valid = c.valid;
}

-- What an allocation does to the states of all frames, and to the invariant.
pub record Effect (rs : List MemoryRegion) (count : ℕ) (f : FrameRange) (rs' : List MemoryRegion)
    : Type 0 where
  pub frames_count : f.count ≡ count
  pub aligned : f.start % 4096 ≡ 0
  pub was_free : (a : ℕ) → in_range f a ≡ true → state_of rs a ≡ some false
  pub state_after : (a : ℕ) → state_of rs' a ≡ (if in_range f a then some true else state_of rs a)
  pub shape_same : AllSameShape rs rs'
  pub valid : AreValid rs'

Claims-Effect :
    {r r' : MemoryRegion} (rs : List MemoryRegion) {first count : ℕ} {f : FrameRange}
    → Claims r first count f r'
    → AreValid (r ∷ rs)
    → Effect (r ∷ rs) count f (r' ∷ rs)
unfolding state_of
Claims-Effect {r} {r'} rs {count} {f} c v = record {
  frames_count = c.frames_count;
  aligned = omega (arith, c.frames_start, v.0.aligned);
  was_free =
      λ a h. ground (arith, c.frames_start, c.frames_count, c.inside, c.was_free (frame_index r a));
  state_after = state-Marks c.frames_start (rw c.frames_count c.inside) (Claims-Marks c) rs;
  shape_same = (same, AllSameShape-refl rs);
  valid = (c.valid, ApartAll-shape rs rs same (AllSameShape-refl rs) v.1, v.2);
}
  where
    same : SameShape r r'
    same = record {
      start_same = c.start_same;
      end_same = c.end_same;
      size_same = c.writes.size_same;
    }

later-Effect :
    {r : MemoryRegion} {rs rs' : List MemoryRegion} {count : ℕ} {f : FrameRange}
    → AreValid (r ∷ rs)
    → Effect rs count f rs'
    → Effect (r ∷ rs) count f (r ∷ rs')
unfolding state_of
later-Effect {r} {rs} {rs'} {count} {f} v e = record {
  frames_count = e.frames_count;
  aligned = e.aligned;
  was_free = λ a h. rw (manages-of_later r rs a v.0 v.1 v.2 (e.was_free a h)) (e.was_free a h);
  state_after = λ a. elim (Bool-cases (in_range f a)) [
    | inl h ↦ rw (h, manages-of_later r rs a v.0 v.1 v.2 (e.was_free a h)) (e.state_after a ∙ rw h)
    | inr h ↦ rw h (
        ap (λ (t : Option Bool). if manages r a then some (bit r.bitmap (frame_index r a)) else t)
          (e.state_after a ∙ rw h))
  ];
  shape_same = (SameShape-refl r, e.shape_same);
  valid = (v.0, ApartAll-shape rs rs' (SameShape-refl r) e.shape_same v.1, e.valid);
}

pub Takes-Effect :
    {count : ℕ} {f : FrameRange} {rs rs' : List MemoryRegion}
    → Takes count f rs rs'
    → AreValid rs
    → Effect rs count f rs'
Takes-Effect (here {rs} first least c) v = Claims-Effect rs c v
Takes-Effect (later full t) v = later-Effect v (Takes-Effect t v.2)

module _ (x : AddrApi) where
  -- On valid regions a request for at least one frame is served by the first region with a free run
  -- of that length, at its first such run: the frames were free, they alone become used, and the
  -- regions stay valid. Where no region has such a run it is refused with `OutOfMemory`, and the
  -- regions stay as they are.
  pub alloc-first_fit :
      (rs : List MemoryRegion) (count : ℕ)
      → AreValid rs
      → 0 < count
      → ((f : FrameRange) × (rs' : List MemoryRegion) × (alloc x (some rs) count
            ≡ ok (success f, some rs'))
          × Takes count f rs rs'
          × Effect rs count f rs')
        ⊎ ((alloc x (some rs) count ≡ ok (failure out_of_memory, some rs)) × AreFull rs count)
  unfolding alloc
  alloc-first_fit rs count v pos =
      answer (alloc_regions x rs count) (alloc_regions-Served x rs count v pos)
    where
      reply : Option FrameRange × List MemoryRegion → Outcome (AllocResult FrameRange × Slot)
      reply p = elim p.0 [
        | some frames ↦ ok (success frames, some p.1)
        | none ↦ ok (failure out_of_memory, some p.1)
      ]

      answer :
          (o : Outcome (Option FrameRange × List MemoryRegion))
          → Served rs count o
          → ((f : FrameRange) × (rs' : List MemoryRegion) × ((o >>= reply)
                ≡ ok (success f, some rs'))
              × Takes count f rs rs'
              × Effect rs count f rs')
            ⊎ (((o >>= reply) ≡ ok (failure out_of_memory, some rs)) × AreFull rs count)
      answer _ (given t) = inl (_, _, refl, t, Takes-Effect t v)
      answer _ (refused h) = inr (refl, h)

  regions_zero : (rs : List MemoryRegion) → AreValid rs → alloc_regions x rs 0 ≡ ok (none, rs)
  unfolding alloc_regions
  regions_zero [] v = refl
  regions_zero (r ∷ rs) v = rw (alloc-zero x r v.0, regions_zero rs v.2)

  -- On valid regions a request for no frames is refused with `OutOfMemory`, whatever is free.
  pub alloc_zero :
      (rs : List MemoryRegion)
      → AreValid rs
      → alloc x (some rs) 0 ≡ ok (failure out_of_memory, some rs)
  unfolding alloc
  alloc_zero rs v = rw (regions_zero rs v)
