-- ===== src/Memory/Pages.antt =====
-- Pages taken from the allocator one at a time, seen through the direct map: `alloc_frame` with
-- `phys_to_virt` in src/arch/x86_64 and src/sched/thread.rs.
use os_rust.Shared.{
  ℕ, zero, suc, ◌+◌, ◌-◌, ◌*◌, ◌%◌, ◌^◌, ◌≤◌, ◌<◌, ◌≡◌, ◌⊎◌, inl, inr, refl, List, [], ◌∷◌, true,
  some, Outcome, ok, panic, ◌>>=◌, ◌==◌, ==_iff, arith, get_elem?,
}
use os_rust.Memory.Addr.{AddrApi}
use os_rust.Memory.Frame.{
  Frame, FrameRange, AllocResult, success, failure, out_of_memory, frame_new,
}
use os_rust.Memory.Region.{MemoryRegion}
use os_rust.Memory.Allocator.{Slot, alloc_one}
use os_rust.Memory.Allocator.States.{AreValid, AllSameShape}
use os_rust.Memory.Allocator.Alloc.{Takes, here, later, Effect, AreFull, alloc-first_fit}
use os_rust.Memory.Allocator.Count.{total_free, total_free-AreFull, total_free-Takes}
use os_rust.Memory.Translate.{phys_to_virt, phys_to_virt_high}

-- `alloc_one` gives one free frame, or there is none.
pub alloc_one_lem :
    (x : AddrApi) (rs : List MemoryRegion)
    → AreValid rs
    → ((f : FrameRange) × (rs' : List MemoryRegion) × (alloc_one x (some rs)
          ≡ ok (success (record { addr = f.start }), some rs'))
        × Takes 1 f rs rs'
        × Effect rs 1 f rs')
      ⊎ ((alloc_one x (some rs) ≡ ok (failure out_of_memory, some rs)) × AreFull rs 1)
unfolding alloc_one frame_new
alloc_one_lem x rs v = elim (alloc-first_fit x rs 1 v (omega arith)) [
  | inl (f, rs', run, t, e) ↦
      let even : (f.start % 4096 == 0) ≡ true = (==_iff (f.start % 4096) 0).1 e.aligned in
      inl (f, rs', rw (run, x.is_aligned_frame f.start, even) refl, t, e)
  | inr (run, full) ↦ inr (rw run refl, full)
]

-- Fewer than `n` frames of the regions are free.
abbrev pub NoFrame : ℕ → List MemoryRegion → Type 0
NoFrame n rs = total_free rs < n

-- A full list of regions has fewer free frames than any number from 1 on.
pub at_once : {n : ℕ} (rs : List MemoryRegion) → AreFull rs 1 → 0 < n → NoFrame n rs
at_once {n} rs full pos = omega (arith, total_free-AreFull rs full)

-- One frame taken makes up for one less.
pub after_one :
    {n : ℕ} {f : FrameRange} {rs rs' : List MemoryRegion}
    → Takes 1 f rs rs'
    → NoFrame n rs'
    → NoFrame (suc n) rs
after_one t few = omega (arith, total_free-Takes t)

-- The direct map covers the regions, in the upper half of the address space and page by page.
pub record IsMapped (offset : ℕ) (rs : List MemoryRegion) : Type 0 where
  pub high : 2 ^ 64 - 2 ^ 47 ≤ offset
  pub aligned : offset % 4096 ≡ 0
  pub covers : (i : ℕ) (r : MemoryRegion) → get_elem? rs i ≡ some r → r.end + offset < 2 ^ 64

-- The range ends inside one of the regions.
pub Takes-in :
    {count : ℕ} {f : FrameRange} {rs rs' : List MemoryRegion} (offset : ℕ)
    → ((i : ℕ) (r : MemoryRegion) → get_elem? rs i ≡ some r → r.end + offset < 2 ^ 64)
    → Takes count f rs rs'
    → f.start + count * 4096 + offset < 2 ^ 64
Takes-in offset all (here {r} first least c) = omega (
  arith,
  all 0 r refl,
  c.frames_start,
  c.inside,
  c.valid.frames_inside,
  c.start_same,
  c.end_same,
  c.writes.size_same,
)
Takes-in offset all (later full t) = Takes-in offset (λ i r e. all (suc i) r e) t

ends_covered :
    (offset : ℕ) (rs rs' : List MemoryRegion)
    → AllSameShape rs rs'
    → ((i : ℕ) (r : MemoryRegion) → get_elem? rs i ≡ some r → r.end + offset < 2 ^ 64)
    → (i : ℕ) (r : MemoryRegion) → get_elem? rs' i ≡ some r
    → r.end + offset < 2 ^ 64
ends_covered offset [] [] s all i r e = all i r e
ends_covered offset [] (r' ∷ rs') s all i r e = absurd s
ends_covered offset (r' ∷ rs) [] s all i r e = absurd s
ends_covered offset (q ∷ rs) (q' ∷ rs') s all zero r e =
    let same : q' ≡ r = cc in let bound = all 0 q refl in rw (← same) (omega (arith, s.0.end_same))
ends_covered offset (q ∷ rs) (q' ∷ rs') s all (suc i) r e =
    ends_covered offset rs rs' s.1 (λ j t h. all (suc j) t h) i r e

pub IsMapped-shape :
    {offset : ℕ} {rs rs' : List MemoryRegion}
    → AllSameShape rs rs'
    → IsMapped offset rs
    → IsMapped offset rs'
IsMapped-shape {offset} {rs} {rs'} s m = record {
  high = m.high;
  aligned = m.aligned;
  covers = ends_covered offset rs rs' s m.covers;
}

-- `alloc_frame().map(|f| phys_to_virt(f.addr())).expect(..)`
unfoldable pub page_of : AddrApi → ℕ → AllocResult Frame → Slot → Outcome (ℕ × Slot)
page_of x offset (failure e) frames = panic
page_of x offset (success f) frames = do a ← phys_to_virt x offset f.addr; ok (a, frames)

unfoldable pub alloc_page : AddrApi → ℕ → Slot → Outcome (ℕ × Slot)
alloc_page x offset frames = do
  (result, frames') ← alloc_one x frames
  page_of x offset result frames'

-- A page of a frame that was free, and the regions after it.
pub record NewPage (offset : ℕ) (rs : List MemoryRegion) (page : ℕ) (rs' : List MemoryRegion)
    : Type 0 where
  pub frame : FrameRange
  pub taken : Takes 1 frame rs rs'
  pub effect : Effect rs 1 frame rs'
  pub at : page ≡ frame.start + offset
  pub below : page + 4096 < 2 ^ 64
  pub aligned : page % 4096 ≡ 0
  pub mapped : IsMapped offset rs'

pub alloc_page_lem :
    (x : AddrApi) (offset : ℕ) (rs : List MemoryRegion)
    → AreValid rs
    → IsMapped offset rs
    → ((page : ℕ) × (rs' : List MemoryRegion) × (alloc_page x offset (some rs)
          ≡ ok (page, some rs'))
        × NewPage offset rs page rs')
      ⊎ ((alloc_page x offset (some rs) ≡ panic) × AreFull rs 1)
unfolding alloc_page page_of
alloc_page_lem x offset rs v mapped = elim (alloc_one_lem x rs v) [
  | inl (f, rs', run, t, e) ↦
      let bound = Takes-in offset mapped.covers t in
      inl (
        f.start + offset,
        rs',
        rw (run, phys_to_virt_high x offset f.start mapped.high (omega arith)) refl,
        record {
          frame = f;
          taken = t;
          effect = e;
          at = refl;
          below = omega arith;
          aligned = omega (arith, e.aligned, mapped.aligned);
          mapped = IsMapped-shape e.shape_same mapped;
        },
      )
  | inr (run, full) ↦ inr (rw run refl, full)
]
