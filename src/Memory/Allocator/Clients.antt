-- ===== src/Memory/Allocator/Clients.antt =====
-- Clients of the allocator: any sequence of requests, and of returns of ranges still held.
pub mod Sound
use os_rust.Shared.{
  ℕ, zero, suc, ◌+◌, ◌-◌, ◌*◌, ◌≤◌, ◌<◌, ◌≡◌, ◌⊎◌, inl, inr, refl, ◌∙◌, ap, List, [], ◌∷◌, Bool,
  true, false, Option, none, some, Outcome, ok, ◌>>=◌, arith, if◌then◌else◌, Bool-cases,
  Option-cases, get_elem?, ==_iff,
}
use os_rust.Memory.Addr.{AddrApi}
use os_rust.Memory.Frame.{FrameRange, AllocResult, success, failure, out_of_memory}
use os_rust.Memory.Region.{MemoryRegion}
use os_rust.Memory.Allocator.{Slot, alloc, dealloc}
use os_rust.Memory.Allocator.States.{AreValid, state_of, in_range}
use os_rust.Memory.Allocator.Count.{total_free, total_free-Takes}
use os_rust.Memory.Allocator.Alloc.{Takes, Effect, AreFull, alloc-first_fit, alloc_zero}
use os_rust.Memory.Allocator.Dealloc.{
  Managed, Managed-shape, Takes-Managed, IsUsed, Returns, dealloc-Returns,
}

-- A request for frames, or the return of the range at a position of the list of those held.
pub data Request : Type 0 where
  request : ℕ → Request
  release : ℕ → Request

abbrev pub Client : Type 0
Client = Slot × List FrameRange

abbrev pub remove : List FrameRange → ℕ → List FrameRange
remove [] i = []
remove (f ∷ fs) zero = fs
remove (f ∷ fs) (suc i) = f ∷ remove fs i

-- A position with no range asks for nothing.
pub step : AddrApi → Client → Request → Outcome Client
step x (slot, held) (request count) = do
  (result, slot') ← alloc x slot count
  elim result [ success f ↦ ok (slot', f ∷ held) | failure e ↦ ok (slot', held) ]
step x (slot, held) (release i) = elim (get_elem? held i) [
  | none ↦ ok (slot, held)
  | some f ↦ do slot' ← dealloc slot f; ok (slot', remove held i)
]

pub run : AddrApi → Client → List Request → Outcome Client
run x c [] = ok c
run x c (q ∷ qs) = do c' ← step x c q; run x c' qs

-- No address lies in both ranges.
abbrev pub Disjoint : FrameRange → FrameRange → Type 0
Disjoint f g = (a : ℕ) → in_range f a ≡ true → in_range g a ≡ false

abbrev pub AreDisjoint : FrameRange → List FrameRange → Type 0
AreDisjoint f [] = Unit
AreDisjoint f (g ∷ gs) = Disjoint f g × AreDisjoint f gs

-- A range that a client holds: frames of one region, all used.
abbrev pub IsHeld : List MemoryRegion → FrameRange → Type 0
IsHeld rs f = (0 < f.count) × Managed f rs × IsUsed rs f

-- The ranges held are held apart.
abbrev pub AreHeld : List MemoryRegion → List FrameRange → Type 0
AreHeld rs [] = Unit
AreHeld rs (f ∷ fs) = IsHeld rs f × AreDisjoint f fs × AreHeld rs fs

abbrev pub frames_in : List FrameRange → ℕ
frames_in [] = 0
frames_in (f ∷ fs) = f.count + frames_in fs

-- The regions are valid, every range held is used and overlaps no other, and with the `total - held`
-- free frames they make up the frames that were free or held at the start.
pub record IsSound (total : ℕ) (rs : List MemoryRegion) (held : List FrameRange) : Type 0 where
  pub valid : AreValid rs
  pub held_apart : AreHeld rs held
  pub balance : total_free rs + frames_in held ≡ total
