-- ===== src/Memory/Allocator/Clients/Sound.antt =====
-- Every step of a client keeps the ranges held apart and the frames accounted for.
use os_rust.Shared.{
  ℕ, zero, suc, ◌+◌, ◌≡◌, inl, inr, refl, List, [], ◌∷◌, some, ok, arith, Bool-cases, Option-cases,
  get_elem?,
}
use os_rust.Memory.Addr.{AddrApi}
use os_rust.Memory.Frame.{FrameRange}
use os_rust.Memory.Region.{MemoryRegion}
use os_rust.Memory.Allocator.States.{in_range}
use os_rust.Memory.Allocator.Count.{total_free-Takes}
use os_rust.Memory.Allocator.Alloc.{Effect, alloc-first_fit, alloc_zero}
use os_rust.Memory.Allocator.Dealloc.{Managed-shape, Takes-Managed, Returns, dealloc-Returns}
use os_rust.Memory.Allocator.Clients.{
  Request, request, release, remove, step, run, Disjoint, AreDisjoint, IsHeld, AreHeld, frames_in,
  IsSound,
}

module _ {rs rs' : List MemoryRegion} {count : ℕ} {f : FrameRange} (e : Effect rs count f rs') where
  keeps_held : (held : List FrameRange) → AreHeld rs held → AreHeld rs' held
  keeps_held [] h = tt
  keeps_held (g ∷ gs) ((pos, m, u), d, h) = (
    (pos, Managed-shape rs' m e.shape_same, λ a i. ground (arith, e.state_after a, u a i)),
    d,
    keeps_held gs h,
  )

  new_apart : (held : List FrameRange) → AreHeld rs held → AreDisjoint f held
  new_apart [] h = tt
  new_apart (g ∷ gs) ((pos, m, u), d, h) = (
    λ a i. elim (Bool-cases (in_range g a)) [ inl j ↦ cc (e.was_free a i, u a j) | inr j ↦ j ],
    new_apart gs h,
  )

Disjoint-symm : (f g : FrameRange) → Disjoint f g → Disjoint g f
Disjoint-symm f g d a i = elim (Bool-cases (in_range f a)) [ inl j ↦ cc (d a j, i) | inr j ↦ j ]

AreDisjoint-get :
    (f g : FrameRange) (gs : List FrameRange) (i : ℕ)
    → AreDisjoint f gs
    → get_elem? gs i ≡ some g
    → Disjoint f g
AreDisjoint-get f g [] i d e = cc
AreDisjoint-get f g (h ∷ gs) zero d e = let p : h ≡ g = cc in rw p at d.0
AreDisjoint-get f g (h ∷ gs) (suc i) d e = AreDisjoint-get f g gs i d.1 e

AreDisjoint-remove :
    (f : FrameRange) (gs : List FrameRange) (i : ℕ) → AreDisjoint f gs → AreDisjoint f (remove gs i)
AreDisjoint-remove f [] i d = tt
AreDisjoint-remove f (g ∷ gs) zero d = d.1
AreDisjoint-remove f (g ∷ gs) (suc i) d = (d.0, AreDisjoint-remove f gs i d.1)

-- A range taken off the list is held, and apart from those left.
record Picked (rs : List MemoryRegion) (held : List FrameRange) (i : ℕ) (f : FrameRange)
    : Type 0 where
  held_one : IsHeld rs f
  apart : AreDisjoint f (remove held i)
  rest : AreHeld rs (remove held i)
  counted : frames_in held ≡ f.count + frames_in (remove held i)

pick :
    (rs : List MemoryRegion) (held : List FrameRange) (i : ℕ) (f : FrameRange)
    → AreHeld rs held
    → get_elem? held i ≡ some f
    → Picked rs held i f
pick rs [] i f h e = cc
pick rs (g ∷ gs) zero f h e =
    let p : g ≡ f = cc in
    rw (← p) (record { held_one = h.0; apart = h.1; rest = h.2; counted = refl })
pick rs (g ∷ gs) (suc i) f h e =
    let k = pick rs gs i f h.2 e in
    record {
      held_one = k.held_one;
      apart = (Disjoint-symm g f (AreDisjoint-get g f gs i h.1 e), k.apart);
      rest = (h.0, AreDisjoint-remove g gs i h.1, k.rest);
      counted = omega (arith, k.counted);
    }

keeps_apart :
    {rs rs' : List MemoryRegion} {f : FrameRange} (held : List FrameRange)
    → Returns rs f rs'
    → AreDisjoint f held
    → AreHeld rs held
    → AreHeld rs' held
keeps_apart [] t d h = tt
keeps_apart {rs' = rs'} {f} (g ∷ gs) t d ((pos, m, u), dg, h) = (
  (
    pos,
    Managed-shape rs' m t.shape_same,
    λ a i. ground (arith, t.state_after a, u a i, Disjoint-symm f g d.0 a i),
  ),
  dg,
  keeps_apart gs t d.1 h,
)

module _ (x : AddrApi) (total : ℕ) where
  step_request :
      (rs : List MemoryRegion) (held : List FrameRange) (count : ℕ)
      → IsSound total rs held
      → (rs' : List MemoryRegion) × (held' : List FrameRange) × (step x
            (some rs, held)
            (request count)
          ≡ ok (some rs', held'))
        × IsSound total rs' held'
  unfolding step
  step_request rs held zero s = (rs, held, rw (alloc_zero x rs s.valid), s)
  step_request rs held (suc n) s = elim (alloc-first_fit x rs (suc n) s.valid (omega arith)) [
    | inl (f, rs', run, t, e) ↦ (
      rs',
      f ∷ held,
      rw run,
      record {
        valid = e.valid;
        held_apart = (
          (
            omega (arith, e.frames_count),
            Managed-shape rs' (Takes-Managed t) e.shape_same,
            λ a i. ground (arith, e.state_after a),
          ),
          new_apart e held s.held_apart,
          keeps_held e held s.held_apart,
        );
        balance = omega (arith, s.balance, total_free-Takes t, e.frames_count);
      },
    )
    | inr (run, full) ↦ (rs, held, rw run, s)
  ]

  step_release :
      (rs : List MemoryRegion) (held : List FrameRange) (i : ℕ)
      → IsSound total rs held
      → (rs' : List MemoryRegion) × (held' : List FrameRange) × (step x (some rs, held) (release i)
          ≡ ok (some rs', held'))
        × IsSound total rs' held'
  unfolding step
  step_release rs held i s = elim (Option-cases (get_elem? held i)) [
    | inl e ↦ (rs, held, rw (e, step), s)
    | inr (f, e) ↦
        let k = pick rs held i f s.held_apart e in
        let (rs', run, t) = dealloc-Returns rs k.held_one.1 k.held_one.0 s.valid in
        (
          rs',
          remove held i,
          rw (e, step, run),
          record {
            valid = t.valid;
            held_apart = keeps_apart (remove held i) t k.apart k.rest;
            balance = omega (arith, s.balance, t.freed k.held_one.2, k.counted);
          },
        )
  ]

  -- Any sequence of requests and returns runs without a panic from a sound state to a sound state:
  -- at its end no two ranges held overlap, each is marked used, and the frames free and held add up
  -- to the same total.
  pub run-IsSound :
      (rs : List MemoryRegion) (held : List FrameRange) (qs : List Request)
      → IsSound total rs held
      → (rs' : List MemoryRegion) × (held' : List FrameRange) × (run x (some rs, held) qs
          ≡ ok (some rs', held'))
        × IsSound total rs' held'
  unfolding run
  run-IsSound rs held [] s = (rs, held, refl, s)
  run-IsSound rs held (request n ∷ qs) s =
      let (rs₁, held₁, e₁, s₁) = step_request rs held n s in
      let (rs₂, held₂, e₂, s₂) = run-IsSound rs₁ held₁ qs s₁ in (rs₂, held₂, rw (e₁, e₂), s₂)
  run-IsSound rs held (release i ∷ qs) s =
      let (rs₁, held₁, e₁, s₁) = step_release rs held i s in
      let (rs₂, held₂, e₂, s₂) = run-IsSound rs₁ held₁ qs s₁ in (rs₂, held₂, rw (e₁, e₂), s₂)
