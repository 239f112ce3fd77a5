-- ===== src/Memory/Allocator/States.antt =====
-- The allocator as a map from physical addresses to the state of their frame.
use os_rust.Shared.{
  ℕ, ◌+◌, ◌-◌, ◌*◌, ◌/◌, ◌≤◌, ◌≡◌, ◌∙◌, ◌⊎◌, inl, inr, refl, List, [], ◌∷◌, Bool, true, false, ◌&&◌,
  Option, none, some, arith, leb, ltb, if◌then◌else◌, Bool-cases,
}
use os_rust.Memory.Frame.{FrameRange}
use os_rust.Memory.Bitmap.Bits.{bit}
use os_rust.Memory.Region.{MemoryRegion}
use os_rust.Memory.Region.Alloc.{IsValid}
use os_rust.Memory.Region.Free.{Marks}

-- Two regions share no address.
abbrev pub Apart : MemoryRegion → MemoryRegion → Type 0
Apart r s = (r.end ≤ s.start) ⊎ (s.end ≤ r.start)

abbrev pub ApartAll : MemoryRegion → List MemoryRegion → Type 0
ApartAll r [] = Unit
ApartAll r (s ∷ rs) = Apart r s × ApartAll r rs

-- The invariant of the regions: each is valid, and no two share an address.
abbrev pub AreValid : List MemoryRegion → Type 0
AreValid [] = Unit
AreValid (r ∷ rs) = IsValid r × ApartAll r rs × AreValid rs

-- Whether an address is in one of the region's frames, and in which.
abbrev pub manages : MemoryRegion → ℕ → Bool
manages r a = leb r.start a && ltb a (r.start + r.bitmap.size * 4096)

abbrev pub frame_index : MemoryRegion → ℕ → ℕ
frame_index r a = (a - r.start) / 4096

-- `some true` for an address in a used frame, `some false` in a free one, `none` in no frame.
unfoldable pub state_of : List MemoryRegion → ℕ → Option Bool
state_of [] a = none
state_of (r ∷ rs) a = if manages r a then some (bit r.bitmap (frame_index r a)) else state_of rs a

-- Whether an address lies in a range of frames.
abbrev pub in_range : FrameRange → ℕ → Bool
in_range f a = leb f.start a && ltb a (f.start + f.count * 4096)

module _ {r r' : MemoryRegion} {first : ℕ} {f : FrameRange} {v : Bool} where
  -- Marking a run of frames changes the state of its addresses alone.
  pub state-Marks :
      f.start ≡ r.start + first * 4096
      → first + f.count ≤ r.bitmap.size
      → Marks v r first f.count r'
      → (rs : List MemoryRegion) (a : ℕ)
      → state_of (r' ∷ rs) a ≡ (if in_range f a then some v else state_of (r ∷ rs) a)
  unfolding state_of
  state-Marks start inside m rs a =
      ground (arith, m.start_same, m.writes.size_same, m.writes.bits (frame_index r a))

-- `r'` has the extent of `r`, whatever its bits.
pub record SameShape (r r' : MemoryRegion) : Type 0 where
  pub start_same : r'.start ≡ r.start
  pub end_same : r'.end ≡ r.end
  pub size_same : r'.bitmap.size ≡ r.bitmap.size

pub SameShape-refl : (r : MemoryRegion) → SameShape r r
SameShape-refl r = record { start_same = refl; end_same = refl; size_same = refl }

abbrev pub AllSameShape : List MemoryRegion → List MemoryRegion → Type 0
AllSameShape [] [] = Unit
AllSameShape (r ∷ rs) (r' ∷ rs') = SameShape r r' × AllSameShape rs rs'
AllSameShape _ _ = ⊥

pub AllSameShape-refl : (rs : List MemoryRegion) → AllSameShape rs rs
AllSameShape-refl [] = tt
AllSameShape-refl (r ∷ rs) = (SameShape-refl r, AllSameShape-refl rs)

SameShape-trans : {r s t : MemoryRegion} → SameShape r s → SameShape s t → SameShape r t
SameShape-trans a b = record {
  start_same = b.start_same ∙ a.start_same;
  end_same = b.end_same ∙ a.end_same;
  size_same = b.size_same ∙ a.size_same;
}

pub AllSameShape-trans :
    (rs ss ts : List MemoryRegion) → AllSameShape rs ss → AllSameShape ss ts → AllSameShape rs ts
AllSameShape-trans [] [] [] a b = tt
AllSameShape-trans (r ∷ rs) (s ∷ ss) (t ∷ ts) a b =
    (SameShape-trans a.0 b.0, AllSameShape-trans rs ss ts a.1 b.1)
AllSameShape-trans [] [] (t ∷ ts) a b = b
AllSameShape-trans [] (s ∷ ss) ts a b = absurd a
AllSameShape-trans (r ∷ rs) [] ts a b = absurd a
AllSameShape-trans (r ∷ rs) (s ∷ ss) [] a b = absurd b

Apart-shape : {r r' s s' : MemoryRegion} → SameShape r r' → SameShape s s' → Apart r s → Apart r' s'
Apart-shape b c a = ground (arith, b.start_same, b.end_same, c.start_same, c.end_same)

pub ApartAll-shape :
    {r r' : MemoryRegion} (rs rs' : List MemoryRegion)
    → SameShape r r'
    → AllSameShape rs rs'
    → ApartAll r rs
    → ApartAll r' rs'
ApartAll-shape [] [] b h a = tt
ApartAll-shape [] (s' ∷ rs') b h a = absurd h
ApartAll-shape (s ∷ rs) [] b h a = absurd h
ApartAll-shape (s ∷ rs) (s' ∷ rs') b h a = (Apart-shape b h.0 a.0, ApartAll-shape rs rs' b h.1 a.1)

-- An address of a later region is in no frame of the first.
pub manages-of_later :
    (r : MemoryRegion) (rs : List MemoryRegion) (a : ℕ) {b : Bool}
    → IsValid r
    → ApartAll r rs
    → AreValid rs
    → state_of rs a ≡ some b
    → manages r a ≡ false
unfolding state_of
manages-of_later r [] a v ap vs e = cc
manages-of_later r (s ∷ rs) a v ap vs e = elim (Bool-cases (manages s a)) [
  | inl m ↦ apart_at m
  | inr m ↦ manages-of_later r rs a v ap.1 vs.2 (rw m at e)
]
  where
    apart_at : manages s a ≡ true → manages r a ≡ false
    apart_at m = ground (arith, ap.0, v.frames_inside, vs.0.frames_inside)
