-- ===== src/Memory/Boot/Ready.antt =====
-- The allocator after `init`.

use os_rust.Shared.{
  ℕ, zero, suc, ◌+◌, ◌≤◌, ◌≡◌, ◌≢◌, refl, ap, ◌∙◌, List, [], ◌∷◌, true, some, ok, arith, get_elem?,
  set,
}
use os_rust.Memory.Frame.{FrameRange}
use os_rust.Memory.Bitmap.Bits.{bit}
use os_rust.Memory.Bitmap.Runs.{within}
use os_rust.Memory.Region.{MemoryRegion}
use os_rust.Memory.Region.Alloc.{IsValid}
use os_rust.Memory.Region.Free.{Lies, Marks, reserve_lem, region_free-Reserved, region_free-clear}
use os_rust.Memory.Allocator.States.{
  AreValid, SameShape, SameShape-refl, AllSameShape, AllSameShape-refl, ApartAll-shape,
}
use os_rust.Memory.Allocator.Count.{total_free, total_size}
use os_rust.Memory.Boot.{Entry, reserve_in}
use os_rust.Memory.Boot.Layout.{Placed, finished, skipped, placed, IsClear, AllClear}

-- A list of clear regions with the first `n` frames of the region at an index reserved.
pub record Reserved (rs : List MemoryRegion) (k n : ℕ) (rs' : List MemoryRegion) : Type 0 where
  pub region : MemoryRegion
  pub at_index : get_elem? rs' k ≡ some region
  pub used : (j : ℕ) → bit region.bitmap j ≡ within 0 n j
  pub others : (i : ℕ) (r : MemoryRegion) → i ≢ k → get_elem? rs' i ≡ some r → IsClear r
  pub free_left : total_free rs' + n ≡ total_size rs'
  pub valid : AreValid rs'
  pub shape_same : AllSameShape rs rs'

total_free-AllClear : (rs : List MemoryRegion) → AllClear rs → total_free rs ≡ total_size rs
unfolding total_free total_size
total_free-AllClear [] c = refl
total_free-AllClear (r ∷ rs) c = omega (arith, total_free-AllClear rs c.1, region_free-clear r c.0)

AllClear-get_elem? :
    (rs : List MemoryRegion) (i : ℕ) (r : MemoryRegion)
    → AllClear rs
    → get_elem? rs i ≡ some r
    → IsClear r
AllClear-get_elem? [] i r c h j = absurd cc
AllClear-get_elem? (s ∷ rs) zero r c h j = let e : s ≡ r = cc in rw (← e) (c.0 j)
AllClear-get_elem? (s ∷ rs) (suc i) r c h j = AllClear-get_elem? rs i r c.1 h j

pub AreValid-get_elem? :
    (rs : List MemoryRegion) (i : ℕ) (r : MemoryRegion)
    → AreValid rs
    → get_elem? rs i ≡ some r
    → IsValid r
AreValid-get_elem? [] i r v h = absurd cc
AreValid-get_elem? (s ∷ rs) zero r v h = let e : s ≡ r = cc in rw (← e) v.0
AreValid-get_elem? (s ∷ rs) (suc i) r v h = AreValid-get_elem? rs i r v.2 h

-- Past the first region the list is clear.
AllClear-tail :
    (s : MemoryRegion) (rs : List MemoryRegion) (i : ℕ) (t : MemoryRegion)
    → AllClear rs
    → i ≢ 0
    → get_elem? (s ∷ rs) i ≡ some t
    → IsClear t
AllClear-tail s rs zero t c ne g = absurd (ne refl)
AllClear-tail s rs (suc i) t c ne g = AllClear-get_elem? rs i t c g

others-cons :
    {rs : List MemoryRegion} {k n : ℕ} {rs' : List MemoryRegion} (s : MemoryRegion) (i : ℕ)
    (u : MemoryRegion)
    → IsClear s
    → Reserved rs k n rs'
    → i ≢ suc k
    → get_elem? (s ∷ rs') i ≡ some u
    → IsClear u
others-cons s zero u c t ne g = let e : s ≡ u = cc in rw (← e) c
others-cons s (suc i) u c t ne g = t.others i u (λ e. ne (ap suc e)) g

set-Reserved :
    (rs : List MemoryRegion) (k n : ℕ) {r r' : MemoryRegion}
    → AreValid rs
    → AllClear rs
    → get_elem? rs k ≡ some r
    → Marks true r 0 n r'
    → n ≤ r.bitmap.size
    → Reserved rs k n (set rs k r')
unfolding total_free total_size
set-Reserved [] k n v c h m q = absurd cc
set-Reserved (s ∷ rs) zero n {r} {r'} v c h m q =
    let here : s ≡ r = cc in
    let clear : IsClear r = rw (← here) c.0 in
    let same : SameShape s r' = record {
      start_same = rw here m.start_same;
      end_same = rw here m.end_same;
      size_same = rw here m.writes.size_same;
    } in
    record {
      region = r';
      at_index = refl;
      used = λ j. ground (arith, m.writes.bits j, clear j);
      others = λ i t ne g. AllClear-tail r' rs i t c.1 ne g;
      free_left = omega (
        arith,
        m.writes.size_same,
        total_free-AllClear rs c.1,
        region_free-Reserved m (omega arith) (λ j a b. clear j),
        region_free-clear r clear,
      );
      valid = (m.valid, ApartAll-shape rs rs same (AllSameShape-refl rs) v.1, v.2);
      shape_same = (same, AllSameShape-refl rs);
    }
set-Reserved (s ∷ rs) (suc k) n {r} {r'} v c h m q =
    let t = set-Reserved rs k n v.2 c.1 h m q in
    record {
      region = t.region;
      at_index = t.at_index;
      used = t.used;
      others = λ i u ne g. others-cons s i u c.0 t ne g;
      free_left = omega (arith, t.free_left, region_free-clear s c.0);
      valid = (v.0, ApartAll-shape rs (set rs k r') (SameShape-refl s) t.shape_same v.1, t.valid);
      shape_same = (SameShape-refl s, t.shape_same);
    }

-- `reserve` of the first frames of one of the regions, all clear.
pub reserve_in_lem :
    (rs : List MemoryRegion) (k : ℕ) (f : FrameRange) {r : MemoryRegion}
    → AreValid rs
    → AllClear rs
    → get_elem? rs k ≡ some r
    → Lies r 0 f
    → (rs' : List MemoryRegion) × (reserve_in rs k f ≡ ok rs') × Reserved rs k f.count rs'
unfolding reserve_in
reserve_in_lem rs k f {r} v c h l =
    let (r', e, m) = reserve_lem (AreValid-get_elem? rs k r v h) l in
    (set rs k r', rw (h, e) refl, set-Reserved rs k f.count v c h m (omega (arith, l.inside)))

pub Placed-shape :
    {es : List Entry} {rs : List MemoryRegion} (rs' : List MemoryRegion)
    → Placed es rs
    → AllSameShape rs rs'
    → Placed es rs'
Placed-shape [] finished s = finished
Placed-shape (r' ∷ rs') finished s = absurd s
Placed-shape rs' (skipped u p) s = skipped u (Placed-shape rs' p s)
Placed-shape [] (placed u x p) s = absurd s
Placed-shape (r' ∷ rs') (placed u x p) s =
    placed u
      (record {
        start_at = s.0.start_same ∙ x.start_at;
        end_at = s.0.end_same ∙ x.end_at;
        frames = s.0.size_same ∙ x.frames;
      })
      (Placed-shape rs' p s.1)
