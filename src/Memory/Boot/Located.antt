-- ===== src/Memory/Boot/Located.antt =====
-- Where `init` writes, and that the frames of what it writes are the used ones.
use os_rust.Shared.{
  ℕ, zero, suc, ◌+◌, ◌*◌, ◌/◌, ◌%◌, ◌^◌, ◌≤◌, ◌<◌, ◌≡◌, ◌≢◌, inl, inr, refl, ap, ◌∙◌, List, [], ◌∷◌,
  Bool, true, ◌&&◌, Option, none, some, arith, div_ceil, leb, get_elem?, Bool-cases,
}
use mathlib.Core.List.{map}
use os_rust.Memory.Bitmap.Bits.{bit}
use os_rust.Memory.Region.{MemoryRegion}
use os_rust.Memory.Allocator.States.{
  AreValid, SameShape, AllSameShape, AllSameShape-trans, state_of, manages, frame_index,
  manages-of_later,
}
use os_rust.Memory.Boot.{
  Entry, find_host, fill_zero, Placement, region_slice, region_spans, bitmap_spans,
}
use os_rust.Memory.Boot.Layout.{
  Reaches, Follows, InRows, IsClear, count_usable, all_bitmaps, metadata, Hosts,
}
use os_rust.Memory.Boot.Ready.{Reserved}

-- The frames that hold the metadata.
abbrev pub needed : ℕ → List Entry → ℕ
needed region_size es = div_ceil (metadata region_size es) 4096

-- Seen through the direct map at `offset`, the regions are written one after another from the frame
-- `base` on, their bitmaps follow without a gap, and the used frames are exactly those from `base` on
-- that this metadata takes.
pub record Located (region_size offset : ℕ) (es : List Entry) (ps : List Placement)
    (rs : List MemoryRegion) : Type 0 where
  pub base : ℕ
  pub aligned : base % 4096 ≡ 0
  pub below : base + needed region_size es * 4096 + offset < 2 ^ 64
  pub regions :
      Follows
        (region_spans ps region_size)
        (base + offset)
        (base + offset + count_usable es * region_size)
  pub bitmaps :
      Follows
        (bitmap_spans ps)
        (base + offset + count_usable es * region_size)
        (base + offset + metadata region_size es)
  pub same_regions : AllSameShape (region_slice ps) rs
  pub used :
      (a : ℕ) → base ≤ a → a < base + needed region_size es * 4096 → state_of rs a ≡ some true
  pub only :
      (a : ℕ) → state_of rs a ≡ some true → (base ≤ a) × (a < base + needed region_size es * 4096)

-- An address of a region is looked up there.
state_of-at :
    (rs : List MemoryRegion) (k a : ℕ) {r : MemoryRegion}
    → AreValid rs
    → get_elem? rs k ≡ some r
    → manages r a ≡ true
    → state_of rs a ≡ some (bit r.bitmap (frame_index r a))
unfolding state_of
state_of-at [] k a v h m = absurd cc
state_of-at (s ∷ rs) zero a {r} v h m = let same : s ≡ r = cc in rw (same, m) refl
state_of-at (s ∷ rs) (suc k) a v h m =
    let later = state_of-at rs k a v.2 h m in rw (manages-of_later s rs a v.0 v.1 v.2 later) later

some_same : {a b : Bool} → ◌≡◌ {A = Option Bool} (some a) (some b) → a ≡ b
some_same e = cc

none_used : {b : Bool} → ◌≡◌ {A = Option Bool} none (some b) → ⊥
none_used e = absurd cc

clear_unused :
    (rs : List MemoryRegion) (a : ℕ)
    → ((i : ℕ) (r : MemoryRegion) → get_elem? rs i ≡ some r → IsClear r)
    → state_of rs a ≡ some true
    → ⊥
unfolding state_of
clear_unused [] a clear h = none_used h
clear_unused (s ∷ rs) a clear h = elim (Bool-cases (manages s a)) [
  | inl m ↦
      let used : bit s.bitmap (frame_index s a) ≡ true = some_same (rw m at h) in
      let free = clear 0 s refl (frame_index s a) in absurd cc
  | inr m ↦ clear_unused rs a (λ i r e. clear (suc i) r e) (rw m at h)
]

-- Where all other regions are clear, a used address is one of the region with the number `k`.
used-at :
    (rs : List MemoryRegion) (k a : ℕ) {r : MemoryRegion}
    → get_elem? rs k ≡ some r
    → ((i : ℕ) (s : MemoryRegion) → i ≢ k → get_elem? rs i ≡ some s → IsClear s)
    → state_of rs a ≡ some true
    → (manages r a ≡ true) × (bit r.bitmap (frame_index r a) ≡ true)
unfolding state_of
used-at [] k a at others h = absurd (none_used h)
used-at (s ∷ rs) zero a {r} at others h =
    let same : s ≡ r = cc in
    elim (Bool-cases (manages s a)) [
      | inl m ↦ (rw same at m, rw same at (some_same (rw m at h)))
      | inr m ↦
          absurd (
            clear_unused rs a (λ i t e. others (suc i) t (λ z. absurd (omega arith)) e) (rw m at h))
    ]
used-at (s ∷ rs) (suc k) a at others h = elim (Bool-cases (manages s a)) [
  | inl m ↦
      let used : bit s.bitmap (frame_index s a) ≡ true = some_same (rw m at h) in
      let free = others 0 s (λ z. absurd (omega arith)) refl (frame_index s a) in absurd cc
  | inr m ↦ used-at rs k a at (λ i t ne e. others (suc i) t (λ z. ne (omega arith)) e) (rw m at h)
]

shape-at :
    (rs rs' : List MemoryRegion) (k : ℕ) {r r' : MemoryRegion}
    → AllSameShape rs rs'
    → get_elem? rs k ≡ some r
    → get_elem? rs' k ≡ some r'
    → SameShape r r'
shape-at [] rs' k s h h' = absurd cc
shape-at (q ∷ rs) [] k s h h' = absurd s
shape-at (q ∷ rs) (q' ∷ rs') zero {r} {r'} s h h' =
    let e : q ≡ r = cc in let e' : q' ≡ r' = cc in rw (e, e') at s.0
shape-at (q ∷ rs) (q' ∷ rs') (suc k) s h h' = shape-at rs rs' k s.1 h h'

fill_zero-AllSameShape : (rs : List MemoryRegion) → AllSameShape rs (map fill_zero rs)
unfolding fill_zero
fill_zero-AllSameShape [] = tt
fill_zero-AllSameShape (r ∷ rs) =
    (record { start_same = refl; end_same = refl; size_same = refl }, fill_zero-AllSameShape rs)

entry_same :
    {d e : Entry} {i k : ℕ} → ◌≡◌ {A = Option (Entry × ℕ)} (some (d, i)) (some (e, k)) → d ≡ e
entry_same h = cc

no_entry : {e : Entry} {k : ℕ} → ◌≡◌ {A = Option (Entry × ℕ)} none (some (e, k)) → ⊥
no_entry h = absurd cc

-- The direct map reaches the end of the entry found.
pub find_host-reached :
    (size offset : ℕ) (es : List Entry) (ri : ℕ) {e : Entry} {k : ℕ}
    → Reaches offset es
    → find_host size es ri ≡ some (e, k)
    → e.base + e.length + offset < 2 ^ 64
unfolding find_host
find_host-reached size offset [] ri reach h = absurd (no_entry h)
find_host-reached size offset (d ∷ es) ri {e} reach h =
    elim (Bool-cases (d.usable && leb size d.length)) [
      | inl fits ↦
          let usable : d.usable ≡ true = grind arith in
          let same : d ≡ e = entry_same (rw fits at h) in rw same at (reach.0 usable)
      | inr other ↦ find_host-reached size offset es _ reach.1 (rw other at h)
    ]

pub InRows-moved :
    (region_size : ℕ) (es : List Entry) (ps : List Placement) {a a' b b' : ℕ}
    → a ≡ a'
    → b ≡ b'
    → InRows region_size es ps a b
    → InRows region_size es ps a' b'
InRows-moved region_size es ps e e' rows = rw (e, e') at rows

-- The metadata that `init` lays out in the entry found.
pub located :
    (region_size offset : ℕ) (es : List Entry) (ps : List Placement) (e : Entry) (k : ℕ)
    (rs : List MemoryRegion)
    → e.base + e.length + offset < 2 ^ 64
    → (h : Hosts (metadata region_size es) (map fill_zero (region_slice ps)) e k)
    → InRows region_size es ps (e.base + offset) (e.base + offset + count_usable es * region_size)
    → Reserved (map fill_zero (region_slice ps)) k (needed region_size es) rs
    → Located region_size offset es ps rs
located region_size offset es ps e k rs reach h rows t =
    let shape =
      shape-at (map fill_zero (region_slice ps)) rs k t.shape_same h.at_index t.at_index in
    let starts : t.region.start ≡ e.base = shape.start_same ∙ h.extent.start_at in
    let size : t.region.bitmap.size ≡ e.length / 4096 = shape.size_same ∙ h.extent.frames in
    let fits : needed region_size es * 4096 ≤ e.length =
      omega (arith, h.long_enough, h.entry.whole) in
    record {
      base = e.base;
      aligned = h.entry.aligned;
      below = omega arith;
      regions = rows.0;
      bitmaps = ends_at rows.1;
      same_regions =
          AllSameShape-trans (region_slice ps) (map fill_zero (region_slice ps)) rs
            (fill_zero-AllSameShape (region_slice ps)) t.shape_same;
      used = λ a low high.
          let inside : manages t.region a ≡ true = ground (arith, h.entry.whole) in
          let marked : bit t.region.bitmap (frame_index t.region a) ≡ true =
            ground (arith, t.used (frame_index t.region a)) in
          state_of-at rs k a t.valid t.at_index inside ∙ ap some marked;
      only = λ a is_used.
          let (inside, marked) = used-at rs k a t.at_index t.others is_used in
          let low : e.base ≤ a = ground arith in
          (low, ground (arith, t.used (frame_index t.region a)));
    }
  where
    ends_at :
        Follows
          (bitmap_spans ps)
          (e.base + offset + count_usable es * region_size)
          (e.base + offset + count_usable es * region_size + all_bitmaps es)
        → Follows
            (bitmap_spans ps)
            (e.base + offset + count_usable es * region_size)
            (e.base + offset + metadata region_size es)
    ends_at f =
        let end : e.base + offset + count_usable es * region_size + all_bitmaps es
            ≡ e.base + offset + metadata region_size es =
          omega arith in
        rw end at f
