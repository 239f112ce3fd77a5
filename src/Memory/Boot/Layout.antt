-- ===== src/Memory/Boot/Layout.antt =====
-- The loops of `init`: the sums of the first, the regions that the inner one places, and the entry
-- that the outer one finds.
use mathlib.Core.List.{map}
use native.Mathlib.Decide.{dec_le}
use Prim.Native.Nat.{bit_and}
use os_rust.Shared.{
  ◌==◌, holds_below, holds_at, ℕ, suc, ◌+◌, ◌*◌, ◌/◌, ◌%◌, ◌^◌, ◌≤◌, ◌<◌, ◌≡◌, ◌⊎◌, inl, inr, refl,
  sym, ap, ◌∙◌, List, [], ◌∷◌, Bool, true, false, ◌&&◌, none, some, ok, arith, add64, if◌then◌else◌,
  leb, length, get_or, get_elem?, Bool-cases, length-replicate, get_or-replicate,
}
use os_rust.Memory.Addr.{AddrApi}
use os_rust.Memory.Bitmap.Bits.{bit}
use os_rust.Memory.Region.{MemoryRegion}
use os_rust.Memory.Region.Alloc.{IsValid, new-IsValid}
use os_rust.Memory.Allocator.States.{ApartAll, AreValid}
use os_rust.Memory.Boot.{
  Entry, bitmap_bytes, tally, find_host, fill_zero, Span, Placement, region_slice, region_spans,
  bitmap_spans, place,
}

-- An entry as the boot protocol hands it out: whole frames of physical memory.
pub record IsWhole (e : Entry) : Type 0 where
  pub aligned : e.base % 4096 ≡ 0
  pub whole : e.length % 4096 ≡ 0
  pub physical : e.base + e.length < 2 ^ 52

-- The entry shares no address with the usable ones of the list.
abbrev pub ApartFrom : Entry → List Entry → Type 0
ApartFrom e [] = Unit
ApartFrom e (d ∷ entries) =
    (d.usable ≡ true → (e.base + e.length ≤ d.base) ⊎ (d.base + d.length ≤ e.base))
    × ApartFrom e entries

-- The usable entries are whole frames and share no address.
abbrev pub IsMap : List Entry → Type 0
IsMap [] = Unit
IsMap (e ∷ entries) = (e.usable ≡ true → IsWhole e × ApartFrom e entries) × IsMap entries

-- The region has the extent of the entry.
pub record Extends (e : Entry) (r : MemoryRegion) : Type 0 where
  pub start_at : r.start ≡ e.base
  pub end_at : r.end ≡ e.base + e.length
  pub frames : r.bitmap.size ≡ e.length / 4096

-- The regions are those of the usable entries, in order.
pub data Placed : List Entry → List MemoryRegion → Type 0 where
  finished : Placed [] []
  skipped :
      {e : Entry} {es : List Entry} {rs : List MemoryRegion}
      → e.usable ≡ false
      → Placed es rs
      → Placed (e ∷ es) rs
  placed :
      {e : Entry} {es : List Entry} {r : MemoryRegion} {rs : List MemoryRegion}
      → e.usable ≡ true
      → Extends e r
      → Placed es rs
      → Placed (e ∷ es) (r ∷ rs)

zero_table : holds_below 8 (λ k. bit_and 0 (2 ^ k) == 0) ≡ true
unfolding holds_below
zero_table = refl

zero_bit : (k : ℕ) → k < 8 → (bit_and 0 (2 ^ k) == 0) ≡ true
zero_bit k h = holds_at 8 (λ k. bit_and 0 (2 ^ k) == 0) k zero_table h

-- After the fill every frame of the region is free.
abbrev pub IsClear : MemoryRegion → Type 0
IsClear r = (j : ℕ) → bit r.bitmap j ≡ false

pub fill_zero-IsClear : (r : MemoryRegion) → IsClear (fill_zero r)
unfolding fill_zero
fill_zero-IsClear r j =
    rw (get_or-replicate {A = ℕ} (length r.bitmap.bytes) (j / 8) 0, zero_bit (j % 8) (omega arith))
      refl

pub fill_zero-IsValid : (r : MemoryRegion) → IsValid r → IsValid (fill_zero r)
unfolding fill_zero
fill_zero-IsValid r v = record {
  bitmap_valid = record {
    is_byte = λ j. omega (arith, get_or-replicate {A = ℕ} (length r.bitmap.bytes) j 0);
    covers =
        omega (arith, length-replicate {A = ℕ} (length r.bitmap.bytes) 0, v.bitmap_valid.covers);
  };
  aligned = v.aligned;
  frames_inside = v.frames_inside;
  end_physical = v.end_physical;
}

pub fill_zero-Extends : {e : Entry} (r : MemoryRegion) → Extends e r → Extends e (fill_zero r)
unfolding fill_zero
fill_zero-Extends r x = record { start_at = x.start_at; end_at = x.end_at; frames = x.frames }

abbrev pub AllClear : List MemoryRegion → Type 0
AllClear [] = Unit
AllClear (r ∷ rs) = IsClear r × AllClear rs

-- Regions of entries that share no address share none.
ApartFrom-ApartAll :
    {e : Entry} {r : MemoryRegion} (es : List Entry) (rs : List MemoryRegion)
    → ApartFrom e es
    → Extends e r
    → Placed es rs
    → ApartAll r rs
ApartFrom-ApartAll [] [] a x finished = tt
ApartFrom-ApartAll [] (s ∷ rs) a x p = elim p [ ]
ApartFrom-ApartAll (d ∷ es) rs a x (skipped u p) = ApartFrom-ApartAll es rs a.1 x p
ApartFrom-ApartAll (d ∷ es) (s ∷ rs) a x (placed u y p) = (
  ground (arith, a.0 u, x.start_at, x.end_at, y.start_at, y.end_at),
  ApartFrom-ApartAll es rs a.1 x p,
)

-- How many entries are usable.
abbrev pub count_usable : List Entry → ℕ
count_usable [] = 0
count_usable (e ∷ es) = (if e.usable then 1 else 0) + count_usable es

abbrev pub all_bitmaps : List Entry → ℕ
all_bitmaps [] = 0
all_bitmaps (e ∷ es) = (if e.usable then bitmap_bytes e else 0) + all_bitmaps es

-- The bytes of the metadata: a region and a bitmap for each usable entry.
abbrev pub metadata : ℕ → List Entry → ℕ
metadata region_size es = all_bitmaps es + count_usable es * region_size

-- The direct map at `offset` reaches the usable entries.
abbrev pub Reaches : ℕ → List Entry → Type 0
Reaches offset [] = Unit
Reaches offset (e ∷ es) =
    (e.usable ≡ true → e.base + e.length + offset < 2 ^ 64) × Reaches offset es

-- The spans follow one another without a gap, from `lo` to `hi`.
abbrev pub Follows : List Span → ℕ → ℕ → Type 0
Follows [] lo hi = lo ≡ hi
Follows (s ∷ ss) lo hi = (s.start ≡ lo) × Follows ss (lo + s.size) hi

-- The regions written follow one another from one address on, and their bitmaps from another on.
abbrev pub InRows : ℕ → List Entry → List Placement → ℕ → ℕ → Type 0
InRows region_size es ps region_addr bitmap_addr =
    Follows (region_spans ps region_size) region_addr (region_addr + count_usable es * region_size)
    × Follows (bitmap_spans ps) bitmap_addr (bitmap_addr + all_bitmaps es)

Follows-moved :
    (ss : List Span) {lo lo' hi hi' : ℕ}
    → lo ≡ lo'
    → hi ≡ hi'
    → Follows ss lo hi
    → Follows ss lo' hi'
Follows-moved ss e e' f = rw (e, e') at f

-- One more region before a row of them, with its bitmap before theirs.
in_rows :
    (region_size : ℕ) (es : List Entry) (ps : List Placement) (region_addr bitmap_addr n : ℕ)
    (bytes : List ℕ)
    → length bytes ≡ n
    → region_addr + (1 + count_usable es) * region_size < 2 ^ 64
    → bitmap_addr + (n + all_bitmaps es) < 2 ^ 64
    → (add64 region_addr region_size + count_usable es * region_size < 2 ^ 64
        → add64 bitmap_addr n + all_bitmaps es < 2 ^ 64
        → InRows region_size es ps (add64 region_addr region_size) (add64 bitmap_addr n))
    → Follows
        (record { start = region_addr; size = region_size } ∷ region_spans ps region_size)
        region_addr
        (region_addr + (1 + count_usable es) * region_size)
      × Follows
          (record { start = bitmap_addr; size = length bytes } ∷ bitmap_spans ps)
          bitmap_addr
          (bitmap_addr + (n + all_bitmaps es))
in_rows region_size es ps region_addr bitmap_addr n bytes len h k rows =
    let c : ℕ = count_usable es in
    let split : (1 + c) * region_size ≡ region_size + c * region_size = omega arith in
    let next : add64 region_addr region_size ≡ region_addr + region_size = omega arith in
    let next_bitmap : add64 bitmap_addr n ≡ bitmap_addr + n = omega arith in
    let (regions, bitmaps) = rows (omega arith) (omega arith) in
    let end : add64 region_addr region_size + c * region_size
        ≡ region_addr + (1 + c) * region_size =
      omega arith in
    let end_bitmap : add64 bitmap_addr n + all_bitmaps es ≡ bitmap_addr + (n + all_bitmaps es) =
      omega arith in
    (
      (refl, Follows-moved (region_spans ps region_size) next end regions),
      (
        refl,
        Follows-moved (bitmap_spans ps) (next_bitmap ∙ ap (λ (k : ℕ). bitmap_addr + k) (sym len))
            end_bitmap bitmaps,
      ),
    )

module _ (x : AddrApi) (raw : ℕ → ℕ → List ℕ) (raw_length : (a n : ℕ) → length (raw a n) ≡ n)
    (raw_byte : (a n j : ℕ) → get_or (raw a n) j 0 < 256) (region_size : ℕ) where
  -- The inner loop returns a region for each usable entry; filled with zeros they are valid and all
  -- free. Where no address wraps, they and their bitmaps stand in rows.
  pub place_lem :
      (es : List Entry) (region_addr bitmap_addr : ℕ)
      → IsMap es
      → (ps : List Placement) × (place x raw region_size es region_addr bitmap_addr ≡ ok ps)
        × Placed es (map fill_zero (region_slice ps))
        × AreValid (map fill_zero (region_slice ps))
        × AllClear (map fill_zero (region_slice ps))
        × (region_addr + count_usable es * region_size < 2 ^ 64
            → bitmap_addr + all_bitmaps es < 2 ^ 64
            → InRows region_size es ps region_addr bitmap_addr)
  unfolding place
  place_lem [] region_addr bitmap_addr m =
      ([], refl, finished, tt, tt, λ h k. (omega arith, omega arith))
  place_lem (e ∷ es) region_addr bitmap_addr m = elim (Bool-cases e.usable) [
    | inl u ↦
        let (w, a) = m.0 u in
        let n : ℕ = bitmap_bytes e in
        let len = raw_length bitmap_addr n in
        let (r, run, v, s, t, fs, b) =
          new-IsValid x e.base e.length (raw bitmap_addr n) w.aligned w.physical len
            (raw_byte bitmap_addr n) in
        let (ps, runs, p, vs, c, rows) =
          place_lem es (add64 region_addr region_size) (add64 bitmap_addr n) m.1 in
        let ext : Extends e (fill_zero r) =
          fill_zero-Extends r (record { start_at = s; end_at = t; frames = fs }) in
        (
          record {
            at = region_addr;
            slice = record { at = bitmap_addr; bytes = raw bitmap_addr n };
            region = r;
          }
              ∷ ps,
          rw (u, run, runs),
          placed u ext p,
          (
            fill_zero-IsValid r v,
            ApartFrom-ApartAll es (map fill_zero (region_slice ps)) a ext p,
            vs,
          ),
          (fill_zero-IsClear r, c),
          λ h k.
              let h' : region_addr + (1 + count_usable es) * region_size < 2 ^ 64 = rw u at h in
              let k' : bitmap_addr + (n + all_bitmaps es) < 2 ^ 64 = rw u at k in
              rw u (
                in_rows region_size es ps region_addr bitmap_addr n (raw bitmap_addr n) len h' k'
                  rows),
        )
    | inr u ↦
        let (ps, runs, p, vs, c, rows) = place_lem es region_addr bitmap_addr m.1 in
        let z : 0 + count_usable es ≡ count_usable es = omega arith in
        let zb : 0 + all_bitmaps es ≡ all_bitmaps es = omega arith in
        (
          ps,
          rw (u, runs),
          skipped u p,
          vs,
          c,
          λ h k. rw (u, z, zb) (rows (rw (u, z) at h) (rw (u, zb) at k)),
        )
  ]

-- The sums of the first loop, where they do not wrap.
pub tally_lem :
    (es : List Entry) (size regions : ℕ)
    → size + all_bitmaps es < 2 ^ 64
    → regions + count_usable es < 2 ^ 64
    → tally es size regions ≡ (size + all_bitmaps es, regions + count_usable es)
unfolding tally
tally_lem [] size regions h k = ground arith
tally_lem (e ∷ es) size regions h k = elim (Bool-cases e.usable) [
  | inl u ↦
      let h' : size + (bitmap_bytes e + all_bitmaps es) < 2 ^ 64 = rw u at h in
      let k' : regions + (1 + count_usable es) < 2 ^ 64 = rw u at k in
      let s : add64 size (bitmap_bytes e) ≡ size + bitmap_bytes e = omega arith in
      let n : add64 regions 1 ≡ regions + 1 = omega arith in
      rw (u, s, n, tally_lem es (size + bitmap_bytes e) (regions + 1) (omega arith) (omega arith))
        (ground arith)
  | inr u ↦
      let h' : size + (0 + all_bitmaps es) < 2 ^ 64 = rw u at h in
      let k' : regions + (0 + count_usable es) < 2 ^ 64 = rw u at k in
      rw (u, tally_lem es size regions (omega arith) (omega arith)) (ground arith)
]

-- The entry found is long enough, and the region with its number is its own.
pub record Hosts (size : ℕ) (rs : List MemoryRegion) (e : Entry) (k : ℕ) : Type 0 where
  pub region : MemoryRegion
  pub at_index : get_elem? rs k ≡ some region
  pub extent : Extends e region
  pub long_enough : size ≤ e.length
  pub entry : IsWhole e

-- No usable entry is long enough.
abbrev pub TooSmall : ℕ → List Entry → Type 0
TooSmall size [] = Unit
TooSmall size (e ∷ es) = (e.usable ≡ true → e.length < size) × TooSmall size es

if_both : {A : Type 0} (p q : Bool) (a b : A) → p ≡ true → q ≡ true → (if p && q then a else b) ≡ a
if_both p q a b h k = rw (h, k) refl

pub find_host_lem :
    (size : ℕ) (es : List Entry) (rs : List MemoryRegion) (ri : ℕ)
    → IsMap es
    → Placed es rs
    → ri + count_usable es < 2 ^ 64
    → ((e : Entry) × (k : ℕ) × (find_host size es ri ≡ some (e, ri + k)) × Hosts size rs e k)
      ⊎ ((find_host size es ri ≡ none) × TooSmall size es)
unfolding find_host
find_host_lem size [] [] ri m finished h = inr (refl, tt)
find_host_lem size [] (r ∷ rs) ri m p h = elim p [ ]
find_host_lem size (e ∷ es) rs ri m (skipped u p) h =
    let h' : ri + (0 + count_usable es) < 2 ^ 64 = rw u at h in
    elim (find_host_lem size es rs ri m.1 p (omega arith)) [
      | inl (d, k, run, o) ↦ inl (d, k, rw u run, o)
      | inr (run, t) ↦ inr (rw u run, (λ w. absurd (cc), t))
    ]
find_host_lem size (e ∷ es) (r ∷ rs) ri m (placed u x p) h = elim (dec_le size e.length) [
  | yes q ↦
      let b : leb size e.length ≡ true = ground arith in
      inl (
        e,
        0,
        if_both e.usable (leb size e.length) (some (e, ri)) _ u b
            ∙ ap (λ (i : ℕ). some (e, i)) (omega arith),
        record { region = r; at_index = refl; extent = x; long_enough = q; entry = (m.0 u).0 },
      )
  | no q ↦
      let b : leb size e.length ≡ false = ground arith in
      let h' : ri + (1 + count_usable es) < 2 ^ 64 = rw u at h in
      let n : add64 ri 1 ≡ ri + 1 = omega arith in
      elim (find_host_lem size es rs (ri + 1) m.1 p (omega arith)) [
        | inl (d, k, run, o) ↦ inl (
          d,
          suc k,
          rw (u, b, n) (run ∙ ap (λ (i : ℕ). some (d, i)) (omega arith)),
          record {
            region = o.region;
            at_index = o.at_index;
            extent = o.extent;
            long_enough = o.long_enough;
            entry = o.entry;
          },
        )
        | inr (run, t) ↦ inr (rw (u, b, n) run, (λ w. omega arith, t))
      ]
]
