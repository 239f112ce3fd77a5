-- ===== src/Memory/Boot/Init.antt =====
-- `init` as a whole.
use mathlib.Core.List.{map}
use os_rust.Shared.{
  ℕ, ◌+◌, ◌%◌, ◌^◌, ◌<◌, ◌≡◌, ◌⊎◌, inl, inr, refl, sym, ◌∙◌, List, Option, none, some, Outcome, ok,
  ◌>>=◌, ◌*◌, panic, arith, add64, mul64, div_ceil, length, get_or, ==_iff,
}
use os_rust.Memory.Addr.{AddrApi}
use os_rust.Memory.Frame.{FrameRange, range_new}
use os_rust.Memory.Region.{MemoryRegion}
use os_rust.Memory.Region.Free.{Lies}
use os_rust.Memory.Allocator.{Slot}
use os_rust.Memory.Allocator.States.{AreValid}
use os_rust.Memory.Boot.{
  Entry, fill_zero, fill_slot, place, set_up, set_up_in, lay_out, init, find_host, Placement,
  region_slice,
}
use os_rust.Memory.Boot.Layout.{
  IsMap, Placed, AllClear, place_lem, count_usable, all_bitmaps, metadata, tally_lem, Hosts,
  TooSmall, find_host_lem, Reaches,
}
use os_rust.Memory.Boot.Located.{needed, Located, located, InRows-moved, find_host-reached}
use os_rust.Memory.Boot.Ready.{Reserved, reserve_in_lem, Placed-shape, AreValid-get_elem?}

-- The regions are those of the usable entries; the metadata's frames at the start of one of them are
-- used, and all other frames are free.
pub record IsReady (region_size : ℕ) (es : List Entry) (rs : List MemoryRegion) : Type 0 where
  pub placed : Placed es rs
  pub host : ℕ
  pub cleared : List MemoryRegion
  pub reserved : Reserved cleared host (needed region_size es) rs

zero_add : (k : ℕ) → 0 + k ≡ k
zero_add k = omega arith

found_unique :
    {d e : Entry} {i k : ℕ}
    → ◌≡◌ {A = Option (Entry × ℕ)} (some (d, i)) (some (e, k))
    → (d ≡ e) × (i ≡ k)
found_unique h = (cc, cc)

-- The entry found hosts the metadata wherever the bitmaps are placed.
Hosts-again :
    (size : ℕ) (es : List Entry) (rs : List MemoryRegion) (e : Entry) (k : ℕ)
    → IsMap es
    → Placed es rs
    → 0 + count_usable es < 2 ^ 64
    → find_host size es 0 ≡ some (e, 0 + k)
    → Hosts size rs e k
Hosts-again size es rs e k m p h found = elim (find_host_lem size es rs 0 m p h) [
  | inl (d, i, run, o) ↦
      let (same_entry, n) = found_unique (sym run ∙ found) in
      let same_number : i ≡ k = omega (arith, n) in rw (← same_entry, ← same_number) o
  | inr (run, t) ↦ absurd cc
]

-- `init` fills the slot, and hands on what it wrote.
abbrev installed : Slot → List Placement → List MemoryRegion → Outcome (List Placement × Slot)
installed slot ps rs = fill_slot slot rs >>= (λ slot'. ok (ps, slot'))

module _ (x : AddrApi) (raw : ℕ → ℕ → List ℕ) (raw_length : (a n : ℕ) → length (raw a n) ≡ n)
    (raw_byte : (a n j : ℕ) → get_or (raw a n) j 0 < 256) where
  -- The body of the loop for an entry that has room for the metadata.
  set_up_lem :
      (region_size : ℕ) (es : List Entry) (num_regions size offset k : ℕ) (slot : Slot) (e : Entry)
      (ps : List Placement)
      → place x raw region_size es
          (add64 e.base offset)
          (add64 (add64 e.base offset) (mul64 num_regions region_size))
        ≡ ok ps
      → AreValid (map fill_zero (region_slice ps))
      → AllClear (map fill_zero (region_slice ps))
      → Hosts size (map fill_zero (region_slice ps)) e k
      → (rs : List MemoryRegion) × (set_up x raw region_size es num_regions
            (div_ceil size 4096)
            offset
            slot
            (e, k)
          ≡ installed slot ps rs)
        × Reserved (map fill_zero (region_slice ps)) k (div_ceil size 4096) rs
  unfolding set_up range_new
  set_up_lem region_size es num_regions size offset k slot e ps run v c h =
      let rs : List MemoryRegion = map fill_zero (region_slice ps) in
      let vr = AreValid-get_elem? rs k h.region v h.at_index in
      let f : FrameRange = record { start = e.base; count = div_ceil size 4096 } in
      let l : Lies h.region 0 f = record {
        frames_start = omega (arith, h.extent.start_at);
        inside = omega (arith, h.extent.frames, h.long_enough, h.entry.whole);
      } in
      let (rs', e', t) = reserve_in_lem rs k f v c h.at_index l in
      (
        rs',
        rw
            (
              run,
              x.phys_new_valid e.base (omega (arith, h.entry.physical)),
              x.is_aligned_frame e.base,
              (==_iff (e.base % 4096) 0).1 h.entry.aligned,
              e',
            )
            refl,
        t,
      )

  init_cases :
      (region_size : ℕ) (es : List Entry) (offset : ℕ) (slot : Slot)
      → IsMap es
      → metadata region_size es < 2 ^ 64
      → count_usable es < 2 ^ 64
      → ((ps : List Placement) × (rs : List MemoryRegion) × (init x raw region_size
              (some es)
              (some offset)
              slot
            ≡ installed slot ps rs)
          × IsReady region_size es rs
          × (Reaches offset es → Located region_size offset es ps rs))
        ⊎ ((init x raw region_size (some es) (some offset) slot ≡ panic)
            × TooSmall (metadata region_size es) es)
  unfolding init lay_out set_up_in
  init_cases region_size es offset slot m small few =
      let sums = tally_lem es 0 0 (omega arith) (omega arith) in
      let regions : 0 + count_usable es ≡ count_usable es = omega arith in
      let total : add64 (0 + all_bitmaps es) (mul64 (count_usable es) region_size)
          ≡ metadata region_size es =
        omega arith in
      let (ps₀, run₀, p₀, v₀, c₀, rows₀) =
        place_lem x raw raw_length raw_byte region_size es 0 0 m in
      elim (find_host_lem (metadata region_size es) es (map fill_zero (region_slice ps₀)) 0 m p₀
        (omega arith)) [
          | inl (e, k, found, o) ↦
              let start : ℕ = add64 e.base offset in
              let bitmaps : ℕ = add64 start (mul64 (count_usable es) region_size) in
              let (ps, run, p, v, c, rows) =
                place_lem x raw raw_length raw_byte region_size es start bitmaps m in
              let h : Hosts (metadata region_size es) (map fill_zero (region_slice ps)) e (0 + k) =
                rw (zero_add k) (
                  Hosts-again (metadata region_size es) es (map fill_zero (region_slice ps)) e k m p
                    (omega arith) found) in
              let (rs, done, t) =
                set_up_lem region_size es (count_usable es) (metadata region_size es) offset (0 + k)
                  slot e ps run v c h in
              inl (
                ps,
                rs,
                rw (sums, regions, total, found) done,
                record {
                  placed = Placed-shape rs p t.shape_same;
                  host = 0 + k;
                  cleared = map fill_zero (region_slice ps);
                  reserved = t;
                },
                λ reach.
                    let far = find_host-reached (metadata region_size es) offset es 0 reach found in
                    let near : start ≡ e.base + offset = omega (arith, o.long_enough) in
                    let next : bitmaps ≡ e.base + offset + count_usable es * region_size =
                      omega (arith, o.long_enough) in
                    let long = o.long_enough in
                    located region_size offset es ps e (0 + k) rs far h
                      (InRows-moved region_size es ps near next (rows (omega arith) (omega arith)))
                      t,
              )
          | inr (missing, t) ↦ inr (rw (sums, regions, total, missing) refl, t)
        ]

  -- On a map of whole frames that do not overlap and that the direct map reaches, with metadata of fewer
  -- than 2^64 bytes for fewer than 2^64 regions, `init` of an empty slot returns valid regions, one for
  -- each usable entry, in which exactly the metadata's frames are used, at the start of one region. The
  -- regions are written one after another from the first of these frames on, seen through the direct
  -- map, and the bitmaps follow without a gap, up to the metadata's length. Or `init` panics, where no
  -- usable entry is as long as the metadata.
  pub init-IsReady :
      (region_size : ℕ) (es : List Entry) (offset : ℕ)
      → IsMap es
      → Reaches offset es
      → metadata region_size es < 2 ^ 64
      → count_usable es < 2 ^ 64
      → ((ps : List Placement) × (rs : List MemoryRegion) × (init x raw region_size
              (some es)
              (some offset)
              none
            ≡ ok (ps, some rs))
          × IsReady region_size es rs
          × Located region_size offset es ps rs)
        ⊎ ((init x raw region_size (some es) (some offset) none ≡ panic)
            × TooSmall (metadata region_size es) es)
  unfolding fill_slot
  init-IsReady region_size es offset m reach small few =
      elim (init_cases region_size es offset none m small few) [
        | inl (ps, rs, run, ready, located) ↦ inl (ps, rs, run, ready, located reach)
        | inr failed ↦ inr failed
      ]

  -- On a map of whole frames that do not overlap, with metadata of fewer than 2^64 bytes for fewer than
  -- 2^64 regions, `init` of a slot that is filled panics.
  pub init_again :
      (region_size : ℕ) (es : List Entry) (offset : ℕ) (old : List MemoryRegion)
      → IsMap es
      → metadata region_size es < 2 ^ 64
      → count_usable es < 2 ^ 64
      → init x raw region_size (some es) (some offset) (some old) ≡ panic
  unfolding fill_slot
  init_again region_size es offset old m small few =
      elim (init_cases region_size es offset (some old) m small few) [
        | inl (ps, rs, run, ready, rest) ↦ run
        | inr (run, t) ↦ run
      ]
