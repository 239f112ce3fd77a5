-- ===== src/Memory/Facade/Laws.antt =====
-- What `init` of src/memory/mod.rs hands to the rest of the kernel.
use os_rust.Shared.{
  ℕ, zero, suc, ◌+◌, ◌-◌, ◌%◌, ◌^◌, ◌≤◌, ◌<◌, ◌≡◌, ◌⊎◌, inl, inr, refl, sym, ◌∙◌, Bool-cases, List,
  [], ◌∷◌, none, some, ok, panic, arith, length, get_or, get_elem?,
}
use os_rust.Memory.Addr.{AddrApi}
use os_rust.Memory.Frame.{FrameRange, success, failure, out_of_memory}
use os_rust.Memory.Region.{MemoryRegion}
use os_rust.Memory.Allocator.States.{AreValid, state_of, in_range}
use os_rust.Memory.Allocator.Alloc.{AreFull, alloc-first_fit}
use os_rust.Memory.Allocator.Dealloc.{Managed-shape, Takes-Managed, dealloc-Returns}
use os_rust.Memory.Boot.{Entry, Placement}
use os_rust.Memory.Boot.Layout.{
  IsMap, Placed, finished, skipped, placed, metadata, count_usable, TooSmall, Reaches,
}
use os_rust.Memory.Boot.Init.{IsReady, init-IsReady}
use os_rust.Memory.Boot.Located.{Located}
use os_rust.Memory.Pages.{IsMapped}
use os_rust.Memory.Facade.{init, alloc_frames, dealloc_frames}

ends_covered :
    (offset : ℕ) (es : List Entry) (rs : List MemoryRegion)
    → Placed es rs
    → Reaches offset es
    → (i : ℕ) (r : MemoryRegion) → get_elem? rs i ≡ some r
    → r.end + offset < 2 ^ 64
ends_covered offset [] [] finished h i r e = absurd cc
ends_covered offset [] (s ∷ rs) p h i r e = elim p [ ]
ends_covered offset (d ∷ es) rs (skipped u p) h i r e = ends_covered offset es rs p h.1 i r e
ends_covered offset (d ∷ es) (s ∷ rs) (placed u y p) h zero r e =
    let same : s ≡ r = cc in let bound = h.0 u in rw (← same) (omega (arith, y.end_at))
ends_covered offset (d ∷ es) (s ∷ rs) (placed u y p) h (suc i) r e =
    ends_covered offset es rs p h.1 i r e

module _ (x : AddrApi) (raw : ℕ → ℕ → List ℕ) (raw_length : (a n : ℕ) → length (raw a n) ≡ n)
    (raw_byte : (a n j : ℕ) → get_or (raw a n) j 0 < 256) where
  -- On a map of whole frames that do not overlap, all reached by a direct map in the upper half of the
  -- address space, `init` keeps the offset of that map and leaves an allocator of valid regions that
  -- the direct map covers, with exactly the metadata's frames used: through the map, the regions are
  -- written one after another from the first of these frames on, and the bitmaps follow without a gap,
  -- up to the metadata's length. Or it panics, where no usable entry is as long as the metadata.
  pub init-IsMapped :
      (region_size : ℕ) (es : List Entry) (offset : ℕ)
      → IsMap es
      → Reaches offset es
      → 2 ^ 64 - 2 ^ 47 ≤ offset
      → offset % 4096 ≡ 0
      → metadata region_size es < 2 ^ 64
      → count_usable es < 2 ^ 64
      → ((ps : List Placement) × (rs : List MemoryRegion) × (init x raw region_size
              (some es)
              (some offset)
              (record { slot = none; hhdm_offset = 0 })
            ≡ ok (ps, record { slot = some rs; hhdm_offset = offset }))
          × IsReady region_size es rs
          × Located region_size offset es ps rs
          × IsMapped offset rs)
        ⊎ ((init x raw region_size (some es) (some offset) (record { slot = none; hhdm_offset = 0 })
              ≡ panic)
            × TooSmall (metadata region_size es) es)
  unfolding init
  init-IsMapped region_size es offset m reach high even small few =
      elim (init-IsReady x raw raw_length raw_byte region_size es offset m reach small few) [
        | inl (ps, rs, run, ready, located) ↦ inl (
          ps,
          rs,
          rw run refl,
          ready,
          located,
          record {
            high = high;
            aligned = even;
            covers = ends_covered offset es rs ready.placed reach;
          },
        )
        | inr (run, t) ↦ inr (rw run refl, t)
      ]

module _ (x : AddrApi) where
  -- On valid regions a request for at least one frame is refused where no region has such a run, and
  -- otherwise giving the frames back restores the state of every frame.
  pub dealloc_frames-alloc_frames :
      (rs : List MemoryRegion) (count offset : ℕ)
      → AreValid rs
      → 0 < count
      → ((f : FrameRange) × (rs' : List MemoryRegion) × (rs'' : List MemoryRegion) × (alloc_frames x
              count
              (record { slot = some rs; hhdm_offset = offset })
            ≡ ok (success f, record { slot = some rs'; hhdm_offset = offset }))
          × (dealloc_frames x f (record { slot = some rs'; hhdm_offset = offset })
              ≡ ok (record { slot = some rs''; hhdm_offset = offset }))
          × AreValid rs''
          × ((a : ℕ) → state_of rs'' a ≡ state_of rs a))
        ⊎ ((alloc_frames x count (record { slot = some rs; hhdm_offset = offset })
              ≡ ok (failure out_of_memory, record { slot = some rs; hhdm_offset = offset }))
            × AreFull rs count)
  unfolding alloc_frames dealloc_frames
  dealloc_frames-alloc_frames rs count offset v pos = elim (alloc-first_fit x rs count v pos) [
    | inl (f, rs', run, t, e) ↦
        let managed = Managed-shape rs' (Takes-Managed t) e.shape_same in
        let (rs'', back, r) = dealloc-Returns rs' managed (omega (arith, e.frames_count)) e.valid in
        inl (
          f,
          rs',
          rs'',
          rw run refl,
          rw back refl,
          r.valid,
          λ a. elim (Bool-cases (in_range f a)) [
            | inl h ↦ rw h at (r.state_after a) ∙ sym (e.was_free a h)
            | inr h ↦ rw h at (r.state_after a) ∙ rw h at (e.state_after a)
          ],
        )
    | inr (run, full) ↦ inr (rw run refl, full)
  ]
