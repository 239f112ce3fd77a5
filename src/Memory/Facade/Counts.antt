-- ===== src/Memory/Facade/Counts.antt =====
-- The frame counts when the memory is taken over.
use os_rust.Shared.{
  ℕ, ◌+◌, ◌-◌, ◌/◌, ◌%◌, ◌^◌, ◌≤◌, ◌<◌, ◌≡◌, ◌⊎◌, inl, inr, refl, ◌∙◌, List, [], ◌∷◌, none, some,
  ok, panic, arith, length, get_or, if◌then◌else◌,
}
use os_rust.Memory.Addr.{AddrApi}
use os_rust.Memory.Region.{MemoryRegion}
use os_rust.Memory.Allocator.Count.{total_size, total_free, frame_counts}
use os_rust.Memory.Boot.{Entry, Placement}
use os_rust.Memory.Boot.Layout.{
  IsMap, Placed, finished, skipped, placed, metadata, count_usable, TooSmall, Reaches,
}
use os_rust.Memory.Boot.Located.{needed}
use os_rust.Memory.Facade.{Physical, init, total_frames, free_frames}
use os_rust.Memory.Facade.Laws.{init-IsMapped}

-- The frames of the usable entries.
abbrev pub usable_frames : List Entry → ℕ
usable_frames [] = 0
usable_frames (e ∷ es) = (if e.usable then e.length / 4096 else 0) + usable_frames es

length-Placed :
    (es : List Entry) (rs : List MemoryRegion) → Placed es rs → length rs ≡ count_usable es
length-Placed [] [] finished = refl
length-Placed (e ∷ es) rs (skipped u p) = rw u (omega (arith, length-Placed es rs p))
length-Placed (e ∷ es) (r ∷ rs) (placed u y p) = rw u (omega (arith, length-Placed es rs p))
length-Placed [] (r ∷ rs) p = elim p [ ]

total_size-Placed :
    (es : List Entry) (rs : List MemoryRegion) → Placed es rs → total_size rs ≡ usable_frames es
unfolding total_size
total_size-Placed [] [] finished = refl
total_size-Placed (e ∷ es) rs (skipped u p) = rw u (omega (arith, total_size-Placed es rs p))
total_size-Placed (e ∷ es) (r ∷ rs) (placed u y p) =
    rw u (omega (arith, y.frames, total_size-Placed es rs p))
total_size-Placed [] (r ∷ rs) p = elim p [ ]

module _ (x : AddrApi) (raw : ℕ → ℕ → List ℕ) (raw_length : (a n : ℕ) → length (raw a n) ≡ n)
    (raw_byte : (a n j : ℕ) → get_or (raw a n) j 0 < 256) where
  -- After `init` on a map of at most 2^23 usable entries of whole frames that do not overlap, reached by
  -- a direct map in the upper half, total_frames is the number of frames in the usable entries, and
  -- free_frames is that number less the frames that hold the metadata; or `init` panics, where no
  -- usable entry is as long as the metadata.
  pub free_frames-init :
      (region_size : ℕ) (es : List Entry) (offset : ℕ)
      → IsMap es
      → Reaches offset es
      → 2 ^ 64 - 2 ^ 47 ≤ offset
      → offset % 4096 ≡ 0
      → metadata region_size es < 2 ^ 64
      → count_usable es ≤ 2 ^ 23
      → ((ps : List Placement) × (p : Physical) × (free : ℕ) × (init x raw region_size
              (some es)
              (some offset)
              (record { slot = none; hhdm_offset = 0 })
            ≡ ok (ps, p))
          × (free_frames p ≡ ok free)
          × (total_frames p ≡ usable_frames es)
          × (free + needed region_size es ≡ usable_frames es))
        ⊎ ((init x raw region_size (some es) (some offset) (record { slot = none; hhdm_offset = 0 })
              ≡ panic)
            × TooSmall (metadata region_size es) es)
  unfolding total_frames free_frames
  free_frames-init region_size es offset m reach high even small few =
      elim (init-IsMapped x raw raw_length raw_byte region_size es offset m reach high even small
        (omega arith)) [
          | inr failed ↦ inr failed
          | inl (ps, rs, run, ready, located, mapped) ↦
              let n : length rs ≤ 2 ^ 23 = omega (arith, length-Placed es rs ready.placed) in
              let (free, total, less) = frame_counts rs ready.reserved.valid n in
              let size = total_size-Placed es rs ready.placed in
              inl (
                ps,
                record { slot = some rs; hhdm_offset = offset },
                total_free rs,
                run,
                free,
                total ∙ size,
                ready.reserved.free_left ∙ size,
              )
        ]
