-- ===== src/Memory/Boot.antt =====
-- src/memory/bitmap.rs, `BitmapFrameAllocator::init`: the regions and their bitmaps are laid out in a
-- usable part of the boot memory map. `raw a n` stands for the `n` bytes at the address `a`, and
-- `region_size` for `size_of::<MemoryRegion>()`, which the compiler chooses.
pub mod Layout
pub mod Located
pub mod Ready
pub mod Init
mod Tests
use mathlib.Core.List.{map}
use os_rust.Shared.{
  ℕ, ◌+◌, ◌*◌, ◌/◌, List, [], ◌∷◌, ◌++◌, Bool, true, false, ◌&&◌, Option, none, some, Outcome, ok,
  panic, ◌>>=◌, unwrap, add64, mul64, div_ceil, if◌then◌else◌, leb, length, replicate, index, set,
}
use os_rust.Memory.Addr.{AddrApi}
use os_rust.Memory.Frame.{FrameRange, frame_size, range_new}
use os_rust.Memory.Region
use os_rust.Memory.Region.{MemoryRegion}
use os_rust.Memory.Allocator.{Slot}

-- An entry of the memory map; `usable` says whether its type is `USABLE`.
pub record Entry : Type 0 where
  pub base : ℕ
  pub length : ℕ
  pub usable : Bool

abbrev pub bitmap_bytes : Entry → ℕ
bitmap_bytes e = div_ceil (e.length / frame_size) 8

-- The first loop: the bytes of all bitmaps, and the number of regions.
unfoldable pub tally : List Entry → ℕ → ℕ → ℕ × ℕ
tally [] initial_size num_regions = (initial_size, num_regions)
tally (e ∷ entries) initial_size num_regions =
    tally entries (if e.usable then add64 initial_size (bitmap_bytes e) else initial_size)
      (if e.usable then add64 num_regions 1 else num_regions)

-- The outer loop: the first usable entry that is long enough, and its number among the usable ones.
unfoldable pub find_host : ℕ → List Entry → ℕ → Option (Entry × ℕ)
find_host initial_size [] ri = none
find_host initial_size (e ∷ entries) ri =
    let next = find_host initial_size entries (if e.usable then add64 ri 1 else ri) in
    if e.usable && leb initial_size e.length then some (e, ri) else next

-- `region.bitmap.data.fill(0)`
unfoldable pub fill_zero : MemoryRegion → MemoryRegion
fill_zero r = record r { bitmap = record r.bitmap { bytes = replicate (length r.bitmap.bytes) 0 } }

-- `region_slice[ri].reserve(frames)`
unfoldable pub reserve_in : List MemoryRegion → ℕ → FrameRange → Outcome (List MemoryRegion)
reserve_in rs ri frames = do r ← index rs ri; r' ← Region.reserve r frames; ok (set rs ri r')

-- `assert!(slot.is_none(), ..); *slot = Some(..)`
unfoldable pub fill_slot : Slot → List MemoryRegion → Outcome Slot
fill_slot none rs = ok (some rs)
fill_slot (some old) rs = panic

-- Bytes of memory that are written, from an address on.
pub record Span : Type 0 where
  pub start : ℕ
  pub size : ℕ

-- `slice::from_raw_parts_mut`: the address of a slice, and its bytes.
pub record Slice : Type 0 where
  pub at : ℕ
  pub bytes : List ℕ

-- A region that the inner loop writes: its address, the slice of its bitmap, and the region.
pub record Placement : Type 0 where
  pub at : ℕ
  pub slice : Slice
  pub region : MemoryRegion

-- `region_slice`
abbrev pub region_slice : List Placement → List MemoryRegion
region_slice [] = []
region_slice (p ∷ ps) = p.region ∷ region_slice ps

-- What `ptr.write(..)` writes in the rounds of the inner loop.
abbrev pub region_spans : List Placement → ℕ → List Span
region_spans [] region_size = []
region_spans (p ∷ ps) region_size =
    record { start = p.at; size = region_size } ∷ region_spans ps region_size

-- What `region.bitmap.data.fill(0)` writes, region by region.
abbrev pub bitmap_spans : List Placement → List Span
bitmap_spans [] = []
bitmap_spans (p ∷ ps) = record { start = p.slice.at; size = length p.slice.bytes } ∷ bitmap_spans ps

-- All that `init` writes; `reserve` then writes within one of the bitmaps.
abbrev pub spans : List Placement → ℕ → List Span
spans ps region_size = region_spans ps region_size ++ bitmap_spans ps

module _ (x : AddrApi) (raw : ℕ → ℕ → List ℕ) (region_size : ℕ) where
  abbrev pub from_raw_parts_mut : ℕ → ℕ → Slice
  from_raw_parts_mut address n = record { at = address; bytes = raw address n }

  -- The inner loop: at `region_addr` a region for each usable entry, its bitmap at `bitmap_addr`.
  unfoldable pub place : List Entry → ℕ → ℕ → Outcome (List Placement)
  place [] region_addr bitmap_addr = ok []
  place (e ∷ entries) region_addr bitmap_addr =
      let skipped = place entries region_addr bitmap_addr in
      let rest =
        place entries (add64 region_addr region_size) (add64 bitmap_addr (bitmap_bytes e)) in
      let data_slice = from_raw_parts_mut bitmap_addr (bitmap_bytes e) in
      let placed = (do
        r ← Region.new x e.base e.length data_slice.bytes
        ps ← rest
        ok (record { at = region_addr; slice = data_slice; region = r } ∷ ps)) in
      if e.usable then placed else skipped

  -- The body of the outer loop for the entry that hosts the metadata, with what it wrote.
  unfoldable pub set_up :
      List Entry → ℕ → ℕ → ℕ → Slot → Entry × ℕ → Outcome (List Placement × Slot)
  set_up entries num_regions frames_needed offset slot (e, ri) = do
    let region_start = add64 e.base offset
    ps ← place entries region_start (add64 region_start (mul64 num_regions region_size))
    start ← x.phys_new e.base
    frames ← range_new x start frames_needed
    rs ← reserve_in (map fill_zero (region_slice ps)) ri frames
    slot' ← fill_slot slot rs
    ok (ps, slot')

  -- The outer loop's end: it returns from the body of an entry, or panics.
  unfoldable pub set_up_in :
      List Entry → ℕ → ℕ → ℕ → Slot → Option (Entry × ℕ) → Outcome (List Placement × Slot)
  set_up_in entries num_regions frames_needed offset slot none = panic
  set_up_in entries num_regions frames_needed offset slot (some host) =
      set_up entries num_regions frames_needed offset slot host

  -- `init` once the boot loader has answered.
  unfoldable pub lay_out : List Entry → ℕ → Slot → Outcome (List Placement × Slot)
  lay_out entries offset slot =
      let counted = tally entries 0 0 in
      let initial_size = add64 counted.0 (mul64 counted.1 region_size) in
      let frames_needed = div_ceil initial_size frame_size in
      set_up_in entries counted.1 frames_needed offset slot (find_host initial_size entries 0)

  -- `init`, with the regions that it wrote to memory and where.
  unfoldable pub init : Option (List Entry) → Option ℕ → Slot → Outcome (List Placement × Slot)
  init mm_resp hhdm_resp slot = do
    entries ← unwrap mm_resp
    offset ← unwrap hhdm_resp
    lay_out entries offset slot
