-- ===== src/Boot/Main/Tables.antt =====
-- The boot loader's page tables stay a tree when the memory is taken over.
use native.Mathlib.Decide.{dec_lt}
use os_rust.Shared.{
  ℕ, ◌+◌, ◌*◌, ◌/◌, ◌%◌, ◌^◌, ◌≤◌, ◌<◌, ◌≡◌, ◌≢◌, sym, ap, ◌∙◌, ◌⊎◌, inl, inr, List, [], ◌∷◌, ◌++◌,
  ◌≤◌, ◌<◌, Bool, true, false, Option, some, Bool-cases, arith,
}
use os_rust.Memory.Region.{MemoryRegion}
use os_rust.Memory.Allocator.{Slot}
use os_rust.Memory.Allocator.States.{AreValid, state_of, manages}
use os_rust.Memory.Boot.{Entry, Span, Placement, region_spans, bitmap_spans, spans}
use os_rust.Memory.Boot.Layout.{
  IsMap, Placed, finished, skipped, placed, Reaches, Follows, count_usable, metadata, all_bitmaps,
}
use os_rust.Memory.Boot.Located.{needed, Located}
use os_rust.Memory.Paging.{EntryApi}
use os_rust.Memory.Paging.Tables.{Levels, IsTree}
use os_rust.Arch.Words.{Words}

-- The address lies in a usable entry.
abbrev pub InUsable : List Entry → ℕ → Type 0
InUsable [] a = ⊥
InUsable (e ∷ es) a = ((e.usable ≡ true) × (e.base ≤ a) × (a < e.base + e.length)) ⊎ InUsable es a

state_of-InUsable :
    (es : List Entry) (rs : List MemoryRegion) (a : ℕ) (v : Bool)
    → IsMap es
    → Placed es rs
    → state_of rs a ≡ some v
    → InUsable es a
unfolding state_of
state_of-InUsable [] [] a v m finished h = absurd cc
state_of-InUsable [] (r ∷ rs) a v m p h = elim p [ ]
state_of-InUsable (e ∷ es) rs a v m (skipped u p) h = inr (state_of-InUsable es rs a v m.1 p h)
state_of-InUsable (e ∷ es) (r ∷ rs) a v m (placed u y p) h = elim (Bool-cases (manages r a)) [
  | inl inside ↦
      let (whole, apart) = m.0 u in
      inl (u, ground (arith, y.start_at), ground (arith, y.start_at, y.frames, whole.whole))
  | inr outside ↦ inr (state_of-InUsable es rs a v m.1 p (rw outside at h))
]

usable_reached :
    (offset : ℕ) (es : List Entry) (a : ℕ)
    → Reaches (offset + 4096) es
    → InUsable es a
    → a + 4096 + offset ≤ 2 ^ 64
usable_reached offset [] a reach h = elim h [ ]
usable_reached offset (e ∷ es) a reach (inl (u, low, high)) = omega (arith, reach.0 u)
usable_reached offset (e ∷ es) a reach (inr later) = usable_reached offset es a reach.1 later

-- Memory as the boot loader leaves it: its tables form a tree and lie in no usable entry, and no word
-- of a usable entry reads as a present entry.
pub record Handed (offset : ℕ) (api : EntryApi) (es : List Entry) (level : ℕ → ℕ) (m : Words)
    : Type 0 where
  pub levels : Levels offset api level m
  pub apart : (a : ℕ) → InUsable es a → level (a / 4096 * 4096) ≡ 0
  pub cleared : (a : ℕ) → InUsable es a → api.is_present (m (a + offset)) ≡ false

-- No span touches the aligned word that holds the address.
abbrev pub Untouched : List Span → ℕ → Type 0
Untouched [] a = Unit
Untouched (s ∷ ss) a = ((a / 8 * 8 + 8 ≤ s.start) ⊎ (s.start + s.size ≤ a / 8 * 8)) × Untouched ss a

-- Writes to spans of memory leave all other words as they are.
abbrev pub WritesSpans : (List Span → Slot → Words → Words) → Type 0
WritesSpans written =
    (ss : List Span) (slot : Slot) (m : Words) (a : ℕ) → Untouched ss a → written ss slot m a ≡ m a

Follows-le : (ss : List Span) (lo hi : ℕ) → Follows ss lo hi → lo ≤ hi
Follows-le [] lo hi f = omega arith
Follows-le (s ∷ ss) lo hi (e, f) = omega (arith, Follows-le ss (lo + s.size) hi f)

-- Spans that follow one another touch no word before the first or after the last.
Follows-Untouched :
    (ss : List Span) (lo hi a : ℕ)
    → Follows ss lo hi
    → (a / 8 * 8 + 8 ≤ lo) ⊎ (hi ≤ a / 8 * 8)
    → Untouched ss a
Follows-Untouched [] lo hi a f apart = tt
Follows-Untouched (s ∷ ss) lo hi a (e, f) apart =
    let rest = Follows-le ss (lo + s.size) hi f in
    (ground (arith), Follows-Untouched ss (lo + s.size) hi a f (ground arith))

Untouched-append :
    (ss ts : List Span) (a : ℕ) → Untouched ss a → Untouched ts a → Untouched (ss ++ ts) a
Untouched-append [] ts a h k = k
Untouched-append (s ∷ ss) ts a (here, h) k = (here, Untouched-append ss ts a h k)

-- The metadata is written to used frames alone.
pub Located-elsewhere :
    {region_size offset : ℕ} {es : List Entry} {ps : List Placement} {rs : List MemoryRegion}
    (written : List Span → Slot → Words → Words)
    → WritesSpans written
    → offset % 4096 ≡ 0
    → Located region_size offset es ps rs
    → (slot : Slot) (m : Words) (a : ℕ) → state_of rs a ≢ some true
    → written (spans ps region_size) slot m (a + offset) ≡ m (a + offset)
Located-elsewhere {region_size} {offset} {es} {ps} written law even l slot m a unused =
    let start : ℕ = l.base + offset in
    let middle : ℕ = start + count_usable es * region_size in
    let end : ℕ = start + metadata region_size es in
    let split : end ≡ middle + all_bitmaps es = omega arith in
    let before_regions =
      Follows-Untouched (region_spans ps region_size) start middle (a + offset) l.regions in
    let before_bitmaps = Follows-Untouched (bitmap_spans ps) middle end (a + offset) l.bitmaps in
    let untouched = Untouched-append (region_spans ps region_size) (bitmap_spans ps) (a + offset) in
    law (spans ps region_size) slot m (a + offset) (elim (dec_lt a l.base) [
      | yes low ↦
          let word : (a + offset) / 8 * 8 + 8 ≤ start = omega (arith, l.aligned) in
          untouched (before_regions (inl word)) (before_bitmaps (inl (omega arith)))
      | no high ↦ elim (dec_lt a (l.base + needed region_size es * 4096)) [
        | yes inside ↦ absurd (unused (l.used a (omega arith) inside))
        | no past ↦
            let word : end ≤ (a + offset) / 8 * 8 = omega (arith, l.aligned) in
            untouched (before_regions (inr (omega arith))) (before_bitmaps (inr word))
      ]
    ])

module _ (offset : ℕ) (api : EntryApi) (es : List Entry) (level : ℕ → ℕ) (m m' : Words)
    (rs : List MemoryRegion) (map : IsMap es) (reach : Reaches (offset + 4096) es)
    (handed : Handed offset api es level m)
    (elsewhere : (a : ℕ) → state_of rs a ≢ some true → m' (a + offset) ≡ m (a + offset))
    (there : Placed es rs) (valid : AreValid rs) where
  usable : (a : ℕ) (v : Bool) → state_of rs a ≡ some v → InUsable es a
  usable a v h = state_of-InUsable es rs a v map there h

  -- The words of a table are as they were.
  pub table_kept :
      (a i : ℕ) → level a ≢ 0 → i < 512 → m' (a + offset + 8 * i) ≡ m (a + offset + 8 * i)
  table_kept a i table inside =
      let even : a % 4096 ≡ 0 = handed.levels.aligned a table in
      let same : a + offset + 8 * i ≡ a + 8 * i + offset = omega arith in
      let start : (a + 8 * i) / 4096 * 4096 ≡ a = omega arith in
      rw same (
        elsewhere (a + 8 * i) (λ used.
          table (sym (ap level start) ∙ handed.apart (a + 8 * i) (usable (a + 8 * i) true used))))

  pub init-IsTree : IsTree offset api level rs m'
  init-IsTree = record {
    levels = record {
      aligned = handed.levels.aligned;
      reach = handed.levels.reach;
      children = λ a l i at inside present.
          let table : level a ≢ 0 = λ z. absurd (omega (arith, at, z)) in
          let same = table_kept a i table inside in
          ap (λ (w : ℕ). level (api.addr w)) same
          ∙ handed.levels.children a l i at inside (sym (ap api.is_present same) ∙ present);
    };
    clean = record {
      valid = valid;
      reach = λ a free. usable_reached offset es a reach (usable a false free);
      unused = λ a free. handed.apart a (usable a false free);
      cleared = λ a free.
          ap api.is_present (elsewhere a (λ used. true≢false (sym used ∙ free)))
          ∙ handed.cleared a (usable a false free);
    };
  }
    where
      true≢false : ◌≡◌ {A = Option Bool} (some true) (some false) → ⊥
      true≢false e = cc
