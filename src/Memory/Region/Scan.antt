-- ===== src/Memory/Region/Scan.antt =====
-- The scan of `MemoryRegion::alloc` is a search for the first run of free bits.
use os_rust.Shared.{
  ℕ, zero, suc, ◌+◌, ◌≤◌, ◌<◌, ◌≡◌, ◌≢◌, ◌⊎◌, inl, inr, refl, Bool, true, false, Option, none, some,
  Outcome, ok, arith, ◌==◌, if◌then◌else◌, Bool-cases,
}
use native.Mathlib.Decide.{dec_lt}
use os_rust.Memory.Addr.{AddrApi}
use os_rust.Memory.Frame.{FrameRange}
use os_rust.Memory.Bitmap.Bits.{bit, IsValid, is_set_lem}
use os_rust.Memory.Region.{MemoryRegion, claim, scan, alloc}

-- All `n` bits from index `i` on are free; one of them is used.
abbrev pub IsFree : (ℕ → Bool) → ℕ → ℕ → Type 0
IsFree bits i n = (j : ℕ) → i ≤ j → j < i + n → bits j ≡ false

abbrev pub IsBlocked : (ℕ → Bool) → ℕ → ℕ → Type 0
IsBlocked bits i n = (j : ℕ) × (i ≤ j) × (j < i + n) × (bits j ≡ true)

-- What a search below `size` may return: the first free run, or nothing where there is none.
abbrev pub FirstFit : (ℕ → Bool) → ℕ → ℕ → Option ℕ → Type 0
FirstFit bits count size none = (t : ℕ) → t + count ≤ size → IsBlocked bits t count
FirstFit bits count size (some s) =
    IsFree bits s count × (s + count ≤ size) × ((t : ℕ) → t < s → IsBlocked bits t count)

-- The scan without its effects.
find_run : (ℕ → Bool) → ℕ → ℕ → ℕ → ℕ → ℕ → Option ℕ
find_run bits count zero i free first = none
find_run bits count (suc k) i free first =
    let first' = if free == 0 then i else first in
    let over = find_run bits count k (i + 1) 0 first in
    let rest = find_run bits count k (i + 1) (free + 1) first' in
    if bits i then over else if free + 1 == count then some first' else rest

-- The loop's invariant: the last `free` bits are free and begin at `first`, and no run that begins
-- before them is free.
record Scanned (bits : ℕ → Bool) (count i free first : ℕ) : Type 0 where
  short : free < count
  inside : free ≤ i
  begins : (free ≡ 0) ⊎ (first + free ≡ i)
  tail_free : (j : ℕ) → i ≤ j + free → j < i → bits j ≡ false
  blocked : (t : ℕ) → t + free < i → IsBlocked bits t count

module _ (bits : ℕ → Bool) (count : ℕ) where
  Scanned-used :
      (i free first : ℕ)
      → Scanned bits count i free first
      → bits i ≡ true
      → Scanned bits count (i + 1) 0 first
  Scanned-used i free first s e = record {
    short = omega (arith, s.short);
    inside = omega arith;
    begins = inl refl;
    tail_free = λ j h l. absurd (omega arith);
    blocked = λ t h. elim (dec_lt (t + free) i) [
      | yes p ↦ s.blocked t p
      | no p ↦ (i, omega arith, omega (arith, s.short), e)
    ];
  }

  Scanned-free :
      (i free first : ℕ)
      → Scanned bits count i free first
      → bits i ≡ false
      → free + 1 ≢ count
      → Scanned bits count (i + 1) (free + 1) (if free == 0 then i else first)
  Scanned-free i free first s e ne = record {
    short = omega (arith, s.short);
    inside = omega (arith, s.inside);
    begins = inr (ground (arith, s.begins, s.inside));
    tail_free = λ j h l. elim (dec_lt j i) [
      | yes p ↦ s.tail_free j (omega arith) p
      | no p ↦ let q : j ≡ i = omega arith in rw q e
    ];
    blocked = λ t h. s.blocked t (omega arith);
  }

  -- Where the scan stops with a run, it is the first.
  Scanned-found :
      (i free first : ℕ)
      → Scanned bits count i free first
      → bits i ≡ false
      → free + 1 ≡ count
      → let first' = if free == 0 then i else first in
        IsFree bits first' count
        × (first' + count ≡ i + 1)
        × ((t : ℕ) → t < first' → IsBlocked bits t count)
  Scanned-found i free first s e p = (
    λ j h l. elim (dec_lt j i) [
      | yes q ↦ s.tail_free j (omega (arith, ends)) q
      | no q ↦ let r : j ≡ i = omega (arith, ends) in rw r e
    ],
    ends,
    λ t l. s.blocked t (omega (arith, ends)),
  )
    where
      ends : (if free == 0 then i else first) + count ≡ i + 1
      ends = ground (arith, s.begins, s.inside)

  find_run-FirstFit :
      (size k i free first : ℕ)
      → i + k ≡ size
      → Scanned bits count i free first
      → FirstFit bits count size (find_run bits count k i free first)
  unfolding find_run
  find_run-FirstFit size zero i free first q s = λ t h. s.blocked t (omega (arith, s.short))
  find_run-FirstFit size (suc k) i free first q s = elim (Bool-cases (bits i)) [
    | inl e ↦
        rw e
          (find_run-FirstFit size k (i + 1) 0 first (omega arith) (Scanned-used i free first s e))
    | inr e ↦ rw e (elim (Bool-cases (free + 1 == count)) [
      | inl p ↦
          let (clear, ends, least) = Scanned-found i free first s e (ground arith) in
          rw p (clear, omega (arith, ends), least)
      | inr p ↦ rw p (
          find_run-FirstFit size k (i + 1) (free + 1) (if free == 0 then i else first) (omega arith)
            (Scanned-free i free first s e (ground arith)))
    ])
  ]

  -- From the start of the bitmap.
  pub first_run : ℕ → Option ℕ
  first_run size = find_run bits count size 0 0 0

  pub first_run-FirstFit : (size : ℕ) → 0 < count → FirstFit bits count size (first_run size)
  unfolding first_run
  first_run-FirstFit size pos = find_run-FirstFit size size 0 0 0 (omega arith) (record {
    short = pos;
    inside = omega arith;
    begins = inl refl;
    tail_free = λ j h l. elim l [ ];
    blocked = λ t h. absurd (omega arith);
  })

-- A request for no frames never meets its count.
find_run-zero : (bits : ℕ → Bool) (k i free first : ℕ) → find_run bits 0 k i free first ≡ none
unfolding find_run
find_run-zero bits zero i free first = refl
find_run-zero bits (suc k) i free first = ground (
  arith,
  find_run-zero bits k (i + 1) 0 first,
  find_run-zero bits k (i + 1) (free + 1) (if free == 0 then i else first),
)

pub first_run-zero : (bits : ℕ → Bool) (size : ℕ) → first_run bits 0 size ≡ none
unfolding first_run
first_run-zero bits size = find_run-zero bits size 0 0 0

-- What the code does with the outcome of the search.
abbrev pub settle :
    (x : AddrApi) → MemoryRegion → ℕ → Option ℕ → Outcome (Option FrameRange × MemoryRegion)
settle x r count none = ok (none, r)
settle x r count (some s) = claim x r s count

module _ (x : AddrApi) (r : MemoryRegion) (count : ℕ) (valid : IsValid r.bitmap) where
  scan-find_run :
      (k i free first : ℕ)
      → i + k ≤ r.bitmap.size
      → scan x r count k i free first
        ≡ settle x r count (find_run (bit r.bitmap) count k i free first)
  unfolding scan find_run
  scan-find_run zero i free first h = refl
  scan-find_run (suc k) i free first h =
      rw (is_set_lem r.bitmap i valid (omega arith)) (elim (Bool-cases (bit r.bitmap i)) [
        | inl e ↦ rw e (scan-find_run k (i + 1) 0 first (omega arith))
        | inr e ↦ rw e (elim (Bool-cases (free + 1 == count)) [
          | inl p ↦ rw p
          | inr p ↦
              rw p
                (scan-find_run k (i + 1) (free + 1) (if free == 0 then i else first) (omega arith))
        ])
      ])

  -- The loop of `alloc`, as the pure search and the claim of what it finds.
  pub alloc-first_run :
      alloc x r count ≡ settle x r count (first_run (bit r.bitmap) count r.bitmap.size)
  unfolding alloc first_run
  alloc-first_run = scan-find_run r.bitmap.size 0 0 0 (omega arith)
