-- ===== src/Memory/Region/Reference.antt =====
-- `MemoryRegion::alloc` against a search that tries every start in turn.
use os_rust.Shared.{
  ℕ, zero, suc, ◌+◌, ◌-◌, ◌≤◌, ◌<◌, ◌≡◌, inl, inr, refl, ap, ◌∙◌, Bool, true, false, not, ◌&&◌,
  Option, none, some, arith, leb, if◌then◌else◌, Bool-cases,
}
use native.Mathlib.Decide.{dec_lt}
use os_rust.Memory.Addr.{AddrApi}
use os_rust.Memory.Bitmap.Bits.{bit, IsValid}
use os_rust.Memory.Region.{MemoryRegion, alloc}
use os_rust.Memory.Region.Scan.{
  IsFree, IsBlocked, FirstFit, first_run, first_run-FirstFit, settle, alloc-first_run,
}

-- Whether `n` bits from `i` on are all free.
unfoldable pub all_free : (ℕ → Bool) → ℕ → ℕ → Bool
all_free bits i zero = true
all_free bits i (suc n) = not (bits i) && all_free bits (i + 1) n

-- The first of `k` starts from `t` on at which all are free.
unfoldable pub try_starts : (ℕ → Bool) → ℕ → ℕ → ℕ → Option ℕ
try_starts bits count t zero = none
try_starts bits count t (suc k) =
    let rest = try_starts bits count (t + 1) k in if all_free bits t count then some t else rest

unfoldable pub first_fit : (ℕ → Bool) → ℕ → ℕ → Option ℕ
first_fit bits count size =
    if leb count size then try_starts bits count 0 (size - count + 1) else none

module _ (bits : ℕ → Bool) where
  all_free-true : (i n : ℕ) → all_free bits i n ≡ true → IsFree bits i n
  unfolding all_free
  all_free-true i zero h j l u = absurd (omega arith)
  all_free-true i (suc n) h j l u = elim (dec_lt i j) [
    | yes p ↦ all_free-true (i + 1) n (ground (arith, h)) j (omega arith) (omega arith)
    | no p ↦ let same : j ≡ i = omega arith in rw same (ground (arith, h))
  ]

  all_free-false : (i n : ℕ) → all_free bits i n ≡ false → IsBlocked bits i n
  unfolding all_free
  all_free-false i zero h = absurd cc
  all_free-false i (suc n) h = elim (Bool-cases (bits i)) [
    | inl e ↦ (i, omega arith, omega arith, e)
    | inr e ↦
        let (j, l, u, b) = all_free-false (i + 1) n (rw e at h) in (j, omega arith, omega arith, b)
  ]

  -- What a search from `t` on may return, among `k` starts.
  abbrev Found : ℕ → ℕ → ℕ → Option ℕ → Type 0
  Found count t k none = (u : ℕ) → t ≤ u → u < t + k → IsBlocked bits u count
  Found count t k (some s) =
      IsFree bits s count × (s < t + k) × ((u : ℕ) → t ≤ u → u < s → IsBlocked bits u count)

  try_starts-Found : (count t k : ℕ) → Found count t k (try_starts bits count t k)
  unfolding try_starts
  try_starts-Found count t zero = λ u l h. absurd (omega arith)
  try_starts-Found count t (suc k) = elim (Bool-cases (all_free bits t count)) [
    | inl e ↦ rw e (all_free-true t count e, omega arith, λ u l h. absurd (omega arith))
    | inr e ↦ rw e (
        later (try_starts bits count (t + 1) k) (all_free-false t count e)
          (try_starts-Found count (t + 1) k))
  ]
    where
      later :
          (o : Option ℕ)
          → IsBlocked bits t count
          → Found count (t + 1) k o
          → Found count t (suc k) o
      later none b f = λ u l h. elim (dec_lt t u) [
        | yes p ↦ f u (omega arith) (omega arith)
        | no p ↦ let same : u ≡ t = omega arith in rw same b
      ]
      later (some s) b (free, below, least) = (
        free,
        omega arith,
        λ u l h. elim (dec_lt t u) [
          | yes p ↦ least u (omega arith) h
          | no p ↦ let same : u ≡ t = omega arith in rw same b
        ],
      )

  Found-FirstFit :
      (count size : ℕ) (o : Option ℕ)
      → count ≤ size
      → Found count 0 (size - count + 1) o
      → FirstFit bits count size o
  Found-FirstFit count size none h f = λ t l. f t (omega arith) (omega arith)
  Found-FirstFit count size (some s) h (free, below, least) =
      (free, omega arith, λ t l. least t (omega arith) l)

  first_fit-FirstFit : (count size : ℕ) → FirstFit bits count size (first_fit bits count size)
  unfolding first_fit
  first_fit-FirstFit count size = elim (Bool-cases (leb count size)) [
    | inl e ↦ rw e (
        Found-FirstFit count size (try_starts bits count 0 (size - count + 1)) (ground arith)
          (try_starts-Found count 0 (size - count + 1)))
    | inr e ↦ rw e (λ t l. absurd (ground arith))
  ]

  clash {ℓ} : {A : Type ℓ} (i n : ℕ) → IsFree bits i n → IsBlocked bits i n → A
  clash i n free (j, l, u, b) = absurd (cc (b, free j l u))

  -- There is one answer.
  FirstFit-unique :
      (count size : ℕ) (o p : Option ℕ)
      → FirstFit bits count size o
      → FirstFit bits count size p
      → o ≡ p
  FirstFit-unique count size none none f g = refl
  FirstFit-unique count size none (some t) f g = clash t count g.0 (f t g.1)
  FirstFit-unique count size (some s) none f g = clash s count f.0 (g s f.1)
  FirstFit-unique count size (some s) (some t) f g = elim (dec_lt s t) [
    | yes l ↦ clash s count f.0 (g.2 s l)
    | no n ↦ elim (dec_lt t s) [
      | yes l ↦ clash t count g.0 (f.2 t l)
      | no m ↦ ap some (omega arith)
    ]
  ]

module _ (x : AddrApi) where
  -- On a valid bitmap, `alloc` of at least one frame does what the search that tries every start in
  -- turn tells it: it claims the frames from the first start at which all are free, and does nothing
  -- where there is none.
  pub alloc-first_fit_search :
      (r : MemoryRegion) (count : ℕ)
      → IsValid r.bitmap
      → 0 < count
      → alloc x r count ≡ settle x r count (first_fit (bit r.bitmap) count r.bitmap.size)
  alloc-first_fit_search r count valid pos =
      let same =
        FirstFit-unique (bit r.bitmap) count r.bitmap.size
          (first_run (bit r.bitmap) count r.bitmap.size)
          (first_fit (bit r.bitmap) count r.bitmap.size)
          (first_run-FirstFit (bit r.bitmap) count r.bitmap.size pos)
          (first_fit-FirstFit (bit r.bitmap) count r.bitmap.size) in
      alloc-first_run x r count valid ∙ ap (settle x r count) same
