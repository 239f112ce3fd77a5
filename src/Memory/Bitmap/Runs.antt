-- ===== src/Memory/Bitmap/Runs.antt =====
-- The loops over a run of bits: in range they return, and write exactly the bits of the run.
use os_rust.Shared.{
  ℕ, zero, suc, ◌+◌, ◌≤◌, ◌≡◌, refl, ◌∙◌, Bool, true, false, ◌&&◌, ◌==◌, ok, arith, ltb, leb,
  if◌then◌else◌, length,
}
use os_rust.Memory.Bitmap.{BitmapView, set_run, clear_run}
use os_rust.Memory.Bitmap.Bits.{bit, IsValid, Writes, set_lem, clear_lem}

-- Whether `j` is one of the `n` indices from `i` on.
abbrev pub within : ℕ → ℕ → ℕ → Bool
within i n j = leb i j && ltb j (i + n)

-- `b'` is `b` with the bits of the run written to `v`.
pub record WritesRun (v : Bool) (b : BitmapView) (i n : ℕ) (b' : BitmapView) : Type 0 where
  pub valid : IsValid b'
  pub size_same : b'.size ≡ b.size
  pub length_same : length b'.bytes ≡ length b.bytes
  pub bits : (j : ℕ) → bit b' j ≡ (if within i n j then v else bit b j)

WritesRun-zero : {v : Bool} {b : BitmapView} {i : ℕ} → IsValid b → WritesRun v b i 0 b
WritesRun-zero h = record {
  valid = h;
  size_same = refl;
  length_same = refl;
  bits = λ j. ground arith;
}

WritesRun-suc :
    {v : Bool} {b b' b'' : BitmapView} {i n : ℕ}
    → Writes v b i b'
    → WritesRun v b' (i + 1) n b''
    → WritesRun v b i (suc n) b''
WritesRun-suc {v} {b} {b'} {b''} {i} {n} w r = record {
  valid = r.valid;
  size_same = r.size_same ∙ w.size_same;
  length_same = r.length_same ∙ w.length_same;
  bits = λ j. r.bits j ∙ join j (bit b' j) (bit b j) (w.bits j);
}
  where
    join :
        (j : ℕ) (x y : Bool)
        → x ≡ (if i == j then v else y)
        → (if within (i + 1) n j then v else x) ≡ (if within i (suc n) j then v else y)
    join j x y e = ground arith

pub set_run_lem :
    (b : BitmapView) (i n : ℕ)
    → IsValid b
    → i + n ≤ b.size
    → (b' : BitmapView) × (set_run b i n ≡ ok b') × WritesRun true b i n b'
unfolding set_run
set_run_lem b i zero v h = (b, refl, WritesRun-zero v)
set_run_lem b i (suc n) v h =
    let (b₁, e₁, w₁) = set_lem b i v (omega arith) in
    let (b₂, e₂, w₂) = set_run_lem b₁ (i + 1) n w₁.valid (omega (arith, w₁.size_same)) in
    (b₂, rw e₁ e₂, WritesRun-suc w₁ w₂)

-- In a valid bitmap, clearing a run of bits within its size returns, clears those bits alone, and
-- keeps the bitmap valid.
pub clear_run_lem :
    (b : BitmapView) (i n : ℕ)
    → IsValid b
    → i + n ≤ b.size
    → (b' : BitmapView) × (clear_run b i n ≡ ok b') × WritesRun false b i n b'
unfolding clear_run
clear_run_lem b i zero v h = (b, refl, WritesRun-zero v)
clear_run_lem b i (suc n) v h =
    let (b₁, e₁, w₁) = clear_lem b i v (omega arith) in
    let (b₂, e₂, w₂) = clear_run_lem b₁ (i + 1) n w₁.valid (omega (arith, w₁.size_same)) in
    (b₂, rw e₁ e₂, WritesRun-suc w₁ w₂)
