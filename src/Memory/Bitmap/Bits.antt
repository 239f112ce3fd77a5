-- ===== src/Memory/Bitmap/Bits.antt =====
-- `BitmapView` as a function from indices to bits: each operation in range, and its effect on every
-- bit.
use Prim.Native.Nat.{bit_and, bit_or}
use os_rust.Shared
use os_rust.Shared.{
  ℕ, zero, suc, ◌+◌, ◌-◌, ◌*◌, ◌/◌, ◌%◌, ◌^◌, ◌≤◌, ◌<◌, ◌≡◌, refl, List, [], ◌∷◌, index, Bool, true,
  false, not, ◌==◌, ◌&&◌, Outcome, ok, ◌>>=◌, get_or, length, arith, holds_below, holds_at,
  if◌then◌else◌, ltb, Bool-cases, inl, inr, index_lem, length-set, ap, sym, ◌∙◌, eq_of_get_or,
  get_or-set_self, get_or-set_ne, ==_iff,
}
use os_rust.Memory.Bitmap.{BitmapView, mask, not_mask, set, clear, is_set}

-- bit `k` of a byte, as the code tests it
abbrev pub bit_of : ℕ → ℕ → Bool
bit_of byte k = not (bit_and byte (2 ^ k) == 0)

-- The four byte facts for the byte `x`, the bit `k` written and the bit `m` read.
byte_test : ℕ → ℕ → ℕ → Bool
byte_test x k m =
    ltb (bit_or x (2 ^ k)) 256
    && ltb (bit_and x (255 - 2 ^ k)) 256
    && iff (bit_of (bit_or x (2 ^ k)) m) (if k == m then true else bit_of x m)
    && iff (bit_of (bit_and x (255 - 2 ^ k)) m) (if k == m then false else bit_of x m)
  where
    iff : Bool → Bool → Bool
    iff true b = b
    iff false b = not b

byte_table : holds_below 256 (λ x. holds_below 8 (λ k. holds_below 8 (λ m. byte_test x k m))) ≡ true
unfolding holds_below byte_test
byte_table = refl

byte_test_holds : (x k m : ℕ) → x < 256 → k < 8 → m < 8 → byte_test x k m ≡ true
byte_test_holds x k m hx hk hm =
    holds_at 8 _ m (holds_at 8 _ k (holds_at 256 _ x byte_table hx) hk) hm

module _ (x k m : ℕ) (hx : x < 256) (hk : k < 8) (hm : m < 8) where
  or-lt : bit_or x (2 ^ k) < 256
  unfolding byte_test
  or-lt = ground (arith, byte_test_holds x k m hx hk hm)

  and-lt : bit_and x (255 - 2 ^ k) < 256
  unfolding byte_test
  and-lt = ground (arith, byte_test_holds x k m hx hk hm)

  bit_of-or : bit_of (bit_or x (2 ^ k)) m ≡ (if k == m then true else bit_of x m)
  unfolding byte_test
  bit_of-or = ground (arith, byte_test_holds x k m hx hk hm)

  bit_of-and : bit_of (bit_and x (255 - 2 ^ k)) m ≡ (if k == m then false else bit_of x m)
  unfolding byte_test
  bit_of-and = ground (arith, byte_test_holds x k m hx hk hm)

-- The bit of index `i`; past the bytes there is no bit, and it reads as free.
abbrev pub bit : BitmapView → ℕ → Bool
bit b i = bit_of (get_or b.bytes (i / 8) 0) (i % 8)

-- The bytes are bytes, and there is a bit for every index below `size`.
pub record IsValid (b : BitmapView) : Type 0 where
  pub is_byte : (j : ℕ) → get_or b.bytes j 0 < 256
  pub covers : b.size ≤ 8 * length b.bytes

pub is_set_lem : (b : BitmapView) (i : ℕ) → IsValid b → i < b.size → is_set b i ≡ ok (bit b i)
unfolding is_set
is_set_lem b i v h = rw (index_lem b.bytes (i / 8) 0 (omega (arith, v.covers)))

-- `b'` is `b` with the one bit `i` written to `v`.
pub record Writes (v : Bool) (b : BitmapView) (i : ℕ) (b' : BitmapView) : Type 0 where
  pub valid : IsValid b'
  pub size_same : b'.size ≡ b.size
  pub length_same : length b'.bytes ≡ length b.bytes
  pub bits : (j : ℕ) → bit b' j ≡ (if i == j then v else bit b j)

-- Within one byte, indices are told apart by their position in it.
same_test : (i j : ℕ) → i / 8 ≡ j / 8 → (i % 8 == j % 8) ≡ (i == j)
same_test i j p = ground arith

module _ (v : Bool) (b : BitmapView) (i byte : ℕ) (valid : IsValid b) (inside : i < b.size) where
  abbrev written : BitmapView
  written = record b { bytes = Shared.set b.bytes (i / 8) byte }

  get_or-written :
      (j : ℕ) → get_or written.bytes j 0 ≡ (if i / 8 == j then byte else get_or b.bytes j 0)
  get_or-written j = elim (Bool-cases (i / 8 == j)) [
    | inl e ↦
        let p : i / 8 ≡ j = ground arith in
        rw e (rw (← p) (get_or-set_self b.bytes (i / 8) byte 0 (omega (arith, valid.covers))))
    | inr e ↦ rw e (get_or-set_ne b.bytes (i / 8) j byte 0 (ground arith))
  ]

  written-Writes :
      byte < 256
      → ((m : ℕ)
          → m < 8
          → bit_of byte m ≡ (if i % 8 == m then v else bit_of (get_or b.bytes (i / 8) 0) m))
      → Writes v b i written
  written-Writes lt laws = record {
    valid = record {
      is_byte = λ j. ground (arith, get_or-written j, valid.is_byte j);
      covers = rw (length-set b.bytes (i / 8) byte) valid.covers;
    };
    size_same = refl;
    length_same = length-set b.bytes (i / 8) byte;
    bits = λ j. elim (Bool-cases (i / 8 == j / 8)) [
      | inl e ↦
          let p : i / 8 ≡ j / 8 = ground arith in
          rw (get_or-written (j / 8), e, laws (j % 8) (omega arith), p)
            (ap (λ (t : Bool). if t then v else bit b j) (same_test i j p))
      | inr e ↦ rw (get_or-written (j / 8), e) (ground arith)
    ];
  }

-- In a valid bitmap, setting a bit within its size returns, writes that bit alone, and keeps the
-- bitmap valid.
pub set_lem :
    (b : BitmapView) (i : ℕ)
    → IsValid b
    → i < b.size
    → (b' : BitmapView) × (set b i ≡ ok b') × Writes true b i b'
unfolding set
set_lem b i v h = (
  _,
  rw (index_lem b.bytes (i / 8) 0 (omega (arith, v.covers))),
  written-Writes true b i (bit_or byte (mask i)) v h
      (or-lt byte (i % 8) 0 (v.is_byte (i / 8)) (omega arith) (omega arith))
      (λ m hm. bit_of-or byte (i % 8) m (v.is_byte (i / 8)) (omega arith) hm),
)
  where
    byte : ℕ
    byte = get_or b.bytes (i / 8) 0

-- Clearing a bit in range returns, and writes that bit alone.
pub clear_lem :
    (b : BitmapView) (i : ℕ)
    → IsValid b
    → i < b.size
    → (b' : BitmapView) × (clear b i ≡ ok b') × Writes false b i b'
unfolding clear
clear_lem b i v h = (
  _,
  rw (index_lem b.bytes (i / 8) 0 (omega (arith, v.covers))),
  written-Writes false b i (bit_and byte (not_mask i)) v h
      (and-lt byte (i % 8) 0 (v.is_byte (i / 8)) (omega arith) (omega arith))
      (λ m hm. bit_of-and byte (i % 8) m (v.is_byte (i / 8)) (omega arith) hm),
)
  where
    byte : ℕ
    byte = get_or b.bytes (i / 8) 0

-- A byte is the number of its bits.
bits_value : (ℕ → Bool) → ℕ
bits_value f = go 8
  where
    go : ℕ → ℕ
    go zero = 0
    go (suc k) = (if f k then 2 ^ k else 0) + go k

value_table : holds_below 256 (λ x. bits_value (bit_of x) == x) ≡ true
unfolding holds_below bits_value
value_table = refl

eq_of_bit_of : (x y : ℕ) → x < 256 → y < 256 → ((m : ℕ) → m < 8 → bit_of x m ≡ bit_of y m) → x ≡ y
unfolding bits_value
eq_of_bit_of x y hx hy h =
    sym ((==_iff _ x).0 (holds_at 256 _ x value_table hx))
    ∙ same_value
    ∙ (==_iff _ y).0 (holds_at 256 _ y value_table hy)
  where
    at : (m : ℕ) → m < 8 → (if bit_of x m then 2 ^ m else 0) ≡ (if bit_of y m then 2 ^ m else 0)
    at m hm = ap (λ (t : Bool). if t then 2 ^ m else 0) (h m hm)

    same_value : bits_value (bit_of x) ≡ bits_value (bit_of y)
    same_value = omega (
      arith,
      at 0 (omega arith),
      at 1 (omega arith),
      at 2 (omega arith),
      at 3 (omega arith),
      at 4 (omega arith),
      at 5 (omega arith),
      at 6 (omega arith),
      at 7 (omega arith),
    )

-- Two valid bitmaps of one size and the same bits are equal.
pub eq_of_bit :
    (b b' : BitmapView)
    → IsValid b
    → IsValid b'
    → b.size ≡ b'.size
    → length b.bytes ≡ length b'.bytes
    → ((j : ℕ) → bit b j ≡ bit b' j)
    → b ≡ b'
eq_of_bit b b' v v' s l h = λ i. record { size = s i; bytes = same_bytes i }
  where
    same_byte : (j : ℕ) → get_or b.bytes j 0 ≡ get_or b'.bytes j 0
    same_byte j = eq_of_bit_of _ _ (v.is_byte j) (v'.is_byte j) λ m hm.
        let p : (8 * j + m) / 8 ≡ j = omega arith in
        let q : (8 * j + m) % 8 ≡ m = omega arith in rw (p, q) at (h (8 * j + m))

    same_bytes : b.bytes ≡ b'.bytes
    same_bytes = eq_of_get_or b.bytes b'.bytes 0 l same_byte
