-- ===== src/Util/Random.antt =====
-- `random_u64` as a map of words to words.
use Prim.Native.Nat.{bit_xor}
use native.Mathlib.Nat.{div-le_self}
use os_rust.Shared.{ℕ, ◌*◌, ◌%◌, ◌^◌, ◌<◌, ◌≡◌, refl, sym, ap, ◌∙◌, arith}
use os_rust.Util.{shr, shl, random_u64}
use os_rust.Util.Xor.{
  bit_xor_zero, zero-bit_xor, bit_xor_self, bit_xor_assoc, shr-bit_xor, mod-bit_xor, mul-bit_xor,
}

-- A map of 64-bit words with an inverse.
pub record Permutes (f : ℕ → ℕ) : Type 0 where
  pub inverse : ℕ → ℕ
  pub keeps : (x : ℕ) → x < 2 ^ 64 → f x < 2 ^ 64
  pub inverse_keeps : (y : ℕ) → y < 2 ^ 64 → inverse y < 2 ^ 64
  pub undoes : (x : ℕ) → x < 2 ^ 64 → inverse (f x) ≡ x
  pub hits : (y : ℕ) → y < 2 ^ 64 → f (inverse y) ≡ y

abbrev mix : (ℕ → ℕ) → ℕ → ℕ
mix f x = bit_xor x (f x)

-- A map that exclusive or goes through.
record IsLinear (f : ℕ → ℕ) : Type 0 where
  pub sum : (a b : ℕ) → f (bit_xor a b) ≡ bit_xor (f a) (f b)
  pub word : (x : ℕ) → x < 2 ^ 64 → f x < 2 ^ 64

lt-bit_xor : (a b : ℕ) → a < 2 ^ 64 → b < 2 ^ 64 → bit_xor a b < 2 ^ 64
lt-bit_xor a b ha hb = omega (arith, mod-bit_xor 64 a b, same)
  where
    same : bit_xor (a % 2 ^ 64) (b % 2 ^ 64) ≡ bit_xor a b
    same =
        let ea : a % 2 ^ 64 ≡ a = omega arith in
        let eb : b % 2 ^ 64 ≡ b = omega arith in rw (ea, eb) refl

mix_word : (f : ℕ → ℕ) → IsLinear f → (x : ℕ) → x < 2 ^ 64 → mix f x < 2 ^ 64
mix_word f l x h = lt-bit_xor x (f x) h (l.word x h)

mix-mix : (f : ℕ → ℕ) → IsLinear f → (x : ℕ) → mix f (mix f x) ≡ bit_xor x (f (f x))
mix-mix f l x =
    rw
      (
        l.sum x (f x),
        bit_xor_assoc x (f x) (bit_xor (f x) (f (f x))),
        sym (bit_xor_assoc (f x) (f x) (f (f x))),
        bit_xor_self (f x),
        zero-bit_xor (f (f x)),
      )
      refl

vanishing-Permutes : (f : ℕ → ℕ) → ((x : ℕ) → x < 2 ^ 64 → f x ≡ 0) → Permutes (mix f)
vanishing-Permutes f zero = record {
  inverse = λ y. y;
  keeps = λ x h. omega (arith, same x h);
  inverse_keeps = λ y h. h;
  undoes = same;
  hits = same;
}
  where
    same : (x : ℕ) → x < 2 ^ 64 → mix f x ≡ x
    same x h = ap (bit_xor x) (zero x h) ∙ bit_xor_zero x

-- Mixing twice with `f` is mixing once with `f` twice.
twice-Permutes :
    (f g : ℕ → ℕ)
    → IsLinear f
    → ((x : ℕ) → x < 2 ^ 64 → f (f x) ≡ g x)
    → Permutes (mix g)
    → Permutes (mix f)
twice-Permutes f g l ff p = record {
  inverse = λ y. mix f (p.inverse y);
  keeps = mix_word f l;
  inverse_keeps = λ y h. mix_word f l (p.inverse y) (p.inverse_keeps y h);
  undoes = undo;
  hits = λ y h. double (p.inverse y) (p.inverse_keeps y h) ∙ p.hits y h;
}
  where
    double : (x : ℕ) → x < 2 ^ 64 → mix f (mix f x) ≡ mix g x
    double x h = mix-mix f l x ∙ ap (bit_xor x) (ff x h)

    undo : (x : ℕ) → x < 2 ^ 64 → mix f (p.inverse (mix f x)) ≡ x
    undo x h =
        let z : ℕ = p.inverse (mix f x) in
        let z_word : z < 2 ^ 64 = p.inverse_keeps (mix f x) (mix_word f l x h) in
        let under : mix g (mix f z) ≡ mix g x =
          sym (double (mix f z) (mix_word f l z z_word))
          ∙ ap (mix f) (double z z_word ∙ p.hits (mix f x) (mix_word f l x h))
          ∙ double x h in
        sym (p.undoes (mix f z) (mix_word f l z z_word)) ∙ ap p.inverse under ∙ p.undoes x h

shr-IsLinear : (k : ℕ) → IsLinear (shr k)
shr-IsLinear k = record { sum = shr-bit_xor k; word = λ x h. omega (arith, div-le_self x (2 ^ k)) }

shl-IsLinear : (k : ℕ) → IsLinear (shl k)
shl-IsLinear k = record {
  sum = λ a b.
      ap (λ (t : ℕ). t % 2 ^ 64) (mul-bit_xor k a b) ∙ mod-bit_xor 64 (a * 2 ^ k) (b * 2 ^ k);
  word = λ x h. omega arith;
}

first-Permutes : Permutes (mix (shr 13))
first-Permutes =
    twice-Permutes _ (shr 26) (shr-IsLinear 13) (λ x h. omega arith)
      (twice-Permutes _ (shr 52) (shr-IsLinear 26) (λ x h. omega arith)
        (twice-Permutes _ (shr 104) (shr-IsLinear 52) (λ x h. omega arith)
          (vanishing-Permutes (shr 104) (λ x h. omega arith))))

second-Permutes : Permutes (mix (shl 7))
second-Permutes =
    twice-Permutes _ (shl 14) (shl-IsLinear 7) (λ x h. omega arith)
      (twice-Permutes _ (shl 28) (shl-IsLinear 14) (λ x h. omega arith)
        (twice-Permutes _ (shl 56) (shl-IsLinear 28) (λ x h. omega arith)
          (twice-Permutes _ (shl 112) (shl-IsLinear 56) (λ x h. omega arith)
            (vanishing-Permutes (shl 112) (λ x h. omega arith)))))

third-Permutes : Permutes (mix (shr 17))
third-Permutes =
    twice-Permutes _ (shr 34) (shr-IsLinear 17) (λ x h. omega arith)
      (twice-Permutes _ (shr 68) (shr-IsLinear 34) (λ x h. omega arith)
        (vanishing-Permutes (shr 68) (λ x h. omega arith)))

then-Permutes : (f g : ℕ → ℕ) → Permutes f → Permutes g → Permutes (λ x. g (f x))
then-Permutes f g p q = record {
  inverse = λ y. p.inverse (q.inverse y);
  keeps = λ x h. q.keeps (f x) (p.keeps x h);
  inverse_keeps = λ y h. p.inverse_keeps (q.inverse y) (q.inverse_keeps y h);
  undoes = λ x h. ap p.inverse (q.undoes (f x) (p.keeps x h)) ∙ p.undoes x h;
  hits = λ y h. ap g (p.hits (q.inverse y) (q.inverse_keeps y h)) ∙ q.hits y h;
}

-- random_u64 permutes the 64-bit words: it has an inverse, so different time stamps give different
-- numbers and every number is given for some time stamp.
pub random_u64-Permutes : Permutes random_u64
unfolding random_u64
random_u64-Permutes =
    then-Permutes (λ tsc. mix (shl 7) (mix (shr 13) tsc)) (mix (shr 17))
      (then-Permutes (mix (shr 13)) (mix (shl 7)) first-Permutes second-Permutes) third-Permutes
