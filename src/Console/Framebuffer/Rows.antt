-- ===== src/Console/Framebuffer/Rows.antt =====
-- A framebuffer as a function from coordinates to colours, and what a row of pixels changes.
use os_rust.Shared.{
  ℕ, zero, suc, ◌+◌, ◌-◌, ◌*◌, ◌/◌, ◌%◌, ◌^◌, ◌≤◌, ◌<◌, ◌≡◌, refl, ◌∙◌, ap, List, Bool, true, false,
  ◌&&◌, ◌==◌, if◌then◌else◌, Bool-cases, inl, inr, ok, ltb, leb, length, get_or, set,
  get_or-set_self, get_or-set_ne, length-set, arith, add64, mul64, lt→ltb,
}
use native.Mathlib.Decide.{dec_lt}
use os_rust.Console.Framebuffer.{Framebuffer, put_pixel, draw_row}

-- pixels from one row to the next
abbrev pub stride : Framebuffer → ℕ
stride fb = fb.pitch / 4

-- Rows are at least as long as the screen is wide, the slice holds all rows, and no index wraps.
pub record IsValid (fb : Framebuffer) : Type 0 where
  pub wide : fb.width ≤ stride fb
  pub holds_rows : length fb.addr ≡ stride fb * fb.height
  pub small : stride fb * fb.height < 2 ^ 63

abbrev pub pixel : Framebuffer → ℕ → ℕ → ℕ
pixel fb x y = get_or fb.addr (y * stride fb + x) 0

-- `fb'` is `fb` with other pixels.
pub record SameScreen (fb fb' : Framebuffer) : Type 0 where
  pub width_same : fb'.width ≡ fb.width
  pub height_same : fb'.height ≡ fb.height
  pub pitch_same : fb'.pitch ≡ fb.pitch
  pub valid : IsValid fb'

row_inside : (s y h x : ℕ) → y < h → x < s → y * s + x < s * h
row_inside s y h x hy hx = grind arith

rows_apart : (s y q : ℕ) → y < q → y * s + s ≤ q * s
rows_apart s y q h = grind arith

row_injective : (s x y p q : ℕ) → x < s → p < s → y * s + x ≡ q * s + p → (x ≡ p) × (y ≡ q)
row_injective s x y p q hx hp e = elim (dec_lt y q) [
  | yes h ↦ absurd (omega (arith, rows_apart s y q h))
  | no h ↦ elim (dec_lt q y) [
    | yes k ↦ absurd (omega (arith, rows_apart s q y k))
    | no k ↦ let r : y ≡ q = omega arith in (omega (arith, ap (λ (t : ℕ). t * s) r), r)
  ]
]

-- A write at one place of a grid changes that place alone.
pixel-set :
    (xs : List ℕ) (s x y color p q : ℕ)
    → x < s
    → p < s
    → y * s + x < length xs
    → get_or (set xs (y * s + x) color) (q * s + p) 0
      ≡ (if (p == x) && (q == y) then color else get_or xs (q * s + p) 0)
pixel-set xs s x y color p q hx hp inside = elim (Bool-cases ((p == x) && (q == y))) [
  | inl e ↦
      let ex : p ≡ x = ground arith in
      let ey : q ≡ y = ground arith in
      rw (e, ex, ey) (get_or-set_self xs (y * s + x) color 0 inside)
  | inr e ↦ rw e (get_or-set_ne xs (y * s + x) (q * s + p) color 0 (λ same. apart e same))
]
  where
    apart : ((p == x) && (q == y)) ≡ false → y * s + x ≡ q * s + p → ⊥
    apart e same = ground (arith, row_injective s x y p q hx hp same)

module _ (fb : Framebuffer) (x y color : ℕ) (v : IsValid fb) (hx : x < fb.width)
    (hy : y < fb.height) where
  put_pixel_lem :
      (fb' : Framebuffer) × (put_pixel fb x y color ≡ ok fb')
      × SameScreen fb fb'
      × ((p q : ℕ)
          → p < stride fb
          → pixel fb' p q ≡ (if (p == x) && (q == y) then color else pixel fb p q))
  unfolding put_pixel
  put_pixel_lem =
      let s : ℕ = stride fb in
      let i : ℕ = y * s + x in
      let inside : i < s * fb.height = row_inside s y fb.height x hy (omega (arith, v.wide)) in
      let product : mul64 y s ≡ y * s = omega (arith, inside, v.small) in
      let sum : add64 (y * s) x ≡ i = omega (arith, inside, v.small) in
      let test : ltb i (length fb.addr) ≡ true = lt→ltb _ _ (omega (arith, inside, v.holds_rows)) in
      (
        record fb { addr = set fb.addr i color },
        rw (product, sum, test),
        record {
          width_same = refl;
          height_same = refl;
          pitch_same = refl;
          valid = record {
            wide = v.wide;
            holds_rows = length-set fb.addr i color ∙ v.holds_rows;
            small = v.small;
          };
        },
        λ p q hp.
            pixel-set fb.addr s x y color p q (omega (arith, v.wide)) hp
              (omega (arith, inside, v.holds_rows)),
      )

pub SameScreen-refl : (fb : Framebuffer) → IsValid fb → SameScreen fb fb
SameScreen-refl fb v = record {
  width_same = refl;
  height_same = refl;
  pitch_same = refl;
  valid = v;
}

pub SameScreen-trans :
    {fb fb' fb'' : Framebuffer} → SameScreen fb fb' → SameScreen fb' fb'' → SameScreen fb fb''
SameScreen-trans a b = record {
  width_same = b.width_same ∙ a.width_same;
  height_same = b.height_same ∙ a.height_same;
  pitch_same = b.pitch_same ∙ a.pitch_same;
  valid = b.valid;
}

-- Whether a pixel lies in the part of row `y` from `left` on, `k` pixels long.
abbrev pub in_row : ℕ → ℕ → ℕ → ℕ → ℕ → Bool
in_row left y k p q = leb left p && ltb p (left + k) && (q == y)

row_step :
    (x y col k p q : ℕ) (color : ℕ → ℕ) (new old : ℕ)
    → new ≡ (if (p == x + col) && (q == y) then color col else old)
    → (if in_row (x + (col + 1)) y k p q then color (p - x) else new)
      ≡ (if in_row (x + col) y (suc k) p q then color (p - x) else old)
row_step x y col k p q color new old e = ground (arith, here)
  where
    here : p ≡ x + col → color (p - x) ≡ color col
    here h = let r : p - x ≡ col = omega arith in ap color r

pub no_wrap :
    (fb : Framebuffer) (x y : ℕ) → IsValid fb → x < fb.width → y < fb.height → x % 2 ^ 64 ≡ x
no_wrap fb x y v hx hy =
    omega (arith, row_inside (stride fb) y fb.height x hy (omega (arith, v.wide)), v.small)

put_pixel_at :
    (fb : Framebuffer) (x col y color : ℕ)
    → IsValid fb
    → x + col < fb.width
    → y < fb.height
    → (fb' : Framebuffer) × (put_pixel fb (add64 x col) y color ≡ ok fb')
      × SameScreen fb fb'
      × ((p q : ℕ)
          → p < stride fb
          → pixel fb' p q ≡ (if (p == x + col) && (q == y) then color else pixel fb p q))
put_pixel_at fb x col y color v hx hy =
    rw (no_wrap fb (x + col) y v hx hy) (put_pixel_lem fb (x + col) y color v hx hy)

-- A row drawn on the screen returns, and gives each of its pixels the colour of its column.
pub draw_row_lem :
    (fb : Framebuffer) (x y : ℕ) (color : ℕ → ℕ) (col k : ℕ)
    → IsValid fb
    → x + col + k ≤ fb.width
    → y < fb.height
    → (fb' : Framebuffer) × (draw_row fb x y color col k ≡ ok fb')
      × SameScreen fb fb'
      × ((p q : ℕ)
          → p < stride fb
          → pixel fb' p q ≡ (if in_row (x + col) y k p q then color (p - x) else pixel fb p q))
unfolding draw_row
draw_row_lem fb x y color col zero v hx hy =
    (fb, refl, SameScreen-refl fb v, λ p q hp. ground arith)
draw_row_lem fb x y color col (suc k) v hx hy =
    let (fb₁, e₁, s₁, w₁) = put_pixel_at fb x col y (color col) v (omega arith) hy in
    let (fb₂, e₂, s₂, w₂) =
      draw_row_lem fb₁ x y color (col + 1) k s₁.valid (omega (arith, s₁.width_same))
        (omega (arith, s₁.height_same)) in
    (
      fb₂,
      rw (e₁, e₂),
      SameScreen-trans s₁ s₂,
      λ p q hp.
          w₂ p q (omega (arith, s₁.pitch_same))
          ∙ row_step x y col k p q color (pixel fb₁ p q) (pixel fb p q) (w₁ p q hp),
    )
