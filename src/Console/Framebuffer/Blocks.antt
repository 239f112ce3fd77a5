-- ===== src/Console/Framebuffer/Blocks.antt =====
-- The rows of a glyph, drawn one below the other.

use os_rust.Shared.{
  ℕ, suc, ◌+◌, ◌-◌, ◌*◌, ◌%◌, ◌^◌, ◌≤◌, ◌<◌, ◌≡◌, refl, ◌∙◌, List, [], ◌∷◌, Bool, ◌&&◌,
  if◌then◌else◌, Outcome, ok, ltb, leb, length, get_or, arith, add64,
}
use os_rust.Console.Framebuffer.{Framebuffer, draw_row, draw_rows, pixel_on}
use os_rust.Console.Framebuffer.Rows.{
  IsValid, SameScreen, SameScreen-refl, SameScreen-trans, stride, pixel, in_row, draw_row_lem,
}

-- Whether a pixel lies in the block of eight columns and `n` rows.
abbrev pub in_block : ℕ → ℕ → ℕ → ℕ → ℕ → Bool
in_block left top n p q = leb left p && ltb p (left + 8) && leb top q && ltb q (top + n)

pub height_small :
    (fb : Framebuffer) (x y : ℕ) → IsValid fb → x < fb.width → y < fb.height → y % 2 ^ 64 ≡ y
height_small fb x y v hx hy =
    omega (arith, below (stride fb) y fb.height (omega (arith, v.wide)) hy, v.small)
  where
    below : (s y h : ℕ) → 0 < s → y < h → y < s * h
    below s y h hs hy = grind arith

-- One row of eight pixels at a row number that is a wrapped sum.
pub row_at :
    (fb : Framebuffer) (x y i : ℕ) (color : ℕ → ℕ)
    → IsValid fb
    → x + 8 ≤ fb.width
    → i < fb.height
    → y ≡ i % 2 ^ 64
    → (fb' : Framebuffer) × (draw_row fb x y color 0 8 ≡ ok fb')
      × SameScreen fb fb'
      × ((p q : ℕ)
          → p < stride fb
          → pixel fb' p q ≡ (if in_block x i 1 p q then color (p - x) else pixel fb p q))
row_at fb x y i color v hx hi e =
    let same : y ≡ i = e ∙ height_small fb x i v (omega arith) hi in
    let (fb', run, s, w) = draw_row_lem fb x i color 0 8 v (omega arith) hi in
    (fb', rw same run, s, λ p q hp. w p q hp ∙ one_row x i p q (color (p - x)) (pixel fb p q))
  where
    one_row :
        (x i p q a b : ℕ)
        → (if in_row (x + 0) i 8 p q then a else b) ≡ (if in_block x i 1 p q then a else b)
    one_row x i p q a b = ground arith

abbrev pub glyph_pixel : List ℕ → ℕ → ℕ → ℕ → ℕ → ℕ
glyph_pixel bytes row col fg bg = if pixel_on (get_or bytes row 0) col then fg else bg

-- A block whose first row has the colour `b` and whose others have `a` has the colour `c`.
rows_step :
    (x top n p q a b c new old : ℕ)
    → new ≡ (if in_block x top 1 p q then b else old)
    → (q ≡ top → c ≡ b)
    → (top + 1 ≤ q → c ≡ a)
    → (if in_block x (top + 1) n p q then a else new)
      ≡ (if in_block x top (suc n) p q then c else old)
rows_step x top n p q a b c new old e first others = ground (arith, first, others)

glyph_pixel-first :
    (byte : ℕ) (bytes : List ℕ) (i col fg bg : ℕ)
    → i ≡ 0
    → glyph_pixel (byte ∷ bytes) i col fg bg ≡ (if pixel_on byte col then fg else bg)
glyph_pixel-first byte bytes i col fg bg e = rw e

glyph_pixel-later :
    (byte : ℕ) (bytes : List ℕ) (i j col fg bg : ℕ)
    → i ≡ suc j
    → glyph_pixel (byte ∷ bytes) i col fg bg ≡ glyph_pixel bytes j col fg bg
glyph_pixel-later byte bytes i j col fg bg e = rw e

-- The run returned, and drew `n` rows of the glyph from row `top` of the screen on.
abbrev pub RowsDrawn : Framebuffer → ℕ → ℕ → ℕ → List ℕ → Outcome Framebuffer → ℕ → ℕ → Type 0
RowsDrawn fb x fg bg bytes run top n =
    (fb' : Framebuffer) × (run ≡ ok fb')
    × SameScreen fb fb'
    × ((p q : ℕ)
        → p < stride fb
        → pixel fb' p q ≡ (
            if in_block x top n p q
            then glyph_pixel bytes (q - top) (p - x) fg bg
            else pixel fb p q))

pub draw_rows_lem :
    (fb : Framebuffer) (x y fg bg row : ℕ) (bytes : List ℕ)
    → IsValid fb
    → x + 8 ≤ fb.width
    → y + row + 1 + length bytes ≤ fb.height
    → RowsDrawn fb x fg bg bytes (draw_rows fb x y fg bg row bytes) (y + row + 1) (length bytes)
unfolding draw_rows
draw_rows_lem fb x y fg bg row [] v hx hy = (fb, refl, SameScreen-refl fb v, λ p q hp. ground arith)
draw_rows_lem fb x y fg bg row (byte ∷ bytes) v hx hy =
    let (fb₁, e₁, s₁, w₁) =
      row_at fb x (add64 (add64 y row) 1) (y + row + 1)
        (λ col. if pixel_on byte col then fg else bg) v hx (omega arith) (omega arith) in
    let (fb₂, e₂, s₂, w₂) =
      draw_rows_lem fb₁ x y fg bg (row + 1) bytes s₁.valid (omega (arith, s₁.width_same))
        (omega (arith, s₁.height_same)) in
    (
      fb₂,
      rw (e₁, e₂),
      SameScreen-trans s₁ s₂,
      λ p q hp.
          w₂ p q (omega (arith, s₁.pitch_same))
          ∙ rw next (
              rows_step x (y + row + 1) (length bytes) p q
                (glyph_pixel bytes (q - (y + row + 1 + 1)) (p - x) fg bg)
                (if pixel_on byte (p - x) then fg else bg)
                (glyph_pixel (byte ∷ bytes) (q - (y + row + 1)) (p - x) fg bg) (pixel fb₁ p q)
                (pixel fb p q) (w₁ p q hp)
                (λ h. glyph_pixel-first byte bytes (q - (y + row + 1)) (p - x) fg bg (omega arith))
                (λ h.
                  glyph_pixel-later byte bytes (q - (y + row + 1)) (q - (y + row + 1 + 1)) (p - x)
                    fg bg (omega arith))),
    )
  where
    next : y + (row + 1) + 1 ≡ y + row + 1 + 1
    next = omega arith
