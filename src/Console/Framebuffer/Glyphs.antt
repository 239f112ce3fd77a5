-- ===== src/Console/Framebuffer/Glyphs.antt =====
-- What `draw_glyph` puts on the screen.
use os_rust.Console.Framebuffer.Blocks.{
  in_block, height_small, row_at, glyph_pixel, RowsDrawn, draw_rows_lem,
}
use mathlib.Core.Path.{subst₂}
use os_rust.Shared.{
  ℕ, suc, ◌+◌, ◌-◌, ◌*◌, ◌≤◌, ◌<◌, ◌≡◌, refl, ◌∙◌, List, true, false, ◌&&◌, ◌||◌, ◌==◌,
  if◌then◌else◌, inl, inr, ok, leb, length, get_or, take, drop, slice, sym, ◌⊎◌, length-take_of_le,
  length-drop, get_or-take, get_or-drop, arith, add64,
}
use os_rust.Console.Font.{font_bitmap, length-font_bitmap}
use os_rust.Console.Framebuffer.{Framebuffer, draw_rows, draw_glyph, pixel_on}
use os_rust.Console.Framebuffer.Rows.{IsValid, SameScreen, SameScreen-trans, stride, pixel}

-- The colour of a pixel of a character: blank above and below, and eight rows from the font.
abbrev pub cell_pixel : ℕ → ℕ → ℕ → ℕ → ℕ → ℕ
cell_pixel glyph row col fg bg =
    if (row == 0) || (row == 9)
    then bg
    else if pixel_on (get_or font_bitmap (glyph * 8 + (row - 1)) 0) col
    then fg
    else bg

glyph_rows :
    (glyph : ℕ)
    → glyph < 128
    → (bytes : List ℕ) × (slice font_bitmap (glyph * 8) ((glyph + 1) * 8) ≡ ok bytes)
      × (length bytes ≡ 8)
      × ((i : ℕ) → i < 8 → get_or bytes i 0 ≡ get_or font_bitmap (glyph * 8 + i) 0)
glyph_rows glyph h =
    let l : ℕ = length font_bitmap in
    let fits : (glyph + 1) * 8 ≤ l = omega (arith, length-font_bitmap) in
    let test : (leb (glyph * 8) ((glyph + 1) * 8) && leb ((glyph + 1) * 8) l) ≡ true =
      ground arith in
    let n : (glyph + 1) * 8 - glyph * 8 ≡ 8 = omega arith in
    (
      take 8 (drop (glyph * 8) font_bitmap),
      rw (test, n),
      length-take_of_le 8 _ (omega (arith, length-drop {0} (glyph * 8) font_bitmap)),
      λ i hi.
          get_or-take 8 (drop (glyph * 8) font_bitmap) i 0 hi
          ∙ get_or-drop (glyph * 8) font_bitmap i 0,
    )

draw_body :
    (fb : Framebuffer) (x y fg bg : ℕ) (bytes : List ℕ)
    → IsValid fb
    → x + 8 ≤ fb.width
    → y + 9 ≤ fb.height
    → length bytes ≡ 8
    → RowsDrawn fb x fg bg bytes (draw_rows fb x y fg bg 0 bytes) (y + 1) 8
draw_body fb x y fg bg bytes v hx hy n =
    subst₂ (RowsDrawn fb x fg bg bytes (draw_rows fb x y fg bg 0 bytes)) top n
      (draw_rows_lem fb x y fg bg 0 bytes v hx (omega arith))
  where
    top : y + 0 + 1 ≡ y + 1
    top = omega arith

cell_blank : (glyph row col fg bg : ℕ) → (row ≡ 0) ⊎ (row ≡ 9) → cell_pixel glyph row col fg bg ≡ bg
cell_blank glyph row col fg bg (inl e) = rw e
cell_blank glyph row col fg bg (inr e) = rw e

cell_body :
    (glyph row i col fg bg : ℕ) (bytes : List ℕ)
    → row ≡ suc i
    → i < 8
    → get_or bytes i 0 ≡ get_or font_bitmap (glyph * 8 + i) 0
    → cell_pixel glyph row col fg bg ≡ glyph_pixel bytes i col fg bg
cell_body glyph row i col fg bg bytes e h same =
    let p : (row == 0) ≡ false = ground arith in
    let q : (row == 9) ≡ false = ground arith in
    let r : row - 1 ≡ i = omega arith in rw (p, q, r, same)

cell_join :
    (x y p q a b c new₃ new₂ new₁ old : ℕ)
    → new₁ ≡ (if in_block x y 1 p q then b else old)
    → new₂ ≡ (if in_block x (y + 1) 8 p q then a else new₁)
    → new₃ ≡ (if in_block x (y + 9) 1 p q then b else new₂)
    → ((q ≡ y) ⊎ (q ≡ y + 9) → c ≡ b)
    → (y + 1 ≤ q → q ≤ y + 8 → c ≡ a)
    → new₃ ≡ (if in_block x y 10 p q then c else old)
cell_join x y p q a b c new₃ new₂ new₁ old e₁ e₂ e₃ blank body = ground (arith, blank, body)

-- The screen after a character is drawn with its upper left corner at (x, y).
pub record Drawn (fb : Framebuffer) (x y glyph fg bg : ℕ) (fb' : Framebuffer) : Type 0 where
  pub screen : SameScreen fb fb'
  pub pixels :
      (p q : ℕ)
      → p < stride fb
      → pixel fb' p q
        ≡ (if in_block x y 10 p q then cell_pixel glyph (q - y) (p - x) fg bg else pixel fb p q)

-- Where the cell lies on the screen, `draw_glyph` of a character below 128 returns, gives the 8 by 10
-- pixels of the cell the colours of the font, and changes no other pixel.
pub draw_glyph-Drawn :
    (fb : Framebuffer) (x y glyph fg bg : ℕ)
    → IsValid fb
    → x + 8 ≤ fb.width
    → y + 10 ≤ fb.height
    → glyph < 128
    → (fb' : Framebuffer) × (draw_glyph fb x y glyph fg bg ≡ ok fb') × Drawn fb x y glyph fg bg fb'
unfolding draw_glyph
draw_glyph-Drawn fb x y glyph fg bg v hx hy hg =
    let known : leb 128 glyph ≡ false = ground arith in
    let (bytes, cut, n, bits) = glyph_rows glyph hg in
    let (fb₁, e₁, s₁, w₁) =
      row_at fb x y y (λ col. bg) v hx (omega arith)
        (sym (height_small fb x y v (omega arith) (omega arith))) in
    let (fb₂, e₂, s₂, w₂) =
      draw_body fb₁ x y fg bg bytes s₁.valid (omega (arith, s₁.width_same))
        (omega (arith, s₁.height_same)) n in
    let s : SameScreen fb fb₂ = SameScreen-trans s₁ s₂ in
    let (fb₃, e₃, s₃, w₃) =
      row_at fb₂ x (add64 y 9) (y + 9) (λ col. bg) s₂.valid (omega (arith, s.width_same))
        (omega (arith, s.height_same)) refl in
    (
      fb₃,
      rw (known, e₁, cut, e₂, e₃),
      record {
        screen = SameScreen-trans s s₃;
        pixels = λ p q hp.
            cell_join x y p q (glyph_pixel bytes (q - (y + 1)) (p - x) fg bg) bg
              (cell_pixel glyph (q - y) (p - x) fg bg) (pixel fb₃ p q) (pixel fb₂ p q)
              (pixel fb₁ p q) (pixel fb p q) (w₁ p q hp) (w₂ p q (omega (arith, s₁.pitch_same)))
              (w₃ p q (omega (arith, s.pitch_same)))
              (λ h. cell_blank glyph (q - y) (p - x) fg bg (ground arith))
              (λ h k.
                cell_body glyph (q - y) (q - (y + 1)) (p - x) fg bg bytes (omega arith)
                  (omega arith) (bits (q - (y + 1)) (omega arith)));
      },
    )
