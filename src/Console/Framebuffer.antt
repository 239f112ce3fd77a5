-- ===== src/Console/Framebuffer.antt =====
-- src/dev/console/terminal.rs, `Framebuffer`: pixels in rows of `pitch` bytes, four to a pixel.
-- Indexing the pixels or the font out of bounds panics.
pub mod Rows
pub mod Blocks
pub mod Glyphs
use Prim.Native.Nat.{bit_and}
use os_rust.Shared.{
  ℕ, zero, suc, ◌+◌, ◌*◌, ◌/◌, ◌^◌, List, [], ◌∷◌, Bool, not, ◌==◌, if◌then◌else◌, Outcome, ok,
  panic, ◌>>=◌, ltb, leb, length, set, take, drop, ◌-◌, add64, mul64, slice, ◌≡◌,
}
use os_rust.Console.Font.{font_bitmap}

pub record Framebuffer : Type 0 where
  pub addr : List ℕ
  pub width : ℕ
  pub height : ℕ
  pub pitch : ℕ

-- What Limine says of its framebuffer. `pixels n` are the first `n` pixels at its address.
pub record LimineFramebuffer : Type 0 where
  pub pixels : ℕ → List ℕ
  pub pixels_length : (n : ℕ) → length (pixels n) ≡ n
  pub width : ℕ
  pub height : ℕ
  pub pitch : ℕ

unfoldable pub from : LimineFramebuffer → Framebuffer
from fb = record {
  addr = fb.pixels (mul64 (fb.pitch / 4) fb.height);
  width = fb.width;
  height = fb.height;
  pitch = fb.pitch;
}

unfoldable pub put_pixel : Framebuffer → ℕ → ℕ → ℕ → Outcome Framebuffer
put_pixel fb x y color =
    let index = add64 (mul64 y (fb.pitch / 4)) x in
    if ltb index (length fb.addr) then ok (record fb { addr = set fb.addr index color }) else panic

-- `for col in col..col + k { self.put_pixel(x + col, y, color(col)) }`, by the rounds left
pub draw_row : Framebuffer → ℕ → ℕ → (ℕ → ℕ) → ℕ → ℕ → Outcome Framebuffer
draw_row fb x y color col zero = ok fb
draw_row fb x y color col (suc k) = do
  fb' ← put_pixel fb (add64 x col) y (color col)
  draw_row fb' x y color (col + 1) k

-- `(byte >> col) & 1 != 0`
abbrev pub pixel_on : ℕ → ℕ → Bool
pixel_on byte col = not (bit_and (byte / 2 ^ col) 1 == 0)

-- The rows of a glyph from number `row` on.
pub draw_rows : Framebuffer → ℕ → ℕ → ℕ → ℕ → ℕ → List ℕ → Outcome Framebuffer
draw_rows fb x y fg bg row [] = ok fb
draw_rows fb x y fg bg row (byte ∷ bytes) = do
  fb' ← draw_row fb x (add64 (add64 y row) 1) (λ col. if pixel_on byte col then fg else bg) 0 8
  draw_rows fb' x y fg bg (row + 1) bytes

unfoldable pub draw_glyph : Framebuffer → ℕ → ℕ → ℕ → ℕ → ℕ → Outcome Framebuffer
draw_glyph fb x y glyph fg bg = if leb 128 glyph then ok fb else do
  above ← draw_row fb x y (λ col. bg) 0 8
  glyph_bitmap ← slice font_bitmap (glyph * 8) ((glyph + 1) * 8)
  body ← draw_rows above x y fg bg 0 glyph_bitmap
  draw_row body x (add64 y 9) (λ col. bg) 0 8
