-- ===== src/Console/Tests.antt =====
-- The theorems of the console at concrete screens.
use os_rust.Shared.{ℕ, ◌≡◌, refl, List, [], ◌∷◌, ok, replicate, length-replicate, arith, length}
use mathlib.Core.List.{map}
use os_rust.Console.Framebuffer.{Framebuffer, LimineFramebuffer, draw_glyph}
use os_rust.Console.Framebuffer.Rows
use os_rust.Console.Framebuffer.Glyphs.{Drawn, draw_glyph-Drawn}
use os_rust.Console.Theme.{Theme, vga_theme, gruvbox_theme, default_theme}
use os_rust.Console.Terminal.{Terminal, AnsiState, put_char, recv_bytes}
use os_rust.Console.Terminal.Cursor.{IsValid, Puts, SameMode, put_char-Puts}
use os_rust.Console.Terminal.Escapes.{colored, recv_bytes-IsValid}
use os_rust.Console.Terminal.Sequences.{sequence_then, value, recv_sequence}

-- A screen of 16 by 20 pixels.
abbrev pub limine : LimineFramebuffer
limine = record {
  pixels = λ n. replicate n 0;
  pixels_length = λ n. length-replicate n 0;
  width = 16;
  height = 20;
  pitch = 64;
}

abbrev screen : Framebuffer
screen = record { addr = replicate 320 0; width = 16; height = 20; pitch = 64 }

screen-IsValid : Rows.IsValid screen
screen-IsValid = record { wide = omega arith; holds_rows = refl; small = omega arith }

draw_glyph-Drawn_example :
    (fb : Framebuffer) × (draw_glyph screen 8 10 65 1 2 ≡ ok fb) × Drawn screen 8 10 65 1 2 fb
draw_glyph-Drawn_example =
    draw_glyph-Drawn screen 8 10 65 1 2 screen-IsValid (omega arith) (omega arith) (omega arith)

-- The cursor stands in the last cell.
abbrev pub term : Terminal
term = record {
  framebuffer = screen;
  cursor_x = 8;
  cursor_y = 10;
  fg_color = 1;
  bg_color = 2;
  ansi_state = AnsiState.ground;
}

pub term-IsValid : IsValid term
term-IsValid = record {
  screen = screen-IsValid;
  column_fits = omega arith;
  row_fits = omega arith;
  width_small = omega arith;
  height_small = omega arith;
  args_valid = tt;
}

put_char-Puts_example :
    (t : Terminal) × (put_char term 65 ≡ ok t) × Puts term 65 t × IsValid t × SameMode term t
put_char-Puts_example = put_char-Puts term 65 term-IsValid

-- An unfinished sequence, a line break and a letter
abbrev bytes : List ℕ
bytes = 65 ∷ 27 ∷ b'[' ∷ b'3' ∷ b'1' ∷ b'm' ∷ 10 ∷ 66 ∷ 27 ∷ b'[' ∷ b'x' ∷ []

recv_bytes-IsValid_example : (t : Terminal) × (recv_bytes term bytes ≡ ok t) × IsValid t
recv_bytes-IsValid_example = recv_bytes-IsValid term bytes term-IsValid

-- The sequence `ESC [ 0 ; 9 1 m`, then a letter
recv_sequence_example :
    recv_bytes term (sequence_then (0 ∷ []) ((9 ∷ 1 ∷ []) ∷ []) (65 ∷ []))
    ≡ recv_bytes (colored term (value (0 ∷ []) ∷ map value ((9 ∷ 1 ∷ []) ∷ []))) (65 ∷ [])
recv_sequence_example =
    recv_sequence term (0 ∷ []) ((9 ∷ 1 ∷ []) ∷ []) (65 ∷ []) refl (omega arith) (omega arith, tt)
      ((omega arith, (omega arith, tt)), tt)

-- Each theme has the eight colours that the parameters index.
palettes :
    (map (λ (t : Theme). length t.colors) (vga_theme ∷ gruvbox_theme ∷ default_theme ∷ [])
      ≡ 8 ∷ 8 ∷ 8 ∷ [])
    × (map (λ (t : Theme). length t.bright_colors) (vga_theme ∷ gruvbox_theme ∷ default_theme ∷ [])
        ≡ 8 ∷ 8 ∷ 8 ∷ [])
palettes = (refl, refl)
