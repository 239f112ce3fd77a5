-- ===== src/Console/Terminal/Cursor.antt =====
-- The cursor stays on the screen, so that no byte makes the terminal panic.
use native.Mathlib.Decide.{dec_lt}
use os_rust.Shared.{
  ℕ, ◌+◌, ◌*◌, ◌/◌, ◌^◌, ◌≤◌, ◌<◌, ◌≡◌, ◌≢◌, refl, ◌∙◌, Bool, true, ◌==◌, if◌then◌else◌, Bool-cases,
  inl, inr, ok, ltb, leb, length, replicate, length-replicate, add64, mul64, arith,
}
use os_rust.Console.Framebuffer
use os_rust.Console.Framebuffer.{Framebuffer, LimineFramebuffer, draw_glyph}
use os_rust.Console.Framebuffer.Rows
use os_rust.Console.Framebuffer.Rows.{stride, SameScreen, SameScreen-refl}
use os_rust.Console.Framebuffer.Glyphs.{Drawn, draw_glyph-Drawn}
use os_rust.Console.Terminal.{
  Terminal, AnsiState, escape, arg, new, clear, scroll, wrap_line, put_char,
}

-- Arguments that index their array: from one to eight of them, in eight places.
abbrev pub ArgsValid : AnsiState → Type 0
ArgsValid AnsiState.ground = Unit
ArgsValid escape = Unit
ArgsValid (arg a) = (1 ≤ a.count) × (a.count ≤ 8) × (length a.args ≡ 8)

-- A character fits at the cursor.
pub record IsValid (t : Terminal) : Type 0 where
  pub screen : Rows.IsValid t.framebuffer
  pub column_fits : t.cursor_x + 8 ≤ t.framebuffer.width
  pub row_fits : t.cursor_y + 10 ≤ t.framebuffer.height
  pub width_small : t.framebuffer.width < 2 ^ 63
  pub height_small : t.framebuffer.height < 2 ^ 63
  pub args_valid : ArgsValid t.ansi_state

-- `t'` is `t` with another screen and another place for the cursor.
pub record SameMode (t t' : Terminal) : Type 0 where
  pub fg_same : t'.fg_color ≡ t.fg_color
  pub bg_same : t'.bg_color ≡ t.bg_color
  pub state_same : t'.ansi_state ≡ t.ansi_state

cleared-IsValid :
    (fb : Framebuffer) (color : ℕ)
    → Rows.IsValid fb
    → Rows.IsValid (record fb { addr = replicate (length fb.addr) color })
cleared-IsValid fb color v = record {
  wide = v.wide;
  holds_rows = length-replicate (length fb.addr) color ∙ v.holds_rows;
  small = v.small;
}

-- `clear` of a valid terminal is valid.
pub clear-IsValid : (t : Terminal) → IsValid t → IsValid (clear t)
unfolding clear
clear-IsValid t v = record {
  screen = cleared-IsValid t.framebuffer t.bg_color v.screen;
  column_fits = omega (arith, v.column_fits);
  row_fits = omega (arith, v.row_fits);
  width_small = v.width_small;
  height_small = v.height_small;
  args_valid = v.args_valid;
}

wrap_line-IsValid : (t : Terminal) → IsValid t → IsValid (wrap_line t) × SameMode t (wrap_line t)
unfolding clear scroll
wrap_line-IsValid t v = elim (Bool-cases over) [
  | inl e ↦ rw e (clear-IsValid t v, record { fg_same = refl; bg_same = refl; state_same = refl })
  | inr e ↦ rw e (
    record {
      screen = v.screen;
      column_fits = omega (arith, v.column_fits);
      row_fits = ground (arith, v.row_fits, v.height_small);
      width_small = v.width_small;
      height_small = v.height_small;
      args_valid = v.args_valid;
    },
    record { fg_same = refl; bg_same = refl; state_same = refl },
  )
]
  where
    over : Bool
    over = ltb t.framebuffer.height (add64 (add64 t.cursor_y 10) 10)

-- `t` with another framebuffer and the cursor one character on, at the end of `put_char`.
abbrev pub advance : Terminal → Framebuffer → Terminal
advance t fb =
    let t' : Terminal = record t { framebuffer = fb; cursor_x = add64 t.cursor_x 8 } in
    if ltb t'.framebuffer.width (add64 t'.cursor_x 8) then wrap_line t' else t'

advance-IsValid :
    (t : Terminal) (fb : Framebuffer)
    → IsValid t
    → SameScreen t.framebuffer fb
    → IsValid (advance t fb) × SameMode t (advance t fb)
advance-IsValid t fb v s = elim (Bool-cases (ltb fb.width (add64 (add64 t.cursor_x 8) 8))) [
  | inl e ↦ rw e (wrapped (wrap_line-IsValid back back-IsValid))
  | inr e ↦ rw e (
    record {
      screen = s.valid;
      column_fits = ground (arith, v.column_fits, v.width_small, s.width_same);
      row_fits = omega (arith, v.row_fits, s.height_same);
      width_small = omega (arith, v.width_small, s.width_same);
      height_small = omega (arith, v.height_small, s.height_same);
      args_valid = v.args_valid;
    },
    record { fg_same = refl; bg_same = refl; state_same = refl },
  )
]
  where
    -- `wrap_line` sets the column anew, so it may as well start from the old one.
    back : Terminal
    back = record t { framebuffer = fb }

    back-IsValid : IsValid back
    back-IsValid = record {
      screen = s.valid;
      column_fits = omega (arith, v.column_fits, s.width_same);
      row_fits = omega (arith, v.row_fits, s.height_same);
      width_small = omega (arith, v.width_small, s.width_same);
      height_small = omega (arith, v.height_small, s.height_same);
      args_valid = v.args_valid;
    }

    wrapped :
        IsValid (wrap_line back) × SameMode back (wrap_line back)
        → IsValid (wrap_line (record t { framebuffer = fb; cursor_x = add64 t.cursor_x 8 }))
          × SameMode t (wrap_line (record t { framebuffer = fb; cursor_x = add64 t.cursor_x 8 }))
    wrapped h =
        (h.0, record { fg_same = h.1.fg_same; bg_same = h.1.bg_same; state_same = h.1.state_same })

-- The cursor goes from row `y` to the start of the line ten rows down; where no character would fit
-- there, every pixel takes the background colour `bg` and the cursor goes to the top left corner.
pub data NewLine (y bg : ℕ) (fb : Framebuffer) (t' : Terminal) : Type 0 where
  down :
      y + 20 ≤ fb.height
      → t'.framebuffer ≡ fb
      → t'.cursor_x ≡ 0
      → t'.cursor_y ≡ y + 10
      → NewLine y bg fb t'
  cleared :
      fb.height < y + 20
      → t'.framebuffer ≡ record {
        addr = replicate (length fb.addr) bg;
        width = fb.width;
        height = fb.height;
        pitch = fb.pitch;
      }
      → t'.cursor_x ≡ 0
      → t'.cursor_y ≡ 0
      → NewLine y bg fb t'

-- The cursor goes eight columns on, or to a new line where no character would fit there.
pub data Advanced (t : Terminal) (fb : Framebuffer) (t' : Terminal) : Type 0 where
  right :
      t.cursor_x + 16 ≤ fb.width
      → t'.framebuffer ≡ fb
      → t'.cursor_x ≡ t.cursor_x + 8
      → t'.cursor_y ≡ t.cursor_y
      → Advanced t fb t'
  wraps : fb.width < t.cursor_x + 16 → NewLine t.cursor_y t.bg_color fb t' → Advanced t fb t'

-- What a byte does: a line break, a character drawn at the cursor, or, from 128 on, only a step of
-- the cursor.
pub data Puts (t : Terminal) (c : ℕ) (t' : Terminal) : Type 0 where
  breaks : c ≡ 10 → NewLine t.cursor_y t.bg_color t.framebuffer t' → Puts t c t'
  draws :
      {fb : Framebuffer}
      → c ≢ 10
      → c < 128
      → Drawn t.framebuffer t.cursor_x t.cursor_y c t.fg_color t.bg_color fb
      → Advanced t fb t'
      → Puts t c t'
  skips : 128 ≤ c → Advanced t t.framebuffer t' → Puts t c t'

wrap_line-NewLine :
    (t : Terminal)
    → t.cursor_y + 10 ≤ t.framebuffer.height
    → t.framebuffer.height < 2 ^ 63
    → NewLine t.cursor_y t.bg_color t.framebuffer (wrap_line t)
unfolding clear scroll
wrap_line-NewLine t fits small =
    elim (Bool-cases (ltb t.framebuffer.height (add64 (add64 t.cursor_y 10) 10))) [
      | inl e ↦
          let low : t.framebuffer.height < t.cursor_y + 20 = ground (arith, fits, small) in
          rw e (cleared low refl refl refl)
      | inr e ↦
          let high : t.cursor_y + 20 ≤ t.framebuffer.height = ground (arith, fits, small) in
          rw e (down high refl refl (omega arith))
    ]

advance-Advanced :
    (t : Terminal) (fb : Framebuffer)
    → IsValid t
    → SameScreen t.framebuffer fb
    → Advanced t fb (advance t fb)
advance-Advanced t fb v s = elim (Bool-cases (ltb fb.width (add64 (add64 t.cursor_x 8) 8))) [
  | inl e ↦
      let wide : fb.width < t.cursor_x + 16 =
        ground (arith, v.column_fits, v.width_small, s.width_same) in
      let line : NewLine t.cursor_y t.bg_color fb
          (wrap_line (record t { framebuffer = fb; cursor_x = add64 t.cursor_x 8 })) =
        wrap_line-NewLine (record t { framebuffer = fb; cursor_x = add64 t.cursor_x 8 })
          (omega (arith, v.row_fits, s.height_same))
          (omega (arith, v.height_small, s.height_same)) in
      rw e (wraps wide line)
  | inr e ↦
      let room : t.cursor_x + 16 ≤ fb.width =
        ground (arith, v.column_fits, v.width_small, s.width_same) in
      rw e (right room refl (omega (arith, v.column_fits, v.width_small)) refl)
]

draw_glyph-skips :
    (fb : Framebuffer) (x y c fg bg : ℕ) → 128 ≤ c → draw_glyph fb x y c fg bg ≡ ok fb
unfolding draw_glyph
draw_glyph-skips fb x y c fg bg h = let e : leb 128 c ≡ true = ground arith in rw e

-- On a valid terminal `put_char` returns, keeps the terminal valid, and leaves the colours and the
-- escape state alone. Byte 10 starts a new line; another byte below 128 draws its glyph in the cell at
-- the cursor, and it and all from 128 on move the cursor eight columns on, or to a new line where no
-- character would fit. A new line is ten rows down, or, where it would not fit, the whole screen takes
-- the background colour and the cursor goes to the top left corner.
pub put_char-Puts :
    (t : Terminal) (c : ℕ)
    → IsValid t
    → (t' : Terminal) × (put_char t c ≡ ok t') × Puts t c t' × IsValid t' × SameMode t t'
unfolding put_char
put_char-Puts t c v = elim (Bool-cases (c == 10)) [
  | inl e ↦
      let (w, m) = wrap_line-IsValid t v in
      (
        wrap_line t,
        rw e,
        breaks (ground arith) (wrap_line-NewLine t v.row_fits v.height_small),
        w,
        m,
      )
  | inr e ↦ elim (dec_lt c 128) [
    | yes h ↦
        let (fb, run, d) =
          draw_glyph-Drawn t.framebuffer t.cursor_x t.cursor_y c t.fg_color t.bg_color v.screen
            v.column_fits v.row_fits h in
        let (w, m) = advance-IsValid t fb v d.screen in
        (
          advance t fb,
          rw (e, run),
          draws (ground arith) h d (advance-Advanced t fb v d.screen),
          w,
          m,
        )
    | no h ↦
        let (w, m) = advance-IsValid t t.framebuffer v (SameScreen-refl t.framebuffer v.screen) in
        (
          advance t t.framebuffer,
          rw (
            e,
            draw_glyph-skips t.framebuffer t.cursor_x t.cursor_y c t.fg_color t.bg_color
                (omega arith),
          ),
          skips (omega arith)
              (advance-Advanced t t.framebuffer v (SameScreen-refl t.framebuffer v.screen)),
          w,
          m,
        )
  ]
]

le_mul : (a b : ℕ) → 0 < b → a ≤ a * b
le_mul a b h = grind arith

le_mul_left : (a b : ℕ) → 0 < a → b ≤ a * b
le_mul_left a b h = grind arith

-- A new terminal, cleared, is valid, if the screen has room for a character, its rows hold its
-- width, and its pixels are fewer than 2^63.
pub clear-new-IsValid :
    (fb : LimineFramebuffer)
    → 8 ≤ fb.width
    → 10 ≤ fb.height
    → fb.width ≤ fb.pitch / 4
    → fb.pitch / 4 * fb.height < 2 ^ 63
    → IsValid (clear (new fb))
unfolding new Framebuffer.from
clear-new-IsValid fb w h p s =
    let ws : fb.width < 2 ^ 63 = omega (arith, le_mul (fb.pitch / 4) fb.height (omega arith)) in
    let hs : fb.height < 2 ^ 63 =
      omega (arith, le_mul_left (fb.pitch / 4) fb.height (omega arith)) in
    clear-IsValid (new fb) (record {
      screen = record {
        wide = p;
        holds_rows = fb.pixels_length (mul64 (fb.pitch / 4) fb.height) ∙ omega (arith, s);
        small = s;
      };
      column_fits = omega arith;
      row_fits = omega arith;
      width_small = ws;
      height_small = hs;
      args_valid = tt;
    })
