-- ===== src/Console/Terminal.antt =====
-- src/dev/console/terminal.rs, `Terminal`: bytes come in, and move the cursor, draw characters or
-- change the colours.
pub mod Colors
pub mod Cursor
pub mod Escapes
pub mod Sequences
pub mod Plain
use os_rust.Shared.{
  ℕ, zero, suc, ◌+◌, ◌-◌, ◌*◌, List, [], ◌∷◌, Bool, true, false, ◌&&◌, ◌==◌, if◌then◌else◌, Outcome,
  ok, ◌>>=◌, ltb, leb, length, index, set, slice, replicate, add64, mul64, sub64,
}
use os_rust.Console.Framebuffer
use os_rust.Console.Framebuffer.{Framebuffer, LimineFramebuffer, draw_glyph}
use os_rust.Console.Theme.{Theme, default_theme}

pub record AnsiArgs : Type 0 where
  pub count : ℕ
  pub args : List ℕ

-- `AnsiArgs::default`
abbrev pub default_args : AnsiArgs
default_args = record { count = 1; args = replicate 8 0 }

pub data AnsiState : Type 0 where
  ground : AnsiState
  escape : AnsiState
  arg : AnsiArgs → AnsiState

pub record Terminal : Type 0 where
  pub framebuffer : Framebuffer
  pub cursor_x : ℕ
  pub cursor_y : ℕ
  pub fg_color : ℕ
  pub bg_color : ℕ
  pub ansi_state : AnsiState

unfoldable pub new : LimineFramebuffer → Terminal
new fb = record {
  framebuffer = Framebuffer.from fb;
  cursor_x = 0;
  cursor_y = 0;
  fg_color = default_theme.default_fg;
  bg_color = default_theme.default_bg;
  ansi_state = ground;
}

-- `self.framebuffer.addr.fill(self.bg_color)`, and the cursor home
unfoldable pub clear : Terminal → Terminal
clear t = record t {
  framebuffer = record (t.framebuffer) { addr = replicate (length t.framebuffer.addr) t.bg_color };
  cursor_x = 0;
  cursor_y = 0;
}

unfoldable pub scroll : Terminal → ℕ → Terminal
scroll t n = record (clear t) { cursor_y = 0 }

-- The end of both branches of `put_char`: the next line, or a cleared screen.
abbrev pub wrap_line : Terminal → Terminal
wrap_line t =
    let t' : Terminal = record t { cursor_x = 0; cursor_y = add64 t.cursor_y 10 } in
    if ltb t'.framebuffer.height (add64 t'.cursor_y 10) then scroll t' 1 else t'

unfoldable pub put_char : Terminal → ℕ → Outcome Terminal
put_char t c = if c == 10 then ok (wrap_line t) else do
  fb ← draw_glyph t.framebuffer t.cursor_x t.cursor_y c t.fg_color t.bg_color
  let t' : Terminal = record t { framebuffer = fb; cursor_x = add64 t.cursor_x 8 }
  ok (if ltb t'.framebuffer.width (add64 t'.cursor_x 8) then wrap_line t' else t')

-- `low..=high` contains the parameter.
abbrev pub is_in : ℕ → ℕ → ℕ → Bool
is_in low high param = leb low param && leb param high

-- One parameter of an `m` sequence.
unfoldable pub apply_param : Terminal → ℕ → Outcome Terminal
apply_param t param =
    if param == 0
    then ok (record t { fg_color = default_theme.default_fg; bg_color = default_theme.default_bg })
    else if is_in 30 37 param
    then (do color ← index default_theme.colors (param - 30); ok (record t { fg_color = color }))
    else if param == 39
    then ok (record t { fg_color = default_theme.default_fg })
    else if is_in 40 47 param
    then (do color ← index default_theme.colors (param - 40); ok (record t { bg_color = color }))
    else if param == 49
    then ok (record t { bg_color = default_theme.default_bg })
    else if is_in 90 97 param
    then (do
      color ← index default_theme.bright_colors (param - 90)
      ok (record t { fg_color = color }))
    else if is_in 100 107 param
    then (do
      color ← index default_theme.bright_colors (param - 100)
      ok (record t { bg_color = color }))
    else ok t

unfoldable pub apply_params : Terminal → List ℕ → Outcome Terminal
apply_params t [] = ok t
apply_params t (param ∷ params) = do t' ← apply_param t param; apply_params t' params

-- `args.count - 1` and `args.count += 1` are on a count from 1 to 8.
unfoldable pub recv_arg : Terminal → AnsiArgs → ℕ → Outcome Terminal
recv_arg t a c =
    if leb b'0' c && leb c b'9'
    then (do
      last ← index a.args (sub64 a.count 1)
      let new_val = add64 (mul64 last 10) (c - b'0')
      ok (record t { ansi_state = arg (record a { args = set a.args (sub64 a.count 1) new_val }) }))
    else if c == b';'
    then (if ltb a.count (length a.args)
        then ok (record t { ansi_state = arg (record a { count = a.count + 1 }) })
        else ok t)
    else if c == b'm'
    then (do
      params ← slice a.args 0 a.count
      t' ← apply_params t params
      ok (record t' { ansi_state = ground }))
    else ok t

abbrev pub recv_in : AnsiState → Terminal → ℕ → Outcome Terminal
recv_in ground t c = if c == 27 then ok (record t { ansi_state = escape }) else put_char t c
recv_in escape t c =
    if c == b'['
    then ok (record t { ansi_state = arg default_args })
    else ok (record t { ansi_state = ground })
recv_in (arg a) t c = recv_arg t a c

unfoldable pub recv_byte : Terminal → ℕ → Outcome Terminal
recv_byte t c = recv_in t.ansi_state t c

unfoldable pub recv_bytes : Terminal → List ℕ → Outcome Terminal
recv_bytes t [] = ok t
recv_bytes t (b ∷ buf) = do t' ← recv_byte t b; recv_bytes t' buf
