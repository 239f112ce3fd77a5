-- ===== src/Console/Terminal/Colors.antt =====
-- The parameters of an `m` sequence: which colours they select.
use os_rust.Shared.{
  ℕ, ◌-◌, ◌≡◌, refl, List, [], ◌∷◌, ◌||◌, ◌==◌, if◌then◌else◌, ok, index_lem, get_or, arith,
}
use os_rust.Console.Theme.{default_theme}
use os_rust.Console.Terminal.{Terminal, is_in, apply_param, apply_params}

-- The foreground after one parameter: 0 and 39 reset it, 30 to 37 and 90 to 97 select a colour.
abbrev pub fg_after : ℕ → ℕ → ℕ
fg_after fg p =
    if (p == 0) || (p == 39)
    then default_theme.default_fg
    else if is_in 30 37 p
    then get_or default_theme.colors (p - 30) 0
    else if is_in 90 97 p
    then get_or default_theme.bright_colors (p - 90) 0
    else fg

-- The background after one parameter: 0 and 49 reset it, 40 to 47 and 100 to 107 select a colour.
abbrev pub bg_after : ℕ → ℕ → ℕ
bg_after bg p =
    if (p == 0) || (p == 49)
    then default_theme.default_bg
    else if is_in 40 47 p
    then get_or default_theme.colors (p - 40) 0
    else if is_in 100 107 p
    then get_or default_theme.bright_colors (p - 100) 0
    else bg

abbrev pub fold_after : (ℕ → ℕ → ℕ) → ℕ → List ℕ → ℕ
fold_after f color [] = color
fold_after f color (p ∷ ps) = fold_after f (f color p) ps

pub apply_param_lem :
    (t : Terminal) (p : ℕ)
    → apply_param t p
      ≡ ok (record t { fg_color = fg_after t.fg_color p; bg_color = bg_after t.bg_color p })
unfolding apply_param
apply_param_lem t p = ground (
  arith,
  index_lem default_theme.colors (p - 30) 0,
  index_lem default_theme.colors (p - 40) 0,
  index_lem default_theme.bright_colors (p - 90) 0,
  index_lem default_theme.bright_colors (p - 100) 0,
)

-- The parameters take effect in order, on the colours alone.
pub apply_params_lem :
    (t : Terminal) (ps : List ℕ)
    → apply_params t ps
      ≡ ok (record t {
        fg_color = fold_after fg_after t.fg_color ps;
        bg_color = fold_after bg_after t.bg_color ps;
      })
unfolding apply_params
apply_params_lem t [] = refl
apply_params_lem t (p ∷ ps) = rw (apply_param_lem t p) (
    apply_params_lem
      (record t { fg_color = fg_after t.fg_color p; bg_color = bg_after t.bg_color p }) ps)
