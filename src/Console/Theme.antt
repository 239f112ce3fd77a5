-- ===== src/Console/Theme.antt =====
-- src/dev/console/terminal.rs: the colours of the terminal. The kernel uses the default theme alone.
use os_rust.Shared.{ℕ, List, [], ◌∷◌}

pub record Theme : Type 0 where
  pub default_fg : ℕ
  pub default_bg : ℕ
  pub colors : List ℕ
  pub bright_colors : List ℕ

abbrev pub vga_theme : Theme
vga_theme = record {
  default_fg = 0xC0C0C0;
  default_bg = 0x000000;
  colors =
      0x000000 ∷ 0xAA0000 ∷ 0x00AA00 ∷ 0xAA5500 ∷ 0x0000AA ∷ 0xAA00AA ∷ 0x00AAAA ∷ 0xAAAAAA ∷ [];
  bright_colors =
      0x555555 ∷ 0xFF5555 ∷ 0x55FF55 ∷ 0xFFFF55 ∷ 0x5555FF ∷ 0xFF55FF ∷ 0x55FFFF ∷ 0xFFFFFF ∷ [];
}

abbrev pub gruvbox_theme : Theme
gruvbox_theme = record {
  default_fg = 0xEBDBB2;
  default_bg = 0x282828;
  colors =
      0x282828 ∷ 0xCC241D ∷ 0x98971A ∷ 0xD79921 ∷ 0x458588 ∷ 0xB16286 ∷ 0x689D6A ∷ 0xEBDBB2 ∷ [];
  bright_colors =
      0x665C54 ∷ 0xFB4934 ∷ 0xB8BB26 ∷ 0xFABD2F ∷ 0x83A598 ∷ 0xD3869B ∷ 0x8EC07C ∷ 0xEBDBB2 ∷ [];
}

abbrev pub tokyo_night_theme : Theme
tokyo_night_theme = record {
  default_fg = 0xC0C0C0;
  default_bg = 0x1A1B26;
  colors =
      0x1A1B26 ∷ 0xF7768E ∷ 0x9ECE6A ∷ 0xE0AF68 ∷ 0x7AA2F7 ∷ 0xBB9AF7 ∷ 0x7DCFFF ∷ 0xC0C0C0 ∷ [];
  bright_colors =
      0x414868 ∷ 0xFF7A93 ∷ 0xB9F27C ∷ 0xE6C384 ∷ 0x7AA2F7 ∷ 0xBB9AF7 ∷ 0x7DCFFF ∷ 0xFFFFFF ∷ [];
}

abbrev pub default_theme : Theme
default_theme = tokyo_night_theme
