-- ===== src/Console.antt =====
-- src/dev/console: the framebuffer, the font, and the terminal with its escape sequences.
pub mod Font
pub mod Framebuffer
pub mod Theme
pub mod Terminal
pub mod Log
pub mod Tests
