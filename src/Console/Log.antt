-- ===== src/Console/Log.antt =====
-- src/dev/console/mod.rs: the terminal behind `print!`. The bytes of a formatted message are an
-- argument.
pub mod Prints
mod Tests
use os_rust.Shared.{ℕ, List, [], ◌∷◌, Bool, true, false, Option, none, some, Outcome, ok, ◌>>=◌}
use os_rust.Console.Framebuffer.{LimineFramebuffer}
use os_rust.Console.Terminal.{Terminal, new, clear, recv_bytes}

-- With the first framebuffer that the boot loader gives, if any: whether it succeeded, and the
-- terminal after it.
unfoldable pub init : Option LimineFramebuffer → Option Terminal → Bool × Option Terminal
init none guard = (false, guard)
init (some fb) guard = let term = new fb in (true, some (clear term))

unfoldable pub log : List ℕ → Option Terminal → Outcome (Option Terminal)
log bytes none = ok none
log bytes (some terminal) = do terminal' ← recv_bytes terminal bytes; ok (some terminal')

-- Messages one after another.
unfoldable pub logs : List (List ℕ) → Option Terminal → Outcome (Option Terminal)
logs [] guard = ok guard
logs (bytes ∷ messages) guard = do guard' ← log bytes guard; logs messages guard'
