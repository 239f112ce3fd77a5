-- ===== src/Panic.antt =====
-- src/panic.rs: what the panic handler prints before it halts the CPU for ever. A `PanicInfo` is what
-- the handler reads of it; the text of a line number is made by `display`, which stands for the
-- formatting of the core library. The
-- terminal's lock is in it by the value of its flag in each round of the loop that takes it.
pub mod Report
mod Tests
use os_rust.Shared.{
  ℕ, zero, suc, ◌+◌, List, [], ◌∷◌, ◌++◌, Bool, true, false, Option, none, some, Outcome, ok, ◌>>=◌,
  if◌then◌else◌,
}
use os_rust.Sync.Spinlock.{compare_exchange}
use os_rust.Console.Terminal.{Terminal}
use os_rust.Console.Log.{log}

pub record Location : Type 0 where
  pub file : List ℕ
  pub line : ℕ

pub record PanicInfo : Type 0 where
  pub location : Option Location
  pub message : List ℕ

-- `\x1b[91m`, which selects bright red, and `\x1b[39m`, which selects the default colour
abbrev pub bright_red : List ℕ
bright_red = 27 ∷ b'[' ∷ b'9' ∷ b'1' ∷ b'm' ∷ []

abbrev pub default_color : List ℕ
default_color = 27 ∷ b'[' ∷ b'3' ∷ b'9' ∷ b'm' ∷ []

abbrev pub title : List ℕ
title = b'P' ∷ b'A' ∷ b'N' ∷ b'I' ∷ b'C' ∷ []

abbrev pub place_text : (ℕ → List ℕ) → Option Location → List ℕ
place_text display none = []
place_text display (some at) =
    (b' ' ∷ b'a' ∷ b't' ∷ b' ' ∷ []) ++ (at.file ++ (b':' ∷ display at.line))

-- The bytes of the message that either `println!` prints.
unfoldable pub report : (ℕ → List ℕ) → PanicInfo → List ℕ
report display info =
    bright_red
    ++ ((title ++ place_text display info.location)
        ++ (default_color ++ ((b':' ∷ b' ' ∷ info.message) ++ (10 ∷ []))))

-- The loop of `GLOBAL_TERMINAL.lock()`, by the rounds made so far and those that follow: whether it
-- takes the lock. `flag n` is the lock's flag in round `n`.
unfoldable pub takes_lock : (ℕ → Bool) → ℕ → ℕ → Bool
takes_lock flag round zero = false
takes_lock flag round (suc rounds) =
    let (taken, flag') = compare_exchange (flag round) in
    let rest = takes_lock flag (round + 1) rounds in if taken then true else rest

-- Where the handler stands: in the loop of the terminal's lock, or at its call of `idle`.
pub data Progress : Type 0 where
  spinning : Progress
  halts : Option Terminal → Progress

-- `panic` for so many rounds of the terminal's lock, with the terminal that it prints on.
unfoldable pub panic_handler :
    (ℕ → List ℕ) → PanicInfo → (ℕ → Bool) → ℕ → Option Terminal → Outcome Progress
panic_handler display info flag rounds guard =
    let print = (do guard' ← log (report display info) guard; ok (halts guard')) in
    if takes_lock flag 0 rounds then print else ok spinning
