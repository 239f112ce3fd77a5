-- ===== src/Panic/Report.antt =====
-- What the panic handler puts on the screen, and where the terminal's lock keeps it from that.
use os_rust.Shared.{
  ℕ, zero, suc, ◌+◌, ◌<◌, ◌≡◌, ◌⊎◌, inl, inr, refl, sym, ap, ◌∙◌, List, [], ◌∷◌, ◌++◌, Bool, true,
  false, Bool-cases, Option, none, some, ok, arith,
}
use mathlib.Core.List.{append-nil}
use os_rust.Console.Theme.{default_theme}
use os_rust.Console.Terminal.{Terminal, AnsiState, recv_bytes}
use os_rust.Console.Terminal.Cursor.{IsValid}
use os_rust.Console.Terminal.Escapes.{colored, colored-IsValid}
use os_rust.Console.Terminal.Sequences.{recv_sequence}
use os_rust.Console.Terminal.Plain.{IsPlain, IsPlain-append, put_chars, plain-After}
use os_rust.Console.Log.{log}
use os_rust.Panic.{
  Location, PanicInfo, bright_red, default_color, title, place_text, report, takes_lock, spinning,
  halts, panic_handler,
}

-- No escape stands in the texts of the report.
pub record AllPlain (display : ℕ → List ℕ) (info : PanicInfo) : Type 0 where
  pub place : IsPlain (place_text display info.location)
  pub message : IsPlain info.message

title_plain : IsPlain title
title_plain = (refl, (refl, (refl, (refl, (refl, tt)))))

bright_red_lem :
    (t : Terminal) (rest : List ℕ)
    → t.ansi_state ≡ AnsiState.ground
    → recv_bytes t (bright_red ++ rest) ≡ recv_bytes (colored t (91 ∷ [])) rest
bright_red_lem t rest g =
    recv_sequence t (9 ∷ 1 ∷ []) [] rest g (omega arith) (omega arith, (omega arith, tt)) tt

default_color_lem :
    (t : Terminal) (rest : List ℕ)
    → t.ansi_state ≡ AnsiState.ground
    → recv_bytes t (default_color ++ rest) ≡ recv_bytes (colored t (39 ∷ [])) rest
default_color_lem t rest g =
    recv_sequence t (3 ∷ 9 ∷ []) [] rest g (omega arith) (omega arith, (omega arith, tt)) tt

zero_plus : (k : ℕ) → 0 + k ≡ k
zero_plus k = omega arith

-- The loop takes the lock in the first round that finds it free, or it finds it taken in every round.
takes_lock_lem :
    (flag : ℕ → Bool) (round rounds : ℕ)
    → ((k : ℕ) × (k < rounds) × (flag (round + k) ≡ false) × (takes_lock flag round rounds ≡ true))
      ⊎ (((k : ℕ) → k < rounds → flag (round + k) ≡ true) × (takes_lock flag round rounds ≡ false))
unfolding takes_lock
takes_lock_lem flag round zero = inr (λ k h. absurd (omega arith), refl)
takes_lock_lem flag round (suc rounds) = elim (Bool-cases (flag round)) [
  | inr e ↦ inl (0, omega arith, (let z : round + 0 ≡ round = omega arith in rw z e), rw e refl)
  | inl e ↦ elim (takes_lock_lem flag (round + 1) rounds) [
    | inl (k, h, free, run) ↦
        let z : round + suc k ≡ round + 1 + k = omega arith in
        inl (suc k, omega arith, rw z free, rw (e, run) refl)
    | inr (taken, run) ↦ inr (still_taken e taken, rw (e, run) refl)
  ]
]
  where
    still_taken :
        flag round ≡ true
        → ((k : ℕ) → k < rounds → flag (round + 1 + k) ≡ true)
        → (k : ℕ) → k < suc rounds
        → flag (round + k) ≡ true
    still_taken e taken zero h = let z : round + 0 ≡ round = omega arith in rw z e
    still_taken e taken (suc k) h =
        let z : round + suc k ≡ round + 1 + k = omega arith in rw z (taken k (omega arith))

-- The first part of the report: `PANIC`, and where the location is known ` at `, the file, a colon and
-- the line.
abbrev pub heading : (ℕ → List ℕ) → Option Location → List ℕ
heading display none = b'P' ∷ b'A' ∷ b'N' ∷ b'I' ∷ b'C' ∷ []
heading display (some at) =
    b'P'
    ∷ b'A'
    ∷ b'N'
    ∷ b'I'
    ∷ b'C'
    ∷ b' '
    ∷ b'a'
    ∷ b't'
    ∷ b' '
    ∷ (at.file ++ (b':' ∷ display at.line))

heading_lem :
    (display : ℕ → List ℕ) (location : Option Location)
    → title ++ place_text display location ≡ heading display location
heading_lem display none = refl
heading_lem display (some at) = refl

-- What is on the screen when the handler has printed: the heading put in bright red, then a colon, a
-- blank, the message and a line break in the default colour, on the background as it was.
pub record Printed (display : ℕ → List ℕ) (info : PanicInfo) (t t' : Terminal) : Type 0 where
  pub between : Terminal
  pub headed :
      put_chars
        (record t { fg_color = 0xFF7A93; ansi_state = AnsiState.ground })
        (heading display info.location)
      ≡ ok between
  pub told :
      put_chars
        (record between { fg_color = default_theme.default_fg; ansi_state = AnsiState.ground })
        (b':' ∷ b' ' ∷ (info.message ++ (10 ∷ [])))
      ≡ ok t'
  pub valid : IsValid t'
  pub color : t'.fg_color ≡ default_theme.default_fg
  pub background : t'.bg_color ≡ t.bg_color
  pub outside : t'.ansi_state ≡ AnsiState.ground

log-Printed :
    (display : ℕ → List ℕ) (info : PanicInfo) (t : Terminal)
    → IsValid t
    → t.ansi_state ≡ AnsiState.ground
    → AllPlain display info
    → (t' : Terminal) × (log (report display info) (some t) ≡ ok (some t'))
      × Printed display info t t'
unfolding log report recv_bytes
log-Printed display info t v g plain =
    let red : Terminal = colored t (91 ∷ []) in
    let head : List ℕ = title ++ place_text display info.location in
    let tail : List ℕ = (b':' ∷ b' ' ∷ info.message) ++ (10 ∷ []) in
    let head_plain : IsPlain head = IsPlain-append title _ title_plain plain.place in
    let tail_plain : IsPlain tail =
      IsPlain-append (b':' ∷ b' ' ∷ info.message) (10 ∷ []) (refl, (refl, plain.message))
        (refl, tt) in
    let a =
      plain-After red head (default_color ++ tail) (colored-IsValid t (91 ∷ []) v g) refl
        head_plain in
    let back : Terminal = colored a.next (39 ∷ []) in
    let ground_again : a.next.ansi_state ≡ AnsiState.ground = a.same.state_same in
    let c =
      plain-After back tail [] (colored-IsValid a.next (39 ∷ []) a.valid ground_again) refl
        tail_plain in
    let run : recv_bytes t (report display info) ≡ ok c.next =
      bright_red_lem t (head ++ (default_color ++ tail)) g
      ∙ a.runs
      ∙ default_color_lem a.next tail ground_again
      ∙ ap (recv_bytes back) (sym (append-nil tail))
      ∙ c.runs in
    (
      c.next,
      rw run refl,
      record {
        between = a.next;
        headed = ap (put_chars red) (sym (heading_lem display info.location)) ∙ a.puts;
        told = c.puts;
        valid = c.valid;
        color = c.same.fg_same;
        background = c.same.bg_same ∙ a.same.bg_same;
        outside = c.same.state_same;
      },
    )

-- On a valid terminal outside an escape sequence, for a panic whose place and message have no escape in
-- their texts: where a round of the loop finds the terminal's lock free, the handler prints without a
-- panic of its own and gets to its halt. What it has put on the screen is `PANIC`, with ` at `, the file,
-- a colon and the line where the location is known, in bright red, then a colon, a blank, the message
-- and a line break in the default colour; the terminal stays valid and outside a sequence, on the
-- background as it was. Where every round finds the lock taken, it prints nothing and still spins.
pub panic_handler_lem :
    (display : ℕ → List ℕ) (info : PanicInfo) (flag : ℕ → Bool) (rounds : ℕ) (t : Terminal)
    → IsValid t
    → t.ansi_state ≡ AnsiState.ground
    → AllPlain display info
    → ((k : ℕ) × (t' : Terminal) × (k < rounds)
        × (flag k ≡ false)
        × (panic_handler display info flag rounds (some t) ≡ ok (halts (some t')))
        × Printed display info t t')
      ⊎ (((k : ℕ) → k < rounds → flag k ≡ true)
          × (panic_handler display info flag rounds (some t) ≡ ok spinning))
unfolding panic_handler
panic_handler_lem display info flag rounds t v g plain =
    let (t', run, p) = log-Printed display info t v g plain in
    elim (takes_lock_lem flag 0 rounds) [
      | inl (k, h, free, taken) ↦
          inl (k, t', h, ap flag (sym (zero_plus k)) ∙ free, rw (taken, run) refl, p)
      | inr (held, spins) ↦ inr (λ k h. ap flag (sym (zero_plus k)) ∙ held k h, rw spins refl)
    ]
