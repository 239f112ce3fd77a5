-- ===== src/Panic/Tests.antt =====
-- A panic at line 7 of a file, on a small screen.
use os_rust.Shared.{
  ℕ, zero, suc, ◌≡◌, ◌+◌, ◌<◌, ◌⊎◌, Bool, true, false, refl, List, [], ◌∷◌, some, none, ok,
}
use os_rust.Console.Terminal.{Terminal}
use os_rust.Console.Tests.{term, term-IsValid}
use os_rust.Panic.{PanicInfo, report, takes_lock, spinning, halts, panic_handler}
use os_rust.Panic.Report.{Printed, panic_handler_lem}

abbrev display : ℕ → List ℕ
display n = (b'0' + n) ∷ []

abbrev info : PanicInfo
info = record { location = some (record { file = b'a' ∷ []; line = 7 }); message = b'x' ∷ [] }

-- Without a location the title is followed by the message at once.
short_report :
    report display (record { location = none; message = b'x' ∷ [] })
    ≡ 27 ∷ b'[' ∷ b'9' ∷ b'1' ∷ b'm' ∷ b'P' ∷ b'A' ∷ b'N' ∷ b'I' ∷ b'C' ∷ 27 ∷ b'[' ∷ b'3' ∷ b'9'
      ∷ b'm' ∷ b':' ∷ b' ' ∷ b'x' ∷ 10 ∷ []
unfolding report
short_report = refl

-- The lock is free from the third round on.
abbrev flag : ℕ → Bool
flag zero = true
flag (suc zero) = true
flag (suc (suc n)) = false

-- Two rounds are not enough.
two_rounds : panic_handler display info flag 2 (some term) ≡ ok spinning
unfolding panic_handler takes_lock
two_rounds = refl

panic_handler_lem_example :
    ((k : ℕ) × (t' : Terminal) × (k < 3)
      × (flag k ≡ false)
      × (panic_handler display info flag 3 (some term) ≡ ok (halts (some t')))
      × Printed display info term t')
    ⊎ (((k : ℕ) → k < 3 → flag k ≡ true)
        × (panic_handler display info flag 3 (some term) ≡ ok spinning))
panic_handler_lem_example = panic_handler_lem display info flag 3 term term-IsValid refl (record {
  place = (refl, (refl, (refl, (refl, (refl, (refl, (refl, tt)))))));
  message = (refl, tt);
})
