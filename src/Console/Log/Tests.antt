-- ===== src/Console/Log/Tests.antt =====
-- Two messages on a small screen.
use os_rust.Shared.{◌≡◌, [], ◌∷◌, true, none, some, ok, arith}
use os_rust.Console.Terminal.{Terminal}
use os_rust.Console.Terminal.Cursor.{IsValid}
use os_rust.Console.Tests.{limine}
use os_rust.Console.Log.{init, logs}
use os_rust.Console.Log.Prints.{logs-init}

logs-init_example :
    ((init (some limine) none).0 ≡ true)
    × (t : Terminal) × (logs ((65 ∷ 66 ∷ []) ∷ (10 ∷ 27 ∷ []) ∷ []) (init (some limine) none).1
        ≡ ok (some t))
    × IsValid t
logs-init_example =
    logs-init limine none ((65 ∷ 66 ∷ []) ∷ (10 ∷ 27 ∷ []) ∷ []) (omega arith) (omega arith)
      (omega arith) (omega arith)
