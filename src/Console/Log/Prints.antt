-- ===== src/Console/Log/Prints.antt =====
-- Printing from the boot of the kernel on.
use os_rust.Shared.{ℕ, ◌*◌, ◌/◌, ◌^◌, ◌≤◌, ◌<◌, ◌≡◌, refl, List, [], ◌∷◌, true, Option, some, ok}
use os_rust.Console.Framebuffer.{LimineFramebuffer}
use os_rust.Console.Terminal.{Terminal, new, clear}
use os_rust.Console.Terminal.Cursor.{IsValid, clear-new-IsValid}
use os_rust.Console.Terminal.Escapes.{recv_bytes-IsValid}
use os_rust.Console.Log.{init, log, logs}

logs-some :
    (messages : List (List ℕ)) (t : Terminal)
    → IsValid t
    → (t' : Terminal) × (logs messages (some t) ≡ ok (some t')) × IsValid t'
unfolding logs log
logs-some [] t v = (t, refl, v)
logs-some (bytes ∷ messages) t v =
    let (t₁, e₁, v₁) = recv_bytes-IsValid t bytes v in
    let (t₂, e₂, v₂) = logs-some messages t₁ v₁ in (t₂, rw (e₁, e₂) refl, v₂)

-- With a screen that has room for a character, rows that hold its width and fewer than 2^63 pixels,
-- `init` succeeds, and whatever is printed after it, in any number of messages, no `log` panics and the
-- terminal stays valid.
pub logs-init :
    (fb : LimineFramebuffer) (guard : Option Terminal) (messages : List (List ℕ))
    → 8 ≤ fb.width
    → 10 ≤ fb.height
    → fb.width ≤ fb.pitch / 4
    → fb.pitch / 4 * fb.height < 2 ^ 63
    → ((init (some fb) guard).0 ≡ true)
      × (t : Terminal) × (logs messages (init (some fb) guard).1 ≡ ok (some t))
      × IsValid t
unfolding init
logs-init fb guard messages w h p s =
    let (t, run, v) = logs-some messages (clear (new fb)) (clear-new-IsValid fb w h p s) in
    (refl, t, run, v)
