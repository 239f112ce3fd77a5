-- ===== src/Boot/Main/Tests.antt =====
-- A boot with one usable entry, two CPUs, and a root table that reaches the direct map.
use os_rust.Shared.{
  ℕ, ◌+◌, ◌-◌, ◌^◌, List, [], ◌∷◌, ◌/◌, ◌*◌, false, true, Bool, ltb, ◌&&◌, if◌then◌else◌,
}
use os_rust.Memory.Allocator.{Slot}
use os_rust.Memory.Paging.Tests.{memory}
use os_rust.Arch.Words.{Words}
use os_rust.Arch.Machine.{Descriptor, Machine}
use os_rust.Arch.Startup.Tests.{machine}
use os_rust.Memory.Boot.{Span}

abbrev offset : ℕ
offset = 2 ^ 64 - 2 ^ 47

-- Whether one of the spans touches the aligned word that holds the address.
abbrev touches : List Span → ℕ → Bool
touches [] a = false
touches (s ∷ ss) a =
    if ltb s.start (a / 8 * 8 + 8) && ltb (a / 8 * 8) (s.start + s.size) then true else touches ss a

-- Every word that is touched is set to ones.
abbrev written : List Span → Slot → Words → Words
written ss slot m a = if touches ss a then 18446744073709551615 else m a

abbrev display : ℕ → List ℕ
display n = (b'0' + n) ∷ []

abbrev loaded : Machine (List Descriptor)
loaded = record machine { memory = memory }
