-- ===== src/Boot/Tests.antt =====
-- Two CPUs, the second one the boot processor, for the tests of the boot.
use os_rust.Shared.{[], ◌∷◌, none}
use os_rust.Boot.{MpResponse}

abbrev pub response : MpResponse
response = record {
  cpus =
      record { id = 0; lapic_id = 5; goto_address = none }
      ∷ record { id = 1; lapic_id = 7; goto_address = none }
      ∷ [];
  bsp_lapic_id = 7;
}
