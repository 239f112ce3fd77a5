-- ===== src/Boot/Main/Laws.antt =====
-- `kmain` from its start to the idle thread of the boot processor.
use os_rust.Shared.{ℕ, List}
use os_rust.Memory.Region.{MemoryRegion}
use os_rust.Memory.Boot.{Entry}
use os_rust.Memory.Boot.Init.{IsReady}
use os_rust.Memory.Pages.{NoFrame}
use os_rust.Console.Terminal.{Terminal}
use os_rust.Arch.Words.{Words}
use os_rust.Arch.Machine.{Machine}
use os_rust.Boot.{MpResponse}
use os_rust.Boot.Main.{Booted}
use os_rust.Boot.Main.Prepare.{Fails}

-- Why the boot ends: as before `common_entry`, or fewer than six frames are free
-- after `init`, of which page tables take two at most and the boot processor four.
pub data Ends (region_size : ℕ) (es : List Entry) (resp : MpResponse) : Type 0 where
  before : Fails region_size es resp → Ends region_size es resp
  no_page :
      (ready : List MemoryRegion)
      → IsReady region_size es ready
      → NoFrame 6 ready
      → Ends region_size es resp

-- The machine on which `common_entry` runs.
abbrev pub handed_on : {T : Type 0} → Machine T → Booted → Machine T
handed_on m booted = record m { frames = booted.physical.slot; memory = booted.memory }
