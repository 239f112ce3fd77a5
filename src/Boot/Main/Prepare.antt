-- ===== src/Boot/Main/Prepare.antt =====
-- What `kmain` does before it calls `common_entry`.
use os_rust.Shared.{
  ℕ, ◌+◌, ◌-◌, ◌*◌, ◌/◌, ◌%◌, ◌^◌, ◌≤◌, ◌<◌, ◌≡◌, ◌⊎◌, inl, inr, refl, ap, ◌∙◌, List, [], ◌∷◌, ◌++◌,
  true, false, Option, some, none, ok, panic, arith, length, get_or, get_elem?, ◌==◌,
}
use os_rust.Memory.Addr.{AddrApi}
use os_rust.Memory.Region.{MemoryRegion}
use os_rust.Memory.Allocator.{Slot}
use os_rust.Memory.Allocator.States.{AreValid, AllSameShape}
use os_rust.Memory.Allocator.Count.{total_free}
use os_rust.Memory.Boot.{Entry, Span, Placement, spans}
use os_rust.Memory.Boot.Layout.{IsMap, metadata, count_usable, TooSmall, Reaches}
use os_rust.Memory.Boot.Init.{IsReady}
use os_rust.Memory.Boot.Located.{Located}
use os_rust.Memory.Translate.{phys_to_virt_high}
use os_rust.Memory.Pages.{IsMapped, IsMapped-shape, NoFrame}
use os_rust.Memory.Facade.{Physical}
use os_rust.Memory.Facade.Laws.{init-IsMapped}
use os_rust.Memory.Paging.{EntryApi, pml4_index}
use os_rust.Memory.Paging.Steps.{page_of}
use os_rust.Memory.Paging.Laws.{map_page_lem}
use os_rust.Console.Framebuffer.{LimineFramebuffer}
use os_rust.Console.Terminal.{Terminal, new, clear}
use os_rust.Console.Terminal.Cursor.{IsValid, clear-new-IsValid}
use os_rust.Console.Terminal.Escapes.{recv_bytes-IsValid}
use os_rust.Console.Log
use os_rust.Console.Log.{log}
use os_rust.Arch.Words.{Words}
use os_rust.Arch.Machine.{Build}
use os_rust.Arch.Lapic.{lapic_phys_addr, current_lapic}
use os_rust.Arch.Lapic.Timer.{HasLapic}
use os_rust.Boot.{MpCpu, MpResponse}
use os_rust.Boot.Cpus.{IsBsp, sent, start_cpus_lem}
use os_rust.Boot.Main.{
  BootloaderInfo, Responses, Booted, yellow, revision_label, print_bootloader, prepare,
}
use os_rust.Boot.Main.Tables.{Handed, WritesSpans, Located-elsewhere, table_kept, init-IsTree}

-- A screen with room for a character.
pub record HasRoom (fb : LimineFramebuffer) : Type 0 where
  pub wide : 8 ≤ fb.width
  pub tall : 10 ≤ fb.height
  pub rows : fb.width ≤ fb.pitch / 4
  pub small : fb.pitch / 4 * fb.height < 2 ^ 63

-- The memory map, the direct map and the page tables that the boot loader hands over.
pub record Given (api : EntryApi) (b : Build) (region_size cr3 offset : ℕ) (es : List Entry)
    (level : ℕ → ℕ) (m : Words) : Type 0 where
  pub map : IsMap es
  pub reach : Reaches (offset + 4096) es
  pub high : 2 ^ 64 - 2 ^ 47 ≤ offset
  pub aligned : offset % 4096 ≡ 0
  pub small : metadata region_size es < 2 ^ 64
  pub few : count_usable es < 2 ^ 64
  pub apic : HasLapic offset b
  pub handed : Handed offset api es level m
  pub root : level cr3 ≡ 4
  pub first :
      api.is_present (m (cr3 + offset + 8 * pml4_index (lapic_phys_addr b.apic_base + offset)))
      ≡ true

-- Why the boot ends before: no entry has room for the metadata of the allocator, fewer than two frames
-- are left for page tables, or no CPU is the boot processor.
pub data Fails (region_size : ℕ) (es : List Entry) (resp : MpResponse) : Type 0 where
  no_room : TooSmall (metadata region_size es) es → Fails region_size es resp
  no_table :
      (rs : List MemoryRegion)
      → IsReady region_size es rs
      → NoFrame 2 rs
      → Fails region_size es resp
  no_bsp :
      ((i : ℕ) (c : MpCpu)
        → get_elem? resp.cpus i ≡ some c
        → (c.lapic_id == resp.bsp_lapic_id) ≡ false)
      → Fails region_size es resp

-- The kernel before `common_entry`: a console that works, valid regions that the direct map covers, the
-- registers of the local APIC mapped, and each CPU but the boot processor sent to `common_entry`.
pub record Prepared (api : EntryApi) (b : Build) (region_size cr3 entry offset : ℕ)
    (es : List Entry) (resp : MpResponse) (booted : Booted) : Type 0 where
  pub terminal : Terminal
  pub shown : booted.terminal ≡ some terminal
  pub terminal_valid : IsValid terminal
  pub offset_kept : booted.physical.hhdm_offset ≡ offset
  pub ready : List MemoryRegion
  pub first_ready : IsReady region_size es ready
  pub placements : List Placement
  pub located : Located region_size offset es placements ready
  pub regions : List MemoryRegion
  pub held : booted.physical.slot ≡ some regions
  pub shape : AllSameShape ready regions
  pub left : total_free ready ≤ total_free regions + 2
  pub valid : AreValid regions
  pub mapped : IsMapped offset regions
  pub page :
      page_of offset api booted.memory cr3 (lapic_phys_addr b.apic_base + offset)
      ≡ some (lapic_phys_addr b.apic_base)
  pub bsp : IsBsp resp.bsp_lapic_id resp.cpus booted.bsp_cpu
  pub others :
      (i : ℕ) (c : MpCpu)
      → get_elem? resp.cpus i ≡ some c
      → get_elem? booted.cpus i ≡ some (sent entry resp.bsp_lapic_id c)

log-some :
    (bytes : List ℕ) (t : Terminal)
    → IsValid t
    → (t' : Terminal) × (log bytes (some t) ≡ ok (some t')) × IsValid t'
unfolding log
log-some bytes t v = let (t', run, v') = recv_bytes-IsValid t bytes v in (t', rw run refl, v')

print_bootloader-some :
    (info : Option BootloaderInfo) (t : Terminal)
    → IsValid t
    → (t' : Terminal) × (print_bootloader info (some t) ≡ ok (some t')) × IsValid t'
unfolding print_bootloader
print_bootloader-some none t v = (t, refl, v)
print_bootloader-some (some info) t v = log-some _ t v

Reaches-less : (offset : ℕ) (es : List Entry) → Reaches (offset + 4096) es → Reaches offset es
Reaches-less offset [] h = tt
Reaches-less offset (e ∷ es) h = (λ u. let far = h.0 u in omega arith, Reaches-less offset es h.1)

current_lapic_lem :
    (x : AddrApi) (offset : ℕ) (b : Build)
    → 2 ^ 64 - 2 ^ 47 ≤ offset
    → HasLapic offset b
    → current_lapic x offset b.apic_base ≡ ok (lapic_phys_addr b.apic_base + offset)
unfolding current_lapic
current_lapic_lem x offset b high h =
    let phys : ℕ = lapic_phys_addr b.apic_base in
    rw (x.phys_new_valid phys h.physical)
      (phys_to_virt_high x offset phys high (omega (arith, h.mapped)))

-- The responses of a boot loader that answers all requests but perhaps that for its own name.
abbrev pub answers :
    Option BootloaderInfo → ℕ → LimineFramebuffer → List Entry → ℕ → MpResponse → Responses
answers info revision fb es offset resp = record {
  is_supported = true;
  loaded_revision = some revision;
  bootloader_info = info;
  framebuffer = some fb;
  memory_map = some es;
  hhdm = some offset;
  mp = some resp;
}

abbrev pub unset : Physical
unset = record { slot = none; hhdm_offset = 0 }

module _ (x : AddrApi) (raw : ℕ → ℕ → List ℕ) (raw_length : (a n : ℕ) → length (raw a n) ≡ n)
    (raw_byte : (a n j : ℕ) → get_or (raw a n) j 0 < 256) (region_size : ℕ)
    (written : List Span → Slot → Words → Words) (api : EntryApi) (display : ℕ → List ℕ) (b : Build)
    (cr3 entry : ℕ) where
  -- With all requests answered, `kmain` gets to `common_entry` with everything prepared, or it fails
  -- for one of three reasons.
  pub prepare_lem :
      (info : Option BootloaderInfo) (revision : ℕ) (fb : LimineFramebuffer) (es : List Entry)
      (offset : ℕ) (resp : MpResponse) (guard : Option Terminal) (level : ℕ → ℕ) (m : Words)
      → HasRoom fb
      → Given api b region_size cr3 offset es level m
      → WritesSpans written
      → ((booted : Booted) × (prepare x raw region_size written api display b cr3 entry
              (answers info revision fb es offset resp)
              guard
              unset
              m
            ≡ ok booted)
          × Prepared api b region_size cr3 entry offset es resp booted)
        ⊎ ((prepare x raw region_size written api display b cr3 entry
                (answers info revision fb es offset resp)
                guard
                unset
                m
              ≡ panic)
            × Fails region_size es resp)
  unfolding prepare Log.init
  prepare_lem info revision fb es offset resp guard level m room g law =
      let lapic : ℕ = lapic_phys_addr b.apic_base in
      let v₀ = clear-new-IsValid fb room.wide room.tall room.rows room.small in
      let (t₁, run₁, v₁) = print_bootloader-some info (clear (new fb)) v₀ in
      let (t₂, run₂, v₂) = log-some (yellow (revision_label ++ display revision)) t₁ v₁ in
      let at = current_lapic_lem x offset b g.high g.apic in
      elim (init-IsMapped x raw raw_length raw_byte region_size es offset g.map
        (Reaches-less offset es g.reach) g.high g.aligned g.small g.few) [
          | inr (run, small) ↦ inr (rw (run₁, run₂, run) refl, no_room small)
          | inl (ps, rs, run₃, ready, located, mapped) ↦
              let m₁ : Words = written (spans ps region_size) (some rs) m in
              let elsewhere = Located-elsewhere written law g.aligned located (some rs) m in
              let tree =
                init-IsTree offset api es level m m₁ rs g.map g.reach g.handed elsewhere
                  ready.placed ready.reserved.valid in
              let kept =
                table_kept offset api es level m m₁ rs g.map g.reach g.handed elsewhere ready.placed
                  ready.reserved.valid cr3 (pml4_index (lapic + offset))
                  (λ z. absurd (omega (arith, g.root))) (omega arith) in
              elim (map_page_lem x offset api g.high level rs m₁ cr3 lapic (lapic + offset) tree
                g.root (ap api.is_present kept ∙ g.first) (omega arith) g.apic.physical) [
                  | inl (full, out) ↦
                      inr (rw (run₁, run₂, run₃, at, full) refl, no_table rs ready out)
                  | inr (level', rs', m', run₄, maps, shape, left) ↦
                      elim (start_cpus_lem entry resp) [
                        | inr (run₅, others) ↦
                            inr (rw (run₁, run₂, run₃, at, run₄, run₅) refl, no_bsp others)
                        | inl (cpus, bsp, run₅, is_bsp, others) ↦ inl (
                          record {
                            terminal = some t₂;
                            physical = record { slot = some rs'; hhdm_offset = offset };
                            memory = m';
                            cpus = cpus;
                            bsp_cpu = bsp;
                          },
                          rw (run₁, run₂, run₃, at, run₄, run₅) refl,
                          record {
                            terminal = t₂;
                            shown = refl;
                            terminal_valid = v₂;
                            offset_kept = refl;
                            ready = rs;
                            first_ready = ready;
                            placements = ps;
                            located = located;
                            regions = rs';
                            held = refl;
                            shape = shape;
                            left = left;
                            valid = maps.tree.clean.valid;
                            mapped = IsMapped-shape shape mapped;
                            page = maps.page;
                            bsp = is_bsp;
                            others = others;
                          },
                        )
                      ]
                ]
        ]
