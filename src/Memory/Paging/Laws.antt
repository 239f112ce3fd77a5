-- ===== src/Memory/Paging/Laws.antt =====
-- What `map_page` does to the tree of page tables, and to the translation of addresses.
use os_rust.Shared.{
  ℕ, suc, ◌+◌, ◌-◌, ◌*◌, ◌%◌, ◌^◌, ◌≤◌, ◌<◌, ◌≡◌, ◌≢◌, ◌⊎◌, inl, inr, refl, ◌∙◌, List, true, some,
  ok, panic, ==_iff, Bool-cases, arith,
}
use os_rust.Memory.Addr.{AddrApi}
use os_rust.Memory.Frame.{FrameRange}
use os_rust.Memory.Region.{MemoryRegion}
use os_rust.Memory.Allocator.Alloc.{Takes, Effect, AreFull}
use os_rust.Memory.Allocator.States.{AllSameShape, AllSameShape-refl, AllSameShape-trans}
use os_rust.Memory.Allocator.Count.{total_free, total_free-Takes}
use os_rust.Memory.Translate.{phys_to_virt_high}
use os_rust.Arch.Words.{Words, write}
use os_rust.Memory.Paging.{
  EntryApi, entry_at, link, child, map_page, pml4_index, pdpt_index, pd_index, pt_index,
}
use os_rust.Memory.Pages.{alloc_one_lem, NoFrame, at_once, after_one}
use os_rust.Memory.Paging.Tables.{IsTree, Keeps, Leads}
use os_rust.Memory.Paging.Fresh.{grown, written, kept, led, grown-IsTree}
use os_rust.Memory.Paging.Steps.{Maps, Maps-written, Keeps-trans, Step-kept}

module _ (x : AddrApi) (offset : ℕ) (api : EntryApi) (high : 2 ^ 64 - 2 ^ 47 ≤ offset) where
  entry_at_lem :
      (level : ℕ → ℕ) (rs : List MemoryRegion) (m : Words) (table i : ℕ)
      → IsTree offset api level rs m
      → level table ≢ 0
      → entry_at x offset api table i ≡ ok (table + offset + 8 * i)
  unfolding entry_at
  entry_at_lem level rs m table i tree ne =
      rw (phys_to_virt_high x offset table high (omega (arith, tree.levels.reach table ne))) refl

  -- What `child` leaves: the tree, in which the entry leads to the table below.
  record Linked (level : ℕ → ℕ) (rs : List MemoryRegion) (m : Words) (entry l : ℕ) : Type 0 where
    table : ℕ
    level' : ℕ → ℕ
    rs' : List MemoryRegion
    m' : Words
    run : child x offset api (some rs) m entry ≡ ok (table, some rs', m')
    tree : IsTree offset api level' rs' m'
    keeps : Keeps offset api level m level' m'
    leads : Leads offset api level' m' entry l
    at : api.addr (m' entry) ≡ table
    frames : (rs' ≡ rs) ⊎ ((f : FrameRange) × Takes 1 f rs rs' × Effect rs 1 f rs')

  child_lem :
      (level : ℕ → ℕ) (rs : List MemoryRegion) (m : Words) (a l i : ℕ)
      → IsTree offset api level rs m
      → level a ≡ suc (suc l)
      → i < 512
      → Linked level rs m (a + offset + 8 * i) (suc l)
        ⊎ ((child x offset api (some rs) m (a + offset + 8 * i) ≡ panic) × AreFull rs 1)
  unfolding child link
  child_lem level rs m a l i tree at inside =
      elim (Bool-cases (api.is_present (m (a + offset + 8 * i)))) [
        | inl p ↦ inl (record {
          table = api.addr (m (a + offset + 8 * i));
          level' = level;
          rs' = rs;
          m' = m;
          run = rw p refl;
          tree = tree;
          keeps = record { entries = λ b q. refl; tables = λ b q. refl };
          leads = record { present = p; below = tree.levels.children a l i at inside p };
          at = refl;
          frames = inl refl;
        })
        | inr p ↦ elim (alloc_one_lem x rs tree.clean.valid) [
          | inl (f, rs', run, t, e) ↦
              let free = e.was_free f.start (ground (arith, e.frames_count)) in
              let (w, set, leads, present) =
                api.set_addr_page f.start e.aligned
                  (omega (arith, tree.clean.reach f.start free)) in
              let same = (==_iff (a + offset + 8 * i) (a + offset + 8 * i)).1 refl in
              inl (record {
                table = api.addr w;
                level' = grown offset api level rs m tree a l i at inside p f rs' e w leads present;
                rs' = rs';
                m' = written offset api level rs m tree a l i at inside p f rs' e w leads present;
                run = rw (p, run, set) refl;
                tree =
                    grown-IsTree offset api level rs m tree a l i at inside p f rs' e w leads
                      present;
                keeps = kept offset api level rs m tree a l i at inside p f rs' e w leads present;
                leads = led offset api level rs m tree a l i at inside p f rs' e w leads present;
                at = rw same refl;
                frames = inr (f, t, e);
              })
          | inr (run, full) ↦ inr (rw (p, run) refl, full)
        ]
      ]

  no_frame :
      {rs rs' : List MemoryRegion}
      → (rs' ≡ rs) ⊎ ((f : FrameRange) × Takes 1 f rs rs' × Effect rs 1 f rs')
      → AreFull rs' 1
      → NoFrame 2 rs
  no_frame (inl same) full = at_once _ (rw same at full) (omega arith)
  no_frame (inr (f, t, e)) full = after_one t (at_once _ full (omega arith))

  shape_of :
      {rs rs' : List MemoryRegion}
      → (rs' ≡ rs) ⊎ ((f : FrameRange) × Takes 1 f rs rs' × Effect rs 1 f rs')
      → AllSameShape rs rs'
  shape_of {rs} (inl same) = rw same (AllSameShape-refl rs)
  shape_of (inr (f, t, e)) = e.shape_same

  left_of :
      {rs rs' : List MemoryRegion}
      → (rs' ≡ rs) ⊎ ((f : FrameRange) × Takes 1 f rs rs' × Effect rs 1 f rs')
      → total_free rs ≤ total_free rs' + 1
  left_of (inl same) = rw same (omega arith)
  left_of (inr (f, t, e)) = omega (arith, total_free-Takes t)

  pub map_page_lem :
      (level : ℕ → ℕ) (rs : List MemoryRegion) (m : Words) (cr3 phys virt : ℕ)
      → IsTree offset api level rs m
      → level cr3 ≡ 4
      → api.is_present (m (cr3 + offset + 8 * pml4_index virt)) ≡ true
      → phys % 4096 ≡ 0
      → phys < 2 ^ 52
      → ((map_page x offset api cr3 phys virt (some rs) m ≡ panic) × NoFrame 2 rs)
        ⊎ ((level' : ℕ → ℕ) × (rs' : List MemoryRegion) × (m' : Words) × (map_page x offset api cr3
                phys virt
                (some rs)
                m
              ≡ ok (some rs', m'))
            × Maps offset api level m cr3 phys virt level' rs' m'
            × AllSameShape rs rs'
            × (total_free rs ≤ total_free rs' + 2))
  unfolding map_page
  map_page_lem level rs m cr3 phys virt tree root first even small =
      let nonzero : level cr3 ≢ 0 = λ z. absurd (omega arith) in
      let e4 = entry_at_lem level rs m cr3 (pml4_index virt) tree nonzero in
      let pdpt = api.addr (m (cr3 + offset + 8 * pml4_index virt)) in
      let level_pdpt : level pdpt ≡ 3 =
        tree.levels.children cr3 2 (pml4_index virt) root (omega arith) first in
      let e3 = entry_at_lem level rs m pdpt (pdpt_index virt) tree (λ z. absurd (omega arith)) in
      elim (child_lem level rs m pdpt 1 (pdpt_index virt) tree level_pdpt (omega arith)) [
        | inr (run, full) ↦ inl (rw (e4, e3, run) refl, at_once _ full (omega arith))
        | inl c ↦
            let level_pd : c.level' c.table ≡ 2 = rw c.at at c.leads.below in
            let e2 =
              entry_at_lem c.level' c.rs' c.m' c.table (pd_index virt) c.tree
                (λ z. absurd (omega arith)) in
            elim (child_lem c.level' c.rs' c.m' c.table 0 (pd_index virt) c.tree level_pd
              (omega arith)) [
                | inr (run, full) ↦ inl (rw (e4, e3, c.run, e2, run) refl, no_frame c.frames full)
                | inl d ↦
                    let level_pt : d.level' d.table ≡ 1 = rw d.at at d.leads.below in
                    let e1 =
                      entry_at_lem d.level' d.rs' d.m' d.table (pt_index virt) d.tree
                        (λ z. absurd (omega arith)) in
                    let (w, set, leads, present) = api.set_addr_page phys even small in
                    inr (
                      d.level',
                      d.rs',
                      write d.m' (d.table + offset + 8 * pt_index virt) w,
                      rw (e4, e3, c.run, e2, d.run, e1, x.phys_new_valid phys small, set) refl,
                      Maps-written offset api virt w d.tree
                          (Step-kept offset api (Keeps-trans offset api c.keeps d.keeps)
                            (record { at = root; present = first; next = refl }))
                          (Step-kept offset api d.keeps (record {
                            at = c.keeps.tables pdpt (λ z. absurd (omega arith)) ∙ level_pdpt;
                            present = c.leads.present;
                            next = c.at;
                          }))
                          (record {
                            at = d.keeps.tables c.table (λ z. absurd (omega arith)) ∙ level_pd;
                            present = d.leads.present;
                            next = d.at;
                          })
                          level_pt (Keeps-trans offset api c.keeps d.keeps) leads present,
                      AllSameShape-trans rs c.rs' d.rs' (shape_of c.frames) (shape_of d.frames),
                      omega (arith, left_of c.frames, left_of d.frames),
                    )
              ]
      ]
