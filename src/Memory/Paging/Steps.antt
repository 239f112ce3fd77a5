-- ===== src/Memory/Paging/Steps.antt =====
-- The translation of addresses by page tables, and what the last write of `map_page` does to it.
use os_rust.Shared.{
  ℕ, suc, ◌+◌, ◌*◌, ◌<◌, ◌≡◌, ◌≢◌, inl, inr, refl, ap, sym, ◌∙◌, List, true, Option, none, some,
  ◌==◌, ==_iff, if◌then◌else◌, Bool-cases, arith,
}
use os_rust.Memory.Region.{MemoryRegion}
use os_rust.Arch.Words.{Words, write}
use os_rust.Memory.Paging.{EntryApi, pml4_index, pdpt_index, pd_index, pt_index}
use os_rust.Memory.Paging.Tables.{IsTree, Keeps}
use os_rust.Memory.Paging.Fresh.{leaf-IsTree, higher_entry}

-- Where the processor finds the page of an address: the present entries of four tables, from the one
-- at `cr3` down.
abbrev pub follow : ℕ → EntryApi → Words → Option ℕ → ℕ → Option ℕ
follow offset api m none i = none
follow offset api m (some table) i =
    let w = m (table + offset + 8 * i) in if api.is_present w then some (api.addr w) else none

abbrev pub page_of : ℕ → EntryApi → Words → ℕ → ℕ → Option ℕ
page_of offset api m cr3 virt =
    let pdpt = follow offset api m (some cr3) (pml4_index virt) in
    let pd = follow offset api m pdpt (pdpt_index virt) in
    let pt = follow offset api m pd (pd_index virt) in follow offset api m pt (pt_index virt)

module _ (offset : ℕ) (api : EntryApi) where
  -- The page of `virt` is the frame, the tree is kept, and of the entries that were present only the
  -- one for the page of `virt` may differ.
  pub record Maps (level : ℕ → ℕ) (m : Words) (cr3 phys virt : ℕ) (level' : ℕ → ℕ)
      (rs' : List MemoryRegion) (m' : Words) : Type 0 where
    pub tree : IsTree offset api level' rs' m'
    pub root : level' cr3 ≡ 4
    pub page : page_of offset api m' cr3 virt ≡ some phys
    pub table : ℕ
    pub last : level' table ≡ 1
    pub kept_entries :
        (b : ℕ) → api.is_present (m b) ≡ true → b ≢ table + offset + 8 * pt_index virt → m' b ≡ m b

  -- The present entry of a table above the last level that leads to the next.
  pub record Step (level : ℕ → ℕ) (m : Words) (table i l below : ℕ) : Type 0 where
    pub at : level table ≡ suc (suc l)
    pub present : api.is_present (m (table + offset + 8 * i)) ≡ true
    pub next : api.addr (m (table + offset + 8 * i)) ≡ below

  -- The page's entry written at the end of four tables.
  module _ {level : ℕ → ℕ} {rs : List MemoryRegion} {m : Words} {cr3 pdpt pd pt : ℕ} (virt w : ℕ)
      (tree : IsTree offset api level rs m) (first : Step level m cr3 (pml4_index virt) 2 pdpt)
      (second : Step level m pdpt (pdpt_index virt) 1 pd)
      (third : Step level m pd (pd_index virt) 0 pt) (last : level pt ≡ 1) where
    follow-Step :
        {table i l below : ℕ}
        → i < 512
        → Step level m table i l below
        → follow offset api (write m (pt + offset + 8 * pt_index virt) w) (some table) i
          ≡ some below
    follow-Step {table} {i} {l} h s =
        let other =
          higher_entry offset api level rs m tree pt (pt_index virt) last (omega arith) w table l i
            s.at h in
        rw (other, s.present, s.next) refl

    pub Maps-written :
        {phys : ℕ} {level₀ : ℕ → ℕ} {m₀ : Words}
        → Keeps offset api level₀ m₀ level m
        → api.addr w ≡ phys
        → api.is_present w ≡ true
        → Maps level₀ m₀ cr3 phys virt level rs (write m (pt + offset + 8 * pt_index virt) w)
    Maps-written keeps leads present =
        let entry = pt + offset + 8 * pt_index virt in
        let same = (==_iff entry entry).1 refl in
        record {
          tree = leaf-IsTree offset api level rs m tree pt (pt_index virt) last (omega arith) w;
          root = first.at;
          page =
              rw
                (
                  follow-Step (omega arith) first,
                  follow-Step (omega arith) second,
                  follow-Step (omega arith) third,
                  same,
                  present,
                  leads,
                )
                refl;
          table = pt;
          last = last;
          kept_entries = λ b p ne. elim (Bool-cases (b == entry)) [
            | inl s ↦ absurd (ne ((==_iff b entry).0 s))
            | inr d ↦ rw d (keeps.entries b p)
          ];
        }

  pub Keeps-trans :
      {l₁ l₂ l₃ : ℕ → ℕ} {m₁ m₂ m₃ : Words}
      → Keeps offset api l₁ m₁ l₂ m₂
      → Keeps offset api l₂ m₂ l₃ m₃
      → Keeps offset api l₁ m₁ l₃ m₃
  Keeps-trans {m₁} k j = record {
    entries = λ b p. let same = k.entries b p in j.entries b (ap api.is_present same ∙ p) ∙ same;
    tables = λ a ne. let same = k.tables a ne in j.tables a (λ z. ne (sym same ∙ z)) ∙ same;
  }

  pub Step-kept :
      {l₁ l₂ : ℕ → ℕ} {m₁ m₂ : Words} {table i l below : ℕ}
      → Keeps offset api l₁ m₁ l₂ m₂
      → Step l₁ m₁ table i l below
      → Step l₂ m₂ table i l below
  Step-kept {table} {i} k s =
      let same = k.entries (table + offset + 8 * i) s.present in
      record {
        at = k.tables table (λ z. absurd (omega (arith, s.at))) ∙ s.at;
        present = ap api.is_present same ∙ s.present;
        next = ap api.addr same ∙ s.next;
      }
