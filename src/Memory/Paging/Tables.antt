-- ===== src/Memory/Paging/Tables.antt =====
-- Page tables as a tree: the level of each table, and the step of `map_page` from one to the next.
use os_rust.Shared.{
  ℕ, suc, ◌+◌, ◌*◌, ◌/◌, ◌%◌, ◌^◌, ◌≤◌, ◌<◌, ◌≡◌, ◌≢◌, inl, inr, List, true, false, some, ◌==◌,
  ==_iff, Bool-cases, arith,
}
use os_rust.Memory.Region.{MemoryRegion}
use os_rust.Memory.Allocator.States.{AreValid, state_of}
use os_rust.Arch.Words.{Words}
use os_rust.Memory.Paging.{EntryApi}

module _ (offset : ℕ) (api : EntryApi) where
  -- A table has a level, from 4 at the root down to 1; other pages have level 0. A present entry of a
  -- table above level 1 leads to a table one level below. The direct map reaches all tables.
  pub record Levels (level : ℕ → ℕ) (m : Words) : Type 0 where
    pub aligned : (a : ℕ) → level a ≢ 0 → a % 4096 ≡ 0
    pub reach : (a : ℕ) → level a ≢ 0 → a + 4096 + offset ≤ 2 ^ 64
    pub children :
        (a l i : ℕ)
        → level a ≡ suc (suc l)
        → i < 512
        → api.is_present (m (a + offset + 8 * i)) ≡ true
        → level (api.addr (m (a + offset + 8 * i))) ≡ suc l

  -- The free frames hold no table, and no present entry; the direct map reaches them.
  pub record Clean (level : ℕ → ℕ) (rs : List MemoryRegion) (m : Words) : Type 0 where
    pub valid : AreValid rs
    pub reach : (a : ℕ) → state_of rs a ≡ some false → a + 4096 + offset ≤ 2 ^ 64
    pub unused : (a : ℕ) → state_of rs a ≡ some false → level (a / 4096 * 4096) ≡ 0
    pub cleared : (a : ℕ) → state_of rs a ≡ some false → api.is_present (m (a + offset)) ≡ false

  pub record IsTree (level : ℕ → ℕ) (rs : List MemoryRegion) (m : Words) : Type 0 where
    pub levels : Levels level m
    pub clean : Clean level rs m

  -- Entries that were present and tables stay.
  pub record Keeps (level : ℕ → ℕ) (m : Words) (level' : ℕ → ℕ) (m' : Words) : Type 0 where
    pub entries : (b : ℕ) → api.is_present (m b) ≡ true → m' b ≡ m b
    pub tables : (a : ℕ) → level a ≢ 0 → level' a ≡ level a

  -- The entry leads to a table of level `l`.
  pub record Leads (level : ℕ → ℕ) (m : Words) (entry l : ℕ) : Type 0 where
    pub present : api.is_present (m entry) ≡ true
    pub below : level (api.addr (m entry)) ≡ l

  -- The words of one entry of a table.
  module _ (level : ℕ → ℕ) (rs : List MemoryRegion) (m : Words) (tree : IsTree level rs m) (a i : ℕ)
      (table : level a ≢ 0) (inside : i < 512) where
    -- Those of another table are other words.
    pub other_entry :
        (b j : ℕ)
        → b % 4096 ≡ 0
        → b ≢ a
        → j < 512
        → (b + offset + 8 * j == a + offset + 8 * i) ≡ false
    other_entry b j even ne h = let even_a = tree.levels.aligned a table in ground arith

    pub same_table :
        (b j : ℕ)
        → level b ≢ 0
        → j < 512
        → (b + offset + 8 * j == a + offset + 8 * i) ≡ true
        → b ≡ a
    same_table b j ne h s = elim (Bool-cases (b == a)) [
      | inl q ↦ (==_iff b a).0 q
      | inr d ↦
          absurd
            (cc (s, other_entry b j (tree.levels.aligned b ne) (λ q. cc (d, (==_iff b a).1 q)) h))
    ]

    -- So are those of a free frame.
    pub no_entry : (b : ℕ) → state_of rs b ≡ some false → (b + offset == a + offset + 8 * i) ≡ false
    no_entry b s = elim (Bool-cases (b + offset == a + offset + 8 * i)) [
      | inl q ↦
          let even = tree.levels.aligned a table in
          let there : b / 4096 * 4096 ≡ a =
            omega (arith, (==_iff (b + offset) (a + offset + 8 * i)).0 q) in
          absurd (table (rw there at (tree.clean.unused b s)))
      | inr d ↦ d
    ]
