-- ===== src/Memory/Paging/Fresh.antt =====
-- A fresh frame linked into the tree of page tables, and a word written to a table of the last level.
use os_rust.Shared.{
  ℕ, suc, ◌+◌, ◌*◌, ◌/◌, ◌<◌, ◌≡◌, ◌≢◌, inl, inr, refl, ap, sym, ◌∙◌, List, true, false, some, ◌==◌,
  ==_iff, if◌then◌else◌, Bool-cases, arith,
}
use os_rust.Memory.Frame.{FrameRange}
use os_rust.Memory.Region.{MemoryRegion}
use os_rust.Memory.Allocator.States.{state_of, in_range}
use os_rust.Memory.Allocator.Alloc.{Effect}
use os_rust.Arch.Words.{Words, write}
use os_rust.Memory.Paging.{EntryApi}
use os_rust.Memory.Paging.Tables.{
  Levels, Clean, IsTree, Keeps, Leads, other_entry, same_table, no_entry,
}

module _ (offset : ℕ) (api : EntryApi) where
  -- A fresh frame linked below an entry of a table.
  module _ (level : ℕ → ℕ) (rs : List MemoryRegion) (m : Words)
      (tree : IsTree offset api level rs m) (a l i : ℕ) (at : level a ≡ suc (suc l))
      (inside : i < 512) (absent : api.is_present (m (a + offset + 8 * i)) ≡ false) (f : FrameRange)
      (rs' : List MemoryRegion) (e : Effect rs 1 f rs') (w : ℕ) (leads : api.addr w ≡ f.start)
      (present : api.is_present w ≡ true) where
    abbrev pub grown : ℕ → ℕ
    grown b = if b == f.start then suc l else level b

    free_word : (j : ℕ) → j < 4096 → state_of rs (f.start + j) ≡ some false
    free_word j h = e.was_free (f.start + j) (ground (arith, e.frames_count))

    pub start_free : state_of rs f.start ≡ some false
    start_free = e.was_free f.start (ground (arith, e.frames_count))

    fresh : level f.start ≡ 0
    fresh =
        let whole : f.start / 4096 * 4096 ≡ f.start = omega (arith, e.aligned) in
        rw whole at (tree.clean.unused f.start start_free)

    old_table : (b : ℕ) → level b ≢ 0 → (b == f.start) ≡ false
    old_table b ne = elim (Bool-cases (b == f.start)) [
      | inl s ↦ absurd (ne (ap level ((==_iff b f.start).0 s) ∙ fresh))
      | inr d ↦ d
    ]

    a_table : level a ≢ 0
    a_table z = absurd (omega arith)

    apart_tables : (b : ℕ) → level b ≢ 0 → b ≢ f.start
    apart_tables b ne s = ne (ap level s ∙ fresh)

    -- An entry of another table is another word.
    abbrev pub written : Words
    written = write m (a + offset + 8 * i) w

    grown-start : grown f.start ≡ suc l
    grown-start = let s = (==_iff f.start f.start).1 refl in rw s refl

    grown-old : (b : ℕ) → level b ≢ 0 → grown b ≡ level b
    grown-old b ne = rw (old_table b ne) refl

    pub kept : Keeps offset api level m grown written
    kept = record {
      entries = λ b p. elim (Bool-cases (b == a + offset + 8 * i)) [
        | inl s ↦ absurd (cc (p, ap m ((==_iff b (a + offset + 8 * i)).0 s), absent))
        | inr d ↦ rw d refl
      ];
      tables = grown-old;
    }

    pub led : Leads offset api grown written (a + offset + 8 * i) (suc l)
    led =
        let s = (==_iff (a + offset + 8 * i) (a + offset + 8 * i)).1 refl in
        record { present = rw s present; below = rw (s, leads) grown-start }

    -- The words of the fresh frame are not the entry's, and are not present.
    fresh_entry : (j : ℕ) → j < 512 → api.is_present (written (f.start + offset + 8 * j)) ≡ false
    fresh_entry j h =
        let other =
          other_entry offset api level rs m tree a i a_table inside f.start j e.aligned
            (λ s. apart_tables a a_table (sym s)) h in
        let place : f.start + offset + 8 * j ≡ f.start + 8 * j + offset = omega arith in
        rw (other, place) (tree.clean.cleared (f.start + 8 * j) (free_word (8 * j) (omega arith)))

    grown_children :
        (b k j : ℕ)
        → grown b ≡ suc (suc k)
        → j < 512
        → api.is_present (written (b + offset + 8 * j)) ≡ true
        → grown (api.addr (written (b + offset + 8 * j))) ≡ suc k
    grown_children b k j at_b h p = elim (Bool-cases (b == f.start)) [
      | inl s ↦ absurd (
          cc (
            p,
            ap (λ (c : ℕ). api.is_present (written (c + offset + 8 * j))) ((==_iff b f.start).0 s),
            fresh_entry j h,
          ))
      | inr d ↦ elim (Bool-cases (b + offset + 8 * j == a + offset + 8 * i)) [
        | inl s ↦
            let old_b : level b ≡ suc (suc k) = rw d at at_b in
            let same =
              same_table offset api level rs m tree a i a_table inside b j
                (λ z. absurd (omega arith)) h s in
            let level_a : level b ≡ suc (suc l) = ap level same ∙ at in
            rw (s, leads) (grown-start ∙ omega arith)
        | inr o ↦
            let below = tree.levels.children b k j (rw d at at_b) h (rw o at p) in
            rw o (grown-old (api.addr (m (b + offset + 8 * j))) (λ z. absurd (omega arith)) ∙ below)
      ]
    ]

    grown-Levels : Levels offset api grown written
    grown-Levels = record {
      aligned = λ b ne. elim (Bool-cases (b == f.start)) [
        | inl s ↦ rw ((==_iff b f.start).0 s) e.aligned
        | inr d ↦ tree.levels.aligned b (rw d at ne)
      ];
      reach = λ b ne. elim (Bool-cases (b == f.start)) [
        | inl s ↦ rw ((==_iff b f.start).0 s) (tree.clean.reach f.start start_free)
        | inr d ↦ tree.levels.reach b (rw d at ne)
      ];
      children = grown_children;
    }

    still_free :
        (b : ℕ)
        → state_of rs' b ≡ some false
        → (state_of rs b ≡ some false) × (in_range f b ≡ false)
    still_free b s = elim (Bool-cases (in_range f b)) [
      | inl h ↦ absurd (cc (s, e.state_after b, h))
      | inr h ↦ (cc (s, e.state_after b, h), h)
    ]

    grown-Clean : Clean offset api grown rs' written
    grown-Clean = record {
      valid = e.valid;
      reach = λ b s. tree.clean.reach b (still_free b s).0;
      unused = λ b s.
          let (free, out) = still_free b s in
          let far : (b / 4096 * 4096 == f.start) ≡ false =
            ground (arith, e.aligned, e.frames_count) in
          rw far (tree.clean.unused b free);
      cleared = λ b s.
          rw (no_entry offset api level rs m tree a i a_table inside b (still_free b s).0)
            (tree.clean.cleared b (still_free b s).0);
    }

    pub grown-IsTree : IsTree offset api grown rs' written
    grown-IsTree = record { levels = grown-Levels; clean = grown-Clean }

  -- A word written to an entry of a table of the last level.
  module _ (level : ℕ → ℕ) (rs : List MemoryRegion) (m : Words)
      (tree : IsTree offset api level rs m) (a i : ℕ) (at : level a ≡ 1) (inside : i < 512)
      (w : ℕ) where
    last_table : level a ≢ 0
    last_table z = absurd (omega arith)

    pub higher_entry :
        (b k j : ℕ)
        → level b ≡ suc (suc k)
        → j < 512
        → (b + offset + 8 * j == a + offset + 8 * i) ≡ false
    higher_entry b k j at_b h =
        other_entry offset api level rs m tree a i last_table inside b j
          (tree.levels.aligned b (λ z. absurd (omega arith)))
          (λ s. let q : level b ≡ 1 = ap level s ∙ at in absurd (omega arith)) h

    pub leaf-IsTree : IsTree offset api level rs (write m (a + offset + 8 * i) w)
    leaf-IsTree = record {
      levels = record {
        aligned = tree.levels.aligned;
        reach = tree.levels.reach;
        children = λ b k j at_b h p.
            let other = higher_entry b k j at_b h in
            rw other (tree.levels.children b k j at_b h (rw other at p));
      };
      clean = record {
        valid = tree.clean.valid;
        reach = tree.clean.reach;
        unused = tree.clean.unused;
        cleared = λ b s.
            rw (no_entry offset api level rs m tree a i last_table inside b s)
              (tree.clean.cleared b s);
      };
    }
