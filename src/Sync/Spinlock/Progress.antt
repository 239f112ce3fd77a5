-- ===== src/Sync/Spinlock/Progress.antt =====
-- A CPU that spins can always get the lock.
use os_rust.Shared.{
  ℕ, ◌≡◌, ◌≢◌, refl, List, [], ◌∷◌, Bool, true, false, ◌==◌, Bool-cases, inl, inr, ap, ==_iff, ◌∙◌,
  length, ◌≤◌, arith,
}
use os_rust.Sync.Spinlock.{
  Place, outside, sampled, spinning, holding, unlocked, Cpu, System, advance, step, run,
}
use os_rust.Sync.Spinlock.Exclusion.{holds, holds_at_place, IsSafe}

guard_of : (p : Place) → holds_at_place p ≡ true → (state : Bool) × (p ≡ holding state)
guard_of (holding state) h = (state, refl)
guard_of outside h = absurd cc
guard_of (sampled state) h = absurd cc
guard_of (spinning state) h = absurd cc
guard_of (unlocked state) h = absurd cc

-- A round of the loop at a free lock takes it.
takes_free :
    (s : System) (i : ℕ) {state : Bool}
    → s.lock ≡ false
    → (s.cpus i).place ≡ spinning state
    → holds ((step s i).cpus i) ≡ true
unfolding step advance
takes_free s i free at_loop =
    let same : (i == i) ≡ true = (==_iff i i).1 refl in rw (same, at_loop, free) refl

-- The drop of the guard frees the lock.
drop_frees :
    (s : System) (i : ℕ) {state : Bool} → (s.cpus i).place ≡ holding state → (step s i).lock ≡ false
unfolding step advance
drop_frees s i at_drop = rw at_drop refl

others_stay : (s : System) (i j : ℕ) → j ≢ i → (step s i).cpus j ≡ s.cpus j
unfolding step
others_stay s i j ne = elim (Bool-cases (j == i)) [
  | inl e ↦ absurd (ne ((==_iff j i).0 e))
  | inr e ↦ rw e refl
]

-- In a safe state a CPU in the loop of `lock` can hold the lock after at most two steps.
pub spinning_takes :
    (flags : ℕ → Bool) (s : System) (i : ℕ) (state : Bool)
    → IsSafe flags s
    → (s.cpus i).place ≡ spinning state
    → (schedule : List ℕ) × (length schedule ≤ 2) × (holds ((run s schedule).cpus i) ≡ true)
unfolding run
spinning_takes flags s i state v at_loop = elim (Bool-cases s.lock) [
  | inr free ↦ (i ∷ [], omega arith, takes_free s i free at_loop)
  | inl taken ↦
      let (owner, h) = v.owned taken in
      let (kept, at_drop) = guard_of (s.cpus owner).place h in
      let other : i ≢ owner =
        λ e. absurd (cc (at_loop, at_drop, ap (λ (n : ℕ). (s.cpus n).place) e)) in
      let still = ap (λ (c : Cpu). c.place) (others_stay s owner i other) ∙ at_loop in
      (owner ∷ i ∷ [], omega arith, takes_free (step s owner) i (drop_frees s owner at_drop) still)
]
