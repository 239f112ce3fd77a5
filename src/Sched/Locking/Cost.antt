-- ===== src/Sched/Locking/Cost.antt =====
-- The steps that are left to do, and which steps do one of them.
use os_rust.Shared.{
  ℕ, zero, suc, ◌+◌, ◌<◌, ◌≡◌, List, [], ◌∷◌, true, false, some, arith, get_elem?, set, length,
}
use mathlib.Core.Option.{some-injective}
use os_rust.Sched.Locking.{
  Lock, sched_state, Action, lock, drop_guard, push, move, Task, System, step,
}
use os_rust.Sched.Locking.Steps.{step_free, step_drop, step_pushed, step_skip, step_move_free}

-- The steps that the actions take; to move a thread takes two.
abbrev pub cost : List Action → ℕ
cost [] = 0
cost (lock l ∷ p) = suc (cost p)
cost (drop_guard ∷ p) = suc (cost p)
cost (push t ∷ p) = suc (cost p)
cost (move t ∷ p) = suc (suc (cost p))

-- What the CPUs have still to do, counted.
abbrev pub remaining : List Task → ℕ
remaining [] = 0
remaining (t ∷ ts) = cost t.todo + remaining ts

remaining-set :
    (ts : List Task) (i : ℕ) (t t' : Task)
    → get_elem? ts i ≡ some t
    → remaining (set ts i t') + cost t.todo ≡ remaining ts + cost t'.todo
remaining-set [] i t t' at = absurd cc
remaining-set (u ∷ ts) zero t t' at = rw (some-injective u t at) (omega arith)
remaining-set (u ∷ ts) (suc i) t t' at = omega (arith, remaining-set ts i t t' at)

pub length-of_some {ℓ} :
    {A : Type ℓ} (xs : List A) (i : ℕ) (a : A) → get_elem? xs i ≡ some a → i < length xs
length-of_some [] i a h = absurd cc
length-of_some (x ∷ xs) zero a h = omega arith
length-of_some (x ∷ xs) (suc i) a h = omega (arith, length-of_some xs i a h)

abbrev pub Advances : System → ℕ → Type 0
Advances s i = remaining (step s i).tasks < remaining s.tasks

abbrev pub SomeAdvances : System → Type 0
SomeAdvances s = (i : ℕ) × (i < length s.tasks) × Advances s i

module _ (s : System) (i : ℕ) (todo : List Action) (guards : List Lock) where
  pub free-Advances :
      (l : Lock)
      → get_elem? s.tasks i ≡ some (record { guards = guards; todo = lock l ∷ todo })
      → s.locked l ≡ false
      → Advances s i
  free-Advances l at free =
      rw (step_free s i l todo guards at free)
        (omega (arith, remaining-set s.tasks i _ (record { guards = l ∷ guards; todo = todo }) at))

  pub drop-Advances :
      (l : Lock)
      → get_elem? s.tasks i ≡ some (record { guards = l ∷ guards; todo = drop_guard ∷ todo })
      → Advances s i
  drop-Advances l at =
      rw (step_drop s i l todo guards at)
        (omega (arith, remaining-set s.tasks i _ (record { guards = guards; todo = todo }) at))

  pub push-Advances :
      (t : ℕ)
      → get_elem? s.tasks i ≡ some (record { guards = guards; todo = push t ∷ todo })
      → Advances s i
  push-Advances t at =
      rw (step_pushed s i t todo guards at)
        (omega (arith, remaining-set s.tasks i _ (record { guards = guards; todo = todo }) at))

  pub skip-Advances :
      (t : ℕ)
      → get_elem? s.tasks i ≡ some (record { guards = guards; todo = move t ∷ todo })
      → s.pushed t ≡ false
      → Advances s i
  skip-Advances t at early =
      rw (step_skip s i t todo guards at early)
        (omega (arith, remaining-set s.tasks i _ (record { guards = guards; todo = todo }) at))

  pub move-Advances :
      (t : ℕ)
      → get_elem? s.tasks i ≡ some (record { guards = guards; todo = move t ∷ todo })
      → s.pushed t ≡ true
      → s.locked (sched_state t) ≡ false
      → Advances s i
  move-Advances t at late free =
      let next : Task = record { guards = sched_state t ∷ guards; todo = drop_guard ∷ todo } in
      rw (step_move_free s i t todo guards at late free)
        (omega (arith, remaining-set s.tasks i _ next at))
