-- ===== src/Sched/Locking/Progress.antt =====
-- Some CPU can always go on: from a CPU that waits to the owner of the lock, whose next lock is higher.
use os_rust.Shared.{
  ℕ, zero, suc, ◌+◌, ◌^◌, ◌≤◌, ◌<◌, ◌≡◌, List, [], ◌∷◌, true, some, Bool-cases, Option-cases, inl,
  inr, ◌⊎◌, arith, get_elem?,
}
use os_rust.Sched.Locking.{
  Lock, sched_state, Action, lock, drop_guard, push, move, Task, System, step,
}
use os_rust.Sched.Locking.Order.{rank, count_push}
use os_rust.Sched.Locking.Steps.{step_absent, step_end, step_taken, step_move_taken}
use os_rust.Sched.Locking.Invariant.{
  Safe, holds, rank-holds, Awaits-holds, pushes, once, count_push-le,
}
use os_rust.Sched.Locking.Cost.{
  cost, Advances, SomeAdvances, length-of_some, free-Advances, drop-Advances, push-Advances,
  skip-Advances, move-Advances,
}

module _ (s : System) (safe : Safe s) where
  -- A step changes nothing or does something.
  task-cases :
      (i : ℕ) (todo : List Action) (guards : List Lock)
      → get_elem? s.tasks i ≡ some (record { guards = guards; todo = todo })
      → (step s i ≡ s) ⊎ Advances s i
  task-cases i [] guards at = inl (step_end s i guards at)
  task-cases i (lock l ∷ todo) guards at = elim (Bool-cases (s.locked l)) [
    | inl taken ↦ inl (step_taken s i l todo guards at taken)
    | inr free ↦ inr (free-Advances s i todo guards l at free)
  ]
  task-cases i (drop_guard ∷ todo) [] at = absurd (safe.ordered i _ at)
  task-cases i (drop_guard ∷ todo) (l ∷ guards) at = inr (drop-Advances s i todo guards l at)
  task-cases i (push t ∷ todo) guards at = inr (push-Advances s i todo guards t at)
  task-cases i (move t ∷ todo) guards at = elim (Bool-cases (s.pushed t)) [
    | inr early ↦ inr (skip-Advances s i todo guards t at early)
    | inl late ↦ elim (Bool-cases (s.locked (sched_state t))) [
      | inl taken ↦ inl (step_move_taken s i t todo guards at late taken)
      | inr free ↦ inr (move-Advances s i todo guards t at late free)
    ]
  ]

  pub step-cases : (i : ℕ) → (step s i ≡ s) ⊎ Advances s i
  step-cases i = elim (Option-cases (get_elem? s.tasks i)) [
    | inl e ↦ inl (step_absent s i e)
    | inr (t, e) ↦ task-cases i t.todo t.guards e
  ]

  -- A thread that is on a queue is not to be pushed again.
  not_again :
      (t i : ℕ) (u : Task)
      → s.pushed t ≡ true
      → get_elem? s.tasks i ≡ some u
      → 0 < count_push t u.todo
      → ⊥
  not_again t i u late at more =
      let counted : pushes t s.tasks + once true ≤ 1 = rw late at (safe.counted t) in
      absurd (omega (arith, counted, count_push-le t s.tasks i u at))

  -- The owner of the state of a thread that is on a queue is about to drop it.
  state_owner-Advances :
      (t i : ℕ) (todo : List Action) (guards : List Lock)
      → s.pushed t ≡ true
      → get_elem? s.tasks i ≡ some (record { guards = guards; todo = todo })
      → holds (sched_state t) guards ≡ true
      → SomeAdvances s
  state_owner-Advances t i [] [] late at owns = absurd cc
  state_owner-Advances t i [] (m ∷ guards) late at owns = absurd (safe.ordered i _ at)
  state_owner-Advances t i (drop_guard ∷ todo) [] late at owns = absurd cc
  state_owner-Advances t i (drop_guard ∷ todo) (m ∷ guards) late at owns =
      (i, length-of_some s.tasks i _ at, drop-Advances s i todo guards m at)
  state_owner-Advances t i (push u ∷ todo) guards late at owns =
      (i, length-of_some s.tasks i _ at, push-Advances s i todo guards u at)
  state_owner-Advances t i (lock l ∷ todo) guards late at owns =
      let (bound, below, awaits, rest) = safe.ordered i _ at in
      absurd (not_again t i _ late at (Awaits-holds (sched_state t) guards todo owns awaits))
  state_owner-Advances t i (move u ∷ todo) guards late at owns =
      let (awaits, rest) = safe.ordered i _ at in
      absurd (not_again t i _ late at (Awaits-holds (sched_state t) guards todo owns awaits))

  moving-Advances :
      (t i : ℕ) (todo : List Action) (guards : List Lock)
      → get_elem? s.tasks i ≡ some (record { guards = guards; todo = move t ∷ todo })
      → SomeAdvances s
  moving-Advances t i todo guards at =
      let inside = length-of_some s.tasks i _ at in
      elim (Bool-cases (s.pushed t)) [
        | inr early ↦ (i, inside, skip-Advances s i todo guards t at early)
        | inl late ↦ elim (Bool-cases (s.locked (sched_state t))) [
          | inr free ↦ (i, inside, move-Advances s i todo guards t at late free)
          | inl taken ↦
              let (j, u, hu, owns) = safe.owned (sched_state t) taken in
              state_owner-Advances t j u.todo u.guards late hu owns
        ]
      ]

  -- The owner of a lock advances, or it waits for a higher one.
  owner-Advances :
      (l : Lock) (i : ℕ) (todo : List Action) (guards : List Lock)
      → get_elem? s.tasks i ≡ some (record { guards = guards; todo = todo })
      → holds l guards ≡ true
      → ((l' : Lock) (rest : List Action)
          → get_elem? s.tasks i ≡ some (record { guards = guards; todo = lock l' ∷ rest })
          → rank l < rank l'
          → SomeAdvances s)
      → SomeAdvances s
  owner-Advances l i [] [] at owns waits = absurd cc
  owner-Advances l i [] (m ∷ guards) at owns waits = absurd (safe.ordered i _ at)
  owner-Advances l i (drop_guard ∷ todo) [] at owns waits = absurd cc
  owner-Advances l i (drop_guard ∷ todo) (m ∷ guards) at owns waits =
      (i, length-of_some s.tasks i _ at, drop-Advances s i todo guards m at)
  owner-Advances l i (push u ∷ todo) guards at owns waits =
      (i, length-of_some s.tasks i _ at, push-Advances s i todo guards u at)
  owner-Advances l i (move u ∷ todo) guards at owns waits = moving-Advances u i todo guards at
  owner-Advances l i (lock l' ∷ todo) guards at owns waits =
      let (bound, below, awaits, rest) = safe.ordered i _ at in
      waits l' todo at (rank-holds l guards _ owns below)

  -- `n` bounds how many locks rank above that which the CPU waits for.
  waiting-Advances :
      (n i : ℕ) (l : Lock) (todo : List Action) (guards : List Lock)
      → get_elem? s.tasks i ≡ some (record { guards = guards; todo = lock l ∷ todo })
      → 2 ^ 32 + 4 ≤ rank l + n
      → SomeAdvances s
  waiting-Advances zero i l todo guards at h = absurd (omega (arith, (safe.ordered i _ at).0))
  waiting-Advances (suc n) i l todo guards at h = elim (Bool-cases (s.locked l)) [
    | inr free ↦ (i, length-of_some s.tasks i _ at, free-Advances s i todo guards l at free)
    | inl taken ↦
        let (j, u, hu, owns) = safe.owned l taken in
        owner-Advances l j u.todo u.guards hu owns
          (λ l' rest at' higher. waiting-Advances n j l' rest u.guards at' (omega arith))
  ]

  task-Advances :
      (i : ℕ) (todo : List Action) (guards : List Lock)
      → get_elem? s.tasks i ≡ some (record { guards = guards; todo = todo })
      → 0 < cost todo
      → SomeAdvances s
  task-Advances i [] guards at more = absurd (omega arith)
  task-Advances i (lock l ∷ todo) guards at more =
      waiting-Advances (2 ^ 32 + 4) i l todo guards at (omega arith)
  task-Advances i (drop_guard ∷ todo) [] at more = absurd (safe.ordered i _ at)
  task-Advances i (drop_guard ∷ todo) (l ∷ guards) at more =
      (i, length-of_some s.tasks i _ at, drop-Advances s i todo guards l at)
  task-Advances i (push t ∷ todo) guards at more =
      (i, length-of_some s.tasks i _ at, push-Advances s i todo guards t at)
  task-Advances i (move t ∷ todo) guards at more = moving-Advances t i todo guards at

  -- A CPU that has something to do gives one that advances.
  pub unfinished-Advances :
      (i : ℕ) (t : Task) → get_elem? s.tasks i ≡ some t → 0 < cost t.todo → SomeAdvances s
  unfinished-Advances i t at more = task-Advances i t.todo t.guards at more
