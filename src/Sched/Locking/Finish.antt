-- ===== src/Sched/Locking/Finish.antt =====
-- Where every CPU gets its turn again and again, all CPUs come to the end of their work.
use os_rust.Shared.{
  ℕ, zero, suc, ◌+◌, ◌^◌, ◌≤◌, ◌<◌, ◌≡◌, refl, sym, ap, ◌∙◌, List, [], ◌∷◌, Bool, true, false, some,
  ◌==◌, if◌then◌else◌, Bool-cases, Option-cases, inl, inr, arith, get_elem?, length, length-set,
  ==_iff,
}
use mathlib.Core.Option.{some-injective}
use os_rust.Sched.Locking.{
  Lock, Action, lock, drop_guard, push, move, Section, Task, System, step_at, step, run, tasks_from,
  start,
}
use os_rust.Sched.Locking.Order.{IsOrdered, AllAllowed, program-IsOrdered}
use os_rust.Sched.Locking.Steps.{step_absent, step_present}
use os_rust.Sched.Locking.Invariant.{Safe, holds, pushes, once, step-Safe, run-Safe}
use os_rust.Sched.Locking.Cost.{cost, remaining, Advances}
use os_rust.Sched.Locking.Progress.{step-cases, unfinished-Advances}

abbrev pub contains : List ℕ → ℕ → Bool
contains [] j = false
contains (i ∷ schedule) j = if i == j then true else contains schedule j

-- Each of the `n` CPUs has a step in each round.
abbrev pub AllCover : ℕ → List (List ℕ) → Type 0
AllCover n [] = Unit
AllCover n (round ∷ rounds) = ((j : ℕ) → j < n → contains round j ≡ true) × AllCover n rounds

abbrev pub run_rounds : System → List (List ℕ) → System
run_rounds s [] = s
run_rounds s (round ∷ rounds) = run_rounds (run s round) rounds

-- Nothing is left to do, no guard is owned and no lock is taken.
pub record Finished (s : System) : Type 0 where
  pub done : (i : ℕ) (t : Task) → get_elem? s.tasks i ≡ some t → (t.todo ≡ []) × (t.guards ≡ [])
  pub free : (l : Lock) → s.locked l ≡ false

length-step : (s : System) (i : ℕ) → length (step s i).tasks ≡ length s.tasks
unfolding step_at
length-step s i = elim (Option-cases (get_elem? s.tasks i)) [
  | inl e ↦ rw (step_absent s i e) refl
  | inr (t, e) ↦ rw (step_present s i t e) (length-set s.tasks i _)
]

length-run : (schedule : List ℕ) (s : System) → length (run s schedule).tasks ≡ length s.tasks
unfolding run
length-run [] s = refl
length-run (i ∷ schedule) s = length-run schedule (step s i) ∙ length-step s i

some_unfinished :
    (ts : List Task)
    → 0 < remaining ts
    → (i : ℕ) × (t : Task) × (get_elem? ts i ≡ some t) × (0 < cost t.todo)
some_unfinished [] h = absurd (omega arith)
some_unfinished (t ∷ ts) h = elim (Bool-cases (cost t.todo == 0)) [
  | inl e ↦ let (i, u, at, more) = some_unfinished ts (ground arith) in (suc i, u, at, more)
  | inr e ↦ (0, t, refl, ground arith)
]

no_guard : (l : Lock) → holds l [] ≡ true → ⊥
no_guard l h = cc

remaining_zero :
    (ts : List Task) (i : ℕ) (t : Task)
    → remaining ts ≤ 0
    → get_elem? ts i ≡ some t
    → cost t.todo ≤ 0
remaining_zero [] i t h at = absurd cc
remaining_zero (u ∷ ts) zero t h at = rw (sym (some-injective u t at)) (omega arith)
remaining_zero (u ∷ ts) (suc i) t h at = remaining_zero ts i t (omega arith) at

run-remaining :
    (schedule : List ℕ) (s : System) → Safe s → remaining (run s schedule).tasks ≤ remaining s.tasks
unfolding run
run-remaining [] s safe = omega arith
run-remaining (i ∷ schedule) s safe =
    let rest = run-remaining schedule (step s i) (step-Safe s i safe) in
    elim (step-cases s safe i) [ inl e ↦ same_place i e rest | inr less ↦ omega arith ]
  where
    same_place :
        (i' : ℕ)
        → step s i ≡ s
        → remaining (run (step s i) schedule).tasks ≤ remaining (step s i).tasks
        → remaining (run (step s i) schedule).tasks ≤ remaining s.tasks
    same_place i' e rest = rw (ap (λ (s' : System). remaining s'.tasks) e) at rest

round-Advances :
    (schedule : List ℕ) (s : System) (j : ℕ)
    → Safe s
    → contains schedule j ≡ true
    → Advances s j
    → remaining (run s schedule).tasks < remaining s.tasks
unfolding run
round-Advances [] s j safe inside more = absurd cc
round-Advances (i ∷ schedule) s j safe inside more = elim (step-cases s safe i) [
  | inr less ↦ omega (arith, run-remaining schedule (step s i) (step-Safe s i safe))
  | inl e ↦ elim (Bool-cases (i == j)) [
    | inl same ↦
        let again : step s j ≡ s = ap (step s) (sym ((==_iff i j).0 same)) ∙ e in
        absurd (omega (arith, more, ap (λ (s' : System). remaining s'.tasks) again))
    | inr ne ↦
        let later : remaining (run (step s i) schedule).tasks < remaining s.tasks =
          rw e (round-Advances schedule s j safe (rw ne at inside) more) in
        later
  ]
]

done-Finished : (s : System) → Safe s → remaining s.tasks ≤ 0 → Finished s
done-Finished s safe h = record {
  done = λ i t at. empty t.todo t.guards (remaining_zero s.tasks i t h at) (safe.ordered i t at);
  free = λ l. elim (Bool-cases (s.locked l)) [
    | inr e ↦ e
    | inl e ↦
        let (i, t, at, owns) = safe.owned l e in
        let none_left : t.guards ≡ [] =
          (empty t.todo t.guards (remaining_zero s.tasks i t h at) (safe.ordered i t at)).1 in
        absurd (no_guard l (rw none_left at owns))
  ];
}
  where
    empty :
        (todo : List Action) (guards : List Lock)
        → cost todo ≤ 0
        → IsOrdered todo guards
        → (todo ≡ []) × (guards ≡ [])
    empty [] [] h ord = (refl, refl)
    empty [] (l ∷ guards) h ord = absurd ord
    empty (lock l ∷ todo) guards h ord = absurd (omega arith)
    empty (drop_guard ∷ todo) guards h ord = absurd (omega arith)
    empty (push t ∷ todo) guards h ord = absurd (omega arith)
    empty (move t ∷ todo) guards h ord = absurd (omega arith)

rounds-Finished :
    (rounds : List (List ℕ)) (s : System)
    → Safe s
    → AllCover (length s.tasks) rounds
    → remaining s.tasks ≤ length rounds
    → Finished (run_rounds s rounds)
rounds-Finished [] s safe cover enough = done-Finished s safe enough
rounds-Finished (round ∷ rounds) s safe (here, cover) enough =
    rounds-Finished rounds (run s round) (run-Safe round s safe) (rw (length-run round s) cover)
      less
  where
    less : remaining (run s round).tasks ≤ length rounds
    less = elim (Bool-cases (remaining s.tasks == 0)) [
      | inl e ↦ ground (arith, run-remaining round s safe)
      | inr e ↦
          let (i, t, at, more) = some_unfinished s.tasks (ground arith) in
          let (j, inside, advances) = unfinished-Advances s safe i t at more in
          omega (arith, round-Advances round s j safe (here j inside) advances)
    ]

abbrev pub AllWork : List (List Section) → Type 0
AllWork [] = Unit
AllWork (sections ∷ work) = AllAllowed sections × AllWork work

length-tasks_from : (work : List (List Section)) (i : ℕ) → length (tasks_from i work) ≡ length work
unfolding tasks_from
length-tasks_from [] i = refl
length-tasks_from (sections ∷ work) i = ap suc (length-tasks_from work (i + 1))

length-start :
    (pushed : ℕ → Bool) (work : List (List Section))
    → length (start pushed work).tasks ≡ length work
unfolding start
length-start pushed work = length-tasks_from work 0

tasks_from-IsOrdered :
    (work : List (List Section)) (k i : ℕ) (t : Task)
    → k + length work ≤ 2 ^ 32
    → AllWork work
    → get_elem? (tasks_from k work) i ≡ some t
    → IsOrdered t.todo t.guards
unfolding tasks_from
tasks_from-IsOrdered [] k i t h ok at = absurd cc
tasks_from-IsOrdered (sections ∷ work) k zero t h (here, ok) at =
    rw (sym (some-injective _ t at)) (program-IsOrdered k sections (omega arith) here)
tasks_from-IsOrdered (sections ∷ work) k (suc i) t h (here, ok) at =
    tasks_from-IsOrdered work (k + 1) i t (omega arith) ok at

-- No thread is pushed twice: at most one CPU makes it ready, once, and only if it is on no queue.
abbrev pub PushedOnce : System → Type 0
PushedOnce s = (u : ℕ) → pushes u s.tasks + once (s.pushed u) ≤ 1

start-Safe :
    (pushed : ℕ → Bool) (work : List (List Section))
    → length work ≤ 2 ^ 32
    → AllWork work
    → PushedOnce (start pushed work)
    → Safe (start pushed work)
unfolding start
start-Safe pushed work h ok counted = record {
  ordered = λ i t at. tasks_from-IsOrdered work 0 i t (omega arith) ok at;
  owned = λ l e. absurd (not_yet e);
  counted = counted;
}
  where
    not_yet : false ≡ true → ⊥
    not_yet e = cc

-- At most 2^32 CPUs do their sections in any order, interleaved step by step; no thread is made ready
-- twice. Wherever the steps have led, if each CPU then gets a turn in each of as many rounds as there
-- are steps to do in all, every CPU does all its work, drops all guards and leaves all locks free: no
-- deadlock, whichever CPUs balance with which others and whichever threads they move.
pub work-Finished :
    (pushed : ℕ → Bool) (work : List (List Section)) (schedule : List ℕ) (rounds : List (List ℕ))
    → length work ≤ 2 ^ 32
    → AllWork work
    → PushedOnce (start pushed work)
    → AllCover (length work) rounds
    → remaining (start pushed work).tasks ≤ length rounds
    → Finished (run_rounds (run (start pushed work) schedule) rounds)
work-Finished pushed work schedule rounds h ok counted cover enough =
    rounds-Finished rounds (run (start pushed work) schedule)
      (run-Safe schedule (start pushed work) safe)
      (rw (length-run schedule (start pushed work), length-start pushed work) cover)
      (omega (arith, run-remaining schedule (start pushed work) safe))
  where
    safe : Safe (start pushed work)
    safe = start-Safe pushed work h ok counted
