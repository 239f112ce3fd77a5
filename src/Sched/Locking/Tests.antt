-- ===== src/Sched/Locking/Tests.antt =====
-- Two CPUs that balance with each other; one makes a thread ready, which the other may move.
use os_rust.Shared.{
  ℕ, ◌==◌, ◌≡◌, refl, Bool, true, false, if◌then◌else◌, List, [], ◌∷◌, arith, replicate, zero, suc,
  ◌<◌, ◌≤◌,
}
use os_rust.Sched.Locking.{
  Section, switch, get_cpu_tls, balance, alloc, add_thread, make_ready, log, start, run, tasks_from,
  program, actions, switch_section, get_cpu_tls_section, balance_section, do_load_balance_section,
  move_section, alloc_section, add_thread_section, make_ready_section, ready_section, log_section,
}
use os_rust.Sched.Locking.Cost.{remaining}
use os_rust.Sched.Locking.Finish.{
  PushedOnce, AllCover, Finished, run_rounds, contains, work-Finished,
}

abbrev work : List (List Section)
work =
    (switch ∷ get_cpu_tls ∷ balance 1 (7 ∷ []) ∷ alloc ∷ add_thread ∷ make_ready 5 ∷ [])
    ∷ (get_cpu_tls ∷ balance 0 (5 ∷ 9 ∷ []) ∷ log ∷ [])
    ∷ []

-- Thread 5 is new.
abbrev pushed : ℕ → Bool
pushed t = if t == 5 then false else true

-- Each CPU holds one queue or waits for it.
abbrev schedule : List ℕ
schedule = 0 ∷ 0 ∷ 0 ∷ 0 ∷ 1 ∷ 1 ∷ 1 ∷ 0 ∷ 1 ∷ []

abbrev rounds : List (List ℕ)
rounds = replicate 40 (1 ∷ 0 ∷ [])

two_cpus : (j : ℕ) → j < 2 → contains (1 ∷ 0 ∷ []) j ≡ true
two_cpus zero h = refl
two_cpus (suc zero) h = refl
two_cpus (suc (suc j)) h = absurd (omega arith)

rounds_cover : (n : ℕ) → AllCover 2 (replicate n (1 ∷ 0 ∷ []))
rounds_cover zero = tt
rounds_cover (suc n) = (two_cpus, rounds_cover n)

few_actions : remaining (start pushed work).tasks ≤ 40
unfolding start tasks_from program actions switch_section get_cpu_tls_section balance_section
    do_load_balance_section move_section alloc_section add_thread_section make_ready_section
    ready_section log_section
few_actions = omega arith

work-PushedOnce : PushedOnce (start pushed work)
unfolding start tasks_from program actions switch_section get_cpu_tls_section balance_section
    do_load_balance_section move_section alloc_section add_thread_section make_ready_section
    ready_section log_section
work-PushedOnce u = ground arith

work-Finished_example : Finished (run_rounds (run (start pushed work) schedule) rounds)
work-Finished_example =
    work-Finished pushed work schedule rounds (omega arith)
      ((tt, (tt, (omega arith, (tt, (tt, (tt, tt)))))), ((tt, (omega arith, (tt, tt))), tt))
      work-PushedOnce (rounds_cover 40) few_actions
