-- ===== src/Sched/Locking/Steps.antt =====
-- What one step of a CPU does, by what the CPU has to do next.
use os_rust.Shared.{
  ℕ, zero, suc, ◌≡◌, refl, ap, ◌∙◌, List, [], ◌∷◌, Bool, true, false, none, some, Bool-cases, inl,
  inr, get_elem?, set, ==_iff,
}
use mathlib.Core.Path.{fun_ext, ap₂}
use os_rust.Sched.Locking.{
  Lock, cpus, frame_allocator, thread_table, ready_queue, sched_state, terminal, same, Action, lock,
  drop_guard, push, move, mark, Task, System, update, act, step_at, step,
}

pub same-eq : (l m : Lock) → same l m ≡ true → l ≡ m
same-eq cpus cpus h = refl
same-eq frame_allocator frame_allocator h = refl
same-eq thread_table thread_table h = refl
same-eq (ready_queue i) (ready_queue j) h = ap ready_queue ((==_iff i j).0 h)
same-eq (sched_state i) (sched_state j) h = ap sched_state ((==_iff i j).0 h)
same-eq terminal terminal h = refl
same-eq _ _ h = absurd cc

module _ {ℓ} {A : Type ℓ} where
  pub get_elem?-set :
      (xs : List A) (i : ℕ) (a v : A) → get_elem? xs i ≡ some a → get_elem? (set xs i v) i ≡ some v
  get_elem?-set [] i a v h = absurd cc
  get_elem?-set (x ∷ xs) zero a v h = refl
  get_elem?-set (x ∷ xs) (suc i) a v h = get_elem?-set xs i a v h

  pub set-get_elem? : (xs : List A) (i : ℕ) (a : A) → get_elem? xs i ≡ some a → set xs i a ≡ xs
  set-get_elem? [] i a h = refl
  set-get_elem? (x ∷ xs) zero a h = cc
  set-get_elem? (x ∷ xs) (suc i) a h = ap (◌∷◌ x) (set-get_elem? xs i a h)

module _ (s : System) (i : ℕ) where
  pub step_present : (t : Task) → get_elem? s.tasks i ≡ some t → step s i ≡ step_at s i (some t)
  unfolding step
  step_present t at = ap (step_at s i) at

  pub step_absent : get_elem? s.tasks i ≡ none → step s i ≡ s
  unfolding step step_at
  step_absent at = ap (step_at s i) at

  -- Nothing to do.
  pub step_end :
      (guards : List Lock)
      → get_elem? s.tasks i ≡ some (record { guards = guards; todo = [] })
      → step s i ≡ s
  unfolding step_at act
  step_end guards at = step_present _ at ∙ back (set-get_elem? s.tasks i _ at)
    where
      back :
          {ts : List Task}
          → ts ≡ s.tasks
          → record { locked = s.locked; pushed = s.pushed; tasks = ts } ≡ s
      back e =
          ap (λ (ts : List Task). record { locked = s.locked; pushed = s.pushed; tasks = ts }) e

  -- What a step does with the flags of a lock that is taken: nothing.
  unchanged :
      (l : Lock) (t : Task)
      → s.locked l ≡ true
      → get_elem? s.tasks i ≡ some t
      → record { locked = update s.locked l true; pushed = s.pushed; tasks = set s.tasks i t } ≡ s
  unchanged l t taken at =
      ap₂
        (λ (locked : Lock → Bool) (ts : List Task). record {
          locked = locked;
          pushed = s.pushed;
          tasks = ts;
        })
        (fun_ext same_flags) (set-get_elem? s.tasks i t at)
    where
      same_flags : (m : Lock) → update s.locked l true m ≡ s.locked m
      same_flags m = elim (Bool-cases (same m l)) [
        | inl e ↦ rw (e, same-eq m l e, taken) refl
        | inr ne ↦ rw ne refl
      ]

  -- The loop of `lock` goes round once more.
  pub step_taken :
      (l : Lock) (todo : List Action) (guards : List Lock)
      → get_elem? s.tasks i ≡ some (record { guards = guards; todo = lock l ∷ todo })
      → s.locked l ≡ true
      → step s i ≡ s
  unfolding step_at act
  step_taken l todo guards at taken = step_present _ at ∙ rw taken (unchanged l _ taken at)

  pub step_free :
      (l : Lock) (todo : List Action) (guards : List Lock)
      → get_elem? s.tasks i ≡ some (record { guards = guards; todo = lock l ∷ todo })
      → s.locked l ≡ false
      → step s i ≡ record {
        locked = update s.locked l true;
        pushed = s.pushed;
        tasks = set s.tasks i (record { guards = l ∷ guards; todo = todo });
      }
  unfolding step_at act
  step_free l todo guards at free = step_present _ at ∙ rw free refl

  pub step_drop :
      (l : Lock) (todo : List Action) (guards : List Lock)
      → get_elem? s.tasks i ≡ some (record { guards = l ∷ guards; todo = drop_guard ∷ todo })
      → step s i ≡ record {
        locked = update s.locked l false;
        pushed = s.pushed;
        tasks = set s.tasks i (record { guards = guards; todo = todo });
      }
  unfolding step_at act
  step_drop l todo guards at = step_present _ at

  pub step_pushed :
      (t : ℕ) (todo : List Action) (guards : List Lock)
      → get_elem? s.tasks i ≡ some (record { guards = guards; todo = push t ∷ todo })
      → step s i ≡ record {
        locked = s.locked;
        pushed = mark s.pushed t;
        tasks = set s.tasks i (record { guards = guards; todo = todo });
      }
  unfolding step_at act
  step_pushed t todo guards at = step_present _ at

  module _ (t : ℕ) (todo : List Action) (guards : List Lock)
      (at : get_elem? s.tasks i ≡ some (record { guards = guards; todo = move t ∷ todo })) where
    -- The thread is on no queue yet.
    pub step_skip :
        s.pushed t ≡ false
        → step s i ≡ record {
          locked = s.locked;
          pushed = s.pushed;
          tasks = set s.tasks i (record { guards = guards; todo = todo });
        }
    unfolding step_at act
    step_skip early = step_present _ at ∙ rw early refl

    pub step_move_taken : s.pushed t ≡ true → s.locked (sched_state t) ≡ true → step s i ≡ s
    unfolding step_at act
    step_move_taken late taken =
        step_present _ at ∙ rw (late, taken) (unchanged (sched_state t) _ taken at)

    pub step_move_free :
        s.pushed t ≡ true
        → s.locked (sched_state t) ≡ false
        → step s i ≡ record {
          locked = update s.locked (sched_state t) true;
          pushed = s.pushed;
          tasks =
              set s.tasks i (record { guards = sched_state t ∷ guards; todo = drop_guard ∷ todo });
        }
    unfolding step_at act
    step_move_free late free = step_present _ at ∙ rw (late, free) refl
