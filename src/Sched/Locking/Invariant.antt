-- ===== src/Sched/Locking/Invariant.antt =====
-- What every step of the scheduler's locking keeps.
use os_rust.Shared.{
  ℕ, zero, suc, ◌+◌, ◌≤◌, ◌<◌, ◌≡◌, ◌≢◌, refl, sym, ◌∙◌, List, [], ◌∷◌, Bool, true, false, some,
  ◌==◌, if◌then◌else◌, Bool-cases, Option-cases, inl, inr, ◌⊎◌, arith, get_elem?, set,
  get_elem?-set_ne, ==_iff,
}
use mathlib.Core.Option.{some-injective}
use os_rust.Sched.Locking.{
  Lock, sched_state, same, Action, lock, drop_guard, push, move, mark, update, Task, System, step,
  run,
}
use os_rust.Sched.Locking.Steps.{
  same-eq, get_elem?-set, step_absent, step_end, step_taken, step_free, step_drop, step_pushed,
  step_skip, step_move_taken, step_move_free,
}
use os_rust.Sched.Locking.Order.{IsOrdered, AllBelow, rank, count_push, Awaits, AllAwait}

abbrev pub holds : Lock → List Lock → Bool
holds m [] = false
holds m (l ∷ ls) = if same m l then true else holds m ls

pub rank-holds :
    (m : Lock) (ls : List Lock) (k : ℕ) → holds m ls ≡ true → AllBelow ls k → rank m < k
rank-holds m [] k h below = absurd cc
rank-holds m (l ∷ ls) k h (here, below) = elim (Bool-cases (same m l)) [
  | inl e ↦ rw (same-eq m l e) here
  | inr ne ↦ rank-holds m ls k (rw ne at h) below
]

pub Awaits-holds :
    (m : Lock) (ls : List Lock) (p : List Action) → holds m ls ≡ true → AllAwait ls p → Awaits m p
Awaits-holds m [] p h awaits = absurd cc
Awaits-holds m (l ∷ ls) p h (here, awaits) = elim (Bool-cases (same m l)) [
  | inl e ↦ rw (same-eq m l e) here
  | inr ne ↦ Awaits-holds m ls p (rw ne at h) awaits
]

false≢true : false ≡ true → ⊥
false≢true e = cc

not_self : (i j : ℕ) → i ≡ j → (i == j) ≡ false → ⊥
not_self i j e ne = ground arith

-- How often the CPUs have still to push a thread.
abbrev pub pushes : ℕ → List Task → ℕ
pushes u [] = 0
pushes u (t ∷ ts) = count_push u t.todo + pushes u ts

abbrev pub once : Bool → ℕ
once b = if b then 1 else 0

pushes-set :
    (u : ℕ) (ts : List Task) (i : ℕ) (t t' : Task)
    → get_elem? ts i ≡ some t
    → pushes u (set ts i t') + count_push u t.todo ≡ pushes u ts + count_push u t'.todo
pushes-set u [] i t t' at = absurd cc
pushes-set u (v ∷ ts) zero t t' at = rw (some-injective v t at) (omega arith)
pushes-set u (v ∷ ts) (suc i) t t' at = omega (arith, pushes-set u ts i t t' at)

pub count_push-le :
    (u : ℕ) (ts : List Task) (i : ℕ) (t : Task)
    → get_elem? ts i ≡ some t
    → count_push u t.todo ≤ pushes u ts
count_push-le u [] i t at = absurd cc
count_push-le u (v ∷ ts) zero t at = rw (some-injective v t at) (omega arith)
count_push-le u (v ∷ ts) (suc i) t at = omega (arith, count_push-le u ts i t at)

-- Each CPU takes its locks in order from where it stands, a flag that is set is a guard of a CPU, and no
-- thread is pushed twice.
pub record Safe (s : System) : Type 0 where
  pub ordered : (i : ℕ) (t : Task) → get_elem? s.tasks i ≡ some t → IsOrdered t.todo t.guards
  pub owned :
      (l : Lock)
      → s.locked l ≡ true
      → (i : ℕ) × (t : Task) × (get_elem? s.tasks i ≡ some t) × (holds l t.guards ≡ true)
  pub counted : (u : ℕ) → pushes u s.tasks + once (s.pushed u) ≤ 1

-- How the flags change where a CPU's guards change.
abbrev FlagsKept : (Lock → Bool) → (Lock → Bool) → List Lock → List Lock → Type 0
FlagsKept before after guards guards' =
    (m : Lock)
    → after m ≡ true
    → ((before m ≡ true) × (holds m guards ≡ true → holds m guards' ≡ true))
      ⊎ (holds m guards' ≡ true)

taken-FlagsKept :
    (locked : Lock → Bool) (l : Lock) (guards : List Lock)
    → FlagsKept locked (update locked l true) guards (l ∷ guards)
taken-FlagsKept locked l guards m h = elim (Bool-cases (same m l)) [
  | inl e ↦ inr (rw e refl)
  | inr ne ↦ inl (rw ne at h, λ k. rw ne k)
]

dropped-FlagsKept :
    (locked : Lock → Bool) (l : Lock) (guards : List Lock)
    → FlagsKept locked (update locked l false) (l ∷ guards) guards
dropped-FlagsKept locked l guards m h = elim (Bool-cases (same m l)) [
  | inl e ↦ absurd (false≢true (rw e at h))
  | inr ne ↦ inl (rw ne at h, λ k. rw ne at k)
]

same-FlagsKept : (locked : Lock → Bool) (guards : List Lock) → FlagsKept locked locked guards guards
same-FlagsKept locked guards m h = inl (h, λ k. k)

-- One CPU goes from `t` to `t'`.
Safe-set :
    (s : System) (i : ℕ) (t t' : Task) (locked : Lock → Bool) (pushed : ℕ → Bool)
    → Safe s
    → get_elem? s.tasks i ≡ some t
    → IsOrdered t'.todo t'.guards
    → FlagsKept s.locked locked t.guards t'.guards
    → ((u : ℕ) → count_push u t'.todo + once (pushed u) ≤ count_push u t.todo + once (s.pushed u))
    → Safe (record { locked = locked; pushed = pushed; tasks = set s.tasks i t' })
Safe-set s i t t' locked pushed safe at ord keep fewer = record {
  ordered = λ j u h. elim (Bool-cases (i == j)) [
    | inl e ↦
        let same_place : i ≡ j = (==_iff i j).0 e in
        let u_eq : t' ≡ u =
          some-injective t' u
            (sym (get_elem?-set s.tasks i t t' at) ∙ (rw (sym same_place) at h)) in
        rw (sym u_eq) ord
    | inr ne ↦
        let apart : i ≢ j = λ e. absurd (not_self i j e ne) in
        safe.ordered j u (sym (get_elem?-set_ne s.tasks i j t' apart) ∙ h)
  ];
  owned = λ m h. elim (keep m h) [
    | inr k ↦ (i, t', get_elem?-set s.tasks i t t' at, k)
    | inl (was, k) ↦ holder m k (safe.owned m was)
  ];
  counted = λ u. omega (arith, safe.counted u, fewer u, pushes-set u s.tasks i t t' at);
}
  where
    holder :
        (m : Lock)
        → (holds m t.guards ≡ true → holds m t'.guards ≡ true)
        → ((j : ℕ) × (u : Task) × (get_elem? s.tasks j ≡ some u) × (holds m u.guards ≡ true))
        → (j : ℕ) × (u : Task) × (get_elem? (set s.tasks i t') j ≡ some u)
          × (holds m u.guards ≡ true)
    holder m k (j, u, hu, hold) = elim (Bool-cases (i == j)) [
      | inl e ↦
          let same_place : i ≡ j = (==_iff i j).0 e in
          let u_eq : t ≡ u = some-injective t u (sym at ∙ (rw (sym same_place) at hu)) in
          (i, t', get_elem?-set s.tasks i t t' at, k (rw u_eq hold))
      | inr ne ↦
          let apart : i ≢ j = λ e. absurd (not_self i j e ne) in
          (j, u, get_elem?-set_ne s.tasks i j t' apart ∙ hu, hold)
    ]

pushed_once :
    (pushed : ℕ → Bool) (t u n : ℕ)
    → n + once (mark pushed t u) ≤ (if u == t then 1 else 0) + n + once (pushed u)
pushed_once pushed t u n = ground arith

act-Safe :
    (s : System) (i : ℕ) (todo : List Action) (guards : List Lock)
    → Safe s
    → get_elem? s.tasks i ≡ some (record { guards = guards; todo = todo })
    → Safe (step s i)
act-Safe s i [] guards safe at = rw (step_end s i guards at) safe
act-Safe s i (lock l ∷ todo) guards safe at =
    let (bound, below, awaits, rest) = safe.ordered i _ at in
    elim (Bool-cases (s.locked l)) [
      | inl taken ↦ rw (step_taken s i l todo guards at taken) safe
      | inr free ↦
          rw (step_free s i l todo guards at free) (
            Safe-set s i _ _ _ _ safe at rest (taken-FlagsKept s.locked l guards)
              (λ u. omega arith))
    ]
act-Safe s i (drop_guard ∷ todo) [] safe at = absurd (safe.ordered i _ at)
act-Safe s i (drop_guard ∷ todo) (l ∷ guards) safe at = rw (step_drop s i l todo guards at) (
    Safe-set s i _ _ _ _ safe at (safe.ordered i _ at) (dropped-FlagsKept s.locked l guards)
      (λ u. omega arith))
act-Safe s i (push t ∷ todo) guards safe at = rw (step_pushed s i t todo guards at) (
    Safe-set s i _ _ _ _ safe at (safe.ordered i _ at) (same-FlagsKept s.locked guards)
      (λ u. pushed_once s.pushed t u (count_push u todo)))
act-Safe s i (move t ∷ todo) guards safe at =
    let (awaits, rest) = safe.ordered i _ at in
    elim (Bool-cases (s.pushed t)) [
      | inr early ↦
          rw (step_skip s i t todo guards at early)
            (Safe-set s i _ _ _ _ safe at rest (same-FlagsKept s.locked guards) (λ u. omega arith))
      | inl late ↦ elim (Bool-cases (s.locked (sched_state t))) [
        | inl taken ↦ rw (step_move_taken s i t todo guards at late taken) safe
        | inr free ↦ rw (step_move_free s i t todo guards at late free) (
            Safe-set s i _ _ _ _ safe at rest (taken-FlagsKept s.locked (sched_state t) guards)
              (λ u. omega arith))
      ]
    ]

pub step-Safe : (s : System) (i : ℕ) → Safe s → Safe (step s i)
step-Safe s i safe = elim (Option-cases (get_elem? s.tasks i)) [
  | inl e ↦ rw (step_absent s i e) safe
  | inr (t, e) ↦ act-Safe s i t.todo t.guards safe e
]

pub run-Safe : (schedule : List ℕ) (s : System) → Safe s → Safe (run s schedule)
unfolding run
run-Safe [] s safe = safe
run-Safe (i ∷ schedule) s safe = run-Safe schedule (step s i) (step-Safe s i safe)
