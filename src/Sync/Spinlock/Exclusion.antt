-- ===== src/Sync/Spinlock/Exclusion.antt =====
-- Mutual exclusion, and the interrupt flag: off while the lock is held, and restored.
use os_rust.Shared.{
  ℕ, ◌≡◌, ◌≢◌, ◌⊎◌, refl, List, [], ◌∷◌, Bool, true, false, ◌==◌, if◌then◌else◌, Bool-cases, inl,
  inr, sym, ◌∙◌, ap, ==_iff,
}
use os_rust.Sync.Spinlock.{
  Place, outside, sampled, spinning, holding, unlocked, Cpu, System, advance, start, step, run,
}

abbrev pub holds_at_place : Place → Bool
holds_at_place (holding state) = true
holds_at_place _ = false

-- The CPU has the guard.
abbrev pub holds : Cpu → Bool
holds c = holds_at_place c.place

-- The interrupt flag and what the CPU remembers of it, where it was `flag` before `lock`.
abbrev pub Keeps : Bool → Place → Bool → Type 0
Keeps flag outside interrupts = interrupts ≡ flag
Keeps flag (sampled state) interrupts = (state ≡ flag) × (interrupts ≡ flag)
Keeps flag (spinning state) interrupts = (state ≡ flag) × (interrupts ≡ false)
Keeps flag (holding state) interrupts = (state ≡ flag) × (interrupts ≡ false)
Keeps flag (unlocked state) interrupts = (state ≡ flag) × (interrupts ≡ false)

-- At most one CPU holds the lock, its flag is set exactly while one does, and each CPU's interrupts
-- are as before `lock` outside of it and off inside.
pub record IsSafe (flags : ℕ → Bool) (s : System) : Type 0 where
  pub exclusive : (i j : ℕ) → holds (s.cpus i) ≡ true → holds (s.cpus j) ≡ true → i ≡ j
  pub locked : (i : ℕ) → holds (s.cpus i) ≡ true → s.lock ≡ true
  pub owned : s.lock ≡ true → (i : ℕ) × (holds (s.cpus i) ≡ true)
  pub keeps : (i : ℕ) → Keeps (flags i) (s.cpus i).place (s.cpus i).interrupts

pub start-IsSafe : (flags : ℕ → Bool) → IsSafe flags (start flags)
unfolding start
start-IsSafe flags = record {
  exclusive = λ i j h k. absurd cc;
  locked = λ i h. absurd cc;
  owned = λ h. absurd cc;
  keeps = λ i. refl;
}

-- What a step does to the lock's flag and to whether its CPU holds it.
data Turns (lock before lock' after : Bool) : Type 0 where
  stays : lock' ≡ lock → after ≡ before → Turns lock before lock' after
  takes :
      lock ≡ false → before ≡ false → lock' ≡ true → after ≡ true → Turns lock before lock' after
  frees : before ≡ true → lock' ≡ false → after ≡ false → Turns lock before lock' after

advance-Turns :
    (lock : Bool) (p : Place) (interrupts : Bool)
    → Turns lock
        (holds_at_place p)
        (advance lock p interrupts).0
        (holds (advance lock p interrupts).1)
unfolding advance
advance-Turns lock outside n = stays refl refl
advance-Turns lock (sampled b) n = stays refl refl
advance-Turns true (spinning b) n = stays refl refl
advance-Turns false (spinning b) n = takes refl refl refl refl
advance-Turns lock (holding b) n = frees refl refl refl
advance-Turns lock (unlocked b) n = stays refl refl

advance-Keeps :
    (flag lock : Bool) (p : Place) (interrupts : Bool)
    → Keeps flag p interrupts
    → Keeps flag (advance lock p interrupts).1.place (advance lock p interrupts).1.interrupts
unfolding advance
advance-Keeps flag lock outside n k = (k, k)
advance-Keeps flag lock (sampled b) n k = (k.0, refl)
advance-Keeps flag true (spinning b) n k = k
advance-Keeps flag false (spinning b) n k = k
advance-Keeps flag lock (holding b) n k = k
advance-Keeps flag lock (unlocked true) n k = k.0
advance-Keeps flag lock (unlocked false) n k = k.1 ∙ k.0

abbrev put : System → ℕ → Bool → Cpu → System
put s i lock cpu = record { lock = lock; cpus = λ j. if j == i then cpu else s.cpus j }

-- A CPU that holds the lock after a step is the one that moved, or held it before.
holder :
    (s : System) (i : ℕ) (lock : Bool) (cpu : Cpu) (j : ℕ)
    → holds ((put s i lock cpu).cpus j) ≡ true
    → ((j ≡ i) × (holds cpu ≡ true)) ⊎ ((j ≢ i) × (holds (s.cpus j) ≡ true))
holder s i lock cpu j h = elim (Bool-cases (j == i)) [
  | inl e ↦ inl ((==_iff j i).0 e, rw e at h)
  | inr e ↦ inr ((λ q. absurd (cc (e, (==_iff j i).1 q))), rw e at h)
]

module _ (flags : ℕ → Bool) (s : System) (i : ℕ) (lock : Bool) (cpu : Cpu)
    (v : IsSafe flags s) where
  put-exclusive :
      Turns s.lock (holds (s.cpus i)) lock (holds cpu)
      → (j k : ℕ) → holds ((put s i lock cpu).cpus j) ≡ true
      → holds ((put s i lock cpu).cpus k) ≡ true
      → j ≡ k
  put-exclusive t j k h g = elim (holder s i lock cpu j h) [
    | inl (a, b) ↦ elim (holder s i lock cpu k g) [
      | inl (c, d) ↦ a ∙ sym c
      | inr (c, d) ↦ elim t [
        | stays p q ↦ absurd (c (v.exclusive k i d (sym q ∙ b)))
        | takes p q r w ↦ absurd (cc (v.locked k d, p))
        | frees p q r ↦ absurd (cc (r, b))
      ]
    ]
    | inr (a, b) ↦ elim (holder s i lock cpu k g) [
      | inl (c, d) ↦ elim t [
        | stays p q ↦ absurd (a (v.exclusive j i b (sym q ∙ d)))
        | takes p q r w ↦ absurd (cc (v.locked j b, p))
        | frees p q r ↦ absurd (cc (r, d))
      ]
      | inr (c, d) ↦ v.exclusive j k b d
    ]
  ]

  put-locked :
      Turns s.lock (holds (s.cpus i)) lock (holds cpu)
      → (j : ℕ) → holds ((put s i lock cpu).cpus j) ≡ true
      → lock ≡ true
  put-locked t j h = elim t [
    | stays p q ↦ elim (holder s i lock cpu j h) [
      | inl (a, b) ↦ p ∙ v.locked i (sym q ∙ b)
      | inr (a, b) ↦ p ∙ v.locked j b
    ]
    | takes p q r w ↦ r
    | frees p q r ↦ elim (holder s i lock cpu j h) [
      | inl (a, b) ↦ absurd (cc (r, b))
      | inr (a, b) ↦ absurd (a (v.exclusive j i b p))
    ]
  ]

  mover : holds cpu ≡ true → holds ((put s i lock cpu).cpus i) ≡ true
  mover h = let same : (i == i) ≡ true = (==_iff i i).1 refl in rw same h

  put-owned :
      Turns s.lock (holds (s.cpus i)) lock (holds cpu)
      → lock ≡ true
      → (j : ℕ) × (holds ((put s i lock cpu).cpus j) ≡ true)
  put-owned t l = elim t [
    | stays p q ↦
        let (j, h) = v.owned (sym p ∙ l) in
        elim (Bool-cases (j == i)) [
          | inl e ↦ (i, mover (q ∙ ap (λ (n : ℕ). holds (s.cpus n)) (sym ((==_iff j i).0 e)) ∙ h))
          | inr e ↦ (j, rw e h)
        ]
    | takes p q r w ↦ (i, mover w)
    | frees p q r ↦ absurd (cc (q, l))
  ]

-- A step of any CPU keeps the lock safe.
pub step-IsSafe : (flags : ℕ → Bool) (s : System) (i : ℕ) → IsSafe flags s → IsSafe flags (step s i)
unfolding step
step-IsSafe flags s i v =
    let t = advance-Turns s.lock (s.cpus i).place (s.cpus i).interrupts in
    let (lock, cpu) = advance s.lock (s.cpus i).place (s.cpus i).interrupts in
    record {
      exclusive = put-exclusive flags s i lock cpu v t;
      locked = put-locked flags s i lock cpu v t;
      owned = put-owned flags s i lock cpu v t;
      keeps = λ j. elim (Bool-cases (j == i)) [
        | inl e ↦
            rw (e, (==_iff j i).0 e)
              (advance-Keeps (flags i) s.lock (s.cpus i).place (s.cpus i).interrupts (v.keeps i))
        | inr e ↦ rw e (v.keeps j)
      ];
    }

run_keeps :
    (flags : ℕ → Bool) (s : System) (schedule : List ℕ)
    → IsSafe flags s
    → IsSafe flags (run s schedule)
unfolding run
run_keeps flags s [] v = v
run_keeps flags s (i ∷ schedule) v = run_keeps flags (step s i) schedule (step-IsSafe flags s i v)

-- From a new lock, however the CPUs' steps are interleaved: at most one CPU holds the lock, the flag is
-- set exactly while one does, interrupts are off on a CPU from `disable` to the drop of its guard, and
-- afterwards they are as they were before.
pub run-IsSafe : (flags : ℕ → Bool) (schedule : List ℕ) → IsSafe flags (run (start flags) schedule)
run-IsSafe flags schedule = run_keeps flags (start flags) schedule (start-IsSafe flags)
