-- ===== src/Sched/Balance/Shares.antt =====
-- Load balancing as sharing out two lists of threads.
use os_rust.Shared.{
  ℕ, ◌+◌, ◌-◌, ◌/◌, ◌≤◌, ◌≡◌, refl, ◌∙◌, List, [], ◌∷◌, ◌++◌, some, Bool, true, false, ◌||◌, ◌==◌,
  if◌then◌else◌, Outcome, ok, arith, length, length-append, take, drop, take-append-drop,
  length-take_of_le, sub64,
}
use mathlib.Core.List.{append_assoc, append-nil}
use native.Mathlib.Decide.{dec_le}
use os_rust.Sched.Queue.{Queue}
use os_rust.Sched.Queue.Refines.{Represents, pop_refines}
use os_rust.Sched.Switch.Turns.{push_or_panic-room}
use os_rust.Sched.Balance.{
  Store, set_cpu, move_threads, is_positive, abs, at_most_one, do_load_balance,
}

abbrev pub has : List ℕ → ℕ → Bool
has [] t = false
has (x ∷ xs) t = (t == x) || has xs t

-- The store after the threads of the list went to the CPU: their `cpu` is it, and nothing else
-- differs.
abbrev pub assigned : List ℕ → ℕ → Store → Store
assigned moved cpu_id store t =
    if has moved t then record (store t) { cpu = some cpu_id } else store t

-- The outcome of moving `moved` from the front of one queue to the end of the other.
pub record Moves (moved rest ys : List ℕ) (store : Store) (cpu_id : ℕ) (from to : Queue ℕ)
    (store' : Store) : Type 0 where
  pub from_holds : Represents from rest
  pub to_holds : Represents to (ys ++ moved)
  pub stored : (t : ℕ) → store' t ≡ assigned moved cpu_id store t

assigned-cons :
    (x : ℕ) (moved : List ℕ) (cpu_id : ℕ) (store : Store) (t : ℕ)
    → assigned moved cpu_id (set_cpu store x cpu_id) t ≡ assigned (x ∷ moved) cpu_id store t
unfolding set_cpu
assigned-cons x moved cpu_id store t = ground arith

move_threads_lem :
    (moved rest ys : List ℕ) (from to : Queue ℕ) (store : Store) (cpu_id : ℕ)
    → Represents from (moved ++ rest)
    → Represents to ys
    → length ys + length moved ≤ 256
    → (from' : Queue ℕ) × (to' : Queue ℕ) × (store' : Store) × (move_threads
          (length moved)
          from
          to
          store
          cpu_id
        ≡ ok (from', to', store'))
      × Moves moved rest ys store cpu_id from' to' store'
unfolding move_threads
move_threads_lem [] rest ys from to store cpu_id rf rt h = (
  from,
  to,
  store,
  refl,
  record { from_holds = rf; to_holds = rw append-nil rt; stored = λ t. refl },
)
move_threads_lem (x ∷ moved) rest ys from to store cpu_id rf rt h =
    let (from₁, e₁, rf₁) = pop_refines from (x ∷ moved ++ rest) rf in
    let (to₁, e₂, rt₁) = push_or_panic-room to ys x rt (omega arith) in
    let (from', to', store', e, m) =
      move_threads_lem moved rest (ys ++ (x ∷ [])) from₁ to₁ (set_cpu store x cpu_id) cpu_id rf₁ rt₁
        (omega (arith, length-append {0} ys (x ∷ []))) in
    (
      from',
      to',
      store',
      rw (e₁, e₂, e),
      record {
        from_holds = m.from_holds;
        to_holds = rw append_assoc at m.to_holds;
        stored = λ t. m.stored t ∙ assigned-cons x moved cpu_id store t;
      },
    )

-- How many threads go from a queue of `m` to one of `n`.
abbrev pub excess : ℕ → ℕ → ℕ
excess m n = (m - n) / 2

-- What is left of the list that gives, and what the one that takes becomes.
abbrev pub kept : List ℕ → List ℕ → List ℕ
kept xs ys = drop (excess (length xs) (length ys)) xs

abbrev pub given : List ℕ → List ℕ → List ℕ
given xs ys = take (excess (length xs) (length ys)) xs

module _ (from to : Queue ℕ) (xs ys : List ℕ) (store : Store) (cpu_id : ℕ) (rf : Represents from xs)
    (rt : Represents to ys) where
  move_excess :
      length ys ≤ length xs
      → (from' : Queue ℕ) × (to' : Queue ℕ) × (store' : Store) × (move_threads
            (excess (length xs) (length ys))
            from
            to
            store
            cpu_id
          ≡ ok (from', to', store'))
        × Moves (given xs ys) (kept xs ys) ys store cpu_id from' to' store'
  move_excess h =
      let n : ℕ = excess (length xs) (length ys) in
      let e : length (given xs ys) ≡ n = length-take_of_le n xs (omega arith) in
      rw e at (
        move_threads_lem (given xs ys) (kept xs ys) ys from to store cpu_id
          (rw (take-append-drop n xs) rf) rt (omega (arith, rf.bounded, e)))

-- What `do_load_balance` may return.
pub data Balanced (xs ys : List ℕ) (qa qb : Queue ℕ) (store : Store) (a b : ℕ)
    : Outcome (Queue ℕ × Queue ℕ × Store) → Type 0 where
  even :
      length xs ≤ length ys + 1
      → length ys ≤ length xs + 1
      → Balanced xs ys qa qb store a b (ok (qa, qb, store))
  forth :
      {qa' qb' : Queue ℕ} {store' : Store}
      → length ys + 2 ≤ length xs
      → Moves (given xs ys) (kept xs ys) ys store b qa' qb' store'
      → Balanced xs ys qa qb store a b (ok (qa', qb', store'))
  back :
      {qa' qb' : Queue ℕ} {store' : Store}
      → length xs + 2 ≤ length ys
      → Moves (given ys xs) (kept ys xs) xs store a qb' qa' store'
      → Balanced xs ys qa qb store a b (ok (qa', qb', store'))

module _ (qa qb : Queue ℕ) (xs ys : List ℕ) (store : Store) (a b : ℕ) (ra : Represents qa xs)
    (rb : Represents qb ys) where
  -- The `isize` arithmetic on the two lengths.
  delta_forth :
      length ys + 2 ≤ length xs
      → let delta = sub64 qa.len qb.len in
        (at_most_one (abs delta) ≡ false)
        × (is_positive delta ≡ true)
        × (abs delta / 2 ≡ excess (length xs) (length ys))
  delta_forth h = ground (arith, ra.counted, rb.counted, ra.bounded, rb.bounded)

  delta_back :
      length xs + 2 ≤ length ys
      → let delta = sub64 qa.len qb.len in
        (at_most_one (abs delta) ≡ false)
        × (is_positive delta ≡ false)
        × (abs delta / 2 ≡ excess (length ys) (length xs))
  delta_back h = ground (arith, ra.counted, rb.counted, ra.bounded, rb.bounded)

  delta_even :
      length xs ≤ length ys + 1
      → length ys ≤ length xs + 1
      → at_most_one (abs (sub64 qa.len qb.len)) ≡ true
  delta_even h k = ground (arith, ra.counted, rb.counted, ra.bounded, rb.bounded)

  -- Two queues whose lengths differ by one at most stay as they are. Otherwise half of the difference
  -- moves from the front of the longer queue to the end of the shorter one, and exactly the threads
  -- moved get the id of the CPU that they went to. No call panics.
  pub do_load_balance_lem : Balanced xs ys qa qb store a b (do_load_balance qa qb store a b)
  unfolding do_load_balance
  do_load_balance_lem = elim (dec_le (length ys + 2) (length xs)) [
    | yes h ↦
        let (big, up, n) = delta_forth h in
        let (qa', qb', store', e, m) = move_excess qa qb xs ys store b ra rb (omega arith) in
        rw (big, up, n, e) (forth h m)
    | no h ↦ elim (dec_le (length xs + 2) (length ys)) [
      | yes k ↦
          let (big, up, n) = delta_back k in
          let (qb', qa', store', e, m) = move_excess qb qa ys xs store a rb ra (omega arith) in
          rw (big, up, n, e) (back k m)
      | no k ↦ rw (delta_even (omega arith) (omega arith)) (even (omega arith) (omega arith))
    ]
  ]
