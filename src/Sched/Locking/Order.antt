-- ===== src/Sched/Locking/Order.antt =====
-- The code takes its locks in one order.
use os_rust.Shared.{
  ℕ, ◌+◌, ◌^◌, ◌<◌, ◌≡◌, List, [], ◌∷◌, ◌++◌, true, ◌==◌, ltb, if◌then◌else◌, Bool-cases, inl, inr,
  refl, ==_iff, arith, ltb→lt,
}
use mathlib.Core.List.{append_assoc}
use os_rust.Sched.Locking.{
  Lock, cpus, frame_allocator, thread_table, ready_queue, sched_state, terminal, Action, lock,
  drop_guard, push, move, log_section, switch_section, get_cpu_tls_section, move_section,
  do_load_balance_section, balance_section, alloc_section, add_thread_section, ready_section,
  make_ready_section, Section, switch, get_cpu_tls, balance, alloc, add_thread, make_ready, log,
  actions, program,
}

-- The order: the thread table, the state of a thread, the queues by CPU number, the terminal. The lock
-- of a state by `move` stands outside it.
abbrev pub rank : Lock → ℕ
rank cpus = 0
rank frame_allocator = 0
rank thread_table = 0
rank (sched_state t) = 1
rank (ready_queue i) = i + 2
rank terminal = 2 ^ 32 + 3

abbrev pub AllBelow : List Lock → ℕ → Type 0
AllBelow [] k = Unit
AllBelow (l ∷ ls) k = (rank l < k) × AllBelow ls k

-- How often the actions push a thread.
abbrev pub count_push : ℕ → List Action → ℕ
count_push t [] = 0
count_push t (lock l ∷ p) = count_push t p
count_push t (drop_guard ∷ p) = count_push t p
count_push t (push u ∷ p) = (if t == u then 1 else 0) + count_push t p
count_push t (move u ∷ p) = count_push t p

abbrev pub Awaits : Lock → List Action → Type 0
Awaits cpus p = Unit
Awaits frame_allocator p = Unit
Awaits thread_table p = Unit
Awaits (ready_queue i) p = Unit
Awaits (sched_state t) p = 0 < count_push t p
Awaits terminal p = Unit

-- Each thread whose state is among the guards is still to be pushed.
abbrev pub AllAwait : List Lock → List Action → Type 0
AllAwait [] p = Unit
AllAwait (l ∷ ls) p = Awaits l p × AllAwait ls p

-- With these guards, each lock that is taken ranks above all guards, no lock is taken between the push
-- of a thread and the drop of its state, and at the end all guards are dropped.
abbrev pub IsOrdered : List Action → List Lock → Type 0
IsOrdered [] [] = Unit
IsOrdered [] (l ∷ ls) = ⊥
IsOrdered (lock l ∷ p) ls =
    (rank l < 2 ^ 32 + 4) × AllBelow ls (rank l) × AllAwait ls p × IsOrdered p (l ∷ ls)
IsOrdered (drop_guard ∷ p) [] = ⊥
IsOrdered (drop_guard ∷ p) (l ∷ ls) = IsOrdered p ls
IsOrdered (push t ∷ p) ls = IsOrdered p ls
IsOrdered (move t ∷ p) ls = AllAwait ls p × IsOrdered p ls

-- CPU numbers are `u32`.
abbrev pub Allowed : Section → Type 0
Allowed (balance other moved) = other < 2 ^ 32
Allowed _ = Unit {0}

abbrev pub AllAllowed : List Section → Type 0
AllAllowed [] = Unit
AllAllowed (s ∷ sections) = Allowed s × AllAllowed sections

move-IsOrdered :
    (ts : List ℕ) (p : List Action) (i j : ℕ)
    → IsOrdered p (ready_queue i ∷ ready_queue j ∷ [])
    → IsOrdered (move_section ts ++ p) (ready_queue i ∷ ready_queue j ∷ [])
unfolding move_section
move-IsOrdered [] p i j ordered = ordered
move-IsOrdered (t ∷ ts) p i j ordered = ((tt, (tt, tt)), move-IsOrdered ts p i j ordered)

do_load_balance-IsOrdered :
    (ts : List ℕ) (p : List Action) (i j : ℕ)
    → i < 2 ^ 32
    → j < 2 ^ 32
    → IsOrdered p (ready_queue i ∷ ready_queue j ∷ [])
    → IsOrdered (do_load_balance_section ts ++ p) (ready_queue i ∷ ready_queue j ∷ [])
unfolding do_load_balance_section log_section
do_load_balance-IsOrdered [] p i j hi hj ordered = ordered
do_load_balance-IsOrdered (t ∷ ts) p i j hi hj ordered =
    rw (append_assoc (move_section (t ∷ ts)) log_section p) (
      move-IsOrdered (t ∷ ts) (log_section ++ p) i j
        (omega arith, (omega arith, (omega arith, tt)), (tt, (tt, tt)), ordered))

-- Two queues are locked, the lower number first.
pair-IsOrdered :
    (i j : ℕ) (ts : List ℕ) (p : List Action)
    → i < j
    → j < 2 ^ 32
    → IsOrdered p []
    → IsOrdered
        ((lock (ready_queue i)
            ∷ lock (ready_queue j)
            ∷ (do_load_balance_section ts ++ (drop_guard ∷ drop_guard ∷ [])))
          ++ p)
        []
pair-IsOrdered i j ts p first bound ordered =
    let two : List Action = drop_guard ∷ drop_guard ∷ [] in
    let last : IsOrdered ((do_load_balance_section ts ++ two) ++ p)
        (ready_queue j ∷ ready_queue i ∷ []) =
      rw (append_assoc (do_load_balance_section ts) two p)
        (do_load_balance-IsOrdered ts (two ++ p) j i bound (omega arith) ordered) in
    (omega arith, tt, tt, (omega arith, (omega arith, tt), (tt, tt), last))

balance-IsOrdered :
    (i j : ℕ) (ts : List ℕ) (p : List Action)
    → i < 2 ^ 32
    → j < 2 ^ 32
    → IsOrdered p []
    → IsOrdered (balance_section i j ts ++ p) []
unfolding balance_section
balance-IsOrdered i j ts p hi hj ordered = elim (Bool-cases (i == j)) [
  | inl e ↦ rw e ordered
  | inr ne ↦ elim (Bool-cases (ltb i j)) [
    | inl e ↦ rw (ne, e) (pair-IsOrdered i j ts p (ltb→lt i j e) hj ordered)
    | inr e ↦ rw (ne, e) (pair-IsOrdered j i ts p (ground arith) hi ordered)
  ]
]

actions-IsOrdered :
    (i : ℕ) (s : Section) (p : List Action)
    → i < 2 ^ 32
    → Allowed s
    → IsOrdered p []
    → IsOrdered (actions i s ++ p) []
unfolding actions switch_section get_cpu_tls_section alloc_section add_thread_section
    make_ready_section ready_section log_section
actions-IsOrdered i switch p hi ok ordered = (omega arith, tt, tt, ordered)
actions-IsOrdered i get_cpu_tls p hi ok ordered = (omega arith, tt, tt, ordered)
actions-IsOrdered i (balance j ts) p hi ok ordered = balance-IsOrdered i j ts p hi ok ordered
actions-IsOrdered i alloc p hi ok ordered = (omega arith, tt, tt, ordered)
actions-IsOrdered i add_thread p hi ok ordered = (omega arith, tt, tt, ordered)
actions-IsOrdered i (make_ready t) p hi ok ordered =
    let own : (t == t) ≡ true = (==_iff t t).1 refl in
    (
      omega arith,
      tt,
      tt,
      (
        omega arith,
        (omega arith, tt),
        (tt, tt),
        (omega arith, (omega arith, (omega arith, tt)), (rw own (omega arith), (tt, tt)), ordered),
      ),
    )
actions-IsOrdered i log p hi ok ordered = (omega arith, tt, tt, ordered)

pub program-IsOrdered :
    (i : ℕ) (sections : List Section)
    → i < 2 ^ 32
    → AllAllowed sections
    → IsOrdered (program i sections) []
unfolding program
program-IsOrdered i [] hi ok = tt
program-IsOrdered i (s ∷ sections) hi (here, rest) =
    actions-IsOrdered i s (program i sections) hi here (program-IsOrdered i sections hi rest)
