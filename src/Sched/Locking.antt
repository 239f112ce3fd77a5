-- ===== src/Sched/Locking.antt =====
-- src/sched: the spin locks that the scheduler and thread creation take, in the order in which the code
-- takes them, on CPUs whose steps interleave. A lock is its flag; the data that it guards, and the wait
-- for the flag itself, are those of src/sync/spinlock.rs. A CPU does one locked section of the code after
-- another: a lock turns interrupts off, so a timer interrupt comes between two sections only.
pub mod Order
pub mod Steps
pub mod Invariant
pub mod Cost
pub mod Progress
pub mod Finish
mod Tests
use os_rust.Shared.{
  ℕ, ◌+◌, List, [], ◌∷◌, ◌++◌, Bool, true, false, Option, none, some, ◌==◌, ltb, if◌then◌else◌,
  get_elem?, set,
}
use os_rust.Sync.Spinlock.{compare_exchange}

-- The locks: `CPUS`, that of `FRAME_ALLOCATOR`, `GLOBAL_THREAD_TABLE`, the ready queue of a CPU, the
-- state of a thread, and `GLOBAL_TERMINAL`.
pub data Lock : Type 0 where
  cpus : Lock
  frame_allocator : Lock
  thread_table : Lock
  ready_queue : ℕ → Lock
  sched_state : ℕ → Lock
  terminal : Lock

abbrev pub same : Lock → Lock → Bool
same cpus cpus = true
same frame_allocator frame_allocator = true
same thread_table thread_table = true
same (ready_queue i) (ready_queue j) = i == j
same (sched_state t) (sched_state u) = t == u
same terminal terminal = true
same _ _ = false

-- `lock`, the drop of the guard that was made last, the push of a thread on a ready queue, and the turn
-- of the loop of `do_load_balance` that moves a thread.
pub data Action : Type 0 where
  lock : Lock → Action
  drop_guard : Action
  push : ℕ → Action
  move : ℕ → Action

-- `println!`
unfoldable pub log_section : List Action
log_section = lock terminal ∷ drop_guard ∷ []

-- `switch`
unfoldable pub switch_section : ℕ → List Action
switch_section cpu_id = lock (ready_queue cpu_id) ∷ drop_guard ∷ []

-- `get_cpu_tls`
unfoldable pub get_cpu_tls_section : List Action
get_cpu_tls_section = lock cpus ∷ drop_guard ∷ []

-- The loops of `do_load_balance`, over the threads that they move.
unfoldable pub move_section : List ℕ → List Action
move_section [] = []
move_section (t ∷ ts) = move t ∷ move_section ts

-- `do_load_balance`, which returns early where there is nothing to move.
unfoldable pub do_load_balance_section : List ℕ → List Action
do_load_balance_section [] = []
do_load_balance_section (t ∷ ts) = move_section (t ∷ ts) ++ log_section

-- `maybe_load_balance` once another CPU is found; the guards are dropped in reverse order.
unfoldable pub balance_section : ℕ → ℕ → List ℕ → List Action
balance_section cpu_id other_cpu_id moved =
    if cpu_id == other_cpu_id
    then []
    else if ltb cpu_id other_cpu_id
    then lock (ready_queue cpu_id)
      ∷ lock (ready_queue other_cpu_id)
      ∷ (do_load_balance_section moved ++ (drop_guard ∷ drop_guard ∷ []))
    else lock (ready_queue other_cpu_id)
      ∷ lock (ready_queue cpu_id)
      ∷ (do_load_balance_section moved ++ (drop_guard ∷ drop_guard ∷ []))

-- `alloc` and `dealloc` of the frame allocator
unfoldable pub alloc_section : List Action
alloc_section = lock frame_allocator ∷ drop_guard ∷ []

-- `GLOBAL_THREAD_TABLE.lock().add_thread(thread)`
unfoldable pub add_thread_section : List Action
add_thread_section = lock thread_table ∷ drop_guard ∷ []

-- `ready`
unfoldable pub ready_section : ℕ → ℕ → List Action
ready_section cpu_id t =
    lock (sched_state t) ∷ lock (ready_queue cpu_id) ∷ push t ∷ drop_guard ∷ drop_guard ∷ []

-- `GLOBAL_THREAD_TABLE.lock().get_thread_mut(id).unwrap().ready()`
unfoldable pub make_ready_section : ℕ → ℕ → List Action
make_ready_section cpu_id t = lock thread_table ∷ (ready_section cpu_id t ++ (drop_guard ∷ []))

-- What a CPU may do between two points at which it holds no lock.
pub data Section : Type 0 where
  switch : Section
  get_cpu_tls : Section
  balance : (other_cpu_id : ℕ) (moved : List ℕ) → Section
  alloc : Section
  add_thread : Section
  make_ready : (t : ℕ) → Section
  log : Section

unfoldable pub actions : ℕ → Section → List Action
actions cpu_id switch = switch_section cpu_id
actions cpu_id get_cpu_tls = get_cpu_tls_section
actions cpu_id (balance other moved) = balance_section cpu_id other moved
actions cpu_id alloc = alloc_section
actions cpu_id add_thread = add_thread_section
actions cpu_id (make_ready t) = make_ready_section cpu_id t
actions cpu_id log = log_section

unfoldable pub program : ℕ → List Section → List Action
program cpu_id [] = []
program cpu_id (s ∷ sections) = actions cpu_id s ++ program cpu_id sections

-- A CPU: the guards that it owns, the last one first, and what it has still to do.
pub record Task : Type 0 where
  pub guards : List Lock
  pub todo : List Action

-- The locks' flags, the threads that have been pushed on a ready queue, and the CPUs.
pub record System : Type 0 where
  pub locked : Lock → Bool
  pub pushed : ℕ → Bool
  pub tasks : List Task

abbrev pub update : (Lock → Bool) → Lock → Bool → Lock → Bool
update locked l v m = if same m l then v else locked m

abbrev pub mark : (ℕ → Bool) → ℕ → ℕ → Bool
mark pushed t u = if u == t then true else pushed u

-- One round of the loop of `lock`: what is left to do is `todo` if the lock is taken, else `again`.
abbrev pub try_lock :
    (Lock → Bool) → Lock → List Action → List Action → List Lock → (Lock → Bool) × Task
try_lock locked l todo again guards =
    let (taken, flag) = compare_exchange (locked l) in
    (
      update locked l flag,
      if taken
          then record { guards = l ∷ guards; todo = todo }
          else record { guards = guards; todo = again },
    )

-- One action. A thread that is on no queue yet is not popped, so it is not moved; one that is moved has
-- its state locked, and the guard dropped at once.
unfoldable pub act :
    (Lock → Bool) → (ℕ → Bool) → List Action → List Lock → (Lock → Bool) × (ℕ → Bool) × Task
act locked pushed [] guards = (locked, pushed, record { guards = guards; todo = [] })
act locked pushed (lock l ∷ todo) guards =
    let (locked', t) = try_lock locked l todo (lock l ∷ todo) guards in (locked', pushed, t)
act locked pushed (drop_guard ∷ todo) [] = (locked, pushed, record { guards = []; todo = todo })
act locked pushed (drop_guard ∷ todo) (l ∷ guards) =
    (update locked l false, pushed, record { guards = guards; todo = todo })
act locked pushed (push t ∷ todo) guards =
    (locked, mark pushed t, record { guards = guards; todo = todo })
act locked pushed (move t ∷ todo) guards =
    let (locked', task) =
      try_lock locked (sched_state t) (drop_guard ∷ todo) (move t ∷ todo) guards in
    if pushed t
    then (locked', pushed, task)
    else (locked, pushed, record { guards = guards; todo = todo })

unfoldable pub step_at : System → ℕ → Option Task → System
step_at s i none = s
step_at s i (some t) =
    let (locked, pushed, t') = act s.locked s.pushed t.todo t.guards in
    record { locked = locked; pushed = pushed; tasks = set s.tasks i t' }

unfoldable pub step : System → ℕ → System
step s i = step_at s i (get_elem? s.tasks i)

unfoldable pub run : System → List ℕ → System
run s [] = s
run s (i ∷ schedule) = run (step s i) schedule

-- The CPU of each number, counted from `i`, with its sections.
unfoldable pub tasks_from : ℕ → List (List Section) → List Task
tasks_from i [] = []
tasks_from i (sections ∷ rest) =
    record { guards = []; todo = program i sections } ∷ tasks_from (i + 1) rest

-- `pushed` tells which threads are in the queues at the start.
unfoldable pub start : (ℕ → Bool) → List (List Section) → System
start pushed work = record { locked = λ l. false; pushed = pushed; tasks = tasks_from 0 work }
