-- ===== src/Sched/Switch/Turns.antt =====
-- The threads of one CPU take turns.
use os_rust.Shared.{
  ℕ, zero, suc, ◌<◌, ◌≡◌, refl, List, [], ◌∷◌, ◌++◌, not, ◌==◌, if◌then◌else◌, Bool-cases, inl, inr,
  Outcome, ok, ◌>>=◌, arith, length, lt→ltb,
}
use mathlib.Core.List.{append_assoc, append-nil}
use os_rust.Sched.Queue.{Queue}
use os_rust.Sched.Queue.Refines.{Represents, push_refines, pop_refines, pop-empty}
use os_rust.Sched.Switch.{push_or_panic, switch}
use os_rust.Arch.Cpu.{TlsData}

-- A push with room does not panic, and adds the item at the end.
pub push_or_panic-room {ℓ} :
    {A : Type ℓ} (q : Queue A) (xs : List A) (item : A)
    → Represents q xs
    → length xs < 256
    → (q' : Queue A) × (push_or_panic q item ≡ ok q') × Represents q' (xs ++ (item ∷ []))
unfolding push_or_panic
push_or_panic-room q xs item r h =
    let (q', e, r') = (rw (lt→ltb _ _ h) at (push_refines q xs item r)) in (q', rw e, r')

-- What goes back to the queue: the running thread, unless it is the idle one.
abbrev pub preempted : ℕ → ℕ → List ℕ
preempted idle_addr running = if running == idle_addr then [] else running ∷ []

-- The CPU runs the thread and holds the ready ones, oldest first.
pub record Runs (cpu : TlsData) (running : ℕ) (ready : List ℕ) : Type 0 where
  pub current : cpu.thread_addr ≡ running
  pub queued : Represents cpu.ready_queue ready

-- With no ready thread the running one goes on.
pub switch-empty :
    (idle_addr : ℕ) (cpu : TlsData) (running : ℕ)
    → Runs cpu running []
    → switch idle_addr cpu ≡ ok cpu
unfolding switch
switch-empty idle_addr cpu running s = rw (pop-empty cpu.ready_queue s.queued)

requeue :
    (idle_addr running : ℕ) (q : Queue ℕ) (ready : List ℕ)
    → Represents q ready
    → length ready < 256
    → (q' : Queue ℕ) × ((if not (running == idle_addr) then push_or_panic q running else ok q)
        ≡ ok q')
      × Represents q' (ready ++ preempted idle_addr running)
requeue idle_addr running q ready r h = elim (Bool-cases (running == idle_addr)) [
  | inl e ↦ rw e (q, refl, rw append-nil r)
  | inr e ↦ rw e (push_or_panic-room q ready running r h)
]

-- With a thread ready, `switch` returns: the oldest ready thread runs, and the one that ran waits
-- behind all others, if it is not the idle thread.
pub switch-next :
    (idle_addr : ℕ) (cpu : TlsData) (running next : ℕ) (ready : List ℕ)
    → Runs cpu running (next ∷ ready)
    → (cpu' : TlsData) × (switch idle_addr cpu ≡ ok cpu')
      × Runs cpu' next (ready ++ preempted idle_addr running)
unfolding switch
switch-next idle_addr cpu running next ready s =
    let (q, e, r) = pop_refines cpu.ready_queue (next ∷ ready) s.queued in
    let (q', e', r') =
      requeue idle_addr cpu.thread_addr q ready r (omega (arith, s.queued.bounded)) in
    (
      record cpu { ready_queue = q'; thread_addr = next },
      rw (e, e'),
      record { current = refl; queued = rw (← s.current) r' },
    )

-- A number of switches in a row, with no load balancing between them.
pub switches : ℕ → ℕ → TlsData → Outcome TlsData
switches idle_addr zero cpu = ok cpu
switches idle_addr (suc n) cpu = switch idle_addr cpu >>= switches idle_addr n

-- A thread that waits behind `n` others runs after `n + 1` switches in a row, with no load balancing
-- between them. No switch panics.
pub switches_turn :
    (idle_addr : ℕ) (cpu : TlsData) (running thread : ℕ) (before after : List ℕ)
    → Runs cpu running (before ++ (thread ∷ after))
    → (cpu' : TlsData) × (ready : List ℕ) × (switches idle_addr (suc (length before)) cpu ≡ ok cpu')
      × Runs cpu' thread ready
unfolding switches
switches_turn idle_addr cpu running thread [] after s =
    let (cpu', e, s') = switch-next idle_addr cpu running thread after s in (cpu', _, rw e, s')
switches_turn idle_addr cpu running thread (next ∷ before) after s =
    let (cpu₁, e₁, s₁) = switch-next idle_addr cpu running next (before ++ (thread ∷ after)) s in
    let (cpu₂, ready, e₂, s₂) =
      switches_turn idle_addr cpu₁ next thread before (after ++ preempted idle_addr running)
        (rw append_assoc at s₁) in
    (cpu₂, ready, rw (e₁, e₂), s₂)
