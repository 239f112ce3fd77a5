-- ===== src/Sched/Spawn/Laws.antt =====
-- What `spawn_raw` does: the stack, the table, the ready queue, and where the thread starts.
use os_rust.Shared.{
  ℕ, ◌+◌, ◌-◌, ◌≤◌, ◌<◌, ◌≡◌, ◌⊎◌, inl, inr, refl, List, [], ◌∷◌, ◌++◌, none, some, ok, panic, set,
  set-set, arith, add64, length, get_elem?-set_self,
}
use os_rust.Memory.Addr.{AddrApi}
use os_rust.Memory.Region.{MemoryRegion}
use os_rust.Memory.Allocator.States.{AreValid}
use os_rust.Memory.Allocator.Alloc.{AreFull}
use os_rust.Memory.Pages.{IsMapped}
use os_rust.Arch.Words.{Words}
use os_rust.Sched.Registers.{Register, restore}
use os_rust.Sched.Queue.{Queue}
use os_rust.Sched.Queue.Refines.{Represents}
use os_rust.Sched.Switch.Turns.{push_or_panic-room}
use os_rust.Sched.Thread.{Thread, Stack, ThreadState}
use os_rust.Sched.Table.{get_thread_mut}
use os_rust.Sched.Table.Laws.{IsUnused, IsFull, FirstFree, FirstFree-lt, add_thread_lem}
use os_rust.Sched.Spawn.{Kernel, ready, make_ready, spawn_raw}
use os_rust.Sched.Spawn.Stacks.{start_context, NewStack, stack_new_lem, place_regs_lem}

-- The thread before `add_thread`, and after `ready`.
abbrev born_thread : ℕ → Stack → Thread
born_thread id s = record {
  regs = s.base + s.size - 160;
  id = id;
  kernel_stack = s;
  sched_state = record { cpu = none; state = ThreadState.born };
}

abbrev pub ready_thread : ℕ → ℕ → Stack → Thread
ready_thread cpu_id id s = record (born_thread id s) {
  sched_state = record { cpu = some cpu_id; state = ThreadState.ready };
}

-- The new stack `s`, and `m'`, which is `m` but for the registers at the top of the stack.
pub record Prepared (rs : List MemoryRegion) (offset entry arg : ℕ) (m : Words) (s : Stack)
    (rs' : List MemoryRegion) (m' : Words) : Type 0 where
  pub stack : NewStack rs offset 4 s rs'
  pub starts :
      (scratch : Register → ℕ)
      → restore scratch m' (s.base + s.size - 160) ≡ start_context entry arg (s.base + s.size)
  pub same : (a : ℕ) → (a < s.base + s.size - 160) ⊎ (s.base + s.size ≤ a) → m' a ≡ m a

-- The parts of the kernel that making the stack changes.
abbrev pub after : Kernel → List MemoryRegion → Words → Kernel
after k rs' m' = record k { frames = some rs'; memory = m'; next_id = add64 k.next_id 1 }

-- The thread has a slot of the table, and waits behind all others.
pub record Queued (slot_addr : ℕ → ℕ) (k : Kernel) (xs : List ℕ) (s : Stack)
    (rs' : List MemoryRegion) (m' : Words) (k' : Kernel) : Type 0 where
  pub slot : ℕ
  pub free : FirstFree k.table slot
  pub filled : k'.table ≡ set k.table slot (some (ready_thread k.cpu.cpu_id k.next_id s))
  pub cpu_same : k'.cpu ≡ record k.cpu { ready_queue = k'.cpu.ready_queue }
  pub rest : k' ≡ record (after k rs' m') { table = k'.table; cpu = k'.cpu }
  pub waits : Represents k'.cpu.ready_queue (xs ++ (slot_addr slot ∷ []))

module _ (x : AddrApi) (offset : ℕ) (slot_addr : ℕ → ℕ) where
  make_ready_lem :
      (k : Kernel) (xs : List ℕ) (i : ℕ) (id : ℕ) (t : Thread)
      → i < length k.table
      → get_thread_mut (set k.table i (some t)) id ≡ some i
      → Represents k.cpu.ready_queue xs
      → length xs < 256
      → (q : Queue ℕ) × (make_ready x offset slot_addr
            (record k { table = set k.table i (some t) })
            id
          ≡ ok (record k {
            table = set k.table i (
                some (record t {
                  sched_state = record { cpu = some k.cpu.cpu_id; state = ThreadState.ready };
                }));
            cpu = record k.cpu { ready_queue = q };
          }))
        × Represents q (xs ++ (slot_addr i ∷ []))
  unfolding make_ready ready
  make_ready_lem k xs i id t h found r room =
      let (q, e, r') = push_or_panic-room k.cpu.ready_queue xs (slot_addr i) r room in
      let at_slot = get_elem?-set_self k.table i (some t) h in
      (
        q,
        rw
            (
              found,
              at_slot,
              e,
              set-set k.table i (some t) (
                  some (record t {
                    sched_state = record { cpu = some k.cpu.cpu_id; state = ThreadState.ready };
                  })),
            )
            refl,
        r',
      )

  -- On valid regions that the direct map covers, with an id that no thread of the table has and room
  -- in the ready queue, `spawn_raw` does one of three things. Where no region has four free frames in
  -- a row it panics. Otherwise the new stack takes such frames, and a restore from the registers at its
  -- top starts at `entry` with `arg` and that stack. On a full table it then returns `None`, and those
  -- frames stay used. Else it returns the id, the thread is ready in the first free slot of the table,
  -- and it waits behind all threads of the ready queue.
  pub spawn_raw_lem :
      (entry arg : ℕ) (k : Kernel) (rs : List MemoryRegion) (xs : List ℕ)
      → k.frames ≡ some rs
      → AreValid rs
      → IsMapped offset rs
      → IsUnused k.table k.next_id
      → Represents k.cpu.ready_queue xs
      → length xs < 256
      → ((spawn_raw x offset slot_addr entry arg k ≡ panic) × AreFull rs 4)
        ⊎ ((s : Stack) × (rs' : List MemoryRegion) × (m' : Words) × Prepared rs offset entry arg
              k.memory s rs' m'
            × ((spawn_raw x offset slot_addr entry arg k ≡ ok (none, after k rs' m'))
                  × IsFull k.table
                ⊎ ((k' : Kernel) × (spawn_raw x offset slot_addr entry arg k
                      ≡ ok (some k.next_id, k'))
                    × Queued slot_addr k xs s rs' m' k')))
  unfolding spawn_raw
  spawn_raw_lem entry arg k rs xs held v mapped unused r room =
      elim (stack_new_lem x offset rs 4 v mapped (omega arith) (omega arith)) [
        | inr (run, full) ↦ inl (rw (held, run) refl, full)
        | inl (s, rs', run, stack) ↦
            let (m', placed, starts, same) =
              place_regs_lem x offset k.memory s entry arg
                (omega (arith, stack.aligned, stack.size_at)) (omega (arith, stack.size_at))
                stack.top_below in
            inr (
              s,
              rs',
              m',
              record { stack = stack; starts = starts; same = same },
              elim (add_thread_lem k.table (born_thread k.next_id s)) [
                | inr (add, full) ↦ inl (rw (held, run, placed, add) refl, full)
                | inl (i, add, first, found) ↦
                    let (q, made, waits) =
                      make_ready_lem (after k rs' m') xs i k.next_id (born_thread k.next_id s)
                        (FirstFree-lt k.table i first) (found unused) r room in
                    inr (
                      _,
                      rw (held, run, placed, add, made) refl,
                      record {
                        slot = i;
                        free = first;
                        filled = refl;
                        cpu_same = refl;
                        rest = refl;
                        waits = waits;
                      },
                    )
              ],
            )
      ]
