-- ===== src/Sched/Closure/Captures.antt =====
-- What a spawned closure is called with.
use os_rust.Shared.{ℕ, suc, ◌+◌, ◌^◌, ◌≤◌, ◌≡◌, List, ◌∷◌, some, arith, length, get_elem?}
use os_rust.Arch.Words.{Words, write_struct}
use os_rust.Sched.Closure.{read_words, write_closure, thread_trampoline}

-- The trampoline of a spawned closure that captured at least one word calls the closure's code, but
-- with words that begin with the data half of the fat pointer, the address 64 bytes into the page,
-- whatever the closure captured.
pub thread_trampoline_captures :
    (m : Words) (page vtable w : ℕ) (ws : List ℕ)
    → page + 4096 ≤ 2 ^ 64
    → let called =
        thread_trampoline (write_closure m page vtable (w ∷ ws)) page (suc (length ws)) in
      (called.0 ≡ vtable) × (get_elem? called.1 0 ≡ some (page + 64))
unfolding thread_trampoline write_closure read_words write_struct
thread_trampoline_captures m page vtable w ws h = (ground arith, ground arith)
