-- ===== src/Sched/Closure.antt =====
-- src/sched/thread.rs, `spawn` and `thread_trampoline`: a closure on a page of its own. A closure is
-- the words that it captures; `vtable` names its code.
pub mod Captures
mod Tests
use os_rust.Shared.{
  ℕ, zero, suc, ◌+◌, ◌*◌, List, [], ◌∷◌, Option, Outcome, panic, ◌>>=◌, ◌>>◌, assert, ltb, add64,
  length,
}
use os_rust.Memory.Addr.{AddrApi}
use os_rust.Memory.Frame.{success, failure}
use os_rust.Memory.Allocator.{alloc_one}
use os_rust.Memory.Translate.{phys_to_virt}
use os_rust.Arch.Words.{Words, write_struct}
use os_rust.Sched.Spawn.{Kernel, spawn_raw}

-- `*(ptr as *mut F)`, for a closure of `n` words
unfoldable pub read_words : Words → ℕ → ℕ → List ℕ
read_words m a zero = []
read_words m a (suc n) = m a ∷ read_words m (a + 8) n

-- The writes of `spawn`: the closure behind the fat pointer to it.
unfoldable pub write_closure : Words → ℕ → ℕ → List ℕ → Words
write_closure m page vtable closure =
    let closure_slot = add64 page 64 in
    write_struct (write_struct m closure_slot closure) page (closure_slot ∷ vtable ∷ [])

-- `(*dyn_ptr).run_and_cleanup(arg)`: the code to call, and the words of the closure that it is called
-- with. The receiver, which is the first word of the fat pointer, is not used.
unfoldable pub thread_trampoline : Words → ℕ → ℕ → ℕ × List ℕ
thread_trampoline m arg n = let vtable = m (arg + 8) in (vtable, read_words m arg n)

-- `trampoline` is the address of `thread_trampoline`.
unfoldable pub spawn : AddrApi → ℕ → (ℕ → ℕ) → ℕ → ℕ → List ℕ → Kernel → Outcome (Option ℕ × Kernel)
spawn x offset slot_addr trampoline vtable closure k = do
  assert (ltb (8 * length closure) 4032)
  (result, frames) ← alloc_one x k.frames
  elim result [
    | failure e ↦ panic
    | success f ↦ do
      page_addr ← phys_to_virt x offset f.addr
      let memory = write_closure k.memory page_addr vtable closure
      spawn_raw x offset slot_addr trampoline page_addr
          (record k { frames = frames; memory = memory })
  ]
