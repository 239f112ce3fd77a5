-- ===== src/Sched/Closure/Tests.antt =====
-- A closure that captured the words 3 and 4, on the page at 4096, with its code at 77.
use os_rust.Shared.{◌≡◌, [], ◌∷◌, some, get_elem?, arith}
use os_rust.Sched.Closure.{write_closure, thread_trampoline}
use os_rust.Sched.Closure.Captures.{thread_trampoline_captures}

thread_trampoline_captures_example :
    let called = thread_trampoline (write_closure (λ a. 0) 4096 77 (3 ∷ 4 ∷ [])) 4096 2 in
    (called.0 ≡ 77) × (get_elem? called.1 0 ≡ some 4160)
thread_trampoline_captures_example =
    thread_trampoline_captures (λ a. 0) 4096 77 3 (4 ∷ []) (omega arith)
