-- ===== src/Sched/Table.antt =====
-- src/sched/thread.rs, `ThreadTable`: 256 slots. A `&mut Thread` into the table is the number of its
-- slot.
pub mod Laws
use os_rust.Shared.{
  ℕ, zero, suc, ◌+◌, List, [], ◌∷◌, Option, none, some, Bool, true, false, replicate, ◌==◌,
  if◌then◌else◌,
}
use os_rust.Sched.Thread.{Thread}

abbrev pub ThreadTable : Type 0
ThreadTable = List (Option Thread)

unfoldable pub new : ThreadTable
new = replicate 256 none

-- The first free slot takes the thread.
unfoldable pub add_thread : ThreadTable → Thread → Bool × ThreadTable
add_thread [] t = (false, [])
add_thread (none ∷ slots) t = (true, some t ∷ slots)
add_thread (some u ∷ slots) t = let (added, slots') = add_thread slots t in (added, some u ∷ slots')

-- The first thread with the id, counting slots from `i`.
unfoldable pub find_from : ℕ → ThreadTable → ℕ → Option ℕ
find_from i [] id = none
find_from i (none ∷ slots) id = find_from (i + 1) slots id
find_from i (some t ∷ slots) id =
    let rest = find_from (i + 1) slots id in if t.id == id then some i else rest

unfoldable pub get_thread_mut : ThreadTable → ℕ → Option ℕ
unfolding find_from
get_thread_mut table id = find_from 0 table id
