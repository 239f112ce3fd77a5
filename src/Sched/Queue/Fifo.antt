-- ===== src/Sched/Queue/Fifo.antt =====
-- What the queue promises: a list of at most 256 items, oldest first.
use os_rust.Shared.{List, [], ◌∷◌, ◌++◌, Option, none, some, ltb, if◌then◌else◌, length}
use os_rust.Sched.Queue.{capacity, PushResult, pushed, rejected}

module _ {ℓ} {A : Type ℓ} where
  abbrev pub push : List A → A → PushResult A × List A
  push xs item =
      if ltb (length xs) capacity then (pushed, xs ++ (item ∷ [])) else (rejected item, xs)

  abbrev pub pop : List A → Option A × List A
  pop [] = (none, [])
  pop (x ∷ xs) = (some x, xs)
