-- ===== src/Sched/Queue.antt =====
-- src/sched/thread.rs, `Queue`: a ring buffer of 256 slots. An unwritten slot is `none`. Reading one
-- (`assume_init_read`) is undefined behaviour, which is a panic here: what is proved not to panic
-- does not do it either.
pub mod Fifo
pub mod Refines
use os_rust.Shared
use os_rust.Shared.{
  ℕ, ◌+◌, ◌-◌, ◌%◌, List, Option, none, some, Outcome, ok, ◌>>=◌, index, unwrap, replicate, ◌==◌,
  if◌then◌else◌, length, panic, ltb, set,
}

abbrev pub capacity : ℕ
capacity = 256

pub record Queue {ℓ} (A : Type ℓ) : Type ℓ where
  pub slots : List (Option A)
  pub head : ℕ
  pub tail : ℕ
  pub len : ℕ

-- `Result<(), T>`
pub data PushResult {ℓ} (A : Type ℓ) : Type ℓ where
  pushed : PushResult A
  rejected : A → PushResult A

module _ {ℓ} {A : Type ℓ} where
  unfoldable pub new : Queue A
  new = record { slots = replicate capacity none; head = 0; tail = 0; len = 0 }

  -- `self.data[self.tail].write(item)`: out of bounds it panics.
  abbrev pub write_slot : List (Option A) → ℕ → A → Outcome (List (Option A))
  write_slot slots i item = if ltb i (length slots) then ok (set slots i (some item)) else panic

  -- `len` is below 256 where it grows, and `head` and `tail` where they are used as indices, so
  -- the sums cannot wrap.
  unfoldable pub push : Queue A → A → Outcome (PushResult A × Queue A)
  push q item = if q.len == capacity then ok (rejected item, q) else do
    slots' ← write_slot q.slots q.tail item
    ok (pushed, record q { slots = slots'; tail = (q.tail + 1) % capacity; len = q.len + 1 })

  unfoldable pub pop : Queue A → Outcome (Option A × Queue A)
  pop q = if q.len == 0 then ok (none, q) else do
    slot ← index q.slots q.head
    item ← unwrap slot
    ok (some item, record q { head = (q.head + 1) % capacity; len = q.len - 1 })
