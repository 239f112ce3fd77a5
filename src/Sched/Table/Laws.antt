-- ===== src/Sched/Table/Laws.antt =====
-- The thread table: where a thread goes, when the table is full, and that it is found again.
use os_rust.Shared.{
  ℕ, zero, suc, ◌+◌, ◌<◌, ◌≡◌, ◌≢◌, refl, ap, ◌∙◌, [], ◌∷◌, none, some, true, false, ◌⊎◌, inl, inr,
  get_elem?, arith, length, set,
}
use os_rust.Sched.Thread.{Thread}
use os_rust.Sched.Table.{ThreadTable, add_thread, find_from, get_thread_mut}

-- No thread of the table has the id.
abbrev pub IsUnused : ThreadTable → ℕ → Type 0
IsUnused [] id = Unit
IsUnused (none ∷ slots) id = IsUnused slots id
IsUnused (some t ∷ slots) id = (t.id ≢ id) × IsUnused slots id

-- Every slot is taken.
abbrev pub IsFull : ThreadTable → Type 0
IsFull table = (i : ℕ) → i < length table → (t : Thread) × (get_elem? table i ≡ some (some t))

-- The slots before `i` are taken and slot `i` is free.
abbrev pub FirstFree : ThreadTable → ℕ → Type 0
FirstFree [] i = ⊥
FirstFree (none ∷ slots) i = i ≡ 0
FirstFree (some t ∷ slots) zero = ⊥
FirstFree (some t ∷ slots) (suc i) = FirstFree slots i

pub FirstFree-lt : (table : ThreadTable) (i : ℕ) → FirstFree table i → i < length table
FirstFree-lt [] i f = elim f [ ]
FirstFree-lt (none ∷ slots) i f = omega arith
FirstFree-lt (some t ∷ slots) zero f = elim f [ ]
FirstFree-lt (some t ∷ slots) (suc i) f = omega (arith, FirstFree-lt slots i f)

find_from-unused :
    (slots : ThreadTable) (i id : ℕ) → IsUnused slots id → find_from i slots id ≡ none
unfolding find_from
find_from-unused [] i id h = refl
find_from-unused (none ∷ slots) i id h = find_from-unused slots (i + 1) id h
find_from-unused (some t ∷ slots) i id h = ground (arith, find_from-unused slots (i + 1) id h.1)

-- What `add_thread` does to the slots, and what `get_thread_mut` then finds.
pub record Added (table : ThreadTable) (t : Thread) (i : ℕ) (table' : ThreadTable) : Type 0 where
  pub first_free : FirstFree table i
  pub written : table' ≡ set table i (some t)
  pub found : IsUnused table t.id → (n : ℕ) → find_from n table' t.id ≡ some (n + i)

add_thread-cases :
    (table : ThreadTable) (t : Thread)
    → ((i : ℕ) × (table' : ThreadTable) × (add_thread table t ≡ (true, table'))
        × Added table t i table')
      ⊎ ((add_thread table t ≡ (false, table)) × IsFull table)
unfolding add_thread find_from
add_thread-cases [] t = inr (refl, λ i h. elim h [ ])
add_thread-cases (none ∷ slots) t = inl (
  0,
  some t ∷ slots,
  refl,
  record { first_free = refl; written = refl; found = λ h n. ground arith },
)
add_thread-cases (some u ∷ slots) t = elim (add_thread-cases slots t) [
  | inl (i, table', e, a) ↦ inl (
    suc i,
    some u ∷ table',
    rw e,
    record {
      first_free = a.first_free;
      written = ap (λ s. some u ∷ s) a.written;
      found = λ h n. ground (arith, a.found h.1 (n + 1));
    },
  )
  | inr (e, full) ↦ inr (rw e, full_cons full)
]
  where
    full_cons : IsFull slots → IsFull (some u ∷ slots)
    full_cons full zero h = (u, refl)
    full_cons full (suc i) h = full i (omega arith)

-- `add_thread` fails exactly when the table is full, and leaves it then unchanged. Otherwise it
-- writes the thread to the first free slot, and if no thread had its id, `get_thread_mut` returns
-- that slot.
pub add_thread_lem :
    (table : ThreadTable) (t : Thread)
    → ((i : ℕ) × (add_thread table t ≡ (true, set table i (some t)))
        × FirstFree table i
        × (IsUnused table t.id → get_thread_mut (set table i (some t)) t.id ≡ some i))
      ⊎ ((add_thread table t ≡ (false, table)) × IsFull table)
unfolding get_thread_mut
add_thread_lem table t = elim (add_thread-cases table t) [
  | inl (i, table', e, a) ↦ inl (
    i,
    rw (← a.written) e,
    a.first_free,
    λ u. rw (← a.written) (a.found u 0 ∙ ap some (omega arith)),
  )
  | inr full ↦ inr full
]
