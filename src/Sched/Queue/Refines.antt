-- ===== src/Sched/Queue/Refines.antt =====
-- The ring buffer behaves as the bounded list of the items that it holds.

use native.Mathlib.Decide.{dec_lt}
use os_rust.Shared.{
  ℕ, ◌+◌, ◌-◌, ◌%◌, ◌≤◌, ◌<◌, ◌≡◌, refl, List, [], ◌∷◌, ◌++◌, true, false, Option, none, some, ok,
  arith, length, length-append, length-set, get_elem?, set, get_elem?-set_self, get_elem?-set_ne,
  lt→ltb, ltb, ◌==◌, length-replicate, ◌∙◌,
}
use os_rust.Sched.Queue.{Queue, pushed, new, push, pop}
use os_rust.Sched.Queue.Fifo

module _ {ℓ} {A : Type ℓ} where
  -- The items stand in the slots from `h` on, going round at 256.
  abbrev pub StandsAt : List (Option A) → ℕ → List A → Type ℓ
  StandsAt slots h [] = Unit
  StandsAt slots h (x ∷ xs) =
      (get_elem? slots h ≡ some (some x)) × StandsAt slots ((h + 1) % 256) xs

  -- The queue holds the items `xs`, oldest first.
  pub record Represents (q : Queue A) (xs : List A) : Type ℓ where
    pub storage : length q.slots ≡ 256
    pub head_in : q.head < 256
    pub tail_at : q.tail ≡ (q.head + q.len) % 256
    pub counted : q.len ≡ length xs
    pub bounded : length xs ≤ 256
    pub items : StandsAt q.slots q.head xs

  pub new-Represents : Represents new []
  unfolding new
  new-Represents = record {
    storage = length-replicate {A = Option A} 256 none;
    head_in = omega arith;
    tail_at = refl;
    counted = refl;
    bounded = omega arith;
    items = tt;
  }

  -- A write to a slot that holds none of the items keeps them; just behind the items it adds one.
  StandsAt-set :
      (slots : List (Option A)) (x : A) (xs : List A) (h i : ℕ)
      → length slots ≡ 256
      → h < 256
      → length xs < 256
      → i ≡ (h + length xs) % 256
      → StandsAt slots h xs
      → StandsAt (set slots i (some x)) h (xs ++ (x ∷ []))
  StandsAt-set slots x [] h i len hh lt e s =
      let p : i ≡ h = omega arith in (rw p (get_elem?-set_self slots h (some x) (omega arith)), tt)
  StandsAt-set slots x (y ∷ ys) h i len hh lt e s = (
    get_elem?-set_ne slots i h (some x) (omega arith) ∙ s.0,
    StandsAt-set slots x ys ((h + 1) % 256) i len (omega arith) (omega arith) (omega arith) s.1,
  )

  push_room :
      (q : Queue A) (xs : List A) (item : A)
      → Represents q xs
      → length xs < 256
      → (q' : Queue A) × (push q item ≡ ok (pushed, q')) × Represents q' (xs ++ (item ∷ []))
  unfolding push
  push_room q xs item r h =
      let room : (q.len == 256) ≡ false = ground (arith, r.counted) in
      let inside : ltb q.tail (length q.slots) ≡ true = ground (arith, r.tail_at, r.storage) in
      (
        record q {
          slots = set q.slots q.tail (some item);
          tail = (q.tail + 1) % 256;
          len = q.len + 1;
        },
        rw (room, inside),
        record {
          storage = length-set q.slots q.tail (some item) ∙ r.storage;
          head_in = r.head_in;
          tail_at = omega (arith, r.tail_at);
          counted = omega (arith, r.counted, length-append xs (item ∷ []));
          bounded = omega (arith, length-append xs (item ∷ []));
          items =
              StandsAt-set q.slots item xs q.head q.tail r.storage r.head_in h
                (omega (arith, r.tail_at, r.counted)) r.items;
        },
      )

  -- On a queue that represents a list of at most 256 items, `push` returns, answers as the bounded
  -- list does, and then represents the list after it.
  pub push_refines :
      (q : Queue A) (xs : List A) (item : A)
      → Represents q xs
      → (q' : Queue A) × (push q item ≡ ok ((Fifo.push xs item).0, q'))
        × Represents q' (Fifo.push xs item).1
  unfolding push
  push_refines q xs item r = elim (dec_lt (length xs) 256) [
    | yes h ↦ rw (lt→ltb _ _ h) (push_room q xs item r h)
    | no h ↦
        let full : ltb (length xs) 256 ≡ false = ground arith in
        let at_cap : (q.len == 256) ≡ true = ground (arith, r.counted, r.bounded) in
        rw full (q, rw at_cap, r)
  ]

  pub pop-empty : (q : Queue A) → Represents q [] → pop q ≡ ok (none, q)
  unfolding pop
  pop-empty q r = let empty : (q.len == 0) ≡ true = ground (arith, r.counted) in rw empty

  -- On a queue that represents a list of at most 256 items, `pop` returns, answers as the bounded list
  -- does, and then represents the list after it.
  pub pop_refines :
      (q : Queue A) (xs : List A)
      → Represents q xs
      → (q' : Queue A) × (pop q ≡ ok ((Fifo.pop xs).0, q')) × Represents q' (Fifo.pop xs).1
  unfolding pop
  pop_refines q [] r = (q, pop-empty q r, r)
  pop_refines q (x ∷ xs) r =
      let some_left : (q.len == 0) ≡ false = ground (arith, r.counted) in
      (
        record q { head = (q.head + 1) % 256; len = q.len - 1 },
        rw (some_left, r.items.0),
        record {
          storage = r.storage;
          head_in = omega arith;
          tail_at = omega (arith, r.tail_at, r.counted);
          counted = omega (arith, r.counted);
          bounded = omega (arith, r.bounded);
          items = r.items.1;
        },
      )
