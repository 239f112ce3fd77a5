-- ===== src/Sched/Balance/Even.antt =====
-- After balancing, two queues hold the same threads as before, in lists of nearly one length.
use os_rust.Shared.{
  ℕ, ◌+◌, ◌≤◌, ◌≡◌, refl, List, ◌++◌, Outcome, ok, arith, length, length-append, take-append-drop,
  length-take_of_le, length-drop,
}
use mathlib.Core.List.{append_assoc, Perm, perm_append_comm}
use mathlib.Core.List.Perm
use os_rust.Sched.Queue.{Queue}
use os_rust.Sched.Queue.Refines.{Represents}
use os_rust.Sched.Balance.Shares.{
  excess, kept, given, Balanced, even, forth, back, do_load_balance_lem,
}
use os_rust.Sched.Balance.{Store, do_load_balance}

share-Perm : (xs ys : List ℕ) → Perm (kept xs ys ++ (ys ++ given xs ys)) (xs ++ ys)
share-Perm xs ys =
    rw (← joined, ← append_assoc (kept xs ys) ys (given xs ys))
      (perm_append_comm (kept xs ys ++ ys) (given xs ys))
  where
    joined : given xs ys ++ (kept xs ys ++ ys) ≡ xs ++ ys
    joined = rw (← append_assoc, take-append-drop)

-- The giver keeps as many threads as the taker then has, or one more.
share-close :
    (xs ys : List ℕ)
    → length ys + 2 ≤ length xs
    → (length (ys ++ given xs ys) ≤ length (kept xs ys))
      × (length (kept xs ys) ≤ length (ys ++ given xs ys) + 1)
share-close xs ys h =
    let n : ℕ = excess (length xs) (length ys) in
    let e : length (given xs ys) ≡ n = length-take_of_le n xs (omega arith) in
    omega (arith, length-append {0} ys (given xs ys), length-drop {0} n xs, e)

-- The two queues after balancing.
pub record Even (xs ys : List ℕ) (qa' qb' : Queue ℕ) : Type 0 where
  pub at_a : List ℕ
  pub at_b : List ℕ
  pub a_holds : Represents qa' at_a
  pub b_holds : Represents qb' at_b
  pub close : (length at_a ≤ length at_b + 1) × (length at_b ≤ length at_a + 1)
  pub same_threads : Perm (at_a ++ at_b) (xs ++ ys)

Balanced-Even :
    {xs ys : List ℕ} {qa qb : Queue ℕ} {store : Store} {a b : ℕ}
    (o : Outcome (Queue ℕ × Queue ℕ × Store))
    → Represents qa xs
    → Represents qb ys
    → Balanced xs ys qa qb store a b o
    → (qa' : Queue ℕ) × (qb' : Queue ℕ) × (store' : Store) × (o ≡ ok (qa', qb', store'))
      × Even xs ys qa' qb'
Balanced-Even {xs} {ys} {qa} {qb} {store} _ ra rb (even h k) = (
  qa,
  qb,
  store,
  refl,
  record {
    at_a = xs;
    at_b = ys;
    a_holds = ra;
    b_holds = rb;
    close = (h, k);
    same_threads = Perm.refl (xs ++ ys);
  },
)
Balanced-Even {xs} {ys} _ ra rb (forth h m) = (
  _,
  _,
  _,
  refl,
  record {
    at_a = kept xs ys;
    at_b = ys ++ given xs ys;
    a_holds = m.from_holds;
    b_holds = m.to_holds;
    close = omega (arith, share-close xs ys h);
    same_threads = share-Perm xs ys;
  },
)
Balanced-Even {xs} {ys} _ ra rb (back h m) = (
  _,
  _,
  _,
  refl,
  record {
    at_a = xs ++ given ys xs;
    at_b = kept ys xs;
    a_holds = m.to_holds;
    b_holds = m.from_holds;
    close = omega (arith, share-close ys xs h, length-append {0} xs (given ys xs));
    same_threads = rw (append_assoc, take-append-drop) (Perm.refl (xs ++ ys));
  },
)

-- Balancing two queues returns, leaves them with lengths that differ by one at most, and the threads
-- in both together are the same as before.
pub do_load_balance-Even :
    (qa qb : Queue ℕ) (xs ys : List ℕ) (store : Store) (a b : ℕ)
    → Represents qa xs
    → Represents qb ys
    → (qa' : Queue ℕ) × (qb' : Queue ℕ) × (store' : Store) × (do_load_balance qa qb store a b
        ≡ ok (qa', qb', store'))
      × Even xs ys qa' qb'
do_load_balance-Even qa qb xs ys store a b ra rb =
    Balanced-Even (do_load_balance qa qb store a b) ra rb
      (do_load_balance_lem qa qb xs ys store a b ra rb)
