-- ===== src/Sched/Timer/Members.antt =====
-- Lists of threads: a Boolean membership test beside the library's `Mem`, `Nodup` and `Perm`.
use mathlib.Core.Bool.{Bool-set}
use mathlib.Core.Logic.Or
use mathlib.Core.List.{
  Mem, Nodup, Perm, mem-cons, not-mem-nil, Nodup-cons, Nodup-append, Disjoint-left,
}
use mathlib.Core.List.Perm
use os_rust.Shared.{
  ℕ, ◌≡◌, ◌⊎◌, refl, List, [], ◌∷◌, ◌++◌, Bool, true, ◌||◌, ◌==◌, Bool-cases, inl, inr, arith,
  ==_iff,
}
use os_rust.Sched.Balance.Shares.{has}

pub has-Mem : (xs : List ℕ) (t : ℕ) → has xs t ≡ true → Mem t xs
has-Mem [] t h = absurd (cc)
has-Mem (x ∷ xs) t h = elim (Bool-cases (t == x)) [
  | inl e ↦ mem-cons.1 (Or.inl ((==_iff t x).0 e))
  | inr e ↦ mem-cons.1 (Or.inr (has-Mem xs t (rw e at h)))
]

bool_prop : (b c : Bool) → IsProp (b ≡ c)
bool_prop b c = Bool-set b c

pub Mem-has : (xs : List ℕ) (t : ℕ) → Mem t xs → has xs t ≡ true
Mem-has [] t m = absurd (not-mem-nil m)
Mem-has (x ∷ xs) t m =
    Or.elim (bool_prop (has (x ∷ xs) t) true) (mem-cons.0 m)
      (λ e. let same : (t == x) ≡ true = (==_iff t x).1 e in rw same refl)
      (λ k. let later : has xs t ≡ true = Mem-has xs t k in ground (arith, later))

pub has-append : (xs ys : List ℕ) (t : ℕ) → has (xs ++ ys) t ≡ (has xs t || has ys t)
has-append [] ys t = refl
has-append (x ∷ xs) ys t = ground (arith, has-append xs ys t)

pub has-Perm : {xs ys : List ℕ} (t : ℕ) → Perm xs ys → has xs t ≡ true → has ys t ≡ true
has-Perm {xs} {ys} t p h = Mem-has ys t ((Perm.mem_iff p).0 (has-Mem xs t h))

-- The first half of a list without repetitions shares nothing with the second.
pub Nodup-append_apart :
    (xs ys : List ℕ) (t : ℕ) → Nodup (xs ++ ys) → has xs t ≡ true → has ys t ≡ true → ⊥
Nodup-append_apart xs ys t n h k =
    Disjoint-left.0 (Nodup-append.0 n).2 t (has-Mem xs t h) (has-Mem ys t k)

pub Nodup-cons_apart : (x : ℕ) (xs : List ℕ) → Nodup (x ∷ xs) → has xs x ≡ true → ⊥
Nodup-cons_apart x xs n h = (Nodup-cons.0 n).0 (has-Mem xs x h)

pub append-Nodup :
    (xs ys : List ℕ)
    → Nodup xs
    → Nodup ys
    → ((t : ℕ) → has xs t ≡ true → has ys t ≡ true → ⊥)
    → Nodup (xs ++ ys)
append-Nodup xs ys n k apart =
    Nodup-append.1 (n, k, Disjoint-left.1 (λ t m l. apart t (Mem-has xs t m) (Mem-has ys t l)))

pub cons-Nodup : (x : ℕ) (xs : List ℕ) → Nodup xs → (has xs x ≡ true → ⊥) → Nodup (x ∷ xs)
cons-Nodup x xs n apart = Nodup-cons.1 ((λ m. apart (Mem-has xs x m)), n)

pub has-cons : (x : ℕ) (xs : List ℕ) (t : ℕ) → has (x ∷ xs) t ≡ true → (t ≡ x) ⊎ (has xs t ≡ true)
has-cons x xs t h = elim (Bool-cases (t == x)) [
  | inl e ↦ inl ((==_iff t x).0 e)
  | inr e ↦ inr (rw e at h)
]
