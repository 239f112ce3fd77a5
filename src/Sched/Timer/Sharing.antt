-- ===== src/Sched/Timer/Sharing.antt =====
-- The queues of two CPUs shared out between them.

use mathlib.Core.List.{Nodup, Nodup-cons, Nodup-append}
use mathlib.Core.List.Perm
use os_rust.Shared.{
  ℕ, ◌≡◌, ◌≢◌, ◌⊎◌, refl, ◌∷◌, ◌++◌, Bool, true, false, ◌||◌, if◌then◌else◌, Bool-cases, inl, inr,
  arith, sym, ◌∙◌, ==_iff,
}
use os_rust.Arch.Cpu.{TlsData}
use os_rust.Sched.Queue.{Queue}
use os_rust.Sched.Balance.Even.{Even}
use os_rust.Sched.Balance.Shares.{has}
use os_rust.Sched.Timer.Members.{
  has-append, has-Perm, Nodup-append_apart, Nodup-cons_apart, append-Nodup, cons-Nodup, has-cons,
}
use os_rust.Sched.Timer.Owners.{IsSound}

module _ {live : ℕ → Bool} {owner : ℕ → ℕ} {cpu other_cpu : TlsData} {here other : ℕ}
    (ne : here ≢ other) (a : IsSound live owner cpu here) (b : IsSound live owner other_cpu other)
    {qa qb : Queue ℕ} (v : Even a.items b.items qa qb) where
  -- The owners after the threads of the two queues are shared out.
  pub shared : ℕ → ℕ
  shared t = if has v.at_a t then here else if has v.at_b t then other else owner t

  running_a : (t : ℕ) → t ≡ cpu.thread_addr → has (cpu.thread_addr ∷ a.items) t ≡ true
  running_a t e = let same = (==_iff t cpu.thread_addr).1 e in rw same refl

  running_b : (t : ℕ) → t ≡ other_cpu.thread_addr → has (other_cpu.thread_addr ∷ b.items) t ≡ true
  running_b t e = let same = (==_iff t other_cpu.thread_addr).1 e in rw same refl

  queued_a : (t : ℕ) → has a.items t ≡ true → has (cpu.thread_addr ∷ a.items) t ≡ true
  queued_a t h = ground arith

  queued_b : (t : ℕ) → has b.items t ≡ true → has (other_cpu.thread_addr ∷ b.items) t ≡ true
  queued_b t h = ground arith

  -- A thread in one of the queues afterwards was in one of them before.
  before :
      (t : ℕ)
      → (has v.at_a t || has v.at_b t) ≡ true
      → (has a.items t ≡ true) ⊎ (has b.items t ≡ true)
  before t h =
      let k : has (a.items ++ b.items) t ≡ true =
        has-Perm t v.same_threads (rw (has-append v.at_a v.at_b t) h) in
      ground (arith, has-append a.items b.items t)

  -- Only threads of the two CPUs change their owner.
  elsewhere : (t : ℕ) → owner t ≢ here → owner t ≢ other → shared t ≡ owner t
  unfolding shared
  elsewhere t p q = elim (Bool-cases (has v.at_a t || has v.at_b t)) [
    | inl h ↦ elim (before t h) [
      | inl k ↦ absurd (p (a.owned t (queued_a t k)))
      | inr k ↦ absurd (q (b.owned t (queued_b t k)))
    ]
    | inr h ↦ ground arith
  ]

  queues_distinct : Nodup (v.at_a ++ v.at_b)
  queues_distinct = Perm.nodup (Perm.symm v.same_threads) (
      append-Nodup a.items b.items (Nodup-cons.0 a.distinct).1 (Nodup-cons.0 b.distinct).1
        (λ t h k. ne (sym (a.owned t (queued_a t h)) ∙ b.owned t (queued_b t k))))

  -- The running threads are in neither queue afterwards.
  running_apart_a : (has v.at_a cpu.thread_addr || has v.at_b cpu.thread_addr) ≡ false
  running_apart_a = elim (Bool-cases (has v.at_a cpu.thread_addr || has v.at_b cpu.thread_addr)) [
    | inr h ↦ h
    | inl h ↦ elim (before cpu.thread_addr h) [
      | inl k ↦ absurd (Nodup-cons_apart cpu.thread_addr a.items a.distinct k)
      | inr k ↦ absurd (
          ne (
            sym (a.owned cpu.thread_addr (running_a cpu.thread_addr refl))
            ∙ b.owned cpu.thread_addr (queued_b cpu.thread_addr k)))
    ]
  ]

  running_apart_b : (has v.at_a other_cpu.thread_addr || has v.at_b other_cpu.thread_addr) ≡ false
  running_apart_b =
      elim (Bool-cases (has v.at_a other_cpu.thread_addr || has v.at_b other_cpu.thread_addr)) [
        | inr h ↦ h
        | inl h ↦ elim (before other_cpu.thread_addr h) [
          | inr k ↦ absurd (Nodup-cons_apart other_cpu.thread_addr b.items b.distinct k)
          | inl k ↦ absurd (
              ne (
                sym (a.owned other_cpu.thread_addr (queued_a other_cpu.thread_addr k))
                ∙ b.owned other_cpu.thread_addr (running_b other_cpu.thread_addr refl)))
        ]
      ]

  live_before : (t : ℕ) → (has v.at_a t || has v.at_b t) ≡ true → live t ≡ true
  live_before t h = elim (before t h) [
    | inl k ↦ a.alive t (queued_a t k)
    | inr k ↦ b.alive t (queued_b t k)
  ]

  shared_a : (t : ℕ) → has v.at_a t ≡ true → shared t ≡ here
  unfolding shared
  shared_a t h = rw h refl

  shared_b : (t : ℕ) → has v.at_b t ≡ true → shared t ≡ other
  unfolding shared
  shared_b t h = elim (Bool-cases (has v.at_a t)) [
    | inl k ↦ absurd (Nodup-append_apart v.at_a v.at_b t queues_distinct k h)
    | inr k ↦ rw (k, h) refl
  ]

  shared_else : (t : ℕ) → (has v.at_a t || has v.at_b t) ≡ false → shared t ≡ owner t
  unfolding shared
  shared_else t h = ground arith

  pub here-IsSound : IsSound live shared (record cpu { ready_queue = qa }) here
  here-IsSound = record {
    items = v.at_a;
    queue = v.a_holds;
    distinct =
        cons-Nodup cpu.thread_addr v.at_a (Nodup-append.0 queues_distinct).0
          (λ h. cc (h, running_apart_a));
    owned = λ t h. elim (has-cons cpu.thread_addr v.at_a t h) [
      | inl e ↦ rw e (
          shared_else cpu.thread_addr running_apart_a
          ∙ a.owned cpu.thread_addr (running_a cpu.thread_addr refl))
      | inr k ↦ shared_a t k
    ];
    alive = λ t h. elim (has-cons cpu.thread_addr v.at_a t h) [
      | inl e ↦ a.alive t (running_a t e)
      | inr k ↦ live_before t (rw k refl)
    ];
  }

  pub other-IsSound : IsSound live shared (record other_cpu { ready_queue = qb }) other
  other-IsSound = record {
    items = v.at_b;
    queue = v.b_holds;
    distinct =
        cons-Nodup other_cpu.thread_addr v.at_b (Nodup-append.0 queues_distinct).1
          (λ h. absurd (ground (arith, h, running_apart_b)));
    owned = λ t h. elim (has-cons other_cpu.thread_addr v.at_b t h) [
      | inl e ↦ rw e (
          shared_else other_cpu.thread_addr running_apart_b
          ∙ b.owned other_cpu.thread_addr (running_b other_cpu.thread_addr refl))
      | inr k ↦ shared_b t k
    ];
    alive = λ t h. elim (has-cons other_cpu.thread_addr v.at_b t h) [
      | inl e ↦ b.alive t (running_b t e)
      | inr k ↦ live_before t (ground (arith, k))
    ];
  }

  -- A CPU that takes no part keeps its threads.
  pub third-IsSound :
      (third : TlsData) (addr : ℕ)
      → addr ≢ here
      → addr ≢ other
      → IsSound live owner third addr
      → IsSound live shared third addr
  third-IsSound third addr p q c = record {
    items = c.items;
    queue = c.queue;
    distinct = c.distinct;
    owned = λ t h. let o = c.owned t h in elsewhere t (λ e. p (sym o ∙ e)) (λ e. q (sym o ∙ e)) ∙ o;
    alive = c.alive;
  }
