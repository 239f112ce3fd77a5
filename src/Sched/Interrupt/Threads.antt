-- ===== src/Sched/Interrupt/Threads.antt =====
-- Each thread resumes as it was interrupted.
use os_rust.Shared.{
  ℕ, ◌+◌, ◌-◌, ◌*◌, ◌^◌, ◌≤◌, ◌<◌, ◌≡◌, ◌≢◌, ◌⊎◌, inl, inr, refl, ◌∙◌, Bool, true, false, ◌==◌,
  if◌then◌else◌, Bool-cases, ==_iff, not_same, arith,
}
use os_rust.Arch.Words.{Words}
use os_rust.Sched.Registers.{Register, Context, save, restore}
use os_rust.Sched.Registers.Frames.{
  Holds, frame_end, restore-Holds, save-sp, save_outside, save-Holds,
}
use os_rust.Sched.Interrupt.{World}

-- The live threads, and the stack of each: the words from `bottom` up to `top`.
pub record Threads : Type 0 where
  pub live : ℕ → Bool
  pub bottom : ℕ → ℕ
  pub top : ℕ → ℕ

-- The stacks end below 2^64, and no two share a word.
pub record AreApart (ts : Threads) : Type 0 where
  pub small : (t : ℕ) → ts.live t ≡ true → ts.top t < 2 ^ 64
  pub apart :
      (t u : ℕ)
      → t ≢ u
      → ts.live t ≡ true
      → ts.live u ≡ true
      → (ts.top t ≤ ts.bottom u) ⊎ (ts.top u ≤ ts.bottom t)

-- The thread's `regs` points to a frame of the context, inside its stack.
pub record IsParked (ts : Threads) (w : World) (t : ℕ) (c : Context) : Type 0 where
  pub low : ts.bottom t ≤ w.regs t
  pub high : w.regs t + 160 ≤ ts.top t
  pub holds : Holds w.stacks (w.regs t) c

-- A thread interrupted at `c` has room for the frame on its stack.
pub record HasRoom (ts : Threads) (t : ℕ) (c : Context) : Type 0 where
  pub above : ts.bottom t + 160 ≤ frame_end c
  pub below : frame_end c ≤ ts.top t
  pub small : c.rsp < 2 ^ 64

-- What the handler's calls write lies below the frame, on the stack of the thread interrupted.
abbrev pub StaysBelow : Threads → ℕ → Context → (Words → Words) → Type 0
StaysBelow ts t c clobber =
    (m : Words) (a : ℕ) → (a < ts.bottom t) ⊎ (frame_end c ≤ a + 160) → clobber m a ≡ m a

abbrev pub update : (ℕ → Context) → ℕ → Context → ℕ → Context
update contexts t c u = if u == t then c else contexts u

module _ {ts : Threads} {w : World} {contexts : ℕ → Context} {c : Context} {clobber : Words → Words}
    {running : ℕ} (apart : AreApart ts) (alive : ts.live running ≡ true)
    (parked : (t : ℕ) → t ≢ running → ts.live t ≡ true → IsParked ts w t (contexts t))
    (room : HasRoom ts running c) (below : StaysBelow ts running c clobber) (w' : World)
    (stacks_after : w'.stacks ≡ clobber (save w.stacks c).0)
    (regs_after : w'.regs ≡ (λ t. if t == running then (save w.stacks c).1 else w.regs t)) where
  open_room : 160 ≤ frame_end c
  open_room = omega (arith, room.above)

  running_regs : w'.regs running ≡ frame_end c - 160
  running_regs =
      let same : (running == running) ≡ true = (==_iff running running).1 refl in
      rw (regs_after, same) (save-sp w.stacks c room.small open_room)

  running-IsParked : IsParked ts w' running c
  running-IsParked = record {
    low = omega (arith, running_regs, room.above);
    high = omega (arith, running_regs, room.above, room.below);
    holds = λ i h.
        rw (stacks_after, running_regs)
          (below (save w.stacks c).0 (frame_end c - 160 + 8 * i) (inr (omega (arith, open_room)))
            ∙ save-Holds w.stacks c room.small open_room i h);
  }

  -- A word of another thread's stack stays.
  other_word :
      (t a : ℕ)
      → t ≢ running
      → ts.live t ≡ true
      → ts.bottom t ≤ a
      → a < ts.top t
      → w'.stacks a ≡ w.stacks a
  other_word t a ne alive_t low high =
      rw stacks_after (elim (apart.apart t running ne alive_t alive) [
        | inl under ↦
            below (save w.stacks c).0 a (inl (omega arith))
            ∙ save_outside w.stacks c room.small open_room a (inr (omega (arith, room.above)))
        | inr over ↦
            below (save w.stacks c).0 a (inr (omega (arith, room.below)))
            ∙ save_outside w.stacks c room.small open_room a (inl (omega (arith, room.below)))
      ])

  other-IsParked : (t : ℕ) → t ≢ running → ts.live t ≡ true → IsParked ts w' t (contexts t)
  other-IsParked t ne alive_t =
      let p = parked t ne alive_t in
      let other : (t == running) ≡ false = not_same ne in
      let regs : w'.regs t ≡ w.regs t = rw (regs_after, other) refl in
      record {
        low = omega (arith, regs, p.low);
        high = omega (arith, regs, p.high);
        holds = λ i h. rw regs (
            other_word t (w.regs t + 8 * i) ne alive_t (omega (arith, p.low))
              (omega (arith, p.high))
            ∙ p.holds i h);
      }

  pub all-IsParked : (t : ℕ) → ts.live t ≡ true → IsParked ts w' t (update contexts running c t)
  all-IsParked t alive_t = elim (Bool-cases (t == running)) [
    | inl e ↦ rw (e, (==_iff t running).0 e) running-IsParked
    | inr e ↦ rw e (other-IsParked t (λ q. cc (e, (==_iff t running).1 q)) alive_t)
  ]

  -- So each live thread resumes at its context.
  pub all_resume :
      (scratch : Register → ℕ) (t : ℕ)
      → ts.live t ≡ true
      → restore scratch w'.stacks (w'.regs t) ≡ update contexts running c t
  all_resume scratch t alive_t =
      let p = all-IsParked t alive_t in
      restore-Holds scratch w'.stacks (w'.regs t) (update contexts running c t)
        (omega (arith, p.high, apart.small t alive_t)) p.holds
