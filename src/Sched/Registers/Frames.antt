-- ===== src/Sched/Registers/Frames.antt =====
-- What the assembly saves and restores.
use os_rust.Shared.{
  ℕ, ◌+◌, ◌-◌, ◌*◌, ◌%◌, ◌^◌, ◌≤◌, ◌<◌, ◌≡◌, ◌⊎◌, refl, List, [], ◌∷◌, arith, ap, sym, ◌∙◌, add64,
  get_or,
}
use mathlib.Core.Path.{fun_ext}
use mathlib.Core.List.{map, reverse, ◌++◌}
use os_rust.Arch.Words.{
  Words, push_words, push_words-sp, push_words_above, read-push_reverse, push_words-append,
  write_struct, read-write_struct,
}
use os_rust.Sched.Registers.{
  CpuRegsOnStack, layout, Register, r15, r14, r13, r12, rbp, rbx, r11, r10, r9, r8, rax, rcx, rdx,
  rsi, rdi, place, Context, pushed, popped, pop_words, iretq, interrupt_frame, save, restore,
}

-- The words of a context's frame, lowest address first.
abbrev pub words : Context → List ℕ
words c = map (λ r. c.general r) popped ++ (c.rip ∷ c.cs ∷ c.rflags ∷ c.rsp ∷ c.ss ∷ [])

abbrev pub word : Context → ℕ → ℕ
word c i = get_or (words c) i 0

-- The twenty words from `sp` on are the frame of the context.
abbrev pub Holds : Words → ℕ → Context → Type 0
Holds m sp c = (i : ℕ) → i < 20 → m (sp + 8 * i) ≡ word c i

pop_general :
    (scratch : Register → ℕ) (m : Words) (sp : ℕ) (r : Register)
    → sp + 160 ≤ 2 ^ 64
    → (pop_words popped scratch m sp).0 r ≡ m (sp + 8 * place r)
unfolding pop_words
pop_general g m sp r15 h = ap m (omega arith)
pop_general g m sp r14 h = ap m (omega arith)
pop_general g m sp r13 h = ap m (omega arith)
pop_general g m sp r12 h = ap m (omega arith)
pop_general g m sp rbp h = ap m (omega arith)
pop_general g m sp rbx h = ap m (omega arith)
pop_general g m sp r11 h = ap m (omega arith)
pop_general g m sp r10 h = ap m (omega arith)
pop_general g m sp r9 h = ap m (omega arith)
pop_general g m sp r8 h = ap m (omega arith)
pop_general g m sp rax h = ap m (omega arith)
pop_general g m sp rcx h = ap m (omega arith)
pop_general g m sp rdx h = ap m (omega arith)
pop_general g m sp rsi h = ap m (omega arith)
pop_general g m sp rdi h = ap m (omega arith)

pop_sp :
    (scratch : Register → ℕ) (m : Words) (sp : ℕ)
    → sp + 160 ≤ 2 ^ 64
    → (pop_words popped scratch m sp).1 ≡ sp + 120
unfolding pop_words
pop_sp g m sp h = omega arith

place-lt : (r : Register) → place r < 15
place-lt r15 = omega arith
place-lt r14 = omega arith
place-lt r13 = omega arith
place-lt r12 = omega arith
place-lt rbp = omega arith
place-lt rbx = omega arith
place-lt r11 = omega arith
place-lt r10 = omega arith
place-lt r9 = omega arith
place-lt r8 = omega arith
place-lt rax = omega arith
place-lt rcx = omega arith
place-lt rdx = omega arith
place-lt rsi = omega arith
place-lt rdi = omega arith

word-place : (c : Context) (r : Register) → word c (place r) ≡ c.general r
word-place c r15 = refl
word-place c r14 = refl
word-place c r13 = refl
word-place c r12 = refl
word-place c rbp = refl
word-place c rbx = refl
word-place c r11 = refl
word-place c r10 = refl
word-place c r9 = refl
word-place c r8 = refl
word-place c rax = refl
word-place c rcx = refl
word-place c rdx = refl
word-place c rsi = refl
word-place c rdi = refl

-- The pops and `iretq` at a frame of a context resume that context.
pub restore-Holds :
    (scratch : Register → ℕ) (m : Words) (sp : ℕ) (c : Context)
    → sp + 160 ≤ 2 ^ 64
    → Holds m sp c
    → restore scratch m sp ≡ c
unfolding restore iretq
restore-Holds scratch m sp c h s = λ i. record {
  general =
      fun_ext {f = (pop_words popped scratch m sp).0} {g = c.general}
        (λ r.
          pop_general scratch m sp r h ∙ s (place r) (omega (arith, place-lt r)) ∙ word-place c r)
        i;
  rip = (ap m (top ∙ omega arith) ∙ s 15 (omega arith)) i;
  cs = (ap m (at_word 8 16 (omega arith) (omega arith)) ∙ s 16 (omega arith)) i;
  rflags = (ap m (at_word 16 17 (omega arith) (omega arith)) ∙ s 17 (omega arith)) i;
  rsp = (ap m (at_word 24 18 (omega arith) (omega arith)) ∙ s 18 (omega arith)) i;
  ss = (ap m (at_word 32 19 (omega arith) (omega arith)) ∙ s 19 (omega arith)) i;
}
  where
    top : (pop_words popped scratch m sp).1 ≡ sp + 120
    top = pop_sp scratch m sp h

    at_word :
        (off i : ℕ)
        → off + 120 ≡ 8 * i
        → off < 40
        → add64 (pop_words popped scratch m sp).1 off ≡ sp + 8 * i
    at_word off i e b = rw top (omega arith)

-- Where the frame of an interrupt ends.
abbrev pub frame_end : Context → ℕ
frame_end c = c.rsp - c.rsp % 16

module _ (m : Words) (c : Context) (small : c.rsp < 2 ^ 64) (room : 160 ≤ frame_end c) where
  -- The processor and `timer_interrupt` push the words of the context, the last one first.
  save_lem : save m c ≡ push_words (reverse (words c)) m (frame_end c)
  unfolding save interrupt_frame
  save_lem = sym (
      push_words-append (c.ss ∷ c.rsp ∷ c.rflags ∷ c.cs ∷ c.rip ∷ [])
        (map (λ r. c.general r) pushed) m (frame_end c))

  -- `rsp` after the pushes of `timer_interrupt`
  pub save-sp : (save m c).1 ≡ frame_end c - 160
  save-sp = rw save_lem (push_words-sp (reverse (words c)) m (frame_end c) room (omega arith))

  -- The words outside of the frame stay.
  pub save_outside : (a : ℕ) → (frame_end c ≤ a) ⊎ (a + 160 < frame_end c) → (save m c).0 a ≡ m a
  save_outside a out =
      rw save_lem (push_words_above (reverse (words c)) m (frame_end c) a room (omega arith) out)

  pub save-Holds : Holds (save m c).0 (frame_end c - 160) c
  save-Holds i h = rw save_lem (read-push_reverse (words c) m (frame_end c) i room (omega arith) h)

-- The context that a `CpuRegsOnStack` describes.
abbrev pub general_of : CpuRegsOnStack → Register → ℕ
general_of r reg = get_or (layout r) (place reg) 0

abbrev pub context_of : CpuRegsOnStack → Context
context_of r = record {
  general = general_of r;
  rip = r.rip;
  cs = r.cs;
  rflags = r.rflags;
  rsp = r.rsp;
  ss = r.ss;
}

-- A `CpuRegsOnStack` written to memory is the frame of its context.
pub write_struct-Holds :
    (m : Words) (a : ℕ) (r : CpuRegsOnStack) → Holds (write_struct m a (layout r)) a (context_of r)
write_struct-Holds m a r i h = read-write_struct m a (layout r) i h
