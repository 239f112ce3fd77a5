-- ===== src/Arch/Words.antt =====
-- Memory as the stack code uses it: 64-bit words, each at the address of its first byte. All words
-- that the kernel writes this way lie at multiples of 8, so no two overlap.
use mathlib.Core.List.{reverse, reverse-cons}
use os_rust.Shared.{
  ℕ, zero, suc, ◌+◌, ◌-◌, ◌*◌, ◌^◌, ◌≤◌, ◌<◌, ◌≡◌, refl, List, [], ◌∷◌, ◌++◌, ◌==◌, if◌then◌else◌,
  sub64, length, get_or, arith, ap, ◌∙◌, ◌⊎◌, inl, length-append,
}

abbrev pub Words : Type 0
Words = ℕ → ℕ

abbrev pub write : Words → ℕ → ℕ → Words
write m a w b = if b == a then w else m b

-- A struct of words, its first field at `a`.
unfoldable pub write_struct : Words → ℕ → List ℕ → Words
write_struct m a [] = m
write_struct m a (w ∷ ws) = write (write_struct m (a + 8) ws) a w

-- `push` of each word in turn, with `rsp` before and after
unfoldable pub push_words : List ℕ → Words → ℕ → Words × ℕ
push_words [] m sp = (m, sp)
push_words (w ∷ ws) m sp = push_words ws (write m (sub64 sp 8) w) (sub64 sp 8)

pub read-write_struct :
    (m : Words) (a : ℕ) (ws : List ℕ) (i : ℕ)
    → i < length ws
    → write_struct m a ws (a + 8 * i) ≡ get_or ws i 0
unfolding write_struct
read-write_struct m a [] i h = elim h [ ]
read-write_struct m a (w ∷ ws) zero h = ground arith
read-write_struct m a (w ∷ ws) (suc i) h = ground (
  arith,
  read-write_struct m (a + 8) ws i (omega arith),
  ap (write_struct m (a + 8) ws) (shift a i),
)
  where
    shift : (a i : ℕ) → a + 8 + 8 * i ≡ a + 8 * suc i
    shift a i = omega arith

pub write_struct_outside :
    (m : Words) (a : ℕ) (ws : List ℕ) (b : ℕ)
    → (b < a) ⊎ (a + 8 * length ws ≤ b)
    → write_struct m a ws b ≡ m b
unfolding write_struct
write_struct_outside m a [] b h = refl
write_struct_outside m a (w ∷ ws) b h = ground (arith, write_struct_outside m (a + 8) ws b)

push_words_first :
    (w : ℕ) (ws : List ℕ) (m : Words) (sp : ℕ)
    → 8 ≤ sp
    → sp < 2 ^ 64
    → push_words (w ∷ ws) m sp ≡ push_words ws (write m (sp - 8) w) (sp - 8)
unfolding push_words
push_words_first w ws m sp h k =
    let e : sub64 sp 8 ≡ sp - 8 = omega arith in ap (λ (a : ℕ). push_words ws (write m a w) a) e

pub push_words-sp :
    (ws : List ℕ) (m : Words) (sp : ℕ)
    → 8 * length ws ≤ sp
    → sp < 2 ^ 64
    → (push_words ws m sp).1 ≡ sp - 8 * length ws
unfolding push_words
push_words-sp [] m sp h k = omega arith
push_words-sp (w ∷ ws) m sp h k =
    rw (push_words_first w ws m sp (omega arith) k)
      (push_words-sp ws (write m (sp - 8) w) (sp - 8) (omega arith) (omega arith) ∙ omega arith)

-- Pushes write below `sp` only.
pub push_words_above :
    (ws : List ℕ) (m : Words) (sp a : ℕ)
    → 8 * length ws ≤ sp
    → sp < 2 ^ 64
    → (sp ≤ a) ⊎ (a + 8 * length ws < sp)
    → (push_words ws m sp).0 a ≡ m a
unfolding push_words
push_words_above [] m sp a h k out = refl
push_words_above (w ∷ ws) m sp a h k out = rw (push_words_first w ws m sp (omega arith) k) (
    push_words_above ws (write m (sp - 8) w) (sp - 8) a (omega arith) (omega arith) (ground arith)
    ∙ ground arith)

-- The word pushed at position `i`, counted from the first.
pub read-push_words :
    (ws : List ℕ) (m : Words) (sp i : ℕ)
    → 8 * length ws ≤ sp
    → sp < 2 ^ 64
    → i < length ws
    → (push_words ws m sp).0 (sp - 8 * suc i) ≡ get_or ws i 0
unfolding push_words
read-push_words [] m sp i h k l = elim l [ ]
read-push_words (w ∷ ws) m sp zero h k l = rw (push_words_first w ws m sp (omega arith) k) (
    push_words_above ws (write m (sp - 8) w) (sp - 8) (sp - 8 * 1) (omega arith) (omega arith)
      (inl (omega arith))
    ∙ ground arith)
read-push_words (w ∷ ws) m sp (suc i) h k l =
    let p : sp - 8 * suc (suc i) ≡ sp - 8 - 8 * suc i = omega arith in
    rw (push_words_first w ws m sp (omega arith) k, p)
      (read-push_words ws (write m (sp - 8) w) (sp - 8) i (omega arith) (omega arith) (omega arith))

pub push_words-append :
    (vs ws : List ℕ) (m : Words) (sp : ℕ)
    → push_words (vs ++ ws) m sp ≡ push_words ws (push_words vs m sp).0 (push_words vs m sp).1
unfolding push_words
push_words-append [] ws m sp = refl
push_words-append (v ∷ vs) ws m sp = push_words-append vs ws (write m (sub64 sp 8) v) (sub64 sp 8)

length-reverse : (ws : List ℕ) → length (reverse ws) ≡ length ws
length-reverse [] = refl
length-reverse (w ∷ ws) =
    rw (reverse-cons w ws) (omega (arith, length-append (reverse ws) (w ∷ []), length-reverse ws))

push_words_last :
    (w : ℕ) (ws : List ℕ) (m : Words) (sp : ℕ)
    → 8 * suc (length ws) ≤ sp
    → sp < 2 ^ 64
    → push_words (reverse (w ∷ ws)) m sp
      ≡ push_words (w ∷ []) (push_words (reverse ws) m sp).0 (sp - 8 * length ws)
push_words_last w ws m sp h k = rw (reverse-cons w ws) (
    push_words-append (reverse ws) (w ∷ []) m sp
    ∙ ap (push_words (w ∷ []) (push_words (reverse ws) m sp).0) (
        push_words-sp (reverse ws) m sp (omega (arith, length-reverse ws)) k
        ∙ omega (arith, length-reverse ws)))

-- Words pushed from the last to the first lie in memory from the first to the last.
pub read-push_reverse :
    (ws : List ℕ) (m : Words) (sp i : ℕ)
    → 8 * length ws ≤ sp
    → sp < 2 ^ 64
    → i < length ws
    → (push_words (reverse ws) m sp).0 (sp - 8 * length ws + 8 * i) ≡ get_or ws i 0
read-push_reverse [] m sp i h k l = elim l [ ]
read-push_reverse (w ∷ ws) m sp zero h k l =
    let e : sp - 8 * suc (length ws) + 8 * 0 ≡ sp - 8 * length ws - 8 * 1 = omega arith in
    rw (push_words_last w ws m sp h k, e)
      (read-push_words (w ∷ []) (push_words (reverse ws) m sp).0 (sp - 8 * length ws) 0
        (omega arith) (omega arith) (omega arith))
read-push_reverse (w ∷ ws) m sp (suc i) h k l =
    let e : sp - 8 * suc (length ws) + 8 * suc i ≡ sp - 8 * length ws + 8 * i = omega arith in
    rw (push_words_last w ws m sp h k, e)
      (push_words_above (w ∷ []) (push_words (reverse ws) m sp).0 (sp - 8 * length ws)
          (sp - 8 * length ws + 8 * i) (omega arith) (omega arith) (inl (omega arith))
        ∙ read-push_reverse ws m sp i (omega arith) k (omega arith))
