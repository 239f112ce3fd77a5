-- ===== src/Console/Terminal/Sequences.antt =====
-- A whole escape sequence: `ESC [`, parameters in decimal between semicolons, and `m`.
use os_rust.Shared.{
  ℕ, zero, suc, ◌+◌, ◌-◌, ◌≤◌, ◌≡◌, refl, ◌∙◌, ap, List, [], ◌∷◌, ◌++◌, set, take, replicate, add64,
  mul64, arith, get_or, length, length-append, length-replicate, ltb, if◌then◌else◌,
}
use mathlib.Core.List.{append_assoc, map}
use os_rust.Console.Terminal.{Terminal, AnsiArgs, AnsiState, arg, recv_byte, recv_bytes}
use os_rust.Console.Terminal.Cursor.{ArgsValid}
use os_rust.Console.Terminal.Escapes.{
  inside, with_digit, next_arg, colored, recv_digit, recv_separator, recv_m,
}

abbrev pub AreDigits : List ℕ → Type 0
AreDigits [] = Unit
AreDigits (d ∷ ds) = (d ≤ 9) × AreDigits ds

abbrev pub AllDigits : List (List ℕ) → Type 0
AllDigits [] = Unit
AllDigits (g ∷ gs) = AreDigits g × AllDigits gs

-- The number that the digits write, as a `usize`.
abbrev pub value_from : ℕ → List ℕ → ℕ
value_from v [] = v
value_from v (d ∷ ds) = value_from (add64 (mul64 v 10) d) ds

abbrev pub value : List ℕ → ℕ
value ds = value_from 0 ds

-- The digits as bytes before what follows.
abbrev pub digits_then : List ℕ → List ℕ → List ℕ
digits_then [] rest = rest
digits_then (d ∷ ds) rest = (b'0' + d) ∷ digits_then ds rest

-- The parameters `g`, `gs` between semicolons, then `m` and what follows.
abbrev pub params_then : List ℕ → List (List ℕ) → List ℕ → List ℕ
params_then g [] rest = digits_then g (b'm' ∷ rest)
params_then g (h ∷ gs) rest = digits_then g (b';' ∷ params_then h gs rest)

abbrev pub sequence_then : List ℕ → List (List ℕ) → List ℕ → List ℕ
sequence_then g gs rest = 27 ∷ b'[' ∷ params_then g gs rest

-- The arguments with `done` read, `v` being read, and `m` places left.
abbrev reading : List ℕ → ℕ → ℕ → AnsiArgs
reading done v m = record { count = length done + 1; args = done ++ (v ∷ replicate m 0) }

set-middle :
    (xs : List ℕ) (v w : ℕ) (ys : List ℕ) (i : ℕ)
    → i ≡ length xs
    → set (xs ++ (v ∷ ys)) i w ≡ xs ++ (w ∷ ys)
set-middle [] v w ys i e = rw e
set-middle (x ∷ xs) v w ys i e = rw e (ap (λ l. x ∷ l) (set-middle xs v w ys (length xs) refl))

get_or-middle :
    (xs : List ℕ) (v : ℕ) (ys : List ℕ) (i : ℕ) → i ≡ length xs → get_or (xs ++ (v ∷ ys)) i 0 ≡ v
get_or-middle [] v ys i e = rw e
get_or-middle (x ∷ xs) v ys i e = rw e (get_or-middle xs v ys (length xs) refl)

take-middle :
    (xs : List ℕ) (v : ℕ) (ys : List ℕ) (n : ℕ)
    → n ≡ suc (length xs)
    → take n (xs ++ (v ∷ ys)) ≡ xs ++ (v ∷ [])
take-middle [] v ys n e = rw e
take-middle (x ∷ xs) v ys n e = rw e (ap (λ l. x ∷ l) (take-middle xs v ys (suc (length xs)) refl))

reading-valid :
    (done : List ℕ) (v m : ℕ) → length done + 1 + m ≡ 8 → ArgsValid (arg (reading done v m))
reading-valid done v m h = (
  omega arith,
  omega arith,
  omega (arith, length-append {0} done (v ∷ replicate m 0), length-replicate {0} {A = ℕ} m 0),
)

reading-digit :
    (done : List ℕ) (v m d : ℕ)
    → with_digit (reading done v m) d ≡ reading done (add64 (mul64 v 10) d) m
reading-digit done v m d =
    let i : ℕ = length done + 1 - 1 in
    let e : i ≡ length done = omega arith in
    rw (get_or-middle done v (replicate m 0) i e, set-middle done v _ (replicate m 0) i e)

reading-next :
    (done : List ℕ) (v m : ℕ)
    → length done + 1 + suc m ≡ 8
    → next_arg (reading done v (suc m)) ≡ reading (done ++ (v ∷ [])) 0 m
reading-next done v m h = λ i. record { count = same_count i; args = same_args i }
  where
    same_count :
        (if ltb (length done + 1) 8 then length done + 1 + 1 else length done + 1)
        ≡ length (done ++ (v ∷ [])) + 1
    same_count = ground (arith, length-append {0} done (v ∷ []))

    same_args : done ++ (v ∷ 0 ∷ replicate m 0) ≡ (done ++ (v ∷ [])) ++ (0 ∷ replicate m 0)
    same_args = rw append_assoc

recv_digits :
    (t : Terminal) (done : List ℕ) (v m : ℕ) (ds rest : List ℕ)
    → length done + 1 + m ≡ 8
    → AreDigits ds
    → recv_bytes (inside t (reading done v m)) (digits_then ds rest)
      ≡ recv_bytes (inside t (reading done (value_from v ds) m)) rest
unfolding recv_bytes
recv_digits t done v m [] rest h a = refl
recv_digits t done v m (d ∷ ds) rest h a =
    rw
      (
        recv_digit t (reading done v m) (reading-valid done v m h) (b'0' + d) (omega arith)
            (omega arith),
        (let e : b'0' + d - b'0' ≡ d = omega arith in e),
        reading-digit done v m d,
      )
      (recv_digits t done (add64 (mul64 v 10) d) m ds rest h a.1)

recv_params :
    (t : Terminal) (done : List ℕ) (m : ℕ) (g : List ℕ) (gs : List (List ℕ)) (rest : List ℕ)
    → length done + 1 + m ≡ 8
    → length gs ≤ m
    → AreDigits g
    → AllDigits gs
    → recv_bytes (inside t (reading done 0 m)) (params_then g gs rest)
      ≡ recv_bytes (colored t (done ++ (value g ∷ map value gs))) rest
unfolding recv_bytes
recv_params t done m g [] rest h n a b =
    recv_digits t done 0 m g (b'm' ∷ rest) h a
    ∙ rw (
      recv_m t (reading done (value g) m) (reading-valid done (value g) m h),
      take-middle done (value g) (replicate m 0) (length done + 1) (omega arith),
    )
recv_params t done zero g (k ∷ gs) rest h n a b = elim n [ ]
recv_params t done (suc m) g (k ∷ gs) rest h n a b =
    recv_digits t done 0 (suc m) g (b';' ∷ params_then k gs rest) h a
    ∙ rw
        (
          recv_separator t (reading done (value g) (suc m))
              (reading-valid done (value g) (suc m) h),
          reading-next done (value g) m h,
        )
        (recv_params t (done ++ (value g ∷ [])) m k gs rest
            (omega (arith, length-append {0} done (value g ∷ []))) (omega arith) b.0 b.1
          ∙ rw append_assoc)

-- From outside a sequence, a whole one with one to eight parameters in decimal changes the colours as
-- its parameters say, and nothing else; the terminal then goes on with what follows.
pub recv_sequence :
    (t : Terminal) (g : List ℕ) (gs : List (List ℕ)) (rest : List ℕ)
    → t.ansi_state ≡ AnsiState.ground
    → length gs ≤ 7
    → AreDigits g
    → AllDigits gs
    → recv_bytes t (sequence_then g gs rest) ≡ recv_bytes (colored t (value g ∷ map value gs)) rest
unfolding recv_bytes recv_byte
recv_sequence t g gs rest s n a b = rw (s, recv_byte) (recv_params t [] 7 g gs rest refl n a b)
