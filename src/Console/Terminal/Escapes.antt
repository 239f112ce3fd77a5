-- ===== src/Console/Terminal/Escapes.antt =====
-- Bytes in any order keep the terminal valid, and a whole `m` sequence changes the colours alone.
use os_rust.Shared.{
  ℕ, ◌+◌, ◌-◌, ◌≤◌, ◌≡◌, ◌≢◌, refl, List, [], ◌∷◌, true, false, ◌&&◌, ◌==◌, if◌then◌else◌,
  Bool-cases, inl, inr, ok, ltb, leb, length, set, take, length-set, add64, mul64, sub64, arith,
  get_or, index_lem,
}
use os_rust.Console.Terminal.{
  Terminal, AnsiArgs, AnsiState, escape, arg, default_args, recv_arg, recv_byte, recv_bytes,
}
use os_rust.Console.Terminal.Colors.{apply_params_lem, fold_after, fg_after, bg_after}
use os_rust.Console.Terminal.Cursor.{ArgsValid, IsValid, put_char-Puts}

with_state :
    (t : Terminal) (old new : AnsiState)
    → IsValid (record t { ansi_state = old })
    → ArgsValid new
    → IsValid (record t { ansi_state = new })
with_state t old new v a = record {
  screen = v.screen;
  column_fits = v.column_fits;
  row_fits = v.row_fits;
  width_small = v.width_small;
  height_small = v.height_small;
  args_valid = a;
}

with_colors :
    (t : Terminal) (fg bg : ℕ) → IsValid t → IsValid (record t { fg_color = fg; bg_color = bg })
with_colors t fg bg v = record {
  screen = v.screen;
  column_fits = v.column_fits;
  row_fits = v.row_fits;
  width_small = v.width_small;
  height_small = v.height_small;
  args_valid = v.args_valid;
}

-- The terminal inside a sequence with these arguments.
abbrev pub inside : Terminal → AnsiArgs → Terminal
inside t a = record t { ansi_state = arg a }

-- The argument being read, and the array after a digit.
abbrev pub with_digit : AnsiArgs → ℕ → AnsiArgs
with_digit a d = record a {
  args = set a.args (a.count - 1) (add64 (mul64 (get_or a.args (a.count - 1) 0) 10) d);
}

abbrev pub next_arg : AnsiArgs → AnsiArgs
next_arg a = record a { count = if ltb a.count 8 then a.count + 1 else a.count }

-- The terminal back outside, with the colours that the parameters select.
abbrev pub colored : Terminal → List ℕ → Terminal
colored t ps = record t {
  fg_color = fold_after fg_after t.fg_color ps;
  bg_color = fold_after bg_after t.bg_color ps;
  ansi_state = AnsiState.ground;
}

pub colored-IsValid :
    (t : Terminal) (ps : List ℕ)
    → IsValid t
    → t.ansi_state ≡ AnsiState.ground
    → IsValid (colored t ps)
colored-IsValid t ps v g =
    with_colors (record t { ansi_state = AnsiState.ground }) _ _
      (with_state t t.ansi_state AnsiState.ground v tt)

module _ (t : Terminal) (a : AnsiArgs) (v : ArgsValid (arg a)) where
  pub recv_digit :
      (c : ℕ)
      → b'0' ≤ c
      → c ≤ b'9'
      → recv_byte (inside t a) c ≡ ok (inside t (with_digit a (c - b'0')))
  unfolding recv_byte recv_arg
  recv_digit c h k =
      let digit : (leb b'0' c && leb c b'9') ≡ true = ground arith in
      let last : sub64 a.count 1 ≡ a.count - 1 = omega arith in
      rw (digit, last, index_lem a.args (a.count - 1) 0 (omega arith))

  pub recv_separator : recv_byte (inside t a) b';' ≡ ok (inside t (next_arg a))
  unfolding recv_byte recv_arg
  recv_separator = rw v.2 (ground arith)

  pub recv_m : recv_byte (inside t a) b'm' ≡ ok (colored t (take a.count a.args))
  unfolding recv_byte recv_arg
  recv_m =
      let fits : (leb 0 a.count && leb a.count (length a.args)) ≡ true = ground arith in
      let whole : a.count - 0 ≡ a.count = omega arith in
      rw (fits, whole, apply_params_lem (inside t a) (take a.count a.args))

  recv_other :
      (c : ℕ)
      → (leb b'0' c && leb c b'9') ≡ false
      → c ≢ b';'
      → c ≢ b'm'
      → recv_byte (inside t a) c ≡ ok (inside t a)
  unfolding recv_byte recv_arg
  recv_other c h k m =
      let p : (c == b';') ≡ false = ground arith in
      let q : (c == b'm') ≡ false = ground arith in rw (h, p, q)

-- One byte, in each escape state.
recv_at :
    (s : AnsiState) (t : Terminal) (c : ℕ)
    → IsValid (record t { ansi_state = s })
    → (t' : Terminal) × (recv_byte (record t { ansi_state = s }) c ≡ ok t') × IsValid t'
unfolding recv_byte
recv_at AnsiState.ground t c v = elim (Bool-cases (c == 27)) [
  | inl e ↦ (record t { ansi_state = escape }, rw e, with_state t AnsiState.ground escape v tt)
  | inr e ↦
      let (t', run, p, w, m) = put_char-Puts (record t { ansi_state = AnsiState.ground }) c v in
      (t', rw e run, w)
]
recv_at escape t c v = elim (Bool-cases (c == b'[')) [
  | inl e ↦ (inside t default_args, rw e, with_state t escape (arg default_args) v (omega arith))
  | inr e ↦
      (record t { ansi_state = AnsiState.ground }, rw e, with_state t escape AnsiState.ground v tt)
]
recv_at (arg a) t c v = elim (Bool-cases (leb b'0' c && leb c b'9')) [
  | inl e ↦ (
    _,
    recv_digit t a v.args_valid c (ground arith) (ground arith),
    with_state t (arg a) (arg (with_digit a (c - b'0'))) v (rw length-set v.args_valid),
  )
  | inr e ↦ elim (Bool-cases (c == b';')) [
    | inl p ↦
        let same : c ≡ b';' = ground arith in
        (
          inside t (next_arg a),
          rw same (recv_separator t a v.args_valid),
          with_state t (arg a) (arg (next_arg a)) v (ground (arith, v.args_valid)),
        )
    | inr p ↦ elim (Bool-cases (c == b'm')) [
      | inl q ↦
          let same : c ≡ b'm' = ground arith in
          (
            colored t (take a.count a.args),
            rw same (recv_m t a v.args_valid),
            with_colors (record t { ansi_state = AnsiState.ground }) _ _
                (with_state t (arg a) AnsiState.ground v tt),
          )
      | inr q ↦ (_, recv_other t a v.args_valid c e (ground arith) (ground arith), v)
    ]
  ]
]

-- A valid terminal takes any sequence of bytes without a panic and stays valid.
pub recv_bytes-IsValid :
    (t : Terminal) (buf : List ℕ)
    → IsValid t
    → (t' : Terminal) × (recv_bytes t buf ≡ ok t') × IsValid t'
unfolding recv_bytes
recv_bytes-IsValid t [] v = (t, refl, v)
recv_bytes-IsValid t (b ∷ buf) v =
    let (t₁, e₁, v₁) = recv_at t.ansi_state t b v in
    let (t₂, e₂, v₂) = recv_bytes-IsValid t₁ buf v₁ in (t₂, rw (e₁, e₂), v₂)
