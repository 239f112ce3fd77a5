-- ===== src/Console/Terminal/Plain.antt =====
-- Text with no escape in it.
use os_rust.Shared.{ℕ, ◌≡◌, refl, ◌∙◌, List, [], ◌∷◌, ◌++◌, false, ◌==◌, ap, Outcome, ok, ◌>>=◌}
use os_rust.Console.Terminal.{Terminal, AnsiState, recv_byte, recv_bytes, recv_in, put_char}
use os_rust.Console.Terminal.Cursor.{IsValid, SameMode, put_char-Puts}

abbrev pub IsPlain : List ℕ → Type 0
IsPlain [] = Unit
IsPlain (c ∷ text) = ((c == 27) ≡ false) × IsPlain text

pub IsPlain-append : (a b : List ℕ) → IsPlain a → IsPlain b → IsPlain (a ++ b)
IsPlain-append [] b h k = k
IsPlain-append (c ∷ a) b (h, hs) k = (h, IsPlain-append a b hs k)

-- The bytes of a text through `put_char`, one after another.
unfoldable pub put_chars : Terminal → List ℕ → Outcome Terminal
put_chars t [] = ok t
put_chars t (c ∷ text) = do t' ← put_char t c; put_chars t' text

-- A terminal outside a sequence that goes on after a text, which it has put on the screen.
pub record After (t : Terminal) (text rest : List ℕ) : Type 0 where
  pub next : Terminal
  pub valid : IsValid next
  pub same : SameMode t next
  pub puts : put_chars t text ≡ ok next
  pub runs : recv_bytes t (text ++ rest) ≡ recv_bytes next rest

recv_plain :
    (t : Terminal) (c : ℕ)
    → t.ansi_state ≡ AnsiState.ground
    → (c == 27) ≡ false
    → recv_byte t c ≡ put_char t c
unfolding recv_byte
recv_plain t c g h = ap (λ (s : AnsiState). recv_in s t c) g ∙ rw h refl

pub plain-After :
    (t : Terminal) (text rest : List ℕ)
    → IsValid t
    → t.ansi_state ≡ AnsiState.ground
    → IsPlain text
    → After t text rest
unfolding recv_bytes put_chars
plain-After t [] rest v g plain = record {
  next = t;
  valid = v;
  same = record { fg_same = refl; bg_same = refl; state_same = refl };
  puts = refl;
  runs = refl;
}
plain-After t (c ∷ text) rest v g (h, plain) =
    let (t₁, run, p, w, m) = put_char-Puts t c v in
    let a = plain-After t₁ text rest w (m.state_same ∙ g) plain in
    record {
      next = a.next;
      valid = a.valid;
      same = record {
        fg_same = a.same.fg_same ∙ m.fg_same;
        bg_same = a.same.bg_same ∙ m.bg_same;
        state_same = a.same.state_same ∙ m.state_same;
      };
      puts = rw run a.puts;
      runs = rw (recv_plain t c g h, run) a.runs;
    }
