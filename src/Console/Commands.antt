-- ===== src/Console/Commands.antt =====
-- What the commands of user/console.c do.
use armcortex_a7os.Base.{
  ℕ, zero, suc, ◌+◌, ◌^◌, ◌<◌, ◌≤◌, ◌≡◌, refl, ap, ◌∙◌, ◌⊎◌, inl, inr, List, [], ◌∷◌, ◌++◌, none,
  some, take, strlen, minus_one, if◌then◌else◌, arith, codes,
}
use armcortex_a7os.Libc.Sys.{Sys}
use armcortex_a7os.Libc.Numbers.{itoa}
use armcortex_a7os.Libc.Numbers.Decimal.{HasDigits}
use armcortex_a7os.Libc.Numbers.RoundTrip.{has_digits}
use armcortex_a7os.Libc.Numbers.Itoa.{itoa_overrun, itoa_digit, itoa_minus_one}
use armcortex_a7os.Console.{
  skip, split, strtok, nothing, space, same_text, number_in, Programs, prompt, kill_command,
  open_command, run_command,
}
use armcortex_a7os.Console.Line.{Without}
use armcortex_a7os.Console.Tokens.{strtok_word, strtok_last, strtok_all}

two_digits : (k t : ℕ) → 10 ≤ t → HasDigits k t → 2 ≤ k
two_digits zero t h d = absurd (omega arith)
two_digits (suc zero) t h d = absurd (omega (arith, d.1))
two_digits (suc (suc k)) t h d = omega arith

overrun : (t g : ℕ) → (t ≡ 0) ⊎ (10 ≤ t) → t < 10 ^ 9 → itoa (0 ∷ g ∷ []) t ≡ none
overrun t g (inl z) b =
    let (k, nine, d) = has_digits 9 t b in itoa_overrun t k (0 ∷ g ∷ []) b d (inl z)
overrun t g (inr h) b =
    let (k, nine, d) = has_digits 9 t b in
    itoa_overrun t k (0 ∷ g ∷ []) b d (inr (two_digits k t h d))

descriptors :
    (t : ℕ)
    → t < 10 ^ 9 ⊎ t ≡ minus_one
    → ((0 < t) × (t < 10)) ⊎ ((((t ≡ 0) ⊎ (10 ≤ t)) × (t < 10 ^ 9)) ⊎ (t ≡ minus_one))
descriptors t h = ground arith

big_or_zero : (t : ℕ) → (t ≡ 0) ⊎ (10 ≤ t) → (t ≡ 0) ⊎ ((10 ≤ t) ⊎ (t ≡ minus_one))
big_or_zero t (inl z) = inl z
big_or_zero t (inr h) = inr (inl h)

strlen_digit : (t : ℕ) → strlen ((b'0' + t) ∷ 0 ∷ []) ≡ some 1
strlen_digit t = ground arith

module _ {W : Type 0} (sys : Sys W) (ps : Programs) where
  kill_line :
      (g : ℕ) (line : List ℕ) (w : W)
      → run_command sys ps g (codes "kill " ++ line) w ≡ kill_command sys ps line w
  unfolding run_command same_text strtok skip split
  kill_line g line w = refl

  open_line :
      (g : ℕ) (line : List ℕ) (w : W)
      → run_command sys ps g (codes "open " ++ line) w ≡ open_command sys ps g line w
  unfolding run_command same_text strtok skip split
  open_line g line w = refl

  kill_at :
      (line a rest b end : List ℕ) (w : W) {pid s : ℕ}
      → strtok space line ≡ some (a, rest)
      → strtok space rest ≡ some (b, end)
      → number_in a ≡ some pid
      → number_in b ≡ some s
      → kill_command sys ps line w
        ≡ some (prompt (sys.kill (if same_text a (codes "all") then minus_one else pid) s w).1)
  unfolding kill_command
  kill_at line a rest b end w p q na nb = ground arith

  -- The line "kill A B", where A and B are words with the numbers `pid` and `s`, calls kill( pid, s ),
  -- or kill( -1, s ) where A is "all".
  pub run_command-kill :
      (g a b pid s : ℕ) (as' bs : List ℕ) (w : W)
      → Without b' ' (a ∷ as')
      → Without b' ' (b ∷ bs)
      → number_in (a ∷ as') ≡ some pid
      → number_in (b ∷ bs) ≡ some s
      → run_command sys ps g (codes "kill " ++ ((a ∷ as') ++ b' ' ∷ (b ∷ bs))) w
        ≡ some
            (prompt (sys.kill (if same_text (a ∷ as') (codes "all") then minus_one else pid) s w).1)
  run_command-kill g a b pid s as' bs w ha hb na nb =
      kill_line g ((a ∷ as') ++ b' ' ∷ (b ∷ bs)) w
      ∙ kill_at ((a ∷ as') ++ b' ' ∷ (b ∷ bs)) (a ∷ as') (b ∷ bs) (b ∷ bs) [] w
          (strtok_word a as' (b ∷ bs) ha) (strtok_last b bs hb) na nb

  open_at :
      (g : ℕ) (line name rest result : List ℕ) (n : ℕ) (w : W)
      → strtok nothing line ≡ some (name, rest)
      → itoa (0 ∷ g ∷ []) (sys.open_file name w).0 ≡ some result
      → strlen result ≡ some n
      → open_command sys ps g line w
        ≡ some
            (prompt (sys.print (codes "\n") (sys.print (take n result) (sys.open_file name w).1)))
  unfolding open_command
  open_at g line name rest result n w p q r = rw (p, open_command, q, r)

  open_overrun :
      (g : ℕ) (line name rest : List ℕ) (w : W)
      → strtok nothing line ≡ some (name, rest)
      → itoa (0 ∷ g ∷ []) (sys.open_file name w).0 ≡ none
      → open_command sys ps g line w ≡ none
  unfolding open_command
  open_overrun g line name rest w p q = rw (p, open_command, q)

  -- The line "open NAME" opens the file NAME. If the descriptor is from 1 to 9 it is printed on a line;
  -- for the descriptor 0, one of two digits or more (below 10 ^ 9), and the failure -1, the array of
  -- two bytes is overrun.
  pub run_command-open :
      (g c : ℕ) (cs : List ℕ) (w v : W) (res : ℕ)
      → sys.open_file (c ∷ cs) w ≡ (res, v)
      → res < 10 ^ 9 ⊎ res ≡ minus_one
      → ((0 < res)
          × (res < 10)
          × (run_command sys ps g (codes "open " ++ c ∷ cs) w
              ≡ some (prompt (sys.print (codes "\n") (sys.print ((b'0' + res) ∷ []) v)))))
        ⊎ (((res ≡ 0) ⊎ ((10 ≤ res) ⊎ (res ≡ minus_one)))
            × (run_command sys ps g (codes "open " ++ c ∷ cs) w ≡ none))
  run_command-open g c cs w v res e h = elim (descriptors res h) [
    | inl (pos, small) ↦ inl (
      pos,
      small,
      open_line g (c ∷ cs) w
          ∙ open_at g (c ∷ cs) (c ∷ cs) [] ((b'0' + res) ∷ 0 ∷ []) 1 w (strtok_all c cs)
              (ap (λ (p : ℕ × W). itoa (0 ∷ g ∷ []) (p.0)) e ∙ itoa_digit res g pos small)
              (strlen_digit res)
          ∙ ap
              (λ (p : ℕ × W).
                some (prompt (sys.print (codes "\n") (sys.print ((b'0' + res) ∷ []) (p.1)))))
              e,
    )
    | inr (inl (big, b)) ↦ inr (
      big_or_zero res big,
      fails (ap (λ (p : ℕ × W). itoa (0 ∷ g ∷ []) (p.0)) e ∙ overrun res g big b),
    )
    | inr (inr m) ↦ inr (
      inr (inr m),
      fails (
          ap (λ (p : ℕ × W). itoa (0 ∷ g ∷ []) (p.0)) e
          ∙ ap (itoa (0 ∷ g ∷ [])) m
          ∙ itoa_minus_one g),
    )
  ]
    where
      fails :
          itoa (0 ∷ g ∷ []) (sys.open_file (c ∷ cs) w).0 ≡ none
          → run_command sys ps g (codes "open " ++ c ∷ cs) w ≡ none
      fails q = open_line g (c ∷ cs) w ∙ open_overrun g (c ∷ cs) (c ∷ cs) [] w (strtok_all c cs) q
