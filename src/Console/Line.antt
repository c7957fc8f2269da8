-- ===== src/Console/Line.antt =====
-- `gets` of user/console.c reads a line.
use armcortex_a7os.Base.{
  ℕ, zero, suc, ◌<◌, ◌≡◌, ◌≢◌, refl, List, [], ◌∷◌, ◌++◌, some, length, arith, ==_ne,
}
use armcortex_a7os.Uart.{Port, return}
use armcortex_a7os.Uart.Hex.{with_input, >>=-of}
use armcortex_a7os.Console.{gets}

-- No byte of `cs` is `c`.
abbrev pub Without : ℕ → List ℕ → Type 0
Without c [] = Unit {0}
Without c (b ∷ bs) = (b ≢ c) × Without c bs

-- A line of less than `n` bytes is read with its end; the array has the line and a null byte.
pub gets_line :
    {P : Type 0} (n : ℕ) (line rest : List ℕ) (d : Port P)
    → Without b'\n' line
    → length line < n
    → gets n (with_input (line ++ b'\n' ∷ rest) d) ≡ some (line ++ 0 ∷ [], with_input rest d)
unfolding gets
gets_line zero line rest d h l = absurd (omega arith)
gets_line (suc n) [] rest d h l = refl
gets_line (suc n) (c ∷ cs) rest d h l = rw (==_ne c b'\n' h.0) (
    >>=-of (gets n) (λ xs. return (c ∷ xs)) (with_input (cs ++ b'\n' ∷ rest) d)
      (gets_line n cs rest d h.1 (omega arith)))
