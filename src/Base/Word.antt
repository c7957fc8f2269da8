-- ===== src/Base/Word.antt =====
-- 32-bit machine words. An `int`, an `int32_t`, a `uint32_t` and a pointer are one word, their bit
-- pattern, a number below 2 ^ 32; `-1` is the pattern of all ones. Signed comparison flips the top
-- bit.
use Prim.Native.Nat.{ℕ, ◌+◌, ◌-◌, ◌/◌, ◌%◌, ◌*◌, ◌^◌}
use mathlib.Core.Bool.{Bool}
use mathlib.Core.List.{List, [], ◌∷◌}
use armcortex_a7os.Base.Tests.{leb}

abbrev pub word_mod : ℕ
word_mod = 2 ^ 32

abbrev pub add32 : ℕ → ℕ → ℕ
add32 a b = (a + b) % word_mod

abbrev pub sub32 : ℕ → ℕ → ℕ
sub32 a b = (a + word_mod - b % word_mod) % word_mod

abbrev pub minus_one : ℕ
minus_one = word_mod - 1

-- `a <= b` on `int`.
abbrev pub sle32 : ℕ → ℕ → Bool
sle32 a b = leb ((a + 2 ^ 31) % word_mod) ((b + 2 ^ 31) % word_mod)

-- The four bytes of a word in memory, and back.
abbrev pub le32 : ℕ → List ℕ
le32 w = (w % 256) ∷ (w / 2 ^ 8 % 256) ∷ (w / 2 ^ 16 % 256) ∷ (w / 2 ^ 24 % 256) ∷ []

abbrev pub of_le32 : ℕ → ℕ → ℕ → ℕ → ℕ
of_le32 a b c d = a + b * 2 ^ 8 + c * 2 ^ 16 + d * 2 ^ 24
