-- ===== src/Libc/Numbers/Tests.antt =====
-- `itoa` and `atoi` at concrete numbers.
use armcortex_a7os.Base.{
  ℕ, ◌-◌, ◌≡◌, refl, List, [], ◌∷◌, none, some, replicate, length, minus_one, inr, arith,
}
use armcortex_a7os.Libc.Numbers.{
  atoi, put, count_digits, put_digits, itoa_digits, put_sign, itoa, memset,
}
use armcortex_a7os.Libc.Numbers.Itoa.{itoa-atoi, itoa_overrun}

of_minus_27 : itoa (replicate 5 9) (minus_one - 26) ≡ some (b'-' ∷ b'2' ∷ b'7' ∷ 0 ∷ 9 ∷ [])
unfolding itoa put_sign itoa_digits put count_digits put_digits
of_minus_27 = refl

read_minus_27 : atoi (b'-' ∷ b'2' ∷ b'7' ∷ 0 ∷ 9 ∷ []) ≡ some (minus_one - 26)
unfolding atoi
read_minus_27 = refl

cleared : memset (1 ∷ 2 ∷ 3 ∷ []) 256 2 ≡ some (0 ∷ 0 ∷ 3 ∷ [])
unfolding memset
cleared = refl

itoa-atoi_example :
    (r' : List ℕ) × (itoa (replicate 11 9) (minus_one - 26) ≡ some r')
    × (atoi r' ≡ some (minus_one - 26))
    × (length r' ≡ 11)
itoa-atoi_example = itoa-atoi (minus_one - 26) (replicate 11 9) (inr (omega arith)) (omega arith)

-- The array of two bytes that the console gives for the descriptor 10.
itoa_overrun_example : itoa (0 ∷ 0 ∷ []) 10 ≡ none
itoa_overrun_example =
    itoa_overrun 10 2 (0 ∷ 0 ∷ []) (omega arith) (omega arith) (inr (omega arith))
