-- ===== src/P4/Tests.antt =====
-- P4 at concrete numbers.
use armcortex_a7os.Base.{ℕ, ◌≡◌, refl, none, some, inl, arith, [], ◌∷◌, replicate}
use armcortex_a7os.P4.{gcd, main_p4}
use armcortex_a7os.P4.Goes.{main_p4_lem}
use armcortex_a7os.Libc.Sys.{only_prints}
use armcortex_a7os.P4.Divides.{IsGcd, gcd-IsGcd, gcd_endless}

of_84_36 : gcd 120 84 36 ≡ some 12
unfolding gcd
of_84_36 = refl

gcd-IsGcd_example : (g : ℕ) × (gcd 120 84 36 ≡ some g) × IsGcd 84 36 g
gcd-IsGcd_example = gcd-IsGcd 120 84 36 (omega arith) (omega arith) (omega arith)

of_0_5 : gcd 1000 0 5 ≡ none
of_0_5 = gcd_endless 1000 0 5 (inl (omega arith, omega arith))

main_p4_lem_example : main_p4 only_prints 512 3 [] ≡ some (replicate 3 (b'P' ∷ b'4' ∷ []))
main_p4_lem_example = main_p4_lem 512 (omega arith) only_prints 3 []
