-- ===== src/P3/Tests.antt =====
-- P3 at concrete numbers.
use armcortex_a7os.Base.{ℕ, ◌≡◌, refl, some, arith, [], ◌∷◌, replicate}
use armcortex_a7os.P3.{is_prime, main_p3}
use armcortex_a7os.P3.Primes.{Decides, is_prime-Decides}
use armcortex_a7os.P3.Ends.{main_p3_lem}
use armcortex_a7os.Libc.Sys.{only_prints, exit_success}
use armcortex_a7os.P3.Wraps.{is_prime_wraps}

of_97 : is_prime 20 97 ≡ some 1
unfolding is_prime
of_97 = refl

of_91 : is_prime 20 91 ≡ some 0
unfolding is_prime
of_91 = refl

is_prime-Decides_example : (r : ℕ) × (is_prime 32768 65521 ≡ some r) × Decides 65521 r
is_prime-Decides_example = is_prime-Decides 32768 65521 (omega arith) (omega arith)

-- 4294967291 is a prime.
is_prime_wraps_example : is_prime 2147483648 4294967291 ≡ some 0
is_prime_wraps_example =
    is_prime_wraps 2147483648 4294967291 (omega arith) (omega arith) (omega arith)

main_p3_lem_example :
    main_p3 only_prints 32768 [] ≡ some (exit_success, replicate 15 (b'P' ∷ b'3' ∷ []))
main_p3_lem_example = main_p3_lem only_prints 32768 (omega arith) []
