-- ===== src/P3/Ends.antt =====
-- The run of `main_P3`, user/P3.c.
use armcortex_a7os.Base.{
  ℕ, zero, suc, ◌-◌, ◌^◌, ◌≤◌, ◌≡◌, refl, some, arith, codes, iterate, for_each, for_each-Returns,
}
use armcortex_a7os.Libc.Sys.{Sys, exit_success}
use armcortex_a7os.P3.{is_prime, main_rounds, main_p3}
use armcortex_a7os.P3.Primes.{is_prime-Decides}

module _ {W : Type 0} (sys : Sys W) (fuel : ℕ) (enough : 32768 ≤ fuel) where
  all_return : for_each (2 ^ 16 - 2 ^ 8) (2 ^ 8) (is_prime fuel) ≡ some tt
  all_return =
      for_each-Returns (2 ^ 16 - 2 ^ 8) (2 ^ 8) (is_prime fuel)
        (λ y a b. let (r, e, d) = is_prime-Decides fuel y (omega arith) enough in (r, e))

  main_rounds_lem :
      (n : ℕ) (w : W)
      → main_rounds sys fuel n w ≡ some (exit_success, iterate n (sys.print (codes "P3")) w)
  unfolding main_rounds
  main_rounds_lem zero w = refl
  main_rounds_lem (suc n) w =
      rw (all_return, main_rounds) (main_rounds_lem n (sys.print (codes "P3") w))

  -- With 32768 rounds for each `is_prime`, `main_P3` ends: it has printed its name fifteen times, made
  -- no other system call, and exits with `EXIT_SUCCESS`.
  pub main_p3_lem :
      (w : W) → main_p3 sys fuel w ≡ some (exit_success, iterate 15 (sys.print (codes "P3")) w)
  unfolding main_p3
  main_p3_lem w = main_rounds_lem 15 w
