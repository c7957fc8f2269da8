-- ===== src/P4/Goes.antt =====
-- The run of `main_P4`, user/P4.c.
use armcortex_a7os.Base.{
  ℕ, zero, suc, ◌-◌, ◌^◌, ◌≤◌, ◌<◌, ◌≡◌, refl, some, arith, codes, iterate, Returns, for_each,
  for_each-Returns,
}
use armcortex_a7os.Libc.Sys.{Sys}
use armcortex_a7os.P4.{gcd, row, main_p4}
use armcortex_a7os.P4.Divides.{gcd-IsGcd}

module _ (fuel : ℕ) (enough : 2 ^ 9 ≤ fuel) where
  row-Returns : (x : ℕ) → 2 ^ 4 ≤ x → x < 2 ^ 8 → Returns (row fuel x)
  unfolding row
  row-Returns x a b = (0, rw (returned, row) refl)
    where
      returned : for_each (2 ^ 8 - 2 ^ 4) (2 ^ 4) (gcd fuel x) ≡ some tt
      returned = for_each-Returns (2 ^ 8 - 2 ^ 4) (2 ^ 4) (gcd fuel x) (λ y c d.
          let (g, e, i) = gcd-IsGcd fuel x y (omega arith) (omega arith) (omega arith) in (g, e))

  all_return : for_each (2 ^ 8 - 2 ^ 4) (2 ^ 4) (row fuel) ≡ some tt
  all_return =
      for_each-Returns (2 ^ 8 - 2 ^ 4) (2 ^ 4) (row fuel) (λ x a b. row-Returns x a (omega arith))

  -- With 512 nested calls for each `gcd`, every round of the endless loop of `main_P4` ends: `n`
  -- rounds print the name of the program `n` times and make no other system call.
  pub main_p4_lem :
      {W : Type 0} (sys : Sys W) (n : ℕ) (w : W)
      → main_p4 sys fuel n w ≡ some (iterate n (sys.print (codes "P4")) w)
  unfolding main_p4
  main_p4_lem sys zero w = refl
  main_p4_lem sys (suc n) w =
      rw (all_return, main_p4) (main_p4_lem sys n (sys.print (codes "P4") w))
