-- ===== src/P5/Goes.antt =====
-- The run of `main_P5`, user/P5.c.
use armcortex_a7os.Base.{
  ℕ, zero, suc, ◌-◌, ◌^◌, ◌≡◌, refl, some, codes, iterate, for_each, for_each-Returns,
}
use armcortex_a7os.Libc.Sys.{Sys}
use armcortex_a7os.P5.{weight, main_p5}

all_return : for_each (2 ^ 24 - 2 ^ 8) (2 ^ 8) (λ x. some (weight x)) ≡ some tt
all_return =
    for_each-Returns (2 ^ 24 - 2 ^ 8) (2 ^ 8) (λ x. some (weight x)) (λ y a b. (weight y, refl))

-- Every round of the endless loop of `main_P5` ends: `n` rounds print the name of the program `n`
-- times and make no other system call.
pub main_p5_lem :
    {W : Type 0} (sys : Sys W) (n : ℕ) (w : W)
    → main_p5 sys n w ≡ some (iterate n (sys.print (codes "P5")) w)
unfolding main_p5
main_p5_lem sys zero w = refl
main_p5_lem sys (suc n) w = rw (all_return, main_p5) (main_p5_lem sys n (sys.print (codes "P5") w))
