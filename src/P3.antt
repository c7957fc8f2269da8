-- ===== src/P3.antt =====
-- The test program P3, user/P3.c. The loop of `is_prime` runs on fuel: `none` is a call that has not
-- returned yet.
pub mod Primes
pub mod Wraps
pub mod Ends
mod Tests
use armcortex_a7os.Base.{
  ℕ, zero, suc, ◌*◌, ◌-◌, ◌^◌, ◌%◌, Option, none, some, ◌||◌, ltb, leb, ◌==◌, if◌then◌else◌,
  word_mod, add32, for_each, codes,
}
use armcortex_a7os.Libc.Sys.{Sys, exit_success}

-- The loop from the odd number `d` on; `d * d` and `d += 2` wrap around.
unfoldable pub prime_loop : ℕ → ℕ → ℕ → Option ℕ
prime_loop zero x d = none
prime_loop (suc fuel) x d =
    let next = prime_loop fuel x (add32 d 2) in
    if leb (d * d % word_mod) x then if x % d == 0 then some 0 else next else some 1

-- `x & 1` is `x % 2`.
unfoldable pub is_prime : ℕ → ℕ → Option ℕ
unfolding prime_loop
is_prime fuel x =
    if x % 2 == 0 || ltb x 2 then some (if x == 2 then 1 else 0) else prime_loop fuel x 3

-- The first loop of `main_P3`, with the code given to `exit`: `fuel` is that of each `is_prime`.
unfoldable pub main_rounds : {W : Type 0} → Sys W → ℕ → ℕ → W → Option (ℕ × W)
unfolding is_prime
main_rounds sys fuel zero w = some (exit_success, w)
main_rounds sys fuel (suc n) w =
    let rest = main_rounds sys fuel n (sys.print (codes "P3") w) in
    elim (for_each (2 ^ 16 - 2 ^ 8) (2 ^ 8) (is_prime fuel)) [ none ↦ none | some _ ↦ rest ]

unfoldable pub main_p3 : {W : Type 0} → Sys W → ℕ → W → Option (ℕ × W)
unfolding main_rounds
main_p3 sys fuel w = main_rounds sys fuel 15 w
