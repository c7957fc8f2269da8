-- ===== src/P3/Wraps.antt =====
-- `is_prime` of user/P3.c on the largest words, where `d * d` wraps around.
use native.Mathlib.Nat.{mod_self}
use armcortex_a7os.Base.{
  ℕ, zero, suc, ◌+◌, ◌-◌, ◌*◌, ◌/◌, ◌%◌, ◌≤◌, ◌<◌, ◌≡◌, ◌≢◌, sym, subst, some, ◌⊎◌, inl, inr, arith,
  word_mod, add32, ℕ_discrete,
}
use armcortex_a7os.P3.{prime_loop, is_prime}
use armcortex_a7os.P3.Primes.{is_prime_small, is_prime_even, is_prime_odd, size_cases}

-- Squares of odd numbers are 1 modulo 8.
odd_square : (k : ℕ) → (2 * k + 1) * (2 * k + 1) % 8 ≡ 1
odd_square k = elim (parity k) [ inl e ↦ rw e (omega arith) | inr e ↦ rw e (omega arith) ]
  where
    parity : (n : ℕ) → (n ≡ 2 * (n / 2)) ⊎ (n ≡ 2 * (n / 2) + 1)
    parity n = omega arith

-- So a wrapped square never passes 2 ^ 32 - 7.
wrapped_square : (d : ℕ) → d % 2 ≡ 1 → d * d % word_mod ≤ word_mod - 7
wrapped_square d o =
    let e : d ≡ 2 * (d / 2) + 1 = omega arith in
    let sq : d * d % 8 ≡ 1 = subst (λ n. n * n % 8 ≡ 1) (sym e) (odd_square (d / 2)) in omega arith

wrapped_loop :
    (f x d : ℕ)
    → word_mod - 7 ≤ x
    → x < word_mod
    → x % 2 ≡ 1
    → d % 2 ≡ 1
    → d ≤ x
    → x < d + 2 * f
    → prime_loop f x d ≡ some 0
unfolding prime_loop
wrapped_loop zero x d l b o od h m = absurd (omega arith)
wrapped_loop (suc f) x d l b o od h m = elim (ℕ_discrete (x % d) 0) [
  | yes z ↦ ground (arith, wrapped_square d od)
  | no nz ↦
      let ne : d ≢ x = λ e. nz (subst (λ n. x % n ≡ 0) (sym e) (mod_self x)) in
      let step : add32 d 2 ≡ d + 2 = omega arith in
      let ih = wrapped_loop f x (d + 2) l b o (omega arith) (omega arith) (omega arith) in
      ground (arith, wrapped_square d od, step, ih)
]

-- For x from 2 ^ 32 - 7 on the wrapped squares never pass x: is_prime goes on until d divides x and
-- returns 0, for a prime too.
pub is_prime_wraps :
    (f x : ℕ) → word_mod - 7 ≤ x → x < word_mod → word_mod / 2 ≤ f → is_prime f x ≡ some 0
is_prime_wraps f x l b m = elim (size_cases x) [
  | inl small ↦ is_prime_small f x small
  | inr (inl two) ↦ absurd (omega arith)
  | inr (inr (inl (h, e))) ↦ is_prime_even f x h e
  | inr (inr (inr (h, o))) ↦
      rw (is_prime_odd f x h o) (wrapped_loop f x 3 l b o (omega arith) (omega arith) (omega arith))
]
