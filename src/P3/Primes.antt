-- ===== src/P3/Primes.antt =====
-- `is_prime` of user/P3.c decides which numbers are prime, as long as `d * d` cannot wrap around.
use native.Mathlib.Nat.{div-add-mod', mod-eq-zero_of_dvd, dvd-mul_right, mod-eq_of_lt}
use Prim.Native.Nat.{◌∣◌}
use armcortex_a7os.Base.{
  ℕ, zero, suc, ◌+◌, ◌*◌, ◌/◌, ◌%◌, ◌≤◌, ◌<◌, ◌≡◌, ◌≢◌, refl, sym, ap, subst, some, ◌⊎◌, inl, inr,
  arith, word_mod, add32, ℕ_discrete,
}
use armcortex_a7os.P3.{prime_loop, is_prime}

abbrev pub Prime : ℕ → Type 0
Prime x = (1 < x) × ((d : ℕ) → 1 < d → d < x → x % d ≢ 0)

-- What a decided question says.
abbrev pub Decides : ℕ → ℕ → Type 0
Decides x r = ((r ≡ 1) × Prime x) ⊎ ((r ≡ 0) × (¬ (Prime x)))

abbrev NoneBelow : ℕ → ℕ → Type 0
NoneBelow d x = (e : ℕ) → 1 < e → e < d → x % e ≢ 0

lt_or_le : (a b : ℕ) → (a < b) ⊎ (b ≤ a)
lt_or_le a b = ground arith

factor_big : (q e x : ℕ) → x ≡ q * e → 0 < x → e < x → 1 < q
factor_big zero e x s p h = absurd (omega arith)
factor_big (suc zero) e x s p h = absurd (omega arith)
factor_big (suc (suc q)) e x s p h = omega arith

-- The other factor divides too.
cofactor : (x e : ℕ) → 1 < e → e < x → x % e ≡ 0 → (q : ℕ) × (x ≡ q * e) × (1 < q) × (x % q ≡ 0)
cofactor x e h k z = (
  x / e,
  split,
  factor_big (x / e) e x split (omega arith) k,
  mod-eq-zero_of_dvd (x / e) (subst (λ n. x / e ∣ n) (sym split) (dvd-mul_right (x / e) e)),
)
  where
    split : x ≡ x / e * e
    split = omega (arith, div-add-mod' x e)

small_factor : (x d q e : ℕ) → x ≡ q * e → x < d * d → d ≤ e → q < d
small_factor x d q e s h k = grind arith

-- Past the square root the question is decided.
past_root : (x d : ℕ) → 1 < x → NoneBelow d x → x < d * d → Prime x
past_root x d h none_below root = (h, undivided)
  where
    undivided : (e : ℕ) → 1 < e → e < x → x % e ≢ 0
    undivided e p q z =
        let (c, s, big, zc) = cofactor x e p q z in
        elim (lt_or_le e d) [
          | inl lt ↦ none_below e p lt z
          | inr le ↦ none_below c big (small_factor x d c e s root le) zc
        ]

-- An odd number has no even divisor.
odd_divisor : (x e : ℕ) → x % 2 ≡ 1 → e % 2 ≡ 0 → 0 < e → x % e ≢ 0
odd_divisor x e o v p z =
    let half : e ≡ 2 * (e / 2) = omega arith in
    omega (arith, div-add-mod' x e, ap (λ n. x / e * n) half)

-- One round of the loop with no divisor found.
NoneBelow-step : (x d : ℕ) → x % 2 ≡ 1 → d % 2 ≡ 1 → x % d ≢ 0 → NoneBelow d x → NoneBelow (d + 2) x
NoneBelow-step x d o od h none_below e p q = elim (lt_or_le e d) [
  | inl lt ↦ none_below e p lt
  | inr le ↦ elim (ℕ_discrete e d) [
    | yes e' ↦ subst (λ n. x % n ≢ 0) (sym e') h
    | no ne ↦ odd_divisor x e o (omega arith) (omega arith)
  ]
]

-- The squares that the loop compares do not wrap around up to the root of 2 ^ 32.
square_fits : (d : ℕ) → d ≤ 65535 → d * d % word_mod ≡ d * d
square_fits d h = mod-eq_of_lt (grind arith)

square_mono : (c d : ℕ) → c ≤ d → c * c ≤ d * d
square_mono c d h = grind arith

step_fits : (d : ℕ) → d ≤ 65535 → add32 d 2 ≡ d + 2
step_fits d h = omega arith

prime_loop_done : (f x d : ℕ) → d ≤ 65535 → x < d * d → prime_loop (suc f) x d ≡ some 1
unfolding prime_loop
prime_loop_done f x d h k = rw (square_fits d h) (ground arith)

prime_loop_found : (f x d : ℕ) → d ≤ 65535 → d * d ≤ x → x % d ≡ 0 → prime_loop (suc f) x d ≡ some 0
unfolding prime_loop
prime_loop_found f x d h k z = rw (square_fits d h) (ground arith)

prime_loop_on :
    (f x d : ℕ)
    → d ≤ 65535
    → d * d ≤ x
    → x % d ≢ 0
    → prime_loop (suc f) x d ≡ prime_loop f x (d + 2)
unfolding prime_loop
prime_loop_on f x d h k z = rw (square_fits d h, step_fits d h) (ground arith)

below_root : (x d : ℕ) → d * d ≤ x → x < 65535 * 65535 → d < 65535
below_root x d h b = elim (lt_or_le d 65535) [
  | inl lt ↦ lt
  | inr le ↦ absurd (omega (arith, square_mono 65535 d le))
]

prime_loop-Decides :
    (f x d : ℕ)
    → 1 < x
    → x < 65535 * 65535
    → x % 2 ≡ 1
    → d % 2 ≡ 1
    → 1 < d
    → d ≤ 65535
    → 65535 < d + 2 * f
    → NoneBelow d x
    → (r : ℕ) × (prime_loop f x d ≡ some r) × Decides x r
prime_loop-Decides zero x d p b o od q h m nb = absurd (omega arith)
prime_loop-Decides (suc f) x d p b o od q h m nb = elim (lt_or_le x (d * d)) [
  | inl lt ↦ (1, prime_loop_done f x d h lt, inl (refl, past_root x d p nb lt))
  | inr le ↦ elim (ℕ_discrete (x % d) 0) [
    | yes z ↦ (0, prime_loop_found f x d h le z, inr (refl, λ c. c.1 d q (grind arith) z))
    | no nz ↦
        let (r, e, i) =
          prime_loop-Decides f x (d + 2) p b o (omega arith) (omega arith)
            (omega (arith, below_root x d le b)) (omega arith) (NoneBelow-step x d o od nz nb) in
        (r, rw (prime_loop_on f x d h le nz) e, i)
  ]
]

pub is_prime_small : (f x : ℕ) → x < 2 → is_prime f x ≡ some 0
unfolding is_prime
is_prime_small f x h = ground arith

pub is_prime_two : (f : ℕ) → is_prime f 2 ≡ some 1
unfolding is_prime
is_prime_two f = refl

pub is_prime_even : (f x : ℕ) → 2 < x → x % 2 ≡ 0 → is_prime f x ≡ some 0
unfolding is_prime
is_prime_even f x h e = ground arith

pub is_prime_odd : (f x : ℕ) → 2 < x → x % 2 ≡ 1 → is_prime f x ≡ prime_loop f x 3
unfolding is_prime
is_prime_odd f x h o = ground arith

no_divisor_below_3 : (x : ℕ) → x % 2 ≡ 1 → NoneBelow 3 x
no_divisor_below_3 x o e p q z =
    let two : e ≡ 2 = omega arith in omega (arith, subst (λ n. x % n ≡ 0) two z)

Prime-two : Prime 2
Prime-two = (omega arith, λ d p q z. omega arith)

pub size_cases : (x : ℕ) → (x < 2) ⊎ ((x ≡ 2) ⊎ ((2 < x) × (x % 2 ≡ 0) ⊎ (2 < x) × (x % 2 ≡ 1)))
size_cases x = grind arith

-- For x below 65535 ^ 2, 32768 rounds of the loop are enough for `is_prime` to return, and it returns
-- 1 if x is prime and 0 if it is not.
pub is_prime-Decides :
    (f x : ℕ) → x < 65535 * 65535 → 32768 ≤ f → (r : ℕ) × (is_prime f x ≡ some r) × Decides x r
is_prime-Decides f x b m = elim (size_cases x) [
  | inl small ↦ (0, is_prime_small f x small, inr (refl, λ c. omega (arith, c.0)))
  | inr (inl two) ↦ (1, rw two (is_prime_two f), inl (refl, subst Prime (sym two) Prime-two))
  | inr (inr (inl (h, e))) ↦ (0, is_prime_even f x h e, inr (refl, λ c. c.1 2 (omega arith) h e))
  | inr (inr (inr (h, o))) ↦
      let (r, e, i) =
        prime_loop-Decides f x 3 (omega arith) b o (omega arith) (omega arith) (omega arith)
          (omega arith) (no_divisor_below_3 x o) in
      (r, rw (is_prime_odd f x h o) e, i)
]
