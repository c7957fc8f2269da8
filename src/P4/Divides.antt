-- ===== src/P4/Divides.antt =====
-- What `gcd` of user/P4.c returns, and when it returns.
use Prim.Native.Nat.{◌∣◌}
use native.Mathlib.Nat.{dvd_refl, dvd-sub, dvd-add}
use armcortex_a7os.Base.{
  ℕ, zero, suc, ◌+◌, ◌-◌, ◌≤◌, ◌<◌, ◌≡◌, refl, subst, none, some, ◌⊎◌, inl, inr, arith,
}
use armcortex_a7os.P4.{gcd}

-- `g` is a common divisor that every common divisor divides.
pub record IsGcd (x y g : ℕ) : Type 0 where
  pub left : g ∣ x
  pub right : g ∣ y
  pub greatest : (d : ℕ) → d ∣ x → d ∣ y → d ∣ g

IsGcd-left : (x y g : ℕ) → y < x → IsGcd (x - y) y g → IsGcd x y g
IsGcd-left x y g h i = record {
  left = let e : x - y + y ≡ x = omega arith in subst (λ n. g ∣ n) e (dvd-add g (i.left) (i.right));
  right = i.right;
  greatest = λ d p q. i.greatest d (dvd-sub d p q) q;
}

IsGcd-right : (x y g : ℕ) → x < y → IsGcd x (y - x) g → IsGcd x y g
IsGcd-right x y g h i = record {
  left = i.left;
  right =
      let e : y - x + x ≡ y = omega arith in subst (λ n. g ∣ n) e (dvd-add g (i.right) (i.left));
  greatest = λ d p q. i.greatest d p (dvd-sub d q p);
}

IsGcd-self : (x : ℕ) → IsGcd x x x
IsGcd-self x = record { left = dvd_refl x; right = dvd_refl x; greatest = λ d p q. p }

order_cases : (x y : ℕ) → (x ≡ y) ⊎ ((y < x) ⊎ (x < y))
order_cases x y = ground arith

gcd_equal : (f x y : ℕ) → x ≡ y → gcd (suc f) x y ≡ some x
unfolding gcd
gcd_equal f x y e = ground arith

gcd_left : (f x y : ℕ) → y < x → gcd (suc f) x y ≡ gcd f (x - y) y
unfolding gcd
gcd_left f x y h = ground arith

gcd_right : (f x y : ℕ) → x < y → gcd (suc f) x y ≡ gcd f x (y - x)
unfolding gcd
gcd_right f x y h = ground arith

-- For positive `x` and `y`, `x + y` nested calls are enough for `gcd` to return, and what it returns
-- is the greatest common divisor.
pub gcd-IsGcd :
    (f x y : ℕ) → 0 < x → 0 < y → x + y ≤ f → (g : ℕ) × (gcd f x y ≡ some g) × IsGcd x y g
gcd-IsGcd zero x y p q h = absurd (omega arith)
gcd-IsGcd (suc f) x y p q h = elim (order_cases x y) [
  | inl e ↦ (x, gcd_equal f x y e, subst (λ n. IsGcd x n x) e (IsGcd-self x))
  | inr (inl lt) ↦
      let (g, e, i) = gcd-IsGcd f (x - y) y (omega arith) q (omega arith) in
      (g, rw (gcd_left f x y lt) e, IsGcd-left x y g lt i)
  | inr (inr lt) ↦
      let (g, e, i) = gcd-IsGcd f x (y - x) p (omega arith) (omega arith) in
      (g, rw (gcd_right f x y lt) e, IsGcd-right x y g lt i)
]

-- If exactly one of the two is 0, no number of calls is enough: the recursion does not end.
pub gcd_endless : (f x y : ℕ) → ((x ≡ 0) × (0 < y)) ⊎ ((0 < x) × (y ≡ 0)) → gcd f x y ≡ none
unfolding gcd
gcd_endless zero x y h = refl
gcd_endless (suc f) x y (inl (e, h)) =
    rw (gcd_right f x y (omega arith)) (gcd_endless f x (y - x) (inl (e, omega arith)))
gcd_endless (suc f) x y (inr (h, e)) =
    rw (gcd_left f x y (omega arith)) (gcd_endless f (x - y) y (inr (omega arith, e)))
