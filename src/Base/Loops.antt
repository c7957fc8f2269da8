-- ===== src/Base/Loops.antt =====
-- Loops of a program that drop what they compute.
use Prim.Native.Nat.{ℕ, zero, suc, ◌+◌, ◌≤◌, ◌<◌}
use mathlib.Core.Path.{◌≡◌, refl}
use mathlib.Core.Option.{Option, none, some}
use native.Mathlib.Omega.{arith}

-- `n` calls of `f`, on `x` and the numbers after it: none where one does not return.
unfoldable pub for_each : ℕ → ℕ → (ℕ → Option ℕ) → Option (Unit {0})
for_each zero x f = some tt
for_each (suc n) x f = let rest = for_each n (x + 1) f in elim (f x) [ none ↦ none | some r ↦ rest ]

abbrev pub iterate {ℓ} : {A : Type ℓ} → ℕ → (A → A) → A → A
iterate zero f a = a
iterate (suc n) f a = iterate n f (f a)

-- A value of an option.
abbrev pub Returns : Option ℕ → Type 0
Returns o = (r : ℕ) × (o ≡ some r)

pub for_each-Returns :
    (n x : ℕ) (f : ℕ → Option ℕ)
    → ((y : ℕ) → x ≤ y → y < x + n → Returns (f y))
    → for_each n x f ≡ some tt
unfolding for_each
for_each-Returns zero x f h = refl
for_each-Returns (suc n) x f h =
    rw ((h x (omega arith) (omega arith)).1, for_each)
      (for_each-Returns n (x + 1) f (λ y a b. h y (omega arith) (omega arith)))
