-- ===== src/P6/Table.antt =====
-- The chopsticks on the table of user/P6.c, while every other philosopher takes two of them.
use armcortex_a7os.Base.{
  ℕ, zero, suc, ◌+◌, ◌%◌, ◌<◌, ◌≡◌, refl, List, Bool, true, false, ◌&&◌, not, replicate, get_or,
  ◌==◌, if◌then◌else◌, arith, length, list_ext, ==_iff, all_below, all_below_at,
}
use armcortex_a7os.P6.{chopsticks_available, chopsticks_remove, chopsticks_return}

abbrev pub even : ℕ → Bool
even n = n % 2 == 0

-- The chopsticks after `k` philosophers were served, from `first` on, of whom every other one eats.
pub laid : ℕ → ℕ → List ℕ
laid first zero = replicate 16 1
laid first (suc k) =
    if even k then chopsticks_remove ((first + k) % 16) (laid first k) else laid first k

same : Bool → Bool → Bool
same a b = if a then b else not b

same_eq : (a b : Bool) → same a b ≡ true → a ≡ b
unfolding same
same_eq a b h = ground arith

laid_table :
    all_below 16 (λ first.
      all_below 16 (λ k. same (chopsticks_available ((first + k) % 16) (laid first k)) (even k)))
    ≡ true
unfolding all_below same laid chopsticks_available chopsticks_remove
laid_table = refl

pub available-even :
    (first k : ℕ)
    → first < 16
    → k < 16
    → chopsticks_available ((first + k) % 16) (laid first k) ≡ even k
available-even first k h l =
    same_eq _ _ (all_below_at 16 _ k (all_below_at 16 _ first laid_table h) l)

returned_table :
    all_below 16 (λ first.
      (length (chopsticks_return (laid first 16)) == 16)
      && all_below 16
          (λ i. get_or (chopsticks_return (laid first 16)) i 0 == get_or (replicate 16 1) i 0))
    ≡ true
unfolding all_below laid chopsticks_return chopsticks_remove
returned_table = refl

both : (a b : Bool) → (a && b) ≡ true → (a ≡ true) × (b ≡ true)
both a b h = ground arith

-- Whoever ate, all chopsticks lie on the table again after `chopsticks_return`.
pub return-laid : (first : ℕ) → first < 16 → chopsticks_return (laid first 16) ≡ replicate 16 1
return-laid first h =
    let (len, entries) = both _ _ (all_below_at 16 _ first returned_table h) in
    let len' = (==_iff _ _).0 len in
    list_ext (chopsticks_return (laid first 16)) (replicate 16 1) 0 len'
      (λ i l. (==_iff _ _).0 (all_below_at 16 _ i entries (omega (arith, len'))))

pub laid-even :
    (first k : ℕ)
    → even k ≡ true
    → laid first (suc k) ≡ chopsticks_remove ((first + k) % 16) (laid first k)
unfolding laid
laid-even first k e = rw e

pub laid-odd : (first k : ℕ) → even k ≡ false → laid first (suc k) ≡ laid first k
unfolding laid
laid-odd first k e = rw e

pub laid-none : (first : ℕ) → replicate 16 1 ≡ laid first 0
unfolding laid
laid-none first = refl
