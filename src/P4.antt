-- ===== src/P4.antt =====
-- The test program P4, user/P4.c. The recursion of `gcd` runs on fuel: `none` is a call that has not
-- returned yet.
pub mod Divides
pub mod Goes
mod Tests
use armcortex_a7os.Base.{
  ℕ, zero, suc, ◌-◌, ◌^◌, Option, none, some, ltb, ◌==◌, if◌then◌else◌, for_each, codes,
}
use armcortex_a7os.Libc.Sys.{Sys}

-- The last branch is the end of the function, which no call reaches.
unfoldable pub gcd : ℕ → ℕ → ℕ → Option ℕ
gcd zero x y = none
gcd (suc fuel) x y =
    let left = gcd fuel (x - y) y in
    let right = gcd fuel x (y - x) in
    if x == y then some x else if ltb y x then left else if ltb x y then right else none

-- The loop of `main_P4` for one `x`.
unfoldable pub row : ℕ → ℕ → Option ℕ
unfolding gcd
row fuel x = elim (for_each (2 ^ 8 - 2 ^ 4) (2 ^ 4) (gcd fuel x)) [ none ↦ none | some _ ↦ some 0 ]

-- `n` rounds of its endless loop: `fuel` is that of each `gcd`.
unfoldable pub main_p4 : {W : Type 0} → Sys W → ℕ → ℕ → W → Option W
unfolding row
main_p4 sys fuel zero w = some w
main_p4 sys fuel (suc n) w =
    let rest = main_p4 sys fuel n (sys.print (codes "P4") w) in
    elim (for_each (2 ^ 8 - 2 ^ 4) (2 ^ 4) (row fuel)) [ none ↦ none | some _ ↦ rest ]
