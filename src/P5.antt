-- ===== src/P5.antt =====
-- The test program P5, user/P5.c; `weight` on the bit patterns of its words.
pub mod Masks
pub mod Steps
pub mod Count
pub mod Goes
mod Tests
use Prim.Native.Nat.{bit_and}
use armcortex_a7os.Base.{
  ℕ, ◌+◌, ◌/◌, ◌^◌, add32, zero, suc, ◌-◌, Option, none, some, for_each, codes,
}
use armcortex_a7os.Libc.Sys.{Sys}

-- `( x & m ) + ( ( x >> k ) & m )`
abbrev pub fold : ℕ → ℕ → ℕ → ℕ
fold m k x = add32 (bit_and x m) (bit_and (x / 2 ^ k) m)

unfoldable pub weight : ℕ → ℕ
weight x =
    fold 0x0000FFFF 16
      (fold 0x00FF00FF 8 (fold 0x0F0F0F0F 4 (fold 0x33333333 2 (fold 0x55555555 1 x))))

-- `n` rounds of the endless loop of `main_P5`.
unfoldable pub main_p5 : {W : Type 0} → Sys W → ℕ → W → Option W
unfolding weight
main_p5 sys zero w = some w
main_p5 sys (suc n) w =
    let rest = main_p5 sys n (sys.print (codes "P5") w) in
    elim (for_each (2 ^ 24 - 2 ^ 8) (2 ^ 8) (λ x. some (weight x))) [ none ↦ none | some _ ↦ rest ]
