-- ===== src/P5/Masks.antt =====
-- `&` with the masks of user/P5.c, byte by byte.
use Prim.Native.Nat.{bit_and, digits, bit_and-bitwise}
use armcortex_a7os.Base.{
  ℕ, zero, suc, ◌+◌, ◌*◌, ◌/◌, ◌%◌, ◌≤◌, min, ◌≡◌, refl, ap, ap₂, ◌∙◌, ◌⊎◌, inl, inr, arith,
}

-- `bit_and` from its definition on `n` digits.
abbrev and_on : ℕ → ℕ → ℕ → ℕ
and_on n a b = digits (λ d. zero) min n a b

one_more : (n a b : ℕ) → a ≤ n → and_on (suc n) a b ≡ and_on n a b
one_more zero zero b h = refl
one_more zero (suc a) b h = absurd (omega arith)
one_more (suc n) zero b h = refl
one_more (suc n) (suc a) b h = omega (arith, one_more n (suc a / 2) (b / 2) (omega arith))

enough_digits : (n a b : ℕ) → a ≤ n → and_on n a b ≡ and_on a a b
enough_digits zero zero b h = refl
enough_digits zero (suc a) b h = absurd (omega arith)
enough_digits (suc n) a b h = elim (last a n h) [
  | inl le ↦ one_more n a b le ∙ enough_digits n a b le
  | inr e ↦ rw e
]
  where
    last : (c m : ℕ) → c ≤ suc m → (c ≤ m) ⊎ (c ≡ suc m)
    last c m k = omega arith

no_digits : (b : ℕ) → bit_and 0 b ≡ 0
no_digits b = bit_and-bitwise 0 b

lowest_digit : (a b : ℕ) → bit_and a b ≡ min (a % 2) (b % 2) + bit_and (a / 2) (b / 2) * 2
lowest_digit zero b = omega (arith, no_digits b, no_digits (b / 2))
lowest_digit (suc a) b = omega (
  arith,
  enough_digits a (suc a / 2) (b / 2) (omega arith),
  bit_and-bitwise (suc a / 2) (b / 2),
  bit_and-bitwise (suc a) b,
)

and_zero : (n a : ℕ) → a ≤ n → bit_and a 0 ≡ 0
and_zero n zero h = no_digits 0
and_zero zero (suc a) h = absurd (omega arith)
and_zero (suc n) (suc a) h =
    omega (arith, lowest_digit (suc a) 0, and_zero n (suc a / 2) (omega arith))

pub bit_and-zero : (a : ℕ) → bit_and a 0 ≡ 0
bit_and-zero a = and_zero a a (omega arith)

-- `&` acts on the digits above and below the place `n` apart.
abbrev pub Splits : ℕ → Type 0
Splits n = (a b : ℕ) → bit_and a b ≡ bit_and (a / n) (b / n) * n + bit_and (a % n) (b % n)

-- The places `p` and `q` above it make the place `q * p`.
Splits-mul :
    (p q : ℕ)
    → Splits p
    → Splits q
    → ((a : ℕ)
        → (a / p / q ≡ a / (q * p)) × (a % (q * p) / p ≡ a / p % q) × (a % (q * p) % p ≡ a % p))
    → Splits (q * p)
Splits-mul p q h k f a b = omega (
  arith,
  h a b,
  k (a / p) (b / p),
  h (a % (q * p)) (b % (q * p)),
  ap (λ n. n * p) (k (a / p) (b / p)),
  ap₂ bit_and (f a).0 (f b).0,
  ap₂ bit_and (f a).1 (f b).1,
  ap₂ bit_and (f a).2 (f b).2,
  ap (λ n. n * (q * p)) (ap₂ bit_and (f a).0 (f b).0),
  ap (λ n. n * p) (ap₂ bit_and (f a).1 (f b).1),
)

Splits-2 : Splits 2
Splits-2 a b = omega (
  arith,
  lowest_digit a b,
  lowest_digit (a % 2) (b % 2),
  no_digits (b % 2 / 2),
  ap (λ n. bit_and n (b % 2 / 2)) half,
)
  where
    half : a % 2 / 2 ≡ 0
    half = omega arith

Splits-4 : Splits 4
Splits-4 = Splits-mul 2 2 Splits-2 Splits-2 λ a. omega arith

pub Splits-16 : Splits 16
Splits-16 = Splits-mul 4 4 Splits-4 Splits-4 λ a. omega arith

pub Splits-64 : Splits 64
Splits-64 = Splits-mul 4 16 Splits-4 Splits-16 λ a. omega arith

pub Splits-128 : Splits 128
Splits-128 = Splits-mul 2 64 Splits-2 Splits-64 λ a. omega arith

pub Splits-256 : Splits 256
Splits-256 = Splits-mul 16 16 Splits-16 Splits-16 λ a. omega arith

pub Splits-65536 : Splits 65536
Splits-65536 = Splits-mul 256 256 Splits-256 Splits-256 λ a. omega arith

-- A mask below the place `r` reads only the digits below it.
pub low_digits :
    (r : ℕ) → Splits r → (a m : ℕ) → m / r ≡ 0 → m % r ≡ m → bit_and a m ≡ bit_and (a % r) m
low_digits r h a m z e =
    let high : bit_and (a / r) (m / r) ≡ 0 = rw z (bit_and-zero (a / r)) in
    omega (arith, h a m, ap (λ n. n * r) high, ap (bit_and (a % r)) e)
