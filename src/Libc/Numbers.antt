-- ===== src/Libc/Numbers.antt =====
-- `atoi`, `itoa` and `memset` of user/libc.c. A string is the list of the bytes from its pointer on;
-- an access outside of it has no result.
pub mod Decimal
pub mod RoundTrip
pub mod Itoa
mod Tests
use armcortex_a7os.Base.{
  ℕ, zero, suc, ◌+◌, ◌-◌, ◌*◌, ◌/◌, ◌%◌, ◌^◌, List, [], ◌∷◌, Bool, true, false, Option, none, some,
  length, set, ltb, leb, ◌==◌, if◌then◌else◌, word_mod, add32, sub32, sle32,
}

-- The loop of `atoi`, with its sign `s` and the number `r` so far.
unfoldable pub atoi_loop : Bool → ℕ → List ℕ → Option ℕ
atoi_loop s r [] = none
atoi_loop s r (c ∷ cs) =
    let tens = r * 10 % word_mod in
    let r' = if s then sub32 tens (sub32 c b'0') else add32 tens (sub32 c b'0') in
    let rest = atoi_loop s r' cs in if c == 0 then some r else rest

unfoldable pub atoi : List ℕ → Option ℕ
unfolding atoi_loop
atoi [] = none
atoi (c ∷ cs) =
    if c == b'-'
    then atoi_loop true 0 cs
    else if c == b'+'
    then atoi_loop false 0 cs
    else atoi_loop false 0 (c ∷ cs)

-- `*p = v`; the pointer is one more than its offset in the array, so that it can stand before it.
unfoldable pub put : ℕ → ℕ → List ℕ → Option (List ℕ)
put zero v r = none
put (suc i) v r = if ltb i (length r) then some (set r i v) else none

-- `while( t >= n ) { p++; n *= 10; }` on fuel.
unfoldable pub count_digits : ℕ → ℕ → ℕ → ℕ → Option ℕ
count_digits zero p n t = none
count_digits (suc fuel) p n t =
    let rest = count_digits fuel (p + 1) (n * 10 % word_mod) t in if sle32 n t then rest else some p

-- `do { *p-- = '0' + ( t % 10 ); t /= 10; } while( t );` on fuel: the array and the pointer.
unfoldable pub put_digits : ℕ → ℕ → ℕ → List ℕ → Option (List ℕ × ℕ)
unfolding put
put_digits zero p t r = none
put_digits (suc fuel) p t r = elim (put p (b'0' + t % 10) r) [
  | none ↦ none
  | some r' ↦ elim (t / 10 == 0) [
    | true ↦ some (r', p - 1)
    | false ↦ put_digits fuel (p - 1) (t / 10) r'
  ]
]

-- The body after the first test: `t` is the absolute value, `p` the pointer to the first digit.
unfoldable pub itoa_digits : ℕ → ℕ → List ℕ → Option (List ℕ × ℕ)
itoa_digits t p r = elim (count_digits 40 p 1 t) [
  | none ↦ none
  | some e ↦ elim (put e 0 r) [ none ↦ none | some r' ↦ put_digits 40 (e - 1) t r' ]
]

-- The sign, if there is one, once the digits are written.
unfoldable pub put_sign : Bool → Option (List ℕ × ℕ) → Option (List ℕ)
unfolding put
put_sign s none = none
put_sign true (some (r, p)) = put p b'-' r
put_sign false (some (r, p)) = some r

-- The array afterwards. `-x` overflows for the least `int`.
unfoldable pub itoa : List ℕ → ℕ → Option (List ℕ)
itoa r x =
    if ltb x (2 ^ 31)
    then put_sign false (itoa_digits x 1 r)
    else if x == 2 ^ 31
    then none
    else put_sign true (itoa_digits (word_mod - x) 2 r)

-- `memset( s, c, count )` on the array from `s` on.
unfoldable pub memset : List ℕ → ℕ → ℕ → Option (List ℕ)
memset r c zero = some r
memset [] c (suc n) = none
memset (x ∷ r) c (suc n) = elim (memset r c n) [ none ↦ none | some r' ↦ some ((c % 256) ∷ r') ]
