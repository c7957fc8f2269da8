-- ===== src/Libc/Numbers/Itoa.antt =====
-- `itoa` and `atoi` of user/libc.c: the round trip, and the arrays that `itoa` overruns.
use armcortex_a7os.Base.{
  ℕ, zero, suc, ◌+◌, ◌-◌, ◌/◌, ◌%◌, ◌^◌, ◌≤◌, ◌<◌, ◌≡◌, ◌≢◌, refl, ap, ◌∙◌, ◌⊎◌, inl, inr, List, [],
  ◌∷◌, true, false, none, some, arith, length, set, length-set, word_mod, get_or-set_self,
  get_or-set_ne, get_or,
}
use armcortex_a7os.Libc.Numbers.{atoi, put, count_digits, put_digits, itoa_digits, put_sign, itoa}
use armcortex_a7os.Libc.Numbers.Decimal.{
  HasDigits, Shows, lt_or_le, put_lem, put_digits_last, Shows-set, count_digits_lem,
}
use armcortex_a7os.Libc.Numbers.RoundTrip.{
  has_digits, itoa_digits_room, itoa_digits_no_room, itoa_digits-put, atoi_loop_lem, first_digit,
  atoi_plain, atoi_negative,
}

itoa_plain : (u : ℕ) (q : List ℕ) → u < 10 ^ 9 → itoa q u ≡ put_sign false (itoa_digits u 1 q)
unfolding itoa
itoa_plain u q h = ground arith

-- A number below 10 ^ 9 with `k` digits, in an array of at least `k + 1` bytes: its digits, and a null
-- byte behind them.
pub itoa-Shows :
    (k t : ℕ) (r : List ℕ)
    → 0 < t
    → t < 10 ^ 9
    → k ≤ 9
    → HasDigits k t
    → k < length r
    → (r' : List ℕ) × (itoa r t ≡ some r')
      × Shows r' 0 k t
      × (get_or r' (0 + k) 0 ≡ 0)
      × (length r' ≡ length r)
itoa-Shows k t r pos b nine d l =
    let (r', q, shown, ended, len) = itoa_digits_room k 0 t r pos b nine d (omega arith) in
    (r', itoa_plain t r b ∙ ap (put_sign false) q ∙ unfold put_sign in refl, shown, ended, len)

pub itoa-atoi_plain :
    (k t : ℕ) (r : List ℕ)
    → 0 < t
    → t < 10 ^ 9
    → k ≤ 9
    → HasDigits k t
    → k < length r
    → (r' : List ℕ) × (itoa r t ≡ some r') × (atoi r' ≡ some t) × (length r' ≡ length r)
itoa-atoi_plain zero t r pos b nine d l = absurd (omega arith)
itoa-atoi_plain (suc k) t r pos b nine d l =
    let (r', q, shown, ended, len) = itoa-Shows (suc k) t r pos b nine d l in
    (
      r',
      q,
      atoi_plain r' (omega arith) (first_digit k 0 t r' shown).0
          ∙ atoi_loop_lem false (suc k) 0 t r' (omega arith) b shown ended,
      len,
    )

put_minus : (r : List ℕ) → 0 < length r → put_sign true (some (r, 1)) ≡ some (set r 0 b'-')
unfolding put_sign
put_minus r h = ground arith

-- The number `-t`, in an array of at least `k + 2` bytes.
itoa-atoi_negative :
    (k t : ℕ) (r : List ℕ)
    → 0 < t
    → t < 10 ^ 9
    → k ≤ 9
    → HasDigits k t
    → suc k < length r
    → (r' : List ℕ) × (itoa r (word_mod - t) ≡ some r')
      × (atoi r' ≡ some (word_mod - t))
      × (length r' ≡ length r)
itoa-atoi_negative k t r pos b nine d l =
    let (q, e, shown, ended, len) = itoa_digits_room k 1 t r pos b nine d (omega arith) in
    let r' = set q 0 b'-' in
    let ne : 0 ≢ 1 + k = omega arith in
    let room : 0 < length q = omega arith in
    let len' = length-set q 0 b'-' in
    (
      r',
      itoa_signed t r pos b ∙ ap (put_sign true) e ∙ put_minus q room,
      atoi_negative r' (omega (arith, len')) (get_or-set_self q 0 b'-' 0 room)
          ∙ atoi_loop_lem true k 1 t r' (omega (arith, len')) b
              (Shows-set q 1 k t 0 b'-' (inl (omega arith)) shown)
              (get_or-set_ne q 0 (1 + k) b'-' 0 ne ∙ ended)
          ∙ ap some (omega arith),
      len' ∙ len,
    )
  where
    itoa_signed :
        (u : ℕ) (q : List ℕ)
        → 0 < u
        → u < 10 ^ 9
        → itoa q (word_mod - u) ≡ put_sign true (itoa_digits u 2 q)
    itoa_signed u q h h' =
        let back : word_mod - (word_mod - u) ≡ u = omega arith in
        unfold itoa in rw back (ground arith)

-- For an `int` other than 0 whose absolute value is below 10 ^ 9, itoa writes within an array of 11
-- bytes or more, and atoi reads the same `int` back from the array.
pub itoa-atoi :
    (x : ℕ) (r : List ℕ)
    → (0 < x) × (x < 10 ^ 9) ⊎ (word_mod - 10 ^ 9 < x) × (x < word_mod)
    → 11 ≤ length r
    → (r' : List ℕ) × (itoa r x ≡ some r') × (atoi r' ≡ some x) × (length r' ≡ length r)
itoa-atoi x r (inl (pos, b)) room =
    let (k, nine, d) = has_digits 9 x b in itoa-atoi_plain k x r pos b nine d (omega arith)
itoa-atoi x r (inr (l, b)) room =
    let (k, nine, d) = has_digits 9 (word_mod - x) (omega arith) in
    let back : word_mod - (word_mod - x) ≡ x = omega arith in
    rw back at
      (itoa-atoi_negative k (word_mod - x) r (omega arith) (omega arith) nine d (omega arith))

no_digits_of_zero : count_digits 40 1 1 0 ≡ some 1
unfolding count_digits
no_digits_of_zero = refl

put_digits_before : (t : ℕ) (r : List ℕ) → put_digits 40 0 t r ≡ none
unfolding put_digits
put_digits_before t r = refl

itoa_digits_zero : (r : List ℕ) → 0 < length r → itoa_digits 0 1 r ≡ none
itoa_digits_zero r h =
    itoa_digits-put 0 1 1 r (set r 0 0) no_digits_of_zero (put_lem 0 0 r h)
    ∙ put_digits_before 0 (set r 0 0)

-- itoa writes outside of the array: in front of it for 0, whatever its length; behind it for a
-- positive number below 10 ^ 9 with as many digits as the array has bytes, or more.
pub itoa_overrun :
    (x k : ℕ) (r : List ℕ) → x < 10 ^ 9 → HasDigits k x → (x ≡ 0) ⊎ (length r ≤ k) → itoa r x ≡ none
itoa_overrun x k r b d h =
    itoa_plain x r b ∙ ap (put_sign false) (fails h) ∙ unfold put_sign in refl
  where
    fails : (x ≡ 0) ⊎ (length r ≤ k) → itoa_digits x 1 r ≡ none
    fails (inl z) = elim (lt_or_le 0 (length r)) [
      | inl room ↦ rw z (itoa_digits_zero r room)
      | inr full ↦ itoa_digits_no_room k 0 x r b d (omega arith)
    ]
    fails (inr l) = itoa_digits_no_room k 0 x r b d (omega arith)

-- A number of one digit in an array of two bytes.
pub itoa_digit : (t g : ℕ) → 0 < t → t < 10 → itoa (0 ∷ g ∷ []) t ≡ some ((b'0' + t) ∷ 0 ∷ [])
itoa_digit t g pos b =
    let one : t / 1 / 10 ≡ 0 = omega arith in
    let same : b'0' + t % 10 ≡ b'0' + t = omega arith in
    itoa_plain t (0 ∷ g ∷ []) (omega arith)
    ∙ ap (put_sign false) (
        itoa_digits-put t 1 2 (0 ∷ g ∷ []) (0 ∷ 0 ∷ [])
          (count_digits_lem 9 40 1 1 1 t refl (omega arith) (omega arith) (omega arith)
            (omega arith, one))
          (put_lem 1 0 (0 ∷ g ∷ []) (omega arith))
        ∙ put_digits_last 39 0 t (0 ∷ 0 ∷ []) (omega arith) (omega arith))
    ∙ unfold put_sign in ap (λ n. some (n ∷ 0 ∷ [])) same

-- -1 does not fit in an array of two bytes.
pub itoa_minus_one : (g : ℕ) → itoa (0 ∷ g ∷ []) (word_mod - 1) ≡ none
unfolding itoa put_sign itoa_digits count_digits put_digits put
itoa_minus_one g = refl
