-- ===== src/Libc/Numbers/RoundTrip.antt =====
-- What `itoa_digits` of user/libc.c writes, and what the loop of `atoi` reads.
use armcortex_a7os.Base.{
  ℕ, zero, suc, ◌+◌, ◌-◌, ◌*◌, ◌/◌, ◌%◌, ◌^◌, ◌≤◌, ◌<◌, ◌≡◌, refl, sym, ap, ap₂, subst, ◌∙◌, inl,
  inr, List, [], ◌∷◌, Bool, true, false, none, some, arith, length, set, get_or, drop, length-set,
  word_mod, add32, sub32, get_or-set_self,
}
use armcortex_a7os.Libc.Numbers.{atoi_loop, atoi, put, count_digits, put_digits, itoa_digits}
use armcortex_a7os.Libc.Numbers.Decimal.{
  HasDigits, Shows, pow10, put_digits_lem, count_digits_lem, put_lem, lt_or_le,
}

pub has_digits : (m t : ℕ) → t < pow10 m → (k : ℕ) × (k ≤ m) × HasDigits k t
has_digits zero t h = (0, omega arith, omega arith)
has_digits (suc m) t h = elim (lt_or_le 0 t) [
  | inl pos ↦ let (k, l, d) = has_digits m (t / 10) (omega arith) in (suc k, omega arith, (pos, d))
  | inr z ↦ (0, omega arith, omega arith)
]

pub itoa_digits-put :
    (t p e : ℕ) (r r' : List ℕ)
    → count_digits 40 p 1 t ≡ some e
    → put e 0 r ≡ some r'
    → itoa_digits t p r ≡ put_digits 40 (e - 1) t r'
unfolding itoa_digits
itoa_digits-put t p e r r' c q = ground arith

pub itoa_digits_full :
    (t p e : ℕ) (r : List ℕ)
    → count_digits 40 p 1 t ≡ some e
    → put e 0 r ≡ none
    → itoa_digits t p r ≡ none
unfolding itoa_digits
itoa_digits_full t p e r c q = ground arith

-- The digits of `t` from the pointer `s` on, and the null byte behind them.
pub itoa_digits_room :
    (k s t : ℕ) (r : List ℕ)
    → 0 < t
    → t < 10 ^ 9
    → k ≤ 9
    → HasDigits k t
    → s + k < length r
    → (r' : List ℕ) × (itoa_digits t (suc s) r ≡ some (r', s))
      × Shows r' s k t
      × (get_or r' (s + k) 0 ≡ 0)
      × (length r' ≡ length r)
itoa_digits_room zero s t r pos b nine d l = absurd (omega arith)
itoa_digits_room (suc k) s t r pos b nine d l =
    let one : t / 1 ≡ t = omega arith in
    let c : count_digits 40 (suc s) 1 t ≡ some (suc (suc (s + k))) =
      count_digits_lem 9 40 (suc s) 1 (suc k) t refl (omega arith) (omega arith) b
        (subst (HasDigits (suc k)) (sym one) d)
      ∙ ap some (omega arith) in
    let l' : suc (s + k) < length r = omega arith in
    let ended = set r (suc (s + k)) 0 in
    let (r', q, w) =
      put_digits_lem k 40 s t (s + k) ended (omega arith) refl
        (omega (arith, length-set r (suc (s + k)) 0)) d in
    (
      r',
      itoa_digits-put t (suc s) (suc (suc (s + k))) r ended c (put_lem (suc (s + k)) 0 r l')
          ∙ subst (λ n. put_digits 40 n t ended ≡ some (r', s)) (omega arith) q,
      w.shows,
      ap (λ n. get_or r' n 0) (omega arith)
          ∙ w.outside (suc (s + k)) (omega arith)
          ∙ get_or-set_self r (suc (s + k)) 0 0 l',
      w.same_length ∙ length-set r (suc (s + k)) 0,
    )

pub itoa_digits_no_room :
    (k s t : ℕ) (r : List ℕ)
    → t < 10 ^ 9
    → HasDigits k t
    → length r ≤ s + k
    → itoa_digits t (suc s) r ≡ none
itoa_digits_no_room k s t r b d l =
    let one : t / 1 ≡ t = omega arith in
    let c : count_digits 40 (suc s) 1 t ≡ some (suc (s + k)) =
      count_digits_lem 9 40 (suc s) 1 k t refl (omega arith) (omega arith) b
        (subst (HasDigits k) (sym one) d)
      ∙ ap some (omega arith) in
    itoa_digits_full t (suc s) (suc (s + k)) r c (no_put (s + k) 0 r l)
  where
    no_put : (i v : ℕ) (q : List ℕ) → length q ≤ i → put (suc i) v q ≡ none
    no_put i v q h = unfold put in ground arith

drop_step : (r : List ℕ) (s : ℕ) → s < length r → drop s r ≡ get_or r s 0 ∷ drop (suc s) r
drop_step [] s h = absurd (omega arith)
drop_step (c ∷ r) zero h = refl
drop_step (c ∷ r) (suc s) h = drop_step r s (omega arith)

-- The word that stands for `t` or for `-t`.
abbrev pub signed : Bool → ℕ → ℕ
signed true t = sub32 0 t
signed false t = t

atoi_digit :
    (s : Bool) (t c : ℕ) (cs : List ℕ)
    → t < 10 ^ 9
    → c ≡ b'0' + t % 10
    → atoi_loop s (signed s (t / 10)) (c ∷ cs) ≡ atoi_loop s (signed s t) cs
unfolding atoi_loop
atoi_digit true t c cs b e =
    let v : sub32 (sub32 0 (t / 10) * 10 % word_mod) (sub32 c b'0') ≡ sub32 0 t = omega arith in
    rw v (ground arith)
atoi_digit false t c cs b e =
    let v : add32 (t / 10 * 10 % word_mod) (sub32 c b'0') ≡ t = omega arith in rw v (ground arith)

signed-zero : (s : Bool) → signed s 0 ≡ 0
signed-zero true = refl
signed-zero false = refl

atoi_shown :
    (s : Bool) (k p t i : ℕ) (r : List ℕ)
    → i ≡ p + k
    → i < length r
    → t < 10 ^ 9
    → Shows r p k t
    → atoi_loop s 0 (drop p r) ≡ atoi_loop s (signed s t) (drop i r)
atoi_shown s zero p t i r e l b d =
    let e' : p ≡ i = omega arith in
    let z : 0 ≡ signed s t = sym (ap (signed s) d ∙ signed-zero s) in
    ap₂ (λ v n. atoi_loop s v (drop n r)) z e'
atoi_shown s (suc k) p t i r e l b d =
    let e' : suc (p + k) ≡ i = omega arith in
    atoi_shown s k p (t / 10) (p + k) r refl (omega arith) (omega arith) d.1
    ∙ ap (atoi_loop s (signed s (t / 10))) (drop_step r (p + k) (omega arith))
    ∙ atoi_digit s t (get_or r (p + k) 0) (drop (suc (p + k)) r) b d.0
    ∙ ap (λ n. atoi_loop s (signed s t) (drop n r)) e'

atoi_end :
    (s : Bool) (v i : ℕ) (r : List ℕ)
    → i < length r
    → get_or r i 0 ≡ 0
    → atoi_loop s v (drop i r) ≡ some v
unfolding atoi_loop
atoi_end s v i r l z = rw (drop_step r i l, z)

-- The loop of `atoi` reads a number that is shown with a null byte behind it.
pub atoi_loop_lem :
    (s : Bool) (k p t : ℕ) (r : List ℕ)
    → p + k < length r
    → t < 10 ^ 9
    → Shows r p k t
    → get_or r (p + k) 0 ≡ 0
    → atoi_loop s 0 (drop p r) ≡ some (signed s t)
atoi_loop_lem s k p t r l b d z =
    atoi_shown s k p t (p + k) r refl l b d ∙ atoi_end s (signed s t) (p + k) r l z

-- The first byte shown is a digit.
pub first_digit :
    (k p t : ℕ) (r : List ℕ) → Shows r p (suc k) t → (b'0' ≤ get_or r p 0) × (get_or r p 0 ≤ b'9')
first_digit zero p t r d =
    let e : get_or r (p + 0) 0 ≡ get_or r p 0 = ap (λ n. get_or r n 0) (omega arith) in
    omega (arith, d.0)
first_digit (suc k) p t r d = first_digit k p (t / 10) r d.1

pub atoi_plain : (r : List ℕ) → 0 < length r → b'0' ≤ get_or r 0 0 → atoi r ≡ atoi_loop false 0 r
unfolding atoi
atoi_plain [] h d = absurd (omega arith)
atoi_plain (c ∷ cs) h d = ground arith

pub atoi_negative :
    (r : List ℕ) → 0 < length r → get_or r 0 0 ≡ b'-' → atoi r ≡ atoi_loop true 0 (drop 1 r)
unfolding atoi
atoi_negative [] h d = absurd (omega arith)
atoi_negative (c ∷ cs) h d = rw d
