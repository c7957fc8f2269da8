-- ===== src/Libc/Numbers/Decimal.antt =====
-- The loops of `itoa` of user/libc.c: the count of the digits, and the digits that are written.
use native.Mathlib.Nat.{div-div-eq-div-mul, div-eq_of_lt, div-lt_iff_lt-mul}
use armcortex_a7os.Base.{
  ℕ, zero, suc, ◌+◌, ◌*◌, ◌/◌, ◌%◌, ◌^◌, ◌≤◌, ◌<◌, ◌≡◌, refl, sym, ap, subst, ◌∙◌, ◌⊎◌, inl, inr,
  List, some, arith, length, set, get_or, length-set, word_mod, get_or-set_self, get_or-set_ne,
}
use armcortex_a7os.Libc.Numbers.{put, count_digits, put_digits}

pub lt_or_le : (a b : ℕ) → (a < b) ⊎ (b ≤ a)
lt_or_le a b = ground arith

-- `t` has exactly `k` digits.
abbrev pub HasDigits : ℕ → ℕ → Type 0
HasDigits zero t = t ≡ 0
HasDigits (suc k) t = (0 < t) × HasDigits k (t / 10)

-- The `k` bytes of `r` from `s` on are the digits of `t`.
abbrev pub Shows : List ℕ → ℕ → ℕ → ℕ → Type 0
Shows r s zero t = t ≡ 0
Shows r s (suc k) t = (get_or r (s + k) 0 ≡ b'0' + t % 10) × Shows r s k (t / 10)

abbrev pub pow10 : ℕ → ℕ
pow10 zero = 1
pow10 (suc k) = pow10 k * 10

pow10_pos : (m : ℕ) → 0 < pow10 m
pow10_pos zero = omega arith
pow10_pos (suc m) = omega (arith, pow10_pos m)

power_fits : (m n : ℕ) → n * pow10 m ≡ 10 ^ 9 → n ≤ 10 ^ 9
power_fits m n e = grind (arith, pow10_pos m)

small_quotient : (t n k : ℕ) → t < n → HasDigits k (t / n) → k ≡ 0
small_quotient t n zero h d = refl
small_quotient t n (suc k) h d = absurd (omega (arith, div-eq_of_lt h, d.0))

more_digits :
    (t n k : ℕ)
    → 0 < n
    → n ≤ t
    → HasDigits k (t / n)
    → (j : ℕ) × (k ≡ suc j) × HasDigits j (t / (n * 10))
more_digits t n zero p h d = absurd (omega (arith, (div-lt_iff_lt-mul {x = t} {y = 1} p).0))
more_digits t n (suc k) p h d = (k, refl, subst (HasDigits k) (div-div-eq-div-mul t n 10) d.1)

count_digits_end : (f p n t : ℕ) → t < n → n ≤ 10 ^ 9 → count_digits (suc f) p n t ≡ some p
unfolding count_digits
count_digits_end f p n t h b = ground arith

count_digits_on :
    (f p n t : ℕ)
    → n ≤ t
    → t < 10 ^ 9
    → n * 10 ≤ 10 ^ 9
    → count_digits (suc f) p n t ≡ count_digits f (p + 1) (n * 10) t
unfolding count_digits
count_digits_on f p n t h b w =
    let e : n * 10 % word_mod ≡ n * 10 = omega arith in rw e (ground arith)

pub count_digits_lem :
    (m f p n k t : ℕ)
    → n * pow10 m ≡ 10 ^ 9
    → m < f
    → 0 < n
    → t < 10 ^ 9
    → HasDigits k (t / n)
    → count_digits f p n t ≡ some (p + k)
count_digits_lem m zero p n k t e h pos b d = absurd (omega arith)
count_digits_lem zero (suc f) p n k t e h pos b d =
    count_digits_end f p n t (omega arith) (power_fits 0 n e)
    ∙ ap some (omega (arith, small_quotient t n k (omega arith) d))
count_digits_lem (suc m) (suc f) p n k t e h pos b d = elim (lt_or_le t n) [
  | inl lt ↦
      count_digits_end f p n t lt (power_fits (suc m) n e)
      ∙ ap some (omega (arith, small_quotient t n k lt d))
  | inr le ↦
      let (j, q, d') = more_digits t n k pos le d in
      let e' : n * 10 * pow10 m ≡ 10 ^ 9 = omega arith in
      count_digits_on f p n t le b (power_fits m (n * 10) e')
      ∙ count_digits_lem m f (p + 1) (n * 10) j t e' (omega arith) (omega arith) b d'
      ∙ ap some (omega arith)
]

pub put_lem : (i v : ℕ) (r : List ℕ) → i < length r → put (suc i) v r ≡ some (set r i v)
unfolding put
put_lem i v r h = ground arith

-- Digits outside of a write stay.
pub Shows-set :
    (r : List ℕ) (s k t i v : ℕ) → i < s ⊎ s + k ≤ i → Shows r s k t → Shows (set r i v) s k t
Shows-set r s zero t i v h d = d
Shows-set r s (suc k) t i v h d = (
  get_or-set_ne r i (s + k) v 0 (λ e. omega arith) ∙ d.0,
  Shows-set r s k (t / 10) i v (omega arith) d.1,
)

pub put_digits_last :
    (f i t : ℕ) (r : List ℕ)
    → i < length r
    → t / 10 ≡ 0
    → put_digits (suc f) (suc i) t r ≡ some (set r i (b'0' + t % 10), i)
unfolding put_digits
put_digits_last f i t r h z = ground arith

pub put_digits_on :
    (f i t : ℕ) (r : List ℕ)
    → i < length r
    → 0 < t / 10
    → put_digits (suc f) (suc i) t r ≡ put_digits f i (t / 10) (set r i (b'0' + t % 10))
unfolding put_digits
put_digits_on f i t r h z = ground arith

-- What `put_digits` leaves: the digits, and all else as it was.
pub record Written (r r' : List ℕ) (s k t : ℕ) : Type 0 where
  pub shows : Shows r' s k t
  pub outside : (i : ℕ) → i < s ⊎ s + k ≤ i → get_or r' i 0 ≡ get_or r i 0
  pub same_length : length r' ≡ length r

Shows-last :
    (k s t i : ℕ) (r r' : List ℕ)
    → i ≡ s + k
    → i < length r
    → Written (set r i (b'0' + t % 10)) r' s k (t / 10)
    → Written r r' s (suc k) t
Shows-last k s t i r r' e h w = record {
  shows = (
    ap (λ n. get_or r' n 0) (sym e)
        ∙ w.outside i (omega arith)
        ∙ get_or-set_self r i (b'0' + t % 10) 0 h,
    w.shows,
  );
  outside =
      λ j o. w.outside j (omega arith) ∙ get_or-set_ne r i j (b'0' + t % 10) 0 (λ q. omega arith);
  same_length = w.same_length ∙ length-set r i (b'0' + t % 10);
}

pub put_digits_lem :
    (k f s t i : ℕ) (r : List ℕ)
    → k < f
    → i ≡ s + k
    → i < length r
    → HasDigits (suc k) t
    → (r' : List ℕ) × (put_digits f (suc i) t r ≡ some (r', s)) × Written r r' s (suc k) t
put_digits_lem k zero s t i r h e l d = absurd (omega arith)
put_digits_lem zero (suc f) s t i r h e l d =
    let r' = set r i (b'0' + t % 10) in
    (
      r',
      put_digits_last f i t r l d.1 ∙ ap (λ n. some (r', n)) (omega arith),
      Shows-last 0 s t i r r' e l
          (record { shows = d.1; outside = λ j o. refl; same_length = refl }),
    )
put_digits_lem (suc k) (suc f) s t i r h e l d =
    let r' = set r i (b'0' + t % 10) in
    let l' : s + k < length r' = omega (arith, length-set r i (b'0' + t % 10)) in
    let (r'', q, w) = put_digits_lem k f s (t / 10) (s + k) r' (omega arith) refl l' d.1 in
    let i' : i ≡ suc (s + k) = omega arith in
    (
      r'',
      put_digits_on f i t r l d.1.0
          ∙ subst (λ n. put_digits f n (t / 10) r' ≡ some (r'', s)) (sym i') q,
      Shows-last (suc k) s t i r r'' e l w,
    )
