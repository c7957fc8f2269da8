-- ===== src/Disk/Server/Lines.antt =====
-- A line of device/disk.py taken apart: `strip`, `split` and `unhexlify` on what the driver sends.
use mathlib.Core.List.{append_assoc}
use armcortex_a7os.Base.{
  ℕ, ◌/◌, ◌%◌, ◌<◌, ◌≡◌, ◌≢◌, refl, sym, ◌∙◌, ap, true, false, ◌&&◌, not, List, [], ◌∷◌, ◌++◌, some,
  none, ◌==◌, arith, all_below, all_below_at,
}
use armcortex_a7os.Uart.{itox}
use armcortex_a7os.Uart.Hex.{hex}
use armcortex_a7os.Disk.Protocol.{AllBytes}
use armcortex_a7os.Disk.Server.{is_space, is_empty, rstrip, lstrip, split, digit, unhexlify}

-- No character of a word is white space.
abbrev pub IsWord : List ℕ → Type 0
IsWord [] = Unit {0}
IsWord (c ∷ cs) = (is_space c ≡ false) × IsWord cs

digit_plain : all_below 16 (λ d. not (is_space (itox d)) && not (itox d == b'\n')) ≡ true
unfolding all_below is_space itox
digit_plain = refl

digit_value : all_below 16 (λ d. elim (digit (itox d)) [ none ↦ false | some v ↦ v == d ]) ≡ true
unfolding all_below digit itox
digit_value = refl

itox_plain : (d : ℕ) → d < 16 → (is_space (itox d) ≡ false) × (itox d ≢ b'\n')
itox_plain d l =
    let t =
      all_below_at 16 (λ d. not (is_space (itox d)) && not (itox d == b'\n')) d digit_plain l in
    (ground (arith, t), ground (arith, t))

digit-itox : (d : ℕ) → d < 16 → digit (itox d) ≡ some d
digit-itox d l =
    let t =
      all_below_at 16 (λ d. elim (digit (itox d)) [ none ↦ false | some v ↦ v == d ]) d digit_value
        l in
    ground (arith, t)

pub hex-IsWord : (bs : List ℕ) → IsWord (hex bs)
hex-IsWord [] = tt
hex-IsWord (b ∷ bs) = (
  (itox_plain (b / 16 % 16) (omega arith)).0,
  ((itox_plain (b % 16) (omega arith)).0, hex-IsWord bs),
)

pub unhexlify-hex : (bs : List ℕ) → AllBytes bs → unhexlify (hex bs) ≡ some bs
unfolding unhexlify
unhexlify-hex [] h = refl
unhexlify-hex (b ∷ bs) (l, h) =
    rw
      (
        digit-itox (b / 16 % 16) (omega arith),
        digit-itox (b % 16) (omega arith),
        unhexlify-hex bs h,
      )
      (ap (λ (c : ℕ). some (c ∷ bs)) (omega arith))

split-word : (w rest : List ℕ) → IsWord w → split (w ++ (b' ' ∷ rest)) ≡ w ∷ split rest
unfolding split is_space
split-word [] rest h = refl
split-word (c ∷ cs) rest (p, h) =
    let other : (c == b' ') ≡ false = ground (arith, p) in rw (other, split-word cs rest h) refl

split-end : (w : List ℕ) → IsWord w → split w ≡ w ∷ []
unfolding split is_space
split-end [] h = refl
split-end (c ∷ cs) (p, h) =
    let other : (c == b' ') ≡ false = ground (arith, p) in rw (other, split-end cs h) refl

-- What ends in a word, and begins with one, has no white space to strip.
rstrip-word : (w : List ℕ) → IsWord w → rstrip w ≡ w
unfolding rstrip
rstrip-word [] h = refl
rstrip-word (c ∷ cs) (p, h) = rw (p, rstrip-word cs h) refl

is_empty-append : (xs : List ℕ) (c : ℕ) (w : List ℕ) → is_empty (xs ++ (c ∷ w)) ≡ false
is_empty-append [] c w = refl
is_empty-append (x ∷ xs) c w = refl

rstrip-append :
    (xs : List ℕ) (c : ℕ) (w : List ℕ) → IsWord (c ∷ w) → rstrip (xs ++ (c ∷ w)) ≡ xs ++ (c ∷ w)
unfolding rstrip
rstrip-append [] c w h = rstrip-word (c ∷ w) h
rstrip-append (x ∷ xs) c w h = ground (arith, rstrip-append xs c w h, is_empty-append xs c w)

lstrip-word : (c : ℕ) (cs : List ℕ) → is_space c ≡ false → lstrip (c ∷ cs) ≡ c ∷ cs
unfolding lstrip
lstrip-word c cs p = rw p refl

-- A line that begins and ends in a word is not stripped.
strip_kept :
    (d : ℕ) (front : List ℕ) (c : ℕ) (w : List ℕ)
    → is_space d ≡ false
    → IsWord (c ∷ w)
    → lstrip (rstrip ((d ∷ front) ++ (c ∷ w))) ≡ (d ∷ front) ++ (c ∷ w)
strip_kept d front c w p r =
    ap lstrip (rstrip-append (d ∷ front) c w r) ∙ lstrip-word d (front ++ (c ∷ w)) p

-- The words of a line of three, and of two.
pub words_of_three :
    (d : ℕ) (u v : List ℕ) (c : ℕ) (w : List ℕ)
    → IsWord (d ∷ u)
    → IsWord v
    → IsWord (c ∷ w)
    → split (lstrip (rstrip ((d ∷ u) ++ (b' ' ∷ (v ++ (b' ' ∷ (c ∷ w)))))))
      ≡ (d ∷ u) ∷ v ∷ (c ∷ w) ∷ []
words_of_three d u v c w p q r =
    ap split
      (ap (λ (l : List ℕ). lstrip (rstrip l)) regroup ∙ strip_kept d front c w p.0 r ∙ sym regroup)
    ∙ split-word (d ∷ u) (v ++ (b' ' ∷ (c ∷ w))) p
    ∙ ap (λ (ws : List (List ℕ)). (d ∷ u) ∷ ws)
        (split-word v (c ∷ w) q ∙ ap (λ (ws : List (List ℕ)). v ∷ ws) (split-end (c ∷ w) r))
  where
    front : List ℕ
    front = u ++ (b' ' ∷ (v ++ (b' ' ∷ [])))

    regroup : (d ∷ u) ++ (b' ' ∷ (v ++ (b' ' ∷ (c ∷ w)))) ≡ (d ∷ front) ++ (c ∷ w)
    regroup = simp append_assoc

pub words_of_two :
    (d : ℕ) (u : List ℕ) (c : ℕ) (w : List ℕ)
    → IsWord (d ∷ u)
    → IsWord (c ∷ w)
    → split (lstrip (rstrip ((d ∷ u) ++ (b' ' ∷ (c ∷ w))))) ≡ (d ∷ u) ∷ (c ∷ w) ∷ []
words_of_two d u c w p r =
    ap split (
      ap (λ (l : List ℕ). lstrip (rstrip l)) regroup
      ∙ strip_kept d (u ++ (b' ' ∷ [])) c w p.0 r
      ∙ sym regroup)
    ∙ split-word (d ∷ u) (c ∷ w) p
    ∙ ap (λ (ws : List (List ℕ)). (d ∷ u) ∷ ws) (split-end (c ∷ w) r)
  where
    regroup : (d ∷ u) ++ (b' ' ∷ (c ∷ w)) ≡ (d ∷ (u ++ (b' ' ∷ []))) ++ (c ∷ w)
    regroup = simp append_assoc
