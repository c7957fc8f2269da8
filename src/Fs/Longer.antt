-- ===== src/Fs/Longer.antt =====
-- The bytes of a block of kernel/mem.c once `file_write` has appended to its text.
use mathlib.Core.List.{append_assoc}
use armcortex_a7os.Base.{
  ℕ, zero, suc, ◌+◌, ◌<◌, ◌≤◌, ◌≡◌, refl, sym, ◌∙◌, ap, true, List, [], ◌∷◌, ◌++◌, length,
  length-append, get_or, drop, ltb, ==_ne, arith, le32, strncpy, str_prefix, strcat_at, Bytes,
}
use armcortex_a7os.Fs.{Data, data_bytes, data_of}
use armcortex_a7os.Fs.Rw.{chunk, append_at}
use armcortex_a7os.Fs.Layout.{AllNonzero, DataFits, take-append, drop-past, data_of-data_bytes}
use armcortex_a7os.Fs.Text.{data_bytes-text}
use armcortex_a7os.Fs.Chain.{Ends}

-- The pointer `x` points at the bytes `xs`.
abbrev pub PointsAt : Bytes → List ℕ → Type 0
PointsAt x xs = (i : ℕ) → i < length xs → x i ≡ get_or xs i 0

pub strncpy-PointsAt :
    (x : Bytes) (xs : List ℕ) → PointsAt x xs → AllNonzero xs → strncpy (length xs) x ≡ xs
strncpy-PointsAt x [] p h = refl
strncpy-PointsAt x (b ∷ bs) p (n, h) =
    let first : x 0 ≡ b = p 0 (omega arith) in
    let rest = strncpy-PointsAt (λ i. x (suc i)) bs (λ i l. p (suc i) (omega arith)) h in
    rw (first, ==_ne b 0 n, rest) refl

pub str_prefix-all :
    (m : ℕ) (xs : List ℕ) → AllNonzero xs → length xs ≤ m → str_prefix m (xs ++ 0 ∷ []) ≡ xs
str_prefix-all zero [] h l = refl
str_prefix-all zero (b ∷ bs) h l = absurd (omega arith)
str_prefix-all (suc m) [] h l = refl
str_prefix-all (suc m) (b ∷ bs) (n, h) l =
    rw (==_ne b 0 n, str_prefix-all m bs h (omega arith)) refl

pub chunk-whole :
    (left : ℕ) (x : Bytes) (xs : List ℕ)
    → PointsAt x xs
    → AllNonzero xs
    → length xs < left
    → left ≤ 24
    → chunk left x (length xs) ≡ xs
unfolding chunk
chunk-whole left x xs p h l m =
    let less : ltb (length xs) left ≡ true = ground arith in
    rw (less, strncpy-PointsAt x xs p h) (str_prefix-all 24 xs h (omega arith))

drop-inside :
    (n : ℕ) (xs ys : List ℕ)
    → n ≤ length xs
    → (drop n (xs ++ ys) ≡ drop n xs ++ ys) × (length (drop n xs) + n ≡ length xs)
drop-inside zero xs ys l = (refl, omega arith)
drop-inside (suc n) [] ys l = absurd (omega arith)
drop-inside (suc n) (x ∷ xs) ys l =
    let (e, f) = drop-inside n xs ys (omega arith) in (e, omega (arith, f))

pub AllNonzero-append : (xs ys : List ℕ) → AllNonzero xs → AllNonzero ys → AllNonzero (xs ++ ys)
AllNonzero-append [] ys h k = k
AllNonzero-append (x ∷ xs) ys h k = (h.0, AllNonzero-append xs ys h.1 k)

-- The block with `xs` after its text.
abbrev pub longer : Data → List ℕ → List ℕ → List ℕ → Data
longer d t xs pad = record d { content = (t ++ xs) ++ (0 ∷ drop (length xs) pad) }

module _ {At : ℕ → Data → Type 0} {place : ℕ} {d : Data} {t pad : List ℕ}
    (e : Ends At place d t pad) (xs : List ℕ) (room : length t + length xs < 24) where
  pad_size : length t + length pad ≡ 23
  pad_size = omega (arith, e.fits.size, ap length e.content, length-append t (0 ∷ pad))

  pub longer-fits : DataFits (longer d t xs pad)
  longer-fits = record {
    size = omega (
      arith,
      pad_size,
      length-append (t ++ xs) (0 ∷ drop (length xs) pad),
      length-append t xs,
      (drop-inside (length xs) pad [] (omega (arith, pad_size))).1,
    );
    filled = e.fits.filled;
    next = e.fits.next;
  }

  pub longer-Ends :
      (At' : ℕ → Data → Type 0)
      → AllNonzero xs
      → At' place (longer d t xs pad)
      → Ends At' place (longer d t xs pad) (t ++ xs) (drop (length xs) pad)
  longer-Ends At' clean here = record {
    here = here;
    idle = e.idle;
    content = refl;
    clean = AllNonzero-append t xs e.clean clean;
    fits = longer-fits;
  }

  pub append_at-Ends : append_at (length t) d xs ≡ longer d t xs pad
  unfolding append_at data_bytes
  append_at-Ends = ap data_of bytes ∙ (data_of-data_bytes (longer d t xs pad) longer-fits).0
    where
      words : List ℕ
      words = le32 d.full ++ le32 d.next_data_block

      old : List ℕ
      old = t ++ (0 ∷ (pad ++ words))

      dropped : drop (length t + length xs + 1) old ≡ drop (length xs) pad ++ words
      dropped =
          drop-past (length t + length xs + 1) (suc (length xs)) t (0 ∷ (pad ++ words))
            (omega arith)
          ∙ (drop-inside (length xs) pad words (omega (arith, pad_size))).0

      joined : strcat_at (length t) old xs ≡ t ++ (xs ++ (0 ∷ (drop (length xs) pad ++ words)))
      joined =
          ap (λ (front : List ℕ). front ++ (xs ++ 0 ∷ drop (length t + length xs + 1) old))
            (take-append (length t) t (0 ∷ (pad ++ words)) refl).0
          ∙ ap (λ (back : List ℕ). t ++ (xs ++ 0 ∷ back)) dropped

      bytes : strcat_at (length t) (data_bytes d) xs ≡ data_bytes (longer d t xs pad)
      bytes =
          ap (λ (b : List ℕ). strcat_at (length t) b xs) (data_bytes-text d t pad e.content e.clean)
          ∙ joined
          ∙ sym (append_assoc t xs (0 ∷ (drop (length xs) pad ++ words)))
          ∙ sym (append_assoc (t ++ xs) (0 ∷ drop (length xs) pad) words)
