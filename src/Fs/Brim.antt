-- ===== src/Fs/Brim.antt =====
-- The bytes with which a round of `file_write` of kernel/mem.c fills the last block of a file.
use mathlib.Core.List.{append_assoc}
use armcortex_a7os.Base.{
  ℕ, zero, suc, ◌+◌, ◌<◌, ◌≤◌, ◌≡◌, refl, sym, ◌∙◌, ap, false, List, [], ◌∷◌, ◌++◌, some, length,
  length-append, get_or, drop, ltb, arith, le32, strlen, strcat_at, Bytes, advance,
}
use armcortex_a7os.Fs.{Data, data_bytes, data_of}
use armcortex_a7os.Fs.Rw.{chunk, append_at}
use armcortex_a7os.Fs.Layout.{
  AllNonzero, DataFits, take-append, drop-past, data_of-data_bytes, strlen-append,
}
use armcortex_a7os.Fs.Text.{data_bytes-text}
use armcortex_a7os.Fs.Chain.{Ends}
use armcortex_a7os.Fs.Longer.{PointsAt, strncpy-PointsAt, str_prefix-all, AllNonzero-append}

pub split_at :
    (k : ℕ) (xs : List ℕ) → k ≤ length xs → (ys zs : List ℕ) × (xs ≡ ys ++ zs) × (length ys ≡ k)
split_at zero xs l = ([], xs, refl, refl)
split_at (suc k) [] l = absurd (omega arith)
split_at (suc k) (x ∷ xs) l =
    let (ys, zs, e, q) = split_at k xs (omega arith) in
    (x ∷ ys, zs, ap (λ (l : List ℕ). x ∷ l) e, ap suc q)

pub AllNonzero-split : (xs ys : List ℕ) → AllNonzero (xs ++ ys) → AllNonzero xs × AllNonzero ys
AllNonzero-split [] ys h = (tt, h)
AllNonzero-split (x ∷ xs) ys h = let (a, b) = AllNonzero-split xs ys h.1 in ((h.0, a), b)

-- The bytes of a pointer, in two parts.
pub PointsAt-append :
    (x : Bytes) (ys zs : List ℕ)
    → PointsAt x (ys ++ zs)
    → PointsAt x ys × PointsAt (advance (length ys) x) zs
PointsAt-append x [] zs p = (λ i l. absurd (omega arith), λ i l. ap x (omega arith) ∙ p i l)
PointsAt-append x (y ∷ ys) zs p =
    let (a, b) = PointsAt-append (λ i. x (suc i)) ys zs (λ i l. p (suc i) (omega arith)) in
    (λ i l. at_front i l a, λ i l. ap x (omega arith) ∙ b i l)
  where
    at_front :
        (i : ℕ) → i < suc (length ys) → PointsAt (λ i. x (suc i)) ys → x i ≡ get_or (y ∷ ys) i 0
    at_front zero l a = p 0 (omega arith)
    at_front (suc i) l a = a i (omega arith)

-- A full block whose entry `full` is not set yet.
abbrev pub brim : Data → List ℕ → List ℕ → Data
brim d t ys = record d { content = t ++ ys }

module _ {At : ℕ → Data → Type 0} {place : ℕ} {d : Data} {t pad : List ℕ}
    (e : Ends At place d t pad) (ys : List ℕ) (fills : length t + length ys ≡ 24)
    (clean : AllNonzero ys) where
  pub chunk-fills : (x : Bytes) (n : ℕ) → PointsAt x ys → length ys ≤ n → chunk (length ys) x n ≡ ys
  unfolding chunk
  chunk-fills x n p l =
      let less : ltb n (length ys) ≡ false = ground arith in
      rw (less, strncpy-PointsAt x ys p clean) (str_prefix-all 24 ys clean (omega (arith, fills)))

  pub brim-fits : DataFits (brim d t ys)
  brim-fits = record {
    size = omega (arith, length-append t ys, fills);
    filled = e.fits.filled;
    next = e.fits.next;
  }

  pub brim-clean : AllNonzero (t ++ ys)
  brim-clean = AllNonzero-append t ys e.clean clean

  pub strlen-brim : strlen (data_bytes (brim d t ys)) ≡ some 24
  unfolding data_bytes
  strlen-brim = rw e.idle (
      strlen-append (t ++ ys) (le32 0 ++ le32 d.next_data_block) 0 brim-clean refl
      ∙ ap some (omega (arith, length-append t ys, fills)))

  pub append_at-brim : append_at (length t) d ys ≡ brim d t ys
  unfolding append_at data_bytes
  append_at-brim = ap data_of bytes ∙ (data_of-data_bytes (brim d t ys) brim-fits).0
    where
      words : List ℕ
      words = le32 d.full ++ le32 d.next_data_block

      old : List ℕ
      old = t ++ (0 ∷ (pad ++ words))

      pad_size : length t + length pad ≡ 23
      pad_size = omega (arith, e.fits.size, ap length e.content, length-append t (0 ∷ pad))

      dropped : drop (length t + length ys + 1) old ≡ drop 1 words
      dropped =
          drop-past (length t + length ys + 1) (suc (suc (length pad))) t (0 ∷ (pad ++ words))
            (omega (arith, fills, pad_size))
          ∙ drop-past (suc (length pad)) 1 pad words (omega arith)

      zero_first : 0 ∷ drop 1 words ≡ words
      zero_first = rw e.idle refl

      joined : strcat_at (length t) old ys ≡ t ++ (ys ++ words)
      joined =
          ap (λ (front : List ℕ). front ++ (ys ++ 0 ∷ drop (length t + length ys + 1) old))
            (take-append (length t) t (0 ∷ (pad ++ words)) refl).0
          ∙ ap (λ (back : List ℕ). t ++ (ys ++ 0 ∷ back)) dropped
          ∙ ap (λ (back : List ℕ). t ++ (ys ++ back)) zero_first

      bytes : strcat_at (length t) (data_bytes d) ys ≡ data_bytes (brim d t ys)
      bytes =
          ap (λ (b : List ℕ). strcat_at (length t) b ys) (data_bytes-text d t pad e.content e.clean)
          ∙ joined
          ∙ sym (append_assoc t ys words)
