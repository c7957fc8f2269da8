-- ===== src/Fs/Layout.antt =====
-- The structures of kernel/mem.h as the 32 bytes of a disk block, and names in a `file_t`.
use armcortex_a7os.Base.{
  ℕ, zero, suc, ◌+◌, ◌^◌, ◌<◌, ◌≡◌, ◌≢◌, refl, ◌∙◌, ap, Bool, true, false, List, [], ◌∷◌, ◌++◌,
  some, length, length-append, take, drop, le32, Bytes, strlen, strncpy, str_equal, ◌==◌, ==_ne,
  if◌then◌else◌, arith,
}
use armcortex_a7os.Fs.{
  File, Data, word_of, file_bytes, file_of, data_bytes, data_of, set_file_name, block_size,
}

-- A structure whose words are words and whose arrays have their lengths.
pub record FileFits (f : File) : Type 0 where
  pub kind : f.descriptor < 2 ^ 32
  pub size : length f.name ≡ 16
  pub blocks : f.no_of_blocks < 2 ^ 32
  pub live : f.active < 2 ^ 32
  pub start : f.address < 2 ^ 32

pub record DataFits (d : Data) : Type 0 where
  pub size : length d.content ≡ 24
  pub filled : d.full < 2 ^ 32
  pub next : d.next_data_block < 2 ^ 32

word_of-le32 : (w : ℕ) (rest : List ℕ) → w < 2 ^ 32 → word_of (le32 w ++ rest) ≡ w
unfolding word_of
word_of-le32 w rest h = omega arith

pub take-append :
    (n : ℕ) (xs ys : List ℕ) → length xs ≡ n → (take n (xs ++ ys) ≡ xs) × (drop n (xs ++ ys) ≡ ys)
take-append zero [] ys e = (refl, refl)
take-append zero (x ∷ xs) ys e = absurd (omega arith)
take-append (suc n) [] ys e = absurd (omega arith)
take-append (suc n) (x ∷ xs) ys e =
    let (t, d) = take-append n xs ys (omega arith) in (ap (λ (zs : List ℕ). x ∷ zs) t, d)

pub drop-past : (m k : ℕ) (xs ys : List ℕ) → m ≡ length xs + k → drop m (xs ++ ys) ≡ drop k ys
drop-past m k [] ys e = ap (λ (j : ℕ). drop j ys) (omega arith)
drop-past zero k (x ∷ xs) ys e = absurd (omega arith)
drop-past (suc m) k (x ∷ xs) ys e = drop-past m k xs ys (omega arith)

-- What is written of a data block is what is read back, and it fills the block exactly.
pub data_of-data_bytes :
    (d : Data) → DataFits d → (data_of (data_bytes d) ≡ d) × (length (data_bytes d) ≡ block_size)
unfolding data_of data_bytes
data_of-data_bytes d f = (
  λ i. record { content = content i; full = full i; next_data_block = next i },
  omega (arith, length-append {0} d.content (le32 d.full ++ le32 d.next_data_block), f.size),
)
  where
    words : List ℕ
    words = le32 d.full ++ le32 d.next_data_block

    content : take 24 (d.content ++ words) ≡ d.content
    content = (take-append 24 d.content words f.size).0

    full : word_of (drop 24 (d.content ++ words)) ≡ d.full
    full =
        rw (drop-past 24 0 d.content words (omega (arith, f.size)))
          (word_of-le32 d.full (le32 d.next_data_block) f.filled)

    next : word_of (drop 28 (d.content ++ words)) ≡ d.next_data_block
    next =
        rw (drop-past 28 4 d.content words (omega (arith, f.size)))
          (word_of-le32 d.next_data_block [] f.next)

-- So for a file entry.
pub file_of-file_bytes :
    (f : File) → FileFits f → (file_of (file_bytes f) ≡ f) × (length (file_bytes f) ≡ block_size)
unfolding file_of file_bytes
file_of-file_bytes f v = (
  λ i. record {
    descriptor = kind i;
    name = named i;
    no_of_blocks = blocks i;
    active = live i;
    address = start i;
  },
  omega (arith, length-append {0} f.name words, v.size),
)
  where
    words : List ℕ
    words = le32 f.no_of_blocks ++ (le32 f.active ++ le32 f.address)

    kind : word_of (le32 f.descriptor ++ (f.name ++ words)) ≡ f.descriptor
    kind = word_of-le32 f.descriptor (f.name ++ words) v.kind

    named : take 16 (f.name ++ words) ≡ f.name
    named = (take-append 16 f.name words v.size).0

    blocks : word_of (drop 16 (f.name ++ words)) ≡ f.no_of_blocks
    blocks =
        rw (drop-past 16 0 f.name words (omega (arith, v.size)))
          (word_of-le32 f.no_of_blocks (le32 f.active ++ le32 f.address) v.blocks)

    live : word_of (drop 20 (f.name ++ words)) ≡ f.active
    live =
        rw (drop-past 20 4 f.name words (omega (arith, v.size)))
          (word_of-le32 f.active (le32 f.address) v.live)

    start : word_of (drop 24 (f.name ++ words)) ≡ f.address
    start =
        rw (drop-past 24 8 f.name words (omega (arith, v.size))) (word_of-le32 f.address [] v.start)

-- The string of a name shorter than `n`.
abbrev pub fits : ℕ → Bytes → Bool
fits zero x = false
fits (suc n) x = let rest = fits n (λ i. x (suc i)) in if x 0 == 0 then true else rest

str_equal-strncpy : (n : ℕ) (x : Bytes) → str_equal (strncpy n x ++ 0 ∷ []) x ≡ fits (suc n) x
str_equal-strncpy zero x = ground arith
str_equal-strncpy (suc n) x = ground (arith, str_equal-strncpy n (λ i. x (suc i)))

-- The name that `set_file_name` stores is found again under the same name exactly if the name has at
-- most 15 characters: a longer one is cut, and the cut name is another.
pub set_file_name-found : (x : Bytes) → str_equal (set_file_name x) x ≡ fits 16 x
unfolding set_file_name
set_file_name-found x = str_equal-strncpy 15 x

-- No byte is null.
abbrev pub AllNonzero : List ℕ → Type 0
AllNonzero [] = Unit {0}
AllNonzero (b ∷ bs) = (b ≢ 0) × AllNonzero bs

pub strlen-append :
    (xs ys : List ℕ) (k : ℕ)
    → AllNonzero xs
    → strlen ys ≡ some k
    → strlen (xs ++ ys) ≡ some (length xs + k)
strlen-append [] ys k h e = e ∙ ap some (omega arith)
strlen-append (x ∷ xs) ys k h e =
    rw (==_ne x 0 h.0, strlen-append xs ys k h.1 e) (ap some (omega arith))

-- The string of a full block does not end in `content`: it runs on into the word `full`, and is one
-- longer than the block's content.
pub strlen-full_block :
    (d : Data)
    → length d.content ≡ 24
    → AllNonzero d.content
    → d.full ≡ 1
    → strlen (data_bytes d) ≡ some 25
unfolding data_bytes
strlen-full_block d e h f =
    rw f
      (strlen-append d.content (le32 1 ++ le32 d.next_data_block) 1 h refl ∙ ap some (omega arith))
