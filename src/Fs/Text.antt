-- ===== src/Fs/Text.antt =====
-- A file as the text in its blocks, and what `file_read` of kernel/mem.c delivers of it.
use mathlib.Core.List.{append_assoc, append-nil}
use armcortex_a7os.Base.{
  ℕ, zero, suc, ◌+◌, ◌-◌, ◌^◌, ◌<◌, ◌≤◌, ◌≡◌, refl, ◌∙◌, ap, false, List, [], ◌∷◌, ◌++◌, some,
  length, get_elem?, ◌==◌, ==_ne, add32, ltb, sub32, arith, strlen, str_prefix, le32, Bool-cases,
  inl, inr, ◌&&◌, not, length-append, Option,
}
use armcortex_a7os.Fs.{
  File, Data, Fs, return, file_at, data_at, lift, data_bytes, get_data_block_id, max_content,
}
use armcortex_a7os.Fs.Rw.{read_loop, file_read}
use armcortex_a7os.Fs.Layout.{AllNonzero, DataFits, strlen-append}
use armcortex_a7os.Fs.Calls.{
  bind-of, data_at-of, file_at-of, lift-of, str_prefix-append, read_loop-full,
}

-- The block `i` of the table `data_blocks` is `d`.
abbrev pub InMemory : {D : Type 0} → Fs D → ℕ → Data → Type 0
InMemory s i d = get_elem? s.data_blocks i ≡ some d

-- From the block `current` on, `k` full blocks and one that is not full hold the text `t`. Which data
-- is in a block is what `At` says.
pub data Holds (At : ℕ → Data → Type 0) : ℕ → ℕ → List ℕ → Type 0 where
  last :
      {current : ℕ} (d : Data) (t pad : List ℕ)
      → At current d
      → d.full ≡ 0
      → d.content ≡ t ++ (0 ∷ pad)
      → AllNonzero t
      → DataFits d
      → Holds At current 0 t
  more :
      {current k : ℕ} (d : Data) (t : List ℕ)
      → At current d
      → length d.content ≡ 24
      → AllNonzero d.content
      → d.full ≡ 1
      → Holds At (get_data_block_id d.next_data_block) k t
      → Holds At current (suc k) (d.content ++ t)

-- What is in a block may be said in other ways.
pub Holds-map :
    {At At' : ℕ → Data → Type 0} {current k : ℕ} {t : List ℕ}
    → ((i : ℕ) (b : Data) → At i b → At' i b)
    → Holds At current k t
    → Holds At' current k t
Holds-map g (last {current} d t pad here idle text clean fits) =
    last d t pad (g current d here) idle text clean fits
Holds-map g (more {current} d t here size text full r) =
    more d t (g current d here) size text full (Holds-map g r)

module _ (d : Data) (t pad : List ℕ) (text : d.content ≡ t ++ (0 ∷ pad)) (h : AllNonzero t) where
  abbrev rest : List ℕ
  rest = pad ++ (le32 d.full ++ le32 d.next_data_block)

  pub data_bytes-text : data_bytes d ≡ t ++ (0 ∷ rest)
  unfolding data_bytes
  data_bytes-text =
      ap (λ (c : List ℕ). c ++ (le32 d.full ++ le32 d.next_data_block)) text
      ∙ append_assoc t (0 ∷ pad) (le32 d.full ++ le32 d.next_data_block)

  pub strlen-text : strlen (data_bytes d) ≡ some (length t)
  strlen-text =
      ap strlen data_bytes-text ∙ strlen-append t (0 ∷ rest) 0 h refl ∙ ap some (omega arith)

  str_prefix-text : str_prefix (length t) (data_bytes d) ≡ t
  str_prefix-text = ap (str_prefix (length t)) data_bytes-text ∙ str_prefix-append t (0 ∷ rest) h

  -- The round of `file_read` at that block.
  read_loop-last :
      {D : Type 0} (s : Fs D) (current fuel m : ℕ) (output : List ℕ)
      → get_elem? s.data_blocks current ≡ some d
      → d.full ≡ 0
      → length t ≤ suc m
      → read_loop (suc fuel) current (suc m) output s ≡ some (output ++ t, s)
  unfolding read_loop
  read_loop-last {D} s current fuel m output here idle l =
      bind-of (data_at current) _ s (data_at-of current s here)
      ∙ bind-of (lift (strlen (data_bytes d))) _ s (lift-of _ s strlen-text)
      ∙ elim (Bool-cases (ltb (length t) (suc m))) [
        | inl e ↦ rw (one_block, e) delivered
        | inr e ↦
            let exact : suc m ≡ length t = ground arith in
            rw (one_block, e)
              (ap (λ (n : ℕ). result (str_prefix n (data_bytes d))) exact ∙ delivered)
      ]
    where
      one_block : (ltb max_content (suc m) && not (d.full == 0)) ≡ false
      one_block = ground arith

      result : List ℕ → Option (List ℕ × Fs D)
      result bs = some (output ++ bs, s)

      delivered : result (str_prefix (length t) (data_bytes d)) ≡ result t
      delivered = ap result str_prefix-text

sub32-exact : (n : ℕ) → 25 ≤ n → n < 2 ^ 32 → sub32 n 25 ≡ n - 25
sub32-exact n l h = omega arith

read_loop-Holds :
    {D : Type 0} {s : Fs D} (fuel : ℕ) {current k : ℕ} {t : List ℕ} (n : ℕ) (output : List ℕ)
    → Holds (InMemory s) current k t
    → n < fuel
    → length t + k ≤ n
    → n < 2 ^ 32
    → read_loop fuel current n output s ≡ some (output ++ t, s)
unfolding read_loop
read_loop-Holds zero n output r l e w = absurd (omega arith)
read_loop-Holds (suc fuel) zero output (last d [] pad here idle text h v) l e w =
    rw (append-nil output) refl
read_loop-Holds (suc fuel) zero output (last d (b ∷ t) pad here idle text h v) l e w =
    absurd (omega (arith, e))
read_loop-Holds (suc fuel) zero output (more d t here size text full r) l e w =
    absurd (omega (arith, e))
read_loop-Holds {s = s} (suc fuel) {current} (suc m) output (last d t pad here idle text h v) l e
      w =
    read_loop-last d t pad text h s current fuel m output here idle (omega arith)
read_loop-Holds {s = s} (suc fuel) {current} (suc m) output (more {k = k} d t here size text full r)
      l e w =
    let room : 25 + (length t + k) ≤ suc m = omega (arith, length-append d.content t) in
    read_loop-full s d current here size text full fuel m output (omega arith)
    ∙ ap (λ (n : ℕ). read_loop fuel (get_data_block_id d.next_data_block) n (output ++ d.content) s)
        (sub32-exact (suc m) (omega arith) w)
    ∙ read_loop-Holds fuel (suc m - 25) (output ++ d.content) r (omega arith) (omega arith)
        (omega arith)
    ∙ rw (append_assoc output d.content t) refl

-- A file whose chain of blocks holds a text, in `k` full blocks and one that is not full, is read as
-- a whole where fewer than 2 ^ 32 - 1 bytes, but at least as many as its length and one more for each full
-- block, are asked for: the loop ends within its fuel, delivers just the text and changes nothing. The
-- result is the number asked for, even if the text is shorter.
pub file_read-Holds :
    {D : Type 0} {s : Fs D} {k : ℕ} {t : List ℕ} (fd n : ℕ) (f : File)
    → get_elem? s.file fd ≡ some f
    → Holds (InMemory s) (get_data_block_id f.address) k t
    → length t + k ≤ n
    → n + 1 < 2 ^ 32
    → file_read fd n s ≡ some ((n, t), s)
unfolding file_read
file_read-Holds {s = s} {k} {t} fd n f at_fd r l w =
    bind-of (file_at fd) _ s (file_at-of fd s at_fd)
    ∙ rw (==_ne (add32 n 1) 0 (omega (arith, w))) (
        bind-of (read_loop (n + 1) (get_data_block_id f.address) n [])
          (λ output. return (n, output)) s
          (read_loop-Holds (n + 1) n [] r (omega arith) l (omega (arith, w))))
