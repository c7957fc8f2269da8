-- ===== src/Fs/Calls.antt =====
-- What `file_close` and `file_read` of kernel/mem.c do, on every descriptor and at a block's end.
use armcortex_a7os.Base.{
  ℕ, zero, suc, ◌^◌, ◌<◌, ◌≤◌, ◌≡◌, refl, sym, ◌∙◌, ap, true, false, ◌||◌, ltb→lt, inl, inr, List,
  [], ◌∷◌, ◌++◌, Option, some, none, length, get_elem?, set, get_elem?-eq-get_or, ◌==◌, ==_ne,
  if◌then◌else◌, ltb, leb, sle32, add32, sub32, arith, strlen, str_prefix, le32, Bool-cases,
}
use armcortex_a7os.Fs.{
  File, Data, Fs, Blocks, Op, ◌>>=◌, return, file_at, data_at, set_file, lift, zero_file,
  file_bytes, data_bytes, max_files, max_content, file_failure, get_data_block_id,
}
use armcortex_a7os.Fs.Files.{disk_wr, file_close}
use armcortex_a7os.Fs.Rw.{read_loop, file_read}
use armcortex_a7os.Fs.Layout.{AllNonzero, strlen-full_block}

get_elem?-past {ℓ} : {A : Type ℓ} (xs : List A) (i : ℕ) → length xs ≤ i → get_elem? xs i ≡ none
get_elem?-past [] i h = refl
get_elem?-past (x ∷ xs) zero h = absurd (omega arith)
get_elem?-past (x ∷ xs) (suc i) h = get_elem?-past xs i (omega arith)

pub bind-of :
    {D A B : Type 0} (m : Op D A) (f : A → Op D B) (s : Fs D) {a : A} {s' : Fs D}
    → m s ≡ some (a, s')
    → (m >>= f) s ≡ f a s'
bind-of m f s e = rw (e, ◌>>=◌)

module _ {D : Type 0} (dev : Blocks D) where
  -- What `file_close fd` comes to, by the descriptor: an index is cleared, in the table and on the
  -- disk; 95 and the negative numbers are undefined; any other is refused.
  abbrev pub close_outcome : ℕ → Fs D → Option (ℕ × Fs D)
  close_outcome fd s =
      if ltb fd max_files
      then disk_wr dev (add32 fd 1) (file_bytes zero_file)
          (record s { file = set s.file fd zero_file })
      else if fd == max_files || leb (2 ^ 31) fd
      then none
      else some (file_failure, s)

  close_inside :
      (fd : ℕ) (s : Fs D)
      → length s.file ≡ max_files
      → fd < max_files
      → file_close dev fd s
        ≡ disk_wr dev
            (add32 fd 1)
            (file_bytes zero_file)
            (record s { file = set s.file fd zero_file })
  unfolding file_close
  close_inside fd s e l =
      let t : sle32 fd max_files ≡ true = ground arith in
      rw t (
        bind-of (set_file fd zero_file) (λ _. disk_wr dev (add32 fd 1) (file_bytes zero_file)) s
          (rw (get_elem?-eq-get_or s.file fd zero_file (omega arith), set_file)))

  close_outside :
      (fd : ℕ) (s : Fs D)
      → length s.file ≡ max_files
      → max_files ≤ fd
      → sle32 fd max_files ≡ true
      → file_close dev fd s ≡ none
  unfolding file_close
  close_outside fd s e l t = rw t (rw (get_elem?-past s.file fd (omega arith), ◌>>=◌, set_file))

  close_refused :
      (fd : ℕ) (s : Fs D)
      → sle32 fd max_files ≡ false
      → file_close dev fd s ≡ some (file_failure, s)
  unfolding file_close
  close_refused fd s t = rw t

  -- With the file table at its length, and `fd` any word, `file_close fd` clears the entry in the table
  -- and on the disk where `fd` is below 95; it writes outside of the table where `fd` is 95 or
  -- negative; any other `fd` is refused and changes nothing.
  pub file_close_lem :
      (fd : ℕ) (s : Fs D)
      → fd < 2 ^ 32
      → length s.file ≡ max_files
      → file_close dev fd s ≡ close_outcome fd s
  file_close_lem fd s w e = elim (Bool-cases (ltb fd max_files)) [
    | inl l ↦ rw l (close_inside fd s e (ltb→lt fd max_files l))
    | inr m ↦ rw m (elim (Bool-cases (fd == max_files || leb (2 ^ 31) fd)) [
      | inl q ↦ rw q (close_outside fd s e (ground arith) (ground arith))
      | inr q ↦ rw q (close_refused fd s (ground arith))
    ])
  ]

pub str_prefix-append : (xs ys : List ℕ) → AllNonzero xs → str_prefix (length xs) (xs ++ ys) ≡ xs
str_prefix-append [] ys h = refl
str_prefix-append (x ∷ xs) ys h = rw (==_ne x 0 h.0, str_prefix-append xs ys h.1)

str_prefix-content :
    (d : Data)
    → length d.content ≡ 24
    → AllNonzero d.content
    → str_prefix 24 (data_bytes d) ≡ d.content
unfolding data_bytes
str_prefix-content d e h =
    ap (λ (n : ℕ). str_prefix n (d.content ++ (le32 d.full ++ le32 d.next_data_block))) (sym e)
    ∙ str_prefix-append d.content (le32 d.full ++ le32 d.next_data_block) h

pub data_at-of :
    {D : Type 0} (i : ℕ) (s : Fs D) {d : Data}
    → get_elem? s.data_blocks i ≡ some d
    → data_at i s ≡ some (d, s)
data_at-of i s e = rw (e, data_at)

pub file_at-of :
    {D : Type 0} (i : ℕ) (s : Fs D) {f : File}
    → get_elem? s.file i ≡ some f
    → file_at i s ≡ some (f, s)
file_at-of i s e = rw (e, file_at)

pub lift-of : {D A : Type 0} (o : Option A) (s : Fs D) {a : A} → o ≡ some a → lift o s ≡ some (a, s)
lift-of o s e = rw (e, lift)

-- The round of `file_read` at a full block, with `n` bytes still asked for.
module _ {D : Type 0} (s : Fs D) (d : Data) (current : ℕ)
    (here : get_elem? s.data_blocks current ≡ some d) (size : length d.content ≡ 24)
    (text : AllNonzero d.content) (full : d.full ≡ 1) where
  pub read_loop-full :
      (fuel m : ℕ) (output : List ℕ)
      → 24 ≤ m
      → read_loop (suc fuel) current (suc m) output s
        ≡ read_loop fuel
            (get_data_block_id d.next_data_block)
            (sub32 (suc m) 25)
            (output ++ d.content)
            s
  unfolding read_loop
  read_loop-full fuel m output l =
      bind-of (data_at current) _ s (data_at-of current s here)
      ∙ bind-of (lift (strlen (data_bytes d))) _ s
          (lift-of _ s (strlen-full_block d size text full))
      ∙ rw (nonzero, more)
          (ap
            (λ (bs : List ℕ).
              read_loop fuel (get_data_block_id d.next_data_block) (sub32 (suc m) 25) (output ++ bs)
                s)
            (str_prefix-content d size text))
    where
      nonzero : (d.full == 0) ≡ false
      nonzero = ==_ne d.full 0 (omega (arith, full))

      more : ltb max_content (suc m) ≡ true
      more = ground arith

-- A read of 25 bytes from a file whose first block is full reports 25 and delivers 24: the length that
-- the loop takes off at a full block is one more than the bytes that it copies.
pub file_read-short :
    {D : Type 0} (s : Fs D) (fd : ℕ) (f : File) (d : Data)
    → get_elem? s.file fd ≡ some f
    → get_elem? s.data_blocks (get_data_block_id f.address) ≡ some d
    → length d.content ≡ 24
    → AllNonzero d.content
    → d.full ≡ 1
    → file_read fd 25 s ≡ some ((25, d.content), s)
unfolding file_read
file_read-short s fd f d at_fd here size text full =
    bind-of (file_at fd) _ s (file_at-of fd s at_fd)
    ∙ bind-of (read_loop 26 (get_data_block_id f.address) 25 []) (λ output. return (25, output)) s
        (read_loop-full s d (get_data_block_id f.address) here size text full 25 24 [] (omega arith)
          ∙ unfold read_loop in refl)
