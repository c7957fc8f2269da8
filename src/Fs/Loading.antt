-- ===== src/Fs/Loading.antt =====
-- What `load_header` and `load_files` of kernel/mem.c make of the disk.
use armcortex_a7os.Base.{
  ℕ, zero, suc, ◌+◌, ◌<◌, ◌≤◌, ◌≡◌, refl, sym, ◌∙◌, ap, List, ◌∷◌, some, length, length-set,
  get_elem?, get_elem?-eq-get_or, get_elem?-set_self, get_elem?-set_ne, set, ℕ_discrete, arith,
}
use armcortex_a7os.Fs.{
  File, Fs, Blocks, set_file, zero_file, zero_header, file_bytes, file_of, header_bytes, header_of,
}
use armcortex_a7os.Fs.Files.{disk_rd, load_header, load_files_from}
use armcortex_a7os.Fs.Calls.{bind-of}
use armcortex_a7os.Fs.Store.{Store}

set_file-of :
    {D : Type 0} (i : ℕ) (f : File) (s : Fs D)
    → i < length s.file
    → set_file i f s ≡ some (tt, record s { file = set s.file i f })
set_file-of i f s l = rw (get_elem?-eq-get_or s.file i zero_file l, set_file)

module _ {D : Type 0} {dev : Blocks D} (st : Store dev) where
  -- The entry `i` as it is on the disk.
  unfoldable pub entry_on : D → ℕ → File
  entry_on d i = file_of (st.at (i + 1) d)

  pub disk_rd-of :
      (a : ℕ) (x : List ℕ) (s : Fs D)
      → st.Up s.disk
      → a < st.limit
      → disk_rd dev a x s ≡ some ((0, st.at a s.disk), s)
  disk_rd-of a x s up l = rw (st.read a x s.disk up l, disk_rd)

  pub load_header-of :
      (s : Fs D)
      → st.Up s.disk
      → 0 < st.limit
      → load_header dev s
        ≡ some (
          tt,
          record s {
            header = header_of (st.at 0 s.disk);
            out = "DISK: Header successfully loaded!\n" ∷ s.out;
          },
        )
  unfolding load_header
  load_header-of s up l =
      bind-of (disk_rd dev 0 (header_bytes zero_header)) _ (record s { header = zero_header })
        (disk_rd-of 0 (header_bytes zero_header) (record s { header = zero_header }) up l)

  -- The table after `n` rounds of `load_files` from the entry `i` on.
  pub record FilesLoaded (n i : ℕ) (s : Fs D) : Type 0 where
    pub table : List File
    pub ran : load_files_from dev n i s ≡ some (tt, record s { file = table })
    pub size : length table ≡ length s.file
    pub kept : (j : ℕ) → j < i → get_elem? table j ≡ get_elem? s.file j
    pub loaded : (j : ℕ) → i ≤ j → j < i + n → get_elem? table j ≡ some (entry_on s.disk j)

  load_files_step :
      (n i : ℕ) (s : Fs D)
      → st.Up s.disk
      → i < length s.file
      → i + 1 < st.limit
      → load_files_from dev (suc n) i s
        ≡ load_files_from dev n
            (i + 1)
            (record s { file = set (set s.file i zero_file) i (entry_on s.disk i) })
  unfolding load_files_from entry_on
  load_files_step n i s up l m =
      let s₁ = record s { file = set s.file i zero_file } in
      bind-of (set_file i zero_file) _ s (set_file-of i zero_file s l)
      ∙ bind-of (disk_rd dev (i + 1) (file_bytes zero_file)) _ s₁
          (disk_rd-of (i + 1) (file_bytes zero_file) s₁ up m)
      ∙ bind-of (set_file i (entry_on s.disk i)) _ s₁
          (set_file-of i (entry_on s.disk i) s₁ (omega (arith, l, length-set s.file i zero_file)))

  pub load_files-FilesLoaded :
      (n i : ℕ) (s : Fs D)
      → st.Up s.disk
      → i + n ≤ length s.file
      → i + n < st.limit
      → FilesLoaded n i s
  load_files-FilesLoaded zero i s up l m = record {
    table = s.file;
    ran = unfold load_files_from in refl;
    size = refl;
    kept = λ j h. refl;
    loaded = λ j h k. absurd (omega arith);
  }
  load_files-FilesLoaded (suc n) i s up l m =
      let old = set s.file i zero_file in
      let f = entry_on s.disk i in
      let size₁ : length (set old i f) ≡ length s.file =
        length-set old i f ∙ length-set s.file i zero_file in
      let w =
        load_files-FilesLoaded n (i + 1) (record s { file = set old i f }) up
          (omega (arith, l, size₁)) (omega arith) in
      record {
        table = w.table;
        ran = load_files_step n i s up (omega arith) (omega arith) ∙ w.ran;
        size = w.size ∙ size₁;
        kept = λ j h.
            w.kept j (omega arith)
            ∙ get_elem?-set_ne old i j f (omega arith)
            ∙ get_elem?-set_ne s.file i j zero_file (omega arith);
        loaded = λ j h k. elim (ℕ_discrete i j) [
          | yes e ↦
              ap (λ (c : ℕ). get_elem? w.table c) (sym e)
              ∙ w.kept i (omega arith)
              ∙ get_elem?-set_self old i f zero_file (
                  get_elem?-set_self s.file i zero_file _
                    (get_elem?-eq-get_or s.file i zero_file (omega arith)))
              ∙ ap (λ (c : ℕ). some (entry_on s.disk c)) e
          | no ne ↦ w.loaded j (omega arith) (omega arith)
        ];
      }
