-- ===== src/Fs/Reset.antt =====
-- `file_setup` and `file_disk_load` of kernel/mem.c, as `hilevel_handler_rst` calls them: what a file
-- on the disk is afterwards.
use armcortex_a7os.Base.{
  ℕ, zero, suc, ◌+◌, ◌^◌, ◌<◌, ◌≤◌, ◌≡◌, ◌≢◌, inl, inr, refl, sym, ◌∙◌, ap, subst, List, ◌∷◌, some,
  length, get_or-of_get_elem?, arith,
}
use armcortex_a7os.Fs.{
  File, Data, Fs, Blocks, zero_file, header_of, get_data_block_id, rounds, max_files,
}
use armcortex_a7os.Fs.Files.{load_header, load_files_from, file_disk_load}
use armcortex_a7os.Fs.Rw.{file_read}
use armcortex_a7os.Fs.Calls.{bind-of}
use armcortex_a7os.Fs.Text.{InMemory, Holds, last, more, file_read-Holds}
use armcortex_a7os.Fs.RoundTrip.{rounds_small}
use armcortex_a7os.Fs.Store.{Store, data_on}
use armcortex_a7os.Fs.Loading.{entry_on, load_header-of, load_files-FilesLoaded}
use armcortex_a7os.Fs.LoadData.{IsOn, IsLoaded, EntryInRange, IsOnEntry, load_data-Loads}

module _ {D : Type 0} {dev : Blocks D} (st : Store dev) where
  -- The block `i` of the disk, one that the table has a place for, is `b`.
  abbrev pub OnDisk : ℕ → D → ℕ → Data → Type 0
  OnDisk top d i b = (i < top) × (data_on st d i ≡ b)

  -- A disk from which `file_disk_load` reads only blocks that the table, of `top` blocks, has a place
  -- for.
  pub record Loadable (top : ℕ) (d : D) : Type 0 where
    pub up : st.Up d
    pub room : top + 96 ≤ st.limit
    pub chains : (j : ℕ) → j < max_files → EntryInRange st d top (entry_on st d j)

  -- An active entry of the disk, with its chain, of which all blocks are counted.
  pub record SavedFile (top : ℕ) (d : D) (fd k : ℕ) (f : File) (t : List ℕ) : Type 0 where
    pub low : fd < max_files
    pub entry : entry_on st d fd ≡ f
    pub live : f.active ≢ 0
    pub text : Holds (OnDisk top d) (get_data_block_id f.address) k t
    pub counted : k < f.no_of_blocks
    pub small : f.no_of_blocks < 2 ^ 31

  -- Once the blocks of its chain are loaded, a text on the disk is in memory.
  Holds-loaded :
      (s : Fs D) (d : D) (top n : ℕ) {current k : ℕ} {t : List ℕ}
      → Holds (OnDisk top d) current k t
      → k < n
      → ((c : ℕ) → IsOn st d n current c → IsLoaded st d s.data_blocks c)
      → Holds (InMemory s) current k t
  Holds-loaded s d top zero r l h = absurd (omega arith)
  Holds-loaded s d top (suc n) {current} (last b t pad here idle text clean fits) l h =
      last b t pad (h current (inl refl) ∙ ap some here.1) idle text clean fits
  Holds-loaded s d top (suc n) {current} (more b t here size text full r) l h =
      more b t (h current (inl refl) ∙ ap some here.1) size text full (
        Holds-loaded s d top n r (omega arith) (λ c o. h c (
          inr (
            subst (λ (x : Data). IsOn st d n (get_data_block_id x.next_data_block) c) (sym here.1)
              o))))

  -- The outcome of a load: a file of the disk is read from memory.
  pub record Mounted (fd n : ℕ) (t : List ℕ) (s : Fs D) : Type 0 where
    pub after : Fs D
    pub ran : file_disk_load dev s ≡ some (tt, after)
    pub header : after.header ≡ header_of (st.at 0 s.disk)
    pub served : file_read fd n after ≡ some ((n, t), after)

  pub file_disk_load-Mounted :
      (s : Fs D) {fd k : ℕ} {f : File} {t : List ℕ} (n : ℕ)
      → length s.file ≡ max_files
      → Loadable (length s.data_blocks) s.disk
      → SavedFile (length s.data_blocks) s.disk fd k f t
      → length t + k ≤ n
      → n + 1 < 2 ^ 32
      → Mounted fd n t s
  file_disk_load-Mounted s {fd} {k} {f} {t} n e h v l w =
      let s₁ = record s {
        header = header_of (st.at 0 s.disk);
        out = "DISK: Header successfully loaded!\n" ∷ s.out;
      } in
      let files =
        load_files-FilesLoaded st max_files 0 s₁ h.up (omega (arith, e)) (omega (arith, h.room)) in
      let s₂ = record s₁ { file = files.table } in
      let on_disk = λ (j : ℕ) (lj : j < max_files).
        get_or-of_get_elem? files.table j zero_file (files.loaded j (omega arith) (omega arith)) in
      let filled =
        load_data-Loads st max_files 0 s₂ h.up h.room (omega (arith, e, files.size)) (λ j lj.
          subst (EntryInRange st s.disk (length s.data_blocks))
            (sym (on_disk j (omega (arith, lj, files.size, e))))
            (h.chains j (omega (arith, lj, files.size, e)))) in
      let s₃ = record s₂ { data_blocks = filled.blocks } in
      let all : rounds f.no_of_blocks ≡ f.no_of_blocks = rounds_small f.no_of_blocks v.small in
      record {
        after = s₃;
        ran =
            unfold file_disk_load in
            (bind-of (load_header dev) _ s (load_header-of st s h.up (omega (arith, h.room)))
              ∙ bind-of (load_files_from dev max_files 0) _ s₁ files.ran
              ∙ filled.ran);
        header = refl;
        served =
            file_read-Holds fd n f
              (files.loaded fd (omega arith) (omega (arith, v.low)) ∙ ap some v.entry)
              (Holds-loaded s₃ s.disk (length s.data_blocks) (rounds f.no_of_blocks) v.text
                (omega (arith, all, v.counted))
                (λ c o. filled.loads c (
                  fd,
                  omega arith,
                  omega (arith, v.low),
                  subst (λ (g : File). IsOnEntry st s.disk g c) (sym (on_disk fd v.low ∙ v.entry))
                      (v.live, o),
                )))
              l w;
      }
