-- ===== src/Fs/SetUp.antt =====
-- What `file_setup` of kernel/mem.c leaves of the disk.
use armcortex_a7os.Base.{ℕ, ◌+◌, ◌<◌, ◌≡◌, refl, ◌∙◌, ap, List, ◌∷◌, some, String, length, arith}
use armcortex_a7os.Fs.{
  File, Data, DiskHeader, Fs, Blocks, zero_header, header_bytes, header_of, get_data_block_id,
  max_files,
}
use armcortex_a7os.Fs.Files.{disk_wr, file_setup}
use armcortex_a7os.Fs.Calls.{bind-of}
use armcortex_a7os.Fs.Store.{Store}
use armcortex_a7os.Fs.Reset.{Loadable, SavedFile}
use armcortex_a7os.Disk.Protocol.{AllBytes}
use armcortex_a7os.Fs.Text.{Holds-map}
use armcortex_a7os.Fs.SameFiles.{Changed-entry, Changed-other, Loadable-SameFiles}

-- What `file_setup` writes to the header.
abbrev pub first_header : DiskHeader
first_header = record zero_header { new_data_block = max_files + 1 }

pub header_returns : header_of (header_bytes first_header) ≡ first_header
unfolding header_of header_bytes
header_returns = refl

header_fits : AllBytes (header_bytes first_header) × (length (header_bytes first_header) ≡ 32)
unfolding header_bytes
header_fits = (omega arith, refl)

module _ {D : Type 0} {dev : Blocks D} (st : Store dev) where
  -- The outcome of `file_setup`: the header is the first one again, and the files are as they were.
  pub record SetUp (s : Fs D) (top fd k : ℕ) (f : File) (t : List ℕ) : Type 0 where
    pub disk' : D
    pub message : String
    pub ran :
        file_setup dev s
        ≡ some (tt, record s { header = first_header; disk = disk'; out = message ∷ s.out })
    pub header : st.at 0 disk' ≡ header_bytes first_header
    pub loadable : Loadable st top disk'
    pub saved : SavedFile st top disk' fd k f t

  disk_wr-of :
      (a : ℕ) (x : List ℕ) (s : Fs D) {r : ℕ} {d : D}
      → dev.wr a x s.disk ≡ some (r, d)
      → disk_wr dev a x s ≡ some (r, record s { disk = d })
  disk_wr-of a x s e = rw (e, disk_wr)

  pub file_setup-SetUp :
      (s : Fs D) (size : ℕ) {fd k : ℕ} {f : File} {t : List ℕ}
      → Loadable st size s.disk
      → SavedFile st size s.disk fd k f t
      → SetUp s size fd k f t
  unfolding file_setup
  file_setup-SetUp s size {fd} h v =
      let x = header_bytes first_header in
      let (disk', wrote, up, c) =
        st.write 0 x s.disk h.up (omega (arith, h.room)) header_fits.1 header_fits.0 in
      let entries = λ (j : ℕ) (l : j < max_files).
        Changed-entry st size 0 x s.disk disk' h.room c j l (λ e. omega arith) in
      let blocks = λ (i : ℕ) (l : i < size).
        Changed-other st size 0 x s.disk disk' h.room c i l (λ e. omega arith) in
      record {
        disk' = disk';
        message = "FILE: Disk successfully flushed!\n";
        ran =
            bind-of (disk_wr dev 0 x) _ (record s { header = first_header })
              (disk_wr-of 0 x (record s { header = first_header }) wrote);
        header = c 0 (omega (arith, h.room));
        loadable =
            Loadable-SameFiles st up
              (record {
                entries = entries;
                links = λ i l. ap (λ (y : Data). get_data_block_id y.next_data_block) (blocks i l);
              })
              h;
        saved = record {
          low = v.low;
          entry = entries fd v.low ∙ v.entry;
          live = v.live;
          text = Holds-map (λ i b e. (e.0, blocks i e.0 ∙ e.1)) v.text;
          counted = v.counted;
          small = v.small;
        };
      }
