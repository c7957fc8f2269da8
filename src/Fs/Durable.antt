-- ===== src/Fs/Durable.antt =====
-- What `file_write` of kernel/mem.c appends to a file is on the disk: a reset does not lose it.
use armcortex_a7os.Base.{
  ℕ, ◌+◌, ◌*◌, ◌^◌, ◌<◌, ◌≤◌, ◌≡◌, ◌≢◌, sym, ◌∙◌, ap, subst, List, ◌∷◌, ◌++◌, some, String, length,
  length-append, lt_of_get_elem?, get_elem?, Bytes, arith,
}
use armcortex_a7os.Fs.{
  File, Data, DiskHeader, Fs, Blocks, ◌>>◌, header_of, data_bytes, get_data_block_id,
  get_data_block_address, max_files, file_success,
}
use armcortex_a7os.Fs.Files.{file_setup, file_disk_load}
use armcortex_a7os.Fs.Rw.{file_write, file_read}
use armcortex_a7os.Fs.Layout.{AllNonzero, data_of-data_bytes}
use armcortex_a7os.Fs.Calls.{bind-of}
use armcortex_a7os.Fs.Text.{InMemory, Holds}
use armcortex_a7os.Fs.Longer.{PointsAt, longer-fits}
use armcortex_a7os.Fs.Append.{stored}
use armcortex_a7os.Fs.RoundTrip.{Entry, tail, block', room, file_write-stored, stored-Holds}
use armcortex_a7os.Fs.Store.{Store, data_on}
use armcortex_a7os.Fs.StoreBytes.{longer-AllBytes}
use armcortex_a7os.Fs.Loading.{entry_on}
use armcortex_a7os.Fs.LoadData.{address_of}
use armcortex_a7os.Fs.Reset.{OnDisk, Loadable, SavedFile, file_disk_load-Mounted}
use armcortex_a7os.Disk.Protocol.{AllBytes}
use armcortex_a7os.Fs.SetUp.{file_setup-SetUp, first_header, header_returns}
use armcortex_a7os.Fs.SameFiles.{
  Loadable-SameFiles, rewritten_here, rewritten_other, rewritten-SameFiles,
}

module _ {D : Type 0} {dev : Blocks D} (st : Store dev) where
  -- The block `i` is `b` in memory and on the disk.
  abbrev pub Saved : Fs D → ℕ → Data → Type 0
  Saved s i b = InMemory s i b × (data_on st s.disk i ≡ b)

  -- An active entry of the table, with its chain, of which all blocks are counted: as on the disk.
  pub record OpenFile (s : Fs D) (fd k : ℕ) (f : File) (t : List ℕ) : Type 0 where
    pub low : fd < max_files
    pub at_fd : get_elem? s.file fd ≡ some f
    pub entry : entry_on st s.disk fd ≡ f
    pub live : f.active ≢ 0
    pub text : Holds (Saved s) (get_data_block_id f.address) k t
    pub counted : k < f.no_of_blocks
    pub small : f.no_of_blocks < 2 ^ 31

  -- The outcome of a write: the longer text is on the disk.
  record Written (s : Fs D) (fd k n : ℕ) (f : File) (x : Bytes) (t : List ℕ) : Type 0 where
    after : Fs D
    ran : file_write dev fd x n s ≡ some (file_success, after)
    loadable : Loadable st (length s.data_blocks) after.disk
    saved : SavedFile st (length s.data_blocks) after.disk fd k f t

  module _ (s : Fs D) {fd k : ℕ} {f : File} {t : List ℕ}
      (h : Loadable st (length s.data_blocks) s.disk) (v : OpenFile s fd k f t) where
    abbrev top : ℕ
    top = length s.data_blocks

    in_memory : (i : ℕ) (b : Data) → Saved s i b → InMemory s i b
    in_memory i b e = e.0

    OpenFile-Entry : Entry s (Saved s) fd k f t
    OpenFile-Entry = record {
      at_fd = v.at_fd;
      text = v.text;
      enough = omega (arith, v.counted);
      small = v.small;
    }

    file_write-Written :
        (x : Bytes) (b : ℕ) (bs : List ℕ)
        → PointsAt x (b ∷ bs)
        → AllNonzero (b ∷ bs)
        → AllBytes (b ∷ bs)
        → length t + length (b ∷ bs) < 24 * k + 24
        → Written s fd k (length (b ∷ bs)) f x (t ++ (b ∷ bs))
    unfolding data_on
    file_write-Written x b bs p clean bytes l =
        let w = tail dev s (Saved s) in_memory OpenFile-Entry in
        let d' = block' dev s (Saved s) in_memory OpenFile-Entry b bs clean l in
        let free = room dev s (Saved s) in_memory OpenFile-Entry b bs clean l in
        let below : w.place < top = lt_of_get_elem? s.data_blocks w.place w.ends.here.0 in
        let a = get_data_block_address w.place in
        let inside : a < st.limit =
          omega (arith, address_of w.place top st.limit below h.room st.small, below, h.room) in
        let back = data_of-data_bytes d' (longer-fits w.ends (b ∷ bs) free) in
        let whole =
          longer-AllBytes (st.at a s.disk) w.block w.text (b ∷ bs) w.pad
            (st.bytes a s.disk h.up inside) w.ends.here.1 w.ends.content bytes in
        let (disk', wrote, up, c) = st.write a (data_bytes d') s.disk h.up inside back.1 whole in
        let link : d'.next_data_block ≡ (data_on st s.disk w.place).next_data_block =
          ap (λ (y : Data). y.next_data_block) (sym w.ends.here.1) in
        let here =
          rewritten_here st top w.place (data_bytes d') s.disk disk' h.room below c d' back.0
            link in
        let other =
          rewritten_other st top w.place (data_bytes d') s.disk disk' h.room below c d' back.0
            link in
        let same =
          rewritten-SameFiles st top w.place (data_bytes d') s.disk disk' h.room below c d' back.0
            link in
        record {
          after = stored w.place d' disk' s;
          ran = file_write-stored dev s (Saved s) in_memory OpenFile-Entry b bs clean l x p wrote;
          loadable = unfold stored in Loadable-SameFiles st up same h;
          saved =
              unfold stored in
              record {
                low = v.low;
                entry = same.entries fd v.low ∙ v.entry;
                live = v.live;
                text =
                    stored-Holds dev s (Saved s) in_memory OpenFile-Entry b bs clean l
                      (OnDisk st top disk')
                      (λ i y ne e.
                        let u = lt_of_get_elem? s.data_blocks i e.0 in (u, other i u ne ∙ e.1))
                      (below, here);
                counted = v.counted;
                small = v.small;
              };
        }

  -- Let the disk be an array of blocks, from which the chains of all active entries are loaded within
  -- the table; and let a file be open whose entry and chain are in memory as they are on the disk, all
  -- blocks of the chain being counted. A write of at least one byte, none of them 0, that leaves the
  -- last block with a free place, succeeds. After a reset, whatever the memory holds then, `file_setup`
  -- and `file_disk_load` end; the count of data blocks is the first one, 96, again; and a read of the
  -- file, of fewer than 2 ^ 32 - 1 bytes but at least as many as the whole text and the full blocks are,
  -- delivers the old text followed by just the bytes written.
  pub file_write-file_disk_load :
      (s : Fs D) {fd k : ℕ} {f : File} {t : List ℕ}
      → Loadable st (length s.data_blocks) s.disk
      → OpenFile s fd k f t
      → (x : Bytes) (b : ℕ) (bs : List ℕ) (n : ℕ) → PointsAt x (b ∷ bs)
      → AllNonzero (b ∷ bs)
      → AllBytes (b ∷ bs)
      → length t + length (b ∷ bs) < 24 * k + 24
      → length t + length (b ∷ bs) + k ≤ n
      → n + 1 < 2 ^ 32
      → (table : List File) (blocks : List Data) (old : DiskHeader) (out : List String)
      → length table ≡ max_files
      → length blocks ≡ length s.data_blocks
      → (s' m' : Fs D) × (file_write dev fd x (length (b ∷ bs)) s ≡ some (file_success, s'))
        × ((file_setup dev >> file_disk_load dev)
              (record s' { file = table; data_blocks = blocks; header = old; out = out })
            ≡ some (tt, m'))
        × (m'.header.new_data_block ≡ 96)
        × (file_read fd n m' ≡ some ((n, t ++ (b ∷ bs)), m'))
  file_write-file_disk_load s {fd} {k} {f} {t} h v x b bs n p clean bytes l c w table blocks old out
        e q =
      let a = file_write-Written s h v x b bs p clean bytes l in
      let m = record (a.after) { file = table; data_blocks = blocks; header = old; out = out } in
      let u = file_setup-SetUp st m (length s.data_blocks) a.loadable a.saved in
      let m₁ = record m { header = first_header; disk = u.disk'; out = u.message ∷ out } in
      let z =
        file_disk_load-Mounted st m₁ n e
          (subst (λ (j : ℕ). Loadable st j u.disk') (sym q) u.loadable)
          (subst (λ (j : ℕ). SavedFile st j u.disk' fd k f (t ++ (b ∷ bs))) (sym q) u.saved)
          (omega (arith, c, length-append t (b ∷ bs))) w in
      (
        a.after,
        z.after,
        a.ran,
        bind-of (file_setup dev) _ m u.ran ∙ z.ran,
        ap (λ (o : DiskHeader). o.new_data_block)
            (z.header ∙ ap header_of u.header ∙ header_returns),
        z.served,
      )
