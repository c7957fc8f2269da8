-- ===== src/Fs/Files.antt =====
-- Set-up, opening, closing and loading of files: the calls of kernel/mem.c on the file table.
use armcortex_a7os.Base.{
  ℕ, zero, suc, ◌+◌, List, none, some, ◌==◌, if◌then◌else◌, add32, sle32, minus_one, Bytes,
}
use armcortex_a7os.Fs.{
  block_size, max_files, file_kind, file_failure, File, zero_file, zero_header, zero_data,
  file_bytes, file_of, header_bytes, header_of, data_bytes, data_of, get_data_block_id,
  get_data_block_address, Blocks, Op, ◌>>=◌, ◌>>◌, return, say, file_at, set_file, set_data,
  new_file_id, find_file_id, set_file_name, rounds,
}

module _ {D : Type 0} (dev : Blocks D) where
  abbrev pub disk_wr : ℕ → List ℕ → Op D ℕ
  disk_wr a x s = elim (dev.wr a x s.disk) [
    | none ↦ none
    | some (r, d) ↦ some (r, record s { disk = d })
  ]

  abbrev pub disk_rd : ℕ → List ℕ → Op D (ℕ × List ℕ)
  disk_rd a x s = elim (dev.rd a block_size x s.disk) [
    | none ↦ none
    | some (r, d) ↦ some (r, record s { disk = d })
  ]

  unfoldable pub file_setup : Op D (Unit {0})
  unfolding header_bytes
  file_setup s =
      let h = record zero_header { new_data_block = max_files + 1 } in
      (do
        res ← disk_wr 0 (header_bytes h)
        if res == 0
            then say "FILE: Disk successfully flushed!\n"
            else say "FILE: Disk failed flushing!\n")
        (record s { header = h })

  unfoldable pub new_data_block_address : Op D ℕ
  unfolding header_bytes
  new_data_block_address s =
      let old = s.header.new_data_block in
      let h = record (s.header) { new_data_block = add32 old 1 } in
      (disk_wr 0 (header_bytes h) >> return old) (record s { header = h })

  -- The entry that `file_open` fills in.
  unfoldable pub new_file : Bytes → ℕ → File
  unfolding set_file_name
  new_file name address = record zero_file {
    name = set_file_name name;
    descriptor = file_kind;
    no_of_blocks = 1;
    active = 1;
    address = address;
  }

  -- `file_open` at a free entry.
  unfoldable pub create_file : Bytes → ℕ → Op D ℕ
  unfolding new_data_block_address new_file file_bytes
  create_file name file_id = do
    address ← new_data_block_address
    set_file file_id (new_file name address)
    res ← disk_wr (add32 file_id 1) (file_bytes (new_file name address))
    if res == 0
        then return file_id
        else (say "FILE: New file not loaded successfully!\n" >> return file_failure)

  unfoldable pub file_open : Bytes → Op D ℕ
  unfolding find_file_id new_file_id create_file
  file_open name s =
      let find = find_file_id name s in
      let file_id = new_file_id s in
      if find == minus_one
      then if file_id == minus_one
        then (say "FILE: No enough space for a new file.\n" >> return file_id) s
        else create_file name file_id s
      else some (find, s)

  unfoldable pub file_close : ℕ → Op D ℕ
  unfolding file_bytes
  file_close fd =
      if sle32 fd max_files
      then (do set_file fd zero_file; disk_wr (add32 fd 1) (file_bytes zero_file))
      else return file_failure

  unfoldable pub load_header : Op D (Unit {0})
  unfolding header_bytes header_of
  load_header s =
      (do
        (res, x) ← disk_rd 0 (header_bytes zero_header)
        (λ t. some (tt, record t { header = header_of x }))
        if res == 0
            then say "DISK: Header successfully loaded!\n"
            else say "DISK: Header loading failed!\n")
        (record s { header = zero_header })

  -- The loop of `load_files`: `n` rounds from index `i` on.
  unfoldable pub load_files_from : ℕ → ℕ → Op D (Unit {0})
  unfolding file_bytes file_of
  load_files_from zero i = return tt
  load_files_from (suc n) i = do
    set_file i zero_file
    (res, x) ← disk_rd (i + 1) (file_bytes zero_file)
    set_file i (file_of x)
    load_files_from n (i + 1)

  -- The inner loop of `load_data`: `n` blocks of a chain.
  unfoldable pub load_chain : ℕ → ℕ → Op D (Unit {0})
  unfolding data_bytes data_of get_data_block_address get_data_block_id
  load_chain zero current = return tt
  load_chain (suc n) current = do
    set_data current zero_data
    (res, x) ← disk_rd (get_data_block_address current) (data_bytes zero_data)
    set_data current (data_of x)
    load_chain n (get_data_block_id ((data_of x).next_data_block))

  unfoldable pub load_data_from : ℕ → ℕ → Op D (Unit {0})
  unfolding load_chain rounds get_data_block_id
  load_data_from zero i = return tt
  load_data_from (suc n) i = do
    f ← file_at i
    if f.active == 0
        then return tt
        else load_chain (rounds (f.no_of_blocks)) (get_data_block_id (f.address))
    load_data_from n (i + 1)

  unfoldable pub file_disk_load : Op D (Unit {0})
  unfolding load_header load_files_from load_data_from
  file_disk_load = do load_header; load_files_from max_files 0; load_data_from max_files 0
