-- ===== src/Fs/Fill.antt =====
-- A round of `file_write` of kernel/mem.c that fills the last block of the file, and takes a new one.
use armcortex_a7os.Base.{
  get_elem?-set_self, ℕ, suc, ◌+◌, ◌-◌, ◌≤◌, ◌≡◌, refl, ◌∙◌, ap, true, false, List, ◌++◌, Option,
  some, length, get_elem?, set, ltb, leb, if◌then◌else◌, arith, add32, strlen, Bytes, advance,
  set-set,
}
use armcortex_a7os.Fs.{
  File, Data, DiskHeader, Fs, Blocks, Op, ◌>>=◌, return, file_at, set_file, data_at, set_data, lift,
  file_bytes, data_bytes, header_bytes, max_content, get_data_block_address, get_data_block_id,
}
use armcortex_a7os.Fs.Files.{disk_wr, new_data_block_address}
use armcortex_a7os.Fs.Rw.{chunk, append_at, store_block, write_loop}
use armcortex_a7os.Fs.Layout.{AllNonzero}
use armcortex_a7os.Fs.Calls.{bind-of, data_at-of, file_at-of, lift-of}
use armcortex_a7os.Fs.Text.{InMemory, strlen-text}
use armcortex_a7os.Fs.Chain.{Ends}
use armcortex_a7os.Fs.Longer.{PointsAt}
use armcortex_a7os.Fs.Append.{Answers}
use armcortex_a7os.Fs.Brim.{brim, chunk-fills, strlen-brim, append_at-brim}

-- The full block, linked to the block at the address `next`, and the entry that counts one more.
abbrev pub linked : Data → List ℕ → List ℕ → ℕ → Data
linked d t ys next = record d { content = t ++ ys; full = 1; next_data_block = next }

abbrev pub one_more : File → File
one_more f = record f { no_of_blocks = add32 f.no_of_blocks 1 }

-- The state after such a round.
unfoldable pub grown : {D : Type 0} → ℕ → File → ℕ → Data → DiskHeader → D → Fs D → Fs D
grown fd f place d h disk' s = record s {
  file = set s.file fd f;
  data_blocks = set s.data_blocks place d;
  header = h;
  disk = disk';
}

abbrev pub next_header : DiskHeader → DiskHeader
next_header h = record h { new_data_block = add32 h.new_data_block 1 }

disk_wr-Answers :
    {D : Type 0} (dev : Blocks D) (answers : Answers dev) (a : ℕ) (x : List ℕ) (s : Fs D)
    → (r : ℕ) × (disk' : D) × (disk_wr dev a x s ≡ some (r, record s { disk = disk' }))
disk_wr-Answers dev answers a x s =
    let (r, disk', e) = answers a x s.disk in (r, disk', rw (e, disk_wr) refl)

set_data-of :
    {D : Type 0} (i : ℕ) (b d : Data) (s : Fs D)
    → InMemory s i b
    → set_data i d s ≡ some (tt, record s { data_blocks = set s.data_blocks i d })
set_data-of i b d s e = rw (e, set_data)

set_file-of :
    {D : Type 0} (i : ℕ) (g f : File) (s : Fs D)
    → get_elem? s.file i ≡ some g
    → set_file i f s ≡ some (tt, record s { file = set s.file i f })
set_file-of i g f s e = rw (e, set_file)

module _ {D : Type 0} (dev : Blocks D) (answers : Answers dev) (s : Fs D) {place : ℕ} {d : Data}
    {t pad : List ℕ} (e : Ends (InMemory s) place d t pad) (ys : List ℕ)
    (fills : length t + length ys ≡ 24) (clean : AllNonzero ys) (fd : ℕ) (f : File)
    (at_fd : get_elem? s.file fd ≡ some f) where
  -- What the round leaves, on the disk that it leaves.
  abbrev pub after : D → Fs D
  after disk' =
      grown fd (one_more f) place (linked d t ys s.header.new_data_block) (next_header s.header)
        disk' s

  pub store_block-linked :
      (disk' : D) × (store_block dev fd place (brim d t ys) s
        ≡ some (get_data_block_id s.header.new_data_block, after disk'))
  unfolding store_block new_data_block_address grown
  store_block-linked =
      let a = s.header.new_data_block in
      let b = linked d t ys a in
      let s₁ = record s { data_blocks = set s.data_blocks place (brim d t ys) } in
      let s₂ = record s₁ { header = next_header s.header } in
      let (r₁, disk₁, wrote₁) =
        disk_wr-Answers dev answers 0 (header_bytes (next_header s.header)) s₂ in
      let s₃ = record s₂ { disk = disk₁ } in
      let here₁ : InMemory s₁ place (brim d t ys) =
        get_elem?-set_self s.data_blocks place (brim d t ys) d e.here in
      let s₄ = record s₃ { data_blocks = set s.data_blocks place b } in
      let (r₂, disk₂, wrote₂) =
        disk_wr-Answers dev answers (get_data_block_address place) (data_bytes b) s₄ in
      let s₅ = record s₄ { disk = disk₂ } in
      let s₆ = record s₅ { file = set s.file fd (one_more f) } in
      let (r₃, disk₃, wrote₃) =
        disk_wr-Answers dev answers (add32 fd 1) (file_bytes (one_more f)) s₆ in
      (
        disk₃,
        bind-of (set_data place (brim d t ys)) _ s (set_data-of place d (brim d t ys) s e.here)
            ∙ bind-of (lift (strlen (data_bytes (brim d t ys)))) _ s₁
                (lift-of _ s₁ (strlen-brim e ys fills clean))
            ∙ bind-of (new_data_block_address dev) _ s₁ {a = a} {s' = s₃} (
                bind-of (disk_wr dev 0 (header_bytes (next_header s.header))) (λ _. return a) s₂
                  wrote₁)
            ∙ bind-of (set_data place b) _ s₃ (
                set_data-of place (brim d t ys) b s₃ here₁
                ∙ ap (λ (l : List Data). some (tt, record s₃ { data_blocks = l }))
                    (set-set s.data_blocks place (brim d t ys) b))
            ∙ bind-of (disk_wr dev (get_data_block_address place) (data_bytes b)) _ s₄ wrote₂
            ∙ bind-of (file_at fd) _ s₅ (file_at-of fd s₅ at_fd)
            ∙ bind-of (set_file fd (one_more f)) _ s₅ (set_file-of fd f (one_more f) s₅ at_fd)
            ∙ bind-of (disk_wr dev (add32 fd 1) (file_bytes (one_more f))) _ s₆ wrote₃,
      )

  -- The round itself, with at least as many bytes still to write.
  pub write_loop-linked :
      (fuel m : ℕ) (x : Bytes)
      → PointsAt x ys
      → length ys ≤ suc m
      → (disk' : D) × (write_loop dev (suc fuel) fd place x (suc m) s
          ≡ write_loop dev fuel fd
              (get_data_block_id s.header.new_data_block)
              (advance (length ys) x)
              (suc m - length ys)
              (after disk'))
  unfolding write_loop
  write_loop-linked fuel m x p l = (
    store_block-linked.0,
    starts
        ∙ ap (λ (k : ℕ). go k (append_at (length t) d (chunk k x (suc m)))) left
        ∙ ap (go (length ys)) (
            ap (append_at (length t) d) (chunk-fills e ys fills clean x (suc m) p l)
            ∙ append_at-brim e ys fills clean)
        ∙ bind-of (store_block dev fd place (brim d t ys)) (goes_on (length ys)) s
            store_block-linked.1
        ∙ rw less refl,
  )
    where
      left : max_content - length t ≡ length ys
      left = omega (arith, fills)

      less : ltb (suc m) (length ys) ≡ false
      less = ground arith

      fits_in : leb (length t) max_content ≡ true
      fits_in = ground (arith, fills)

      goes_on : ℕ → ℕ → Op D (Unit {0})
      goes_on k c = write_loop dev fuel fd c (advance k x) (if ltb (suc m) k then 0 else suc m - k)

      go : ℕ → Data → Option (Unit {0} × Fs D)
      go k d' = (store_block dev fd place d' >>= goes_on k) s

      starts :
          write_loop dev (suc fuel) fd place x (suc m) s
          ≡ go
              (max_content - length t)
              (append_at (length t) d (chunk (max_content - length t) x (suc m)))
      starts =
          bind-of (data_at place) _ s (data_at-of place s e.here)
          ∙ bind-of (lift (strlen (data_bytes d))) _ s
              (lift-of _ s (strlen-text d t pad e.content e.clean))
          ∙ rw fits_in refl
