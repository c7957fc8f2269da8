-- ===== src/Fs/RoundTrip.antt =====
-- What `file_write` of kernel/mem.c appends to a file is what `file_read` delivers.
use mathlib.Core.List.{append_assoc, append-nil}
use armcortex_a7os.Base.{
  ℕ, ◌+◌, ◌*◌, ◌^◌, ◌<◌, ◌≤◌, ◌≡◌, ◌≢◌, refl, sym, ◌∙◌, ap, subst, List, [], ◌∷◌, ◌++◌, some,
  length, length-append, get_elem?, arith, Bytes,
}
use armcortex_a7os.Fs.{
  File, Data, Fs, Blocks, return, file_at, data_bytes, get_data_block_id, get_data_block_address,
  rounds, file_success,
}
use armcortex_a7os.Fs.Rw.{walk, write_loop, file_write, file_read}
use armcortex_a7os.Fs.Layout.{AllNonzero}
use armcortex_a7os.Fs.Calls.{bind-of, file_at-of}
use armcortex_a7os.Fs.Text.{InMemory, Holds, file_read-Holds}
use armcortex_a7os.Fs.Chain.{Ends, Tail, tail_of}
use armcortex_a7os.Fs.Longer.{PointsAt, longer, longer-Ends}
use armcortex_a7os.Fs.Append.{Answers, stored, stored_here, stored_elsewhere, write_loop-Ends}

pub rounds_small : (n : ℕ) → n < 2 ^ 31 → rounds n ≡ n
unfolding rounds
rounds_small n l = ground arith

-- An entry of the table whose chain holds a text, with enough blocks counted in it.
pub record Entry {D : Type 0} (s : Fs D) (At : ℕ → Data → Type 0) (fd k : ℕ) (f : File) (t : List ℕ)
    : Type 0 where
  pub at_fd : get_elem? s.file fd ≡ some f
  pub text : Holds At (get_data_block_id f.address) k t
  pub enough : k ≤ f.no_of_blocks
  pub small : f.no_of_blocks < 2 ^ 31

module _ {D : Type 0} (dev : Blocks D) (s : Fs D) (At : ℕ → Data → Type 0)
    (inm : (i : ℕ) (b : Data) → At i b → InMemory s i b) {fd k : ℕ} {f : File} {t : List ℕ}
    (r : Entry s At fd k f t) where
  abbrev pub tail : Tail s At (get_data_block_id f.address) k t
  tail = tail_of s At inm k r.text

  -- A write is its second loop, at the last block.
  pub file_write-at :
      (x : Bytes) (n : ℕ) {s' : Fs D}
      → write_loop dev (n + 2) fd tail.place x n s ≡ some (tt, s')
      → file_write dev fd x n s ≡ some (file_success, s')
  unfolding file_write
  file_write-at x n e =
      bind-of (file_at fd) _ s (file_at-of fd s r.at_fd)
      ∙ bind-of (walk (rounds f.no_of_blocks) (get_data_block_id f.address)) _ s (
          tail.walked (rounds f.no_of_blocks)
            (omega (arith, r.enough, rounds_small f.no_of_blocks r.small)))
      ∙ bind-of (write_loop dev (n + 2) fd tail.place x n) (λ _. return file_success) s e

  -- A write of at least one byte, where the last block keeps a free place.
  module _ (b : ℕ) (bs : List ℕ) (clean : AllNonzero (b ∷ bs))
      (l : length t + length (b ∷ bs) < 24 * k + 24) where
    abbrev pub block' : Data
    block' = longer tail.block tail.text (b ∷ bs) tail.pad

    pub room : length tail.text + length (b ∷ bs) < 24
    room = omega (arith, l, ap length tail.splits, length-append tail.before tail.text, tail.size)

    pub file_write-stored :
        (x : Bytes) {r' : ℕ} {disk' : D}
        → PointsAt x (b ∷ bs)
        → dev.wr (get_data_block_address tail.place) (data_bytes block') s.disk ≡ some (r', disk')
        → file_write dev fd x (length (b ∷ bs)) s
          ≡ some (file_success, stored tail.place block' disk' s)
    file_write-stored x p answer = file_write-at x (length (b ∷ bs)) (
        ap (λ (n : ℕ). write_loop dev n fd tail.place x (length (b ∷ bs)) s) (omega arith)
        ∙ write_loop-Ends dev s in_memory (b ∷ bs) room clean answer (length (b ∷ bs)) fd
            (length bs) x p refl)
      where
        in_memory : Ends (InMemory s) tail.place tail.block tail.text tail.pad
        in_memory = record {
          here = inm tail.place tail.block tail.ends.here;
          idle = tail.ends.idle;
          content = tail.ends.content;
          clean = tail.ends.clean;
          fits = tail.ends.fits;
        }

    -- Where the last block has changed and the others are as they were, the chain holds the longer
    -- text.
    pub stored-Holds :
        (At' : ℕ → Data → Type 0)
        → ((i : ℕ) (d : Data) → i ≢ tail.place → At i d → At' i d)
        → At' tail.place block'
        → Holds At' (get_data_block_id f.address) k (t ++ (b ∷ bs))
    stored-Holds At' same here =
        subst (λ (u : List ℕ). Holds At' (get_data_block_id f.address) k u) (sym split)
          (tail.renewed At' block' _ _ same (longer-Ends tail.ends (b ∷ bs) room At' clean here))
      where
        split : t ++ (b ∷ bs) ≡ tail.before ++ (tail.text ++ (b ∷ bs))
        split =
            ap (λ (u : List ℕ). u ++ (b ∷ bs)) tail.splits
            ∙ append_assoc tail.before tail.text (b ∷ bs)

-- Let a file's chain of blocks hold a text, in `k` full blocks and one that is not full, with at
-- least `k` and fewer than 2 ^ 31 blocks counted in its entry. A write of bytes other than 0 that
-- leaves the last block with a free place, on a device that has an outcome for every write,
-- succeeds; and a read of fewer than 2 ^ 32 - 1 bytes, but at least as many as the old text, the new
-- bytes and the full blocks are, delivers the old text followed by just those bytes.
pub file_write-file_read :
    {D : Type 0} (dev : Blocks D) (s : Fs D) {fd k : ℕ} {f : File} {t : List ℕ}
    → Entry s (InMemory s) fd k f t
    → (x : Bytes) (xs : List ℕ) (m : ℕ) → Answers dev
    → PointsAt x xs
    → AllNonzero xs
    → length t + length xs < 24 * k + 24
    → length t + length xs + k ≤ m
    → m + 1 < 2 ^ 32
    → (s' : Fs D) × (file_write dev fd x (length xs) s ≡ some (file_success, s'))
      × (file_read fd m s' ≡ some ((m, t ++ xs), s'))
file_write-file_read dev s {fd} {k} {f} {t} r x [] m answers p h l c w = (
  s,
  file_write-at dev s (InMemory s) (λ i d e. e) r x 0 (unfold write_loop in refl),
  rw (append-nil t) (file_read-Holds fd m f r.at_fd r.text (omega (arith, c)) w),
)
file_write-file_read dev s {fd} {k} {f} {t} r x (b ∷ bs) m answers p h l c w =
    let here = λ (i : ℕ) (d : Data) (e : InMemory s i d). e in
    let w' = tail dev s (InMemory s) here r in
    let d' = block' dev s (InMemory s) here r b bs h l in
    let (r', disk', answer) = answers (get_data_block_address w'.place) (data_bytes d') s.disk in
    let s' = stored w'.place d' disk' s in
    (
      s',
      file_write-stored dev s (InMemory s) here r b bs h l x p answer,
      file_read-Holds fd m f (unfold stored in r.at_fd)
          (stored-Holds dev s (InMemory s) here r b bs h l (InMemory s')
            (stored_elsewhere w'.place d' disk' s)
            (stored_here w'.place w'.block d' disk' s w'.ends.here))
          (omega (arith, c, length-append t (b ∷ bs))) w,
    )
