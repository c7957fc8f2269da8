-- ===== src/Fs/Writes.antt =====
-- What `file_write` of kernel/mem.c appends to a file, in however many blocks, is what `file_read`
-- delivers.
use mathlib.Core.List.{append_assoc}
use armcortex_a7os.Base.{
  ℕ, ◌+◌, ◌*◌, ◌^◌, ◌<◌, ◌≤◌, ◌≡◌, sym, ◌∙◌, ap, subst, List, ◌++◌, some, length, length-append,
  arith, Bytes,
}
use armcortex_a7os.Fs.{File, Data, Fs, Blocks, get_data_block_id, file_success}
use armcortex_a7os.Fs.Rw.{file_write, file_read}
use armcortex_a7os.Fs.Layout.{AllNonzero}
use armcortex_a7os.Fs.Text.{InMemory, Holds, Holds-map, file_read-Holds}
use armcortex_a7os.Fs.Chain.{Ends}
use armcortex_a7os.Fs.Longer.{PointsAt}
use armcortex_a7os.Fs.Append.{Answers}
use armcortex_a7os.Fs.RoundTrip.{Entry, tail, file_write-at}
use armcortex_a7os.Fs.Room.{Below, Room, counting}
use armcortex_a7os.Fs.Grow.{write_loop-Extended}

-- The entry `f` of the table, whose chain, below the next new block `low`, holds the text `t` in `k`
-- full blocks and one that is not full, all of the full ones being counted; and blank blocks up to
-- `top`.
pub record Growing {D : Type 0} (s : Fs D) (low top fd k : ℕ) (f : File) (t : List ℕ) : Type 0 where
  pub room : Room s low top fd f
  pub text : Holds (Below s low) (get_data_block_id f.address) k t
  pub enough : k ≤ f.no_of_blocks

-- Let the entry of a file have a chain of blocks that holds a text, in `k` full blocks and one that is
-- not full, with at least `k` blocks counted in the entry; let `low` be the next new block, above those
-- of the chain; let the blocks from `low` to `top` be blank, and let neither the count of blocks nor an
-- address come to wrap. A write of bytes other than 0, for which the last block and the blank ones are
-- enough, on a device that has an outcome for every write, succeeds. Then the same holds of the file
-- with the old text followed by just those bytes, in as many more full blocks, which are counted, as
-- blank ones are taken; and a read of fewer than 2 ^ 32 - 1 bytes, but at least as many as the old text,
-- the new bytes, the full blocks and the blank ones are, delivers it.
pub file_write_all-file_read :
    {D : Type 0} (dev : Blocks D) (s : Fs D) (low top : ℕ) {fd k : ℕ} {f : File} {t : List ℕ}
    → Answers dev
    → Growing s low top fd k f t
    → (x : Bytes) (xs : List ℕ) (m : ℕ) → PointsAt x xs
    → AllNonzero xs
    → length t + length xs + 24 * low < 24 * k + 24 * top + 24
    → length t + length xs + k + top ≤ m + low
    → m + 1 < 2 ^ 32
    → (s' : Fs D) × (added : ℕ) × (file_write dev fd x (length xs) s ≡ some (file_success, s'))
      × Growing s' (low + added) top fd (k + added) (counting f added) (t ++ xs)
      × (file_read fd m s' ≡ some ((m, t ++ xs), s'))
file_write_all-file_read {D} dev s low top {fd} {k} {f} {t} answers g x xs m p h l c w =
    let r = g.room in
    let inm = λ (i : ℕ) (b : Data) (e : Below s low i b). e.0 in
    let entry : Entry s (Below s low) fd k f t = record {
      at_fd = r.at_fd;
      text = g.text;
      enough = g.enough;
      small = omega (arith, r.counts, r.order);
    } in
    let v = tail dev s (Below s low) inm entry in
    let in_memory : Ends (InMemory s) v.place v.block v.text v.pad = record {
      here = v.ends.here.0;
      idle = v.ends.idle;
      content = v.ends.content;
      clean = v.ends.clean;
      fits = v.ends.fits;
    } in
    let size : length t ≡ 24 * k + length v.text =
      omega (arith, ap length v.splits, length-append v.before v.text, v.size) in
    let split : v.before ++ (v.text ++ xs) ≡ t ++ xs =
      sym (append_assoc v.before v.text xs) ∙ ap (λ (u : List ℕ). u ++ xs) (sym v.splits) in
    let z =
      write_loop-Extended dev answers (length xs + 2) s low top fd f r in_memory v.ends.here.1 x xs
        p h (omega arith) (omega (arith, l, size)) in
    let held : Holds (Below z.final (low + z.added)) (get_data_block_id f.address) (k + z.added)
        (t ++ xs) =
      subst
        (λ (u : List ℕ).
          Holds (Below z.final (low + z.added)) (get_data_block_id f.address) (k + z.added) u)
        split
        (v.extended (Below z.final (low + z.added)) z.added (v.text ++ xs)
          (λ i b ne e. (z.kept i b e.1 ne e.0, omega (arith, e.1))) z.holds) in
    (
      z.final,
      z.added,
      file_write-at dev s (Below s low) inm entry x (length xs) z.ran,
      record { room = z.room; text = held; enough = omega (arith, g.enough) },
      file_read-Holds fd m (counting f z.added) z.room.at_fd (Holds-map (λ i b e. e.0) held)
          (omega (arith, c, z.room.order, length-append t xs)) w,
    )
