-- ===== src/Fs/Append.antt =====
-- `file_write` of kernel/mem.c where the bytes fit into the last block of the file.
use armcortex_a7os.Base.{
  get_elem?-set_self, get_elem?-set_ne, ℕ, suc, ◌+◌, ◌-◌, ◌<◌, ◌≡◌, ◌≢◌, refl, sym, ◌∙◌, ap, true,
  List, ◌++◌, Option, none, some, length, length-append, set, drop, ltb, leb, ==_ne, if◌then◌else◌,
  arith, strlen, Bytes, advance,
}
use armcortex_a7os.Fs.{
  Data, Fs, Blocks, Op, ◌>>=◌, return, data_at, set_data, lift, data_bytes, max_content,
  get_data_block_address,
}
use armcortex_a7os.Fs.Files.{disk_wr}
use armcortex_a7os.Fs.Rw.{chunk, append_at, store_block, write_loop}
use armcortex_a7os.Fs.Layout.{AllNonzero}
use armcortex_a7os.Fs.Calls.{bind-of, data_at-of, lift-of}
use armcortex_a7os.Fs.Text.{InMemory, strlen-text}
use armcortex_a7os.Fs.Chain.{Ends}
use armcortex_a7os.Fs.Longer.{PointsAt, chunk-whole, AllNonzero-append, longer, append_at-Ends}

-- The driver has an outcome for every write.
abbrev pub Answers : {D : Type 0} → Blocks D → Type 0
Answers {D} dev =
    (a : ℕ) (x : List ℕ) (disk : D) → (r : ℕ) × (disk' : D) × (dev.wr a x disk ≡ some (r, disk'))

-- The state with the longer block, and the disk as the driver leaves it.
unfoldable pub stored : {D : Type 0} → ℕ → Data → D → Fs D → Fs D
stored place d disk' s = record s { data_blocks = set s.data_blocks place d; disk = disk' }

pub stored_here :
    {D : Type 0} (place : ℕ) (b d : Data) (disk' : D) (s : Fs D)
    → InMemory s place b
    → InMemory (stored place d disk' s) place d
unfolding stored
stored_here place b d disk' s e = get_elem?-set_self s.data_blocks place d b e

pub stored_elsewhere :
    {D : Type 0} (place : ℕ) (d : Data) (disk' : D) (s : Fs D) (i : ℕ) (b : Data)
    → i ≢ place
    → InMemory s i b
    → InMemory (stored place d disk' s) i b
unfolding stored
stored_elsewhere place d disk' s i b ne e = get_elem?-set_ne s.data_blocks place i d ne ∙ e

module _ {D : Type 0} (dev : Blocks D) (s : Fs D) {place : ℕ} {d : Data} {t pad : List ℕ}
    (e : Ends (InMemory s) place d t pad) (xs : List ℕ) (room : length t + length xs < 24)
    (clean : AllNonzero xs) {r : ℕ} {disk' : D}
    (answer : dev.wr (get_data_block_address place) (data_bytes (longer d t xs pad)) s.disk
      ≡ some (r, disk')) where
  after : Fs D
  after = stored place (longer d t xs pad) disk' s

  length-longer : length (t ++ xs) < 24
  length-longer = omega (arith, length-append t xs, room)

  strlen-longer : strlen (data_bytes (longer d t xs pad)) ≡ some (length (t ++ xs))
  strlen-longer =
      strlen-text (longer d t xs pad) (t ++ xs) (drop (length xs) pad) refl
        (AllNonzero-append t xs e.clean clean)

  store_block-Ends : (fd : ℕ) → store_block dev fd place (longer d t xs pad) s ≡ some (place, after)
  unfolding store_block stored after
  store_block-Ends fd =
      bind-of (set_data place d') _ s
        (ap (λ (o : Option Data). elim o [ none ↦ none | some b ↦ some (tt, changed) ]) e.here)
      ∙ bind-of (lift (strlen (data_bytes d'))) _ changed (lift-of _ changed strlen-longer)
      ∙ rw (==_ne (length (t ++ xs)) 24 (omega (arith, length-longer))) (
          bind-of (disk_wr dev (get_data_block_address place) (data_bytes d')) (λ r. return place)
            changed (ap outcome answer))
    where
      d' : Data
      d' = longer d t xs pad

      changed : Fs D
      changed = record s { data_blocks = set s.data_blocks place d' }

      outcome : Option (ℕ × D) → Option (ℕ × Fs D)
      outcome none = none
      outcome (some (r, disk)) = some (r, record changed { disk = disk })

  -- The round of `file_write`, and the end of its loop.
  pub write_loop-Ends :
      (fuel fd m : ℕ) (x : Bytes)
      → PointsAt x xs
      → length xs ≡ suc m
      → write_loop dev (suc (suc fuel)) fd place x (suc m) s
        ≡ some (tt, stored place (longer d t xs pad) disk' s)
  unfolding write_loop after
  write_loop-Ends fuel fd m x p q = starts ∙ ap go appended ∙ ends
    where
      left : ℕ
      left = max_content - length t

      goes_on : ℕ → Op D (Unit {0})
      goes_on c =
          write_loop dev (suc fuel) fd c (advance left x)
            (if ltb (suc m) left then 0 else suc m - left)

      go : Data → Option (Unit {0} × Fs D)
      go d' = (store_block dev fd place d' >>= goes_on) s

      fits_in : leb (length t) max_content ≡ true
      fits_in = ground arith

      less : ltb (suc m) left ≡ true
      less = ground arith

      starts :
          write_loop dev (suc (suc fuel)) fd place x (suc m) s
          ≡ go (append_at (length t) d (chunk left x (suc m)))
      starts =
          bind-of (data_at place) _ s (data_at-of place s e.here)
          ∙ bind-of (lift (strlen (data_bytes d))) _ s
              (lift-of _ s (strlen-text d t pad e.content e.clean))
          ∙ rw fits_in refl

      appended : append_at (length t) d (chunk left x (suc m)) ≡ longer d t xs pad
      appended =
          ap (λ (n : ℕ). append_at (length t) d (chunk left x n)) (sym q)
          ∙ ap (append_at (length t) d)
              (chunk-whole left x xs p clean (omega (arith, room)) (omega arith))
          ∙ append_at-Ends e xs room

      ends : go (longer d t xs pad) ≡ some (tt, after)
      ends =
          bind-of (store_block dev fd place (longer d t xs pad)) goes_on s (store_block-Ends fd)
          ∙ rw less refl
