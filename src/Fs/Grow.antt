-- ===== src/Fs/Grow.antt =====
-- The second loop of `file_write` of kernel/mem.c on any number of bytes: the chain grows by a block
-- each time that its last one is full.
use mathlib.Core.List.{append_assoc, append-nil}
use native.Mathlib.Decide.{dec_lt}
use armcortex_a7os.Base.{
  get_elem?-set_self, get_elem?-set_ne, ℕ, zero, suc, ◌+◌, ◌-◌, ◌*◌, ◌<◌, ◌≤◌, ◌≡◌, ◌≢◌, refl, sym,
  ◌∙◌, ap, subst, List, [], ◌∷◌, ◌++◌, some, length, length-append, arith, Bytes, advance,
}
use armcortex_a7os.Fs.{
  File, Data, Fs, Blocks, data_bytes, get_data_block_address, get_data_block_id,
}
use armcortex_a7os.Fs.Rw.{write_loop}
use armcortex_a7os.Fs.Layout.{AllNonzero}
use armcortex_a7os.Fs.Text.{InMemory, Holds, last, more}
use armcortex_a7os.Fs.Chain.{Ends}
use armcortex_a7os.Fs.Longer.{PointsAt, longer, longer-Ends}
use armcortex_a7os.Fs.Append.{Answers, stored, stored_here, stored_elsewhere, write_loop-Ends}
use armcortex_a7os.Fs.Brim.{PointsAt-append, split_at, AllNonzero-split, brim-fits, brim-clean}
use armcortex_a7os.Fs.Fill.{linked, one_more, grown, after, write_loop-linked}
use armcortex_a7os.Fs.Room.{Blank, Below, counting, Room, id_of, Room-subst}

-- The outcome of the loop at the block `place`: the text from there on is `u`, in `added` full blocks
-- and one that is not full, and the other blocks below `low` are as they were.
pub record Extended {D : Type 0} (dev : Blocks D) (s : Fs D) (low top fd : ℕ) (f : File)
    (fuel place : ℕ) (x : Bytes) (n : ℕ) (u : List ℕ) : Type 0 where
  pub final : Fs D
  pub added : ℕ
  pub ran : write_loop dev fuel fd place x n s ≡ some (tt, final)
  pub holds : Holds (Below final (low + added)) place added u
  pub kept : (i : ℕ) (b : Data) → i < low → i ≢ place → InMemory s i b → InMemory final i b
  pub room : Room final (low + added) top fd (counting f added)

module _ {D : Type 0} (dev : Blocks D) (answers : Answers dev) where
  -- The loop ends where the bytes fit.
  module _ (s : Fs D) (low top fd : ℕ) (f : File) (r : Room s low top fd f) {place : ℕ} {d : Data}
      {t pad : List ℕ} (e : Ends (InMemory s) place d t pad) (below : place < low) where
    Extended-none :
        (fuel : ℕ) (x : Bytes) → Extended dev s low top fd f (suc fuel) place x 0 (t ++ [])
    Extended-none fuel x = record {
      final = s;
      added = 0;
      ran = unfold write_loop in refl;
      holds =
          rw (append-nil t) (last d t pad (e.here, omega arith) e.idle e.content e.clean e.fits);
      kept = λ i b l ne h. h;
      room = Room-subst f (omega arith) (omega arith) r;
    }

    stored-Room : (d' : Data) (disk' : D) → Room (stored place d' disk' s) low top fd f
    stored-Room d' disk' = record {
      order = r.order;
      next = unfold stored in r.next;
      blank = λ i l m.
          let (b, pad', z) = r.blank i l m in
          (
            b,
            pad',
            record {
              here = stored_elsewhere place d' disk' s i b (omega (arith, below)) z.here;
              idle = z.idle;
              content = z.content;
              clean = z.clean;
              fits = z.fits;
            },
          );
      at_fd = unfold stored in r.at_fd;
      counts = r.counts;
      words = r.words;
    }

    Extended-last :
        (fuel : ℕ) (x : Bytes) (b : ℕ) (bs : List ℕ)
        → PointsAt x (b ∷ bs)
        → AllNonzero (b ∷ bs)
        → length t + length (b ∷ bs) < 24
        → Extended dev s low top fd f (suc (suc fuel)) place x (length (b ∷ bs)) (t ++ (b ∷ bs))
    Extended-last fuel x b bs p clean l =
        let d' = longer d t (b ∷ bs) pad in
        let (r', disk', answer) = answers (get_data_block_address place) (data_bytes d') s.disk in
        let s' = stored place d' disk' s in
        let e' =
          longer-Ends e (b ∷ bs) l (InMemory s') clean (stored_here place d d' disk' s e.here) in
        record {
          final = s';
          added = 0;
          ran = write_loop-Ends dev s e (b ∷ bs) l clean answer fuel fd (length bs) x p refl;
          holds =
              last d' (t ++ (b ∷ bs)) _ (e'.here, omega arith) e'.idle e'.content e'.clean e'.fits;
          kept = λ i y m ne h. stored_elsewhere place d' disk' s i y ne h;
          room = Room-subst f (omega arith) (omega arith) (stored-Room d' disk');
        }

    -- A block is filled, and the loop goes on at the next.
    module _ (ys : List ℕ) (fills : length t + length ys ≡ 24) (clean : AllNonzero ys)
        (inside : low < top) (disk' : D) where
      abbrev s' : Fs D
      s' = after dev answers s e ys fills clean fd f r.at_fd disk'

      abbrev d' : Data
      d' = linked d t ys s.header.new_data_block

      s'-other : (i : ℕ) (b : Data) → i ≢ place → InMemory s i b → InMemory s' i b
      unfolding grown
      s'-other i b ne h = get_elem?-set_ne s.data_blocks place i d' ne ∙ h

      s'-here : InMemory s' place d'
      unfolding grown
      s'-here = get_elem?-set_self s.data_blocks place d' d e.here

      s'-Blank : (i : ℕ) → low ≤ i → i < top → Blank s' i
      s'-Blank i l m =
          let (b, pad', z) = r.blank i l m in
          (
            b,
            pad',
            record {
              here = s'-other i b (omega (arith, below)) z.here;
              idle = z.idle;
              content = z.content;
              clean = z.clean;
              fits = z.fits;
            },
          )

      s'-Room : Room s' (low + 1) top fd (one_more f)
      unfolding grown
      s'-Room = record {
        order = omega (arith, inside);
        next = omega (arith, r.next, r.words, inside);
        blank = λ i l m. s'-Blank i (omega arith) m;
        at_fd = get_elem?-set_self s.file fd (one_more f) f r.at_fd;
        counts = omega (arith, r.counts, inside);
        words = r.words;
      }

      s'-next : get_data_block_id s.header.new_data_block ≡ low
      s'-next = ap get_data_block_id r.next ∙ id_of low top inside r.words

      Extended-more :
          (fuel m : ℕ) (x : Bytes) (zs : List ℕ)
          → Extended dev s'
              (low + 1)
              top
              fd
              (one_more f)
              fuel
              low
              (advance (length ys) x)
              (length zs)
              ([] ++ zs)
          → suc m ≡ length (ys ++ zs)
          → write_loop dev (suc fuel) fd place x (suc m) s
            ≡ write_loop dev fuel fd
                (get_data_block_id s.header.new_data_block)
                (advance (length ys) x)
                (suc m - length ys)
                s'
          → Extended dev s low top fd f (suc fuel) place x (suc m) (t ++ (ys ++ zs))
      Extended-more fuel m x zs w q round = record {
        final = w.final;
        added = suc w.added;
        ran =
            round
            ∙ ap
                (λ (c : ℕ). write_loop dev fuel fd c (advance (length ys) x) (suc m - length ys) s')
                s'-next
            ∙ ap (λ (n : ℕ). write_loop dev fuel fd low (advance (length ys) x) n s')
                (omega (arith, q, length-append ys zs))
            ∙ w.ran;
        holds = rw (sym (append_assoc t ys zs)) (
            more d' zs (w.kept place d' (omega arith) (omega arith) s'-here, omega arith)
              (brim-fits e ys fills clean).size (brim-clean e ys fills clean) refl
              (subst (λ (c : ℕ). Holds (Below w.final (low + suc w.added)) c w.added zs)
                (sym s'-next)
                (subst (λ (l : ℕ). Holds (Below w.final l) low w.added zs) (omega arith) w.holds)));
        kept = λ i b l ne h. w.kept i b (omega arith) (omega arith) (s'-other i b ne h);
        room = Room-subst f (omega arith) (omega (arith, r.counts, inside)) w.room;
      }

  -- Where the blank blocks are enough, the loop ends, and the text has grown by just the bytes given.
  pub write_loop-Extended :
      (fuel : ℕ) (s : Fs D) (low top fd : ℕ) (f : File) {place : ℕ} {d : Data} {t pad : List ℕ}
      → Room s low top fd f
      → Ends (InMemory s) place d t pad
      → place < low
      → (x : Bytes) (xs : List ℕ) → PointsAt x xs
      → AllNonzero xs
      → length xs + 2 ≤ fuel
      → length t + length xs + 24 * low < 24 * top + 24
      → Extended dev s low top fd f fuel place x (length xs) (t ++ xs)
  write_loop-Extended zero s low top fd f r e below x xs p h l c = absurd (omega arith)
  write_loop-Extended (suc zero) s low top fd f r e below x xs p h l c = absurd (omega arith)
  write_loop-Extended (suc (suc fuel)) s low top fd f r e below x [] p h l c =
      Extended-none s low top fd f r e below (suc fuel) x
  write_loop-Extended (suc (suc fuel)) s low top fd f {place} {d} {t} {pad} r e below x (b ∷ bs) p h
        l c =
      elim (dec_lt (length t + length (b ∷ bs)) 24) [
        | yes fits ↦ Extended-last s low top fd f r e below fuel x b bs p h fits
        | no over ↦
            let size : length t < 24 =
              omega (arith, e.fits.size, ap length e.content, length-append t (0 ∷ pad)) in
            let (ys, zs, q, n) = split_at (24 - length t) (b ∷ bs) (omega (arith, over)) in
            let fills : length t + length ys ≡ 24 = omega (arith, n, size) in
            let (py, pz) = PointsAt-append x ys zs (subst (PointsAt x) q p) in
            let (hy, hz) = AllNonzero-split ys zs (subst AllNonzero q h) in
            let sum : suc (length bs) ≡ length ys + length zs =
              omega (arith, ap length q, length-append ys zs) in
            let inside : low < top = omega (arith, c, over) in
            let (disk', round) =
              write_loop-linked dev answers s e ys fills hy fd f r.at_fd (suc fuel) (length bs) x py
                (omega (arith, sum)) in
            let r' = s'-Room s low top fd f r e below ys fills hy inside disk' in
            let (d₂, pad₂, e₂) =
              s'-Blank s low top fd f r e below ys fills hy inside disk' low (omega arith) inside in
            let w =
              write_loop-Extended (suc fuel) (s' s low top fd f r e below ys fills hy inside disk')
                (low + 1) top fd (one_more f) {d = d₂} {pad = pad₂} r' e₂ (omega arith)
                (advance (length ys) x) zs pz hz (omega (arith, l, sum, fills, size))
                (omega (arith, c, sum, fills)) in
            subst
              (λ (u : List ℕ).
                Extended dev s low top fd f (suc (suc fuel)) place x (suc (length bs)) (t ++ u))
              (sym q)
              (Extended-more s low top fd f r e below ys fills hy inside disk' (suc fuel)
                (length bs) x zs w (ap length q) round)
      ]
