-- ===== src/Fs/Chain.antt =====
-- The block that `file_write` of kernel/mem.c writes to: the last of a file's chain of blocks.
use mathlib.Core.List.{append_assoc}
use armcortex_a7os.Base.{
  ℕ, zero, suc, ◌+◌, subst, ◌*◌, ◌≤◌, ◌≡◌, ◌≢◌, refl, sym, ◌∙◌, ap, List, [], ◌∷◌, ◌++◌, Option,
  none, some, length, length-append, get_elem?, arith,
}
use armcortex_a7os.Fs.{Data, Fs, data_at, get_data_block_id}
use armcortex_a7os.Fs.Rw.{walk}
use armcortex_a7os.Fs.Layout.{AllNonzero, DataFits}
use armcortex_a7os.Fs.Calls.{bind-of, data_at-of}
use armcortex_a7os.Fs.Text.{InMemory, Holds, last, more}

-- The block `d` at `place` is not full and holds the text `t`.
pub record Ends (At : ℕ → Data → Type 0) (place : ℕ) (d : Data) (t pad : List ℕ) : Type 0 where
  pub here : At place d
  pub idle : d.full ≡ 0
  pub content : d.content ≡ t ++ (0 ∷ pad)
  pub clean : AllNonzero t
  pub fits : DataFits d

-- The last block of a chain, at which the first loop of `file_write` ends. A chain whose last block
-- alone has changed holds the new text, also where the chain goes on from there.
pub record Tail {D : Type 0} (s : Fs D) (At : ℕ → Data → Type 0) (current k : ℕ) (t : List ℕ)
    : Type 1 where
  pub place : ℕ
  pub block : Data
  pub before : List ℕ
  pub text : List ℕ
  pub pad : List ℕ
  pub ends : Ends At place block text pad
  pub splits : t ≡ before ++ text
  pub size : length before ≡ 24 * k
  pub walked : (r : ℕ) → k ≤ r → walk r current s ≡ some (place, s)
  pub renewed :
      (At' : ℕ → Data → Type 0) (d' : Data) (text' pad' : List ℕ)
      → ((i : ℕ) (b : Data) → i ≢ place → At i b → At' i b)
      → Ends At' place d' text' pad'
      → Holds At' current k (before ++ text')
  pub extended :
      (At' : ℕ → Data → Type 0) (k' : ℕ) (u : List ℕ)
      → ((i : ℕ) (b : Data) → i ≢ place → At i b → At' i b)
      → Holds At' place k' u
      → Holds At' current (k + k') (before ++ u)

walk-stays :
    {D : Type 0} (r current : ℕ) (s : Fs D) (d : Data)
    → get_elem? s.data_blocks current ≡ some d
    → d.full ≡ 0
    → walk r current s ≡ some (current, s)
unfolding walk
walk-stays zero current s d here idle = refl
walk-stays (suc r) current s d here idle =
    bind-of (data_at current) _ s (data_at-of current s here)
    ∙ rw idle (walk-stays r current s d here idle)

walk-goes :
    {D : Type 0} (r current : ℕ) (s : Fs D) (d : Data)
    → get_elem? s.data_blocks current ≡ some d
    → d.full ≡ 1
    → walk (suc r) current s ≡ walk r (get_data_block_id d.next_data_block) s
unfolding walk
walk-goes r current s d here full =
    bind-of (data_at current) _ s (data_at-of current s here) ∙ rw full refl

full_of : Option Data → ℕ
full_of none = 0
full_of (some d) = d.full

-- A full block is not one that is not full.
full_apart :
    {D : Type 0} (s : Fs D) (i j : ℕ) (d d' : Data)
    → get_elem? s.data_blocks i ≡ some d
    → get_elem? s.data_blocks j ≡ some d'
    → d.full ≡ 1
    → d'.full ≡ 0
    → i ≢ j
unfolding full_of
full_apart s i j d d' here there full idle e =
    let same : d.full ≡ d'.full =
      ap full_of (sym here ∙ ap (λ (n : ℕ). get_elem? s.data_blocks n) e ∙ there) in
    absurd (omega (arith, same, full, idle))

-- What `At` says of a block is so in memory.
pub tail_of :
    {D : Type 0} (s : Fs D) (At : ℕ → Data → Type 0)
    → ((i : ℕ) (b : Data) → At i b → InMemory s i b)
    → (k : ℕ) {current : ℕ} {t : List ℕ} → Holds At current k t
    → Tail s At current k t
tail_of s At inm zero {current} (last d t pad here idle content clean fits) = record {
  place = current;
  block = d;
  before = [];
  text = t;
  pad = pad;
  ends = record { here = here; idle = idle; content = content; clean = clean; fits = fits };
  splits = refl;
  size = refl;
  walked = λ r l. walk-stays r current s d (inm current d here) idle;
  renewed = λ At' d' text' pad' same e. last d' text' pad' e.here e.idle e.content e.clean e.fits;
  extended = λ At' k' u same r. subst (λ (n : ℕ). Holds At' current n u) {x = k'} (omega arith) r;
}
tail_of s At inm (suc k) {current} (more d t here size text full r) =
    let w = tail_of s At inm k r in
    let in_memory : InMemory s current d = inm current d here in
    let other : current ≢ w.place = λ e.
      full_apart s current w.place d w.block in_memory (inm w.place w.block w.ends.here) full
        w.ends.idle e in
    record {
      place = w.place;
      block = w.block;
      before = d.content ++ w.before;
      text = w.text;
      pad = w.pad;
      ends = w.ends;
      splits =
          ap (λ (l : List ℕ). d.content ++ l) w.splits
          ∙ sym (append_assoc d.content w.before w.text);
      size = omega (arith, length-append d.content w.before, w.size, size);
      walked = elim [
        | zero ↦ λ l. absurd (omega arith)
        | suc n ↦ λ l. walk-goes n current s d in_memory full ∙ w.walked n (omega arith)
      ];
      renewed = λ At' d' text' pad' same e. rw (append_assoc d.content w.before text') (
          more d (w.before ++ text') (same current d other here) size text full
            (w.renewed At' d' text' pad' same e));
      extended = λ At' k' u same r'.
          subst (λ (n : ℕ). Holds At' current n ((d.content ++ w.before) ++ u)) {x = suc (k + k')}
            (omega arith)
            (rw (append_assoc d.content w.before u) (
              more d (w.before ++ u) (same current d other here) size text full
                (w.extended At' k' u same r')));
    }
