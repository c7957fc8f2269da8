-- ===== src/Fs/LoadData.antt =====
-- What `load_data` of kernel/mem.c make of the disk.
use armcortex_a7os.Base.{
  ℕ, zero, suc, ◌+◌, ◌<◌, ◌≤◌, ◌≡◌, ◌≢◌, ◌⊎◌, inl, inr, refl, ◌^◌, sym, ◌∙◌, List, some, subst,
  length, length-set, get_elem?, get_elem?-eq-get_or, get_elem?-set_self, get_elem?-set_ne, get_or,
  set, ◌==◌, ==_ne, if◌then◌else◌, ℕ_discrete, arith,
}
use armcortex_a7os.Fs.{
  File, Data, Fs, Blocks, Op, return, file_at, set_data, zero_file, zero_data, data_bytes,
  get_data_block_id, get_data_block_address, rounds,
}
use armcortex_a7os.Fs.Files.{disk_rd, load_chain, load_data_from}
use armcortex_a7os.Fs.Calls.{bind-of, file_at-of}
use armcortex_a7os.Fs.Loading.{disk_rd-of}
use armcortex_a7os.Fs.Store.{Store, data_on}

set_data-of :
    {D : Type 0} (i : ℕ) (d : Data) (s : Fs D)
    → i < length s.data_blocks
    → set_data i d s ≡ some (tt, record s { data_blocks = set s.data_blocks i d })
set_data-of i d s l = rw (get_elem?-eq-get_or s.data_blocks i zero_data l, set_data)

-- The blocks of the table stand on the disk after the header and the 95 entries.
pub address_of :
    (i top limit : ℕ)
    → i < top
    → top + 96 ≤ limit
    → limit ≤ 2 ^ 31
    → get_data_block_address i ≡ i + 96
unfolding get_data_block_address
address_of i top limit l m h = omega arith

module _ {D : Type 0} {dev : Blocks D} (st : Store dev) where
  -- The block after a data block.
  abbrev pub next_on : D → ℕ → ℕ
  next_on d i = get_data_block_id ((data_on st d i).next_data_block)

  -- The block `c` of a table of data is as it is on the disk.
  abbrev pub IsLoaded : D → List Data → ℕ → Type 0
  IsLoaded d blocks c = get_elem? blocks c ≡ some (data_on st d c)

  -- A call that only loads data blocks, among them those of `P`.
  pub record Loads (m : Op D (Unit {0})) (P : ℕ → Type 0) (s : Fs D) : Type 0 where
    pub blocks : List Data
    pub ran : m s ≡ some (tt, record s { data_blocks = blocks })
    pub size : length blocks ≡ length s.data_blocks
    pub keeps : (c : ℕ) → IsLoaded s.disk s.data_blocks c → IsLoaded s.disk blocks c
    pub loads : (c : ℕ) → P c → IsLoaded s.disk blocks c

  -- The `n` blocks of a chain on the disk from `current` on are in a table of `top` blocks.
  abbrev pub InRange : D → ℕ → ℕ → ℕ → Type 0
  InRange d top zero current = Unit {0}
  InRange d top (suc n) current = (current < top) × InRange d top n (next_on d current)

  -- The block `c` is one of them.
  abbrev pub IsOn : D → ℕ → ℕ → ℕ → Type 0
  IsOn d zero current c = ⊥
  IsOn d (suc n) current c = (current ≡ c) ⊎ IsOn d n (next_on d current) c

  load_chain_step :
      (n current : ℕ) (s : Fs D)
      → st.Up s.disk
      → length s.data_blocks + 96 ≤ st.limit
      → current < length s.data_blocks
      → load_chain dev (suc n) current s
        ≡ load_chain dev n (next_on s.disk current) (record s {
          data_blocks =
              set (set s.data_blocks current zero_data) current (data_on st s.disk current);
        })
  unfolding load_chain data_on
  load_chain_step n current s up m l =
      let s₁ = record s { data_blocks = set s.data_blocks current zero_data } in
      bind-of (set_data current zero_data) _ s (set_data-of current zero_data s l)
      ∙ bind-of (disk_rd dev (get_data_block_address current) (data_bytes zero_data)) _ s₁ (
          disk_rd-of st (get_data_block_address current) (data_bytes zero_data) s₁ up
            (omega (arith, address_of current (length s.data_blocks) st.limit l m st.small)))
      ∙ bind-of (set_data current (data_on st s.disk current)) _ s₁ (
          set_data-of current (data_on st s.disk current) s₁
            (omega (arith, l, length-set s.data_blocks current zero_data)))

  pub load_chain-Loads :
      (n current : ℕ) (s : Fs D)
      → st.Up s.disk
      → length s.data_blocks + 96 ≤ st.limit
      → InRange s.disk (length s.data_blocks) n current
      → Loads (load_chain dev n current) (IsOn s.disk n current) s
  load_chain-Loads zero current s up m h = record {
    blocks = s.data_blocks;
    ran = unfold load_chain in refl;
    size = refl;
    keeps = λ c e. e;
    loads = λ c o. absurd o;
  }
  load_chain-Loads (suc n) current s up m (l, h) =
      let old = set s.data_blocks current zero_data in
      let d = data_on st s.disk current in
      let size₁ : length (set old current d) ≡ length s.data_blocks =
        length-set old current d ∙ length-set s.data_blocks current zero_data in
      let w =
        load_chain-Loads n (next_on s.disk current) (record s { data_blocks = set old current d })
          up (rw size₁ m) (rw size₁ h) in
      let here : IsLoaded s.disk (set old current d) current =
        get_elem?-set_self old current d zero_data (
          get_elem?-set_self s.data_blocks current zero_data _
            (get_elem?-eq-get_or s.data_blocks current zero_data l)) in
      let moved = λ (c : ℕ) (e : current ≡ c). subst (IsLoaded s.disk (set old current d)) e here in
      record {
        blocks = w.blocks;
        ran = load_chain_step n current s up m l ∙ w.ran;
        size = w.size ∙ size₁;
        keeps = λ c e. w.keeps c (elim (ℕ_discrete current c) [
          | yes q ↦ moved c q
          | no ne ↦
              get_elem?-set_ne old current c d (λ q. ne (sym q))
              ∙ get_elem?-set_ne s.data_blocks current c zero_data (λ q. ne (sym q))
              ∙ e
        ]);
        loads = λ c o. elim o [ inl q ↦ w.keeps c (moved c q) | inr r ↦ w.loads c r ];
      }

  -- One round of `load_data`, on the entry `f`.
  abbrev load_one : File → Op D (Unit {0})
  load_one f =
      if f.active == 0
      then return tt
      else load_chain dev (rounds f.no_of_blocks) (get_data_block_id f.address)

  -- The chain of an active entry is in the table.
  abbrev pub EntryInRange : D → ℕ → File → Type 0
  EntryInRange d top f =
      f.active ≢ 0 → InRange d top (rounds f.no_of_blocks) (get_data_block_id f.address)

  abbrev pub IsOnEntry : D → File → ℕ → Type 0
  IsOnEntry d f c = (f.active ≢ 0) × IsOn d (rounds f.no_of_blocks) (get_data_block_id f.address) c

  load_one-Loads :
      (f : File) (s : Fs D)
      → st.Up s.disk
      → length s.data_blocks + 96 ≤ st.limit
      → EntryInRange s.disk (length s.data_blocks) f
      → Loads (load_one f) (IsOnEntry s.disk f) s
  load_one-Loads f s up m h = elim (ℕ_discrete f.active 0) [
    | yes e ↦ record {
      blocks = s.data_blocks;
      ran = rw e refl;
      size = refl;
      keeps = λ c e. e;
      loads = λ c o. absurd (o.0 e);
    }
    | no ne ↦
        let w =
          load_chain-Loads (rounds f.no_of_blocks) (get_data_block_id f.address) s up m (h ne) in
        record {
          blocks = w.blocks;
          ran = rw (==_ne f.active 0 ne) w.ran;
          size = w.size;
          keeps = w.keeps;
          loads = λ c o. w.loads c o.1;
        }
  ]

  load_data_step :
      (n i : ℕ) (s s' : Fs D)
      → i < length s.file
      → load_one (get_or s.file i zero_file) s ≡ some (tt, s')
      → load_data_from dev (suc n) i s ≡ load_data_from dev n (i + 1) s'
  unfolding load_data_from
  load_data_step n i s s' l e =
      bind-of (file_at i) _ s (file_at-of i s (get_elem?-eq-get_or s.file i zero_file l))
      ∙ bind-of (load_one (get_or s.file i zero_file)) _ s e

  -- `n` rounds from the entry `i` on load the blocks of each of these entries.
  pub load_data-Loads :
      (n i : ℕ) (s : Fs D)
      → st.Up s.disk
      → length s.data_blocks + 96 ≤ st.limit
      → i + n ≤ length s.file
      → ((j : ℕ)
          → j < length s.file
          → EntryInRange s.disk (length s.data_blocks) (get_or s.file j zero_file))
      → Loads
          (load_data_from dev n i)
          (λ c. (j : ℕ) × (i ≤ j) × (j < i + n) × IsOnEntry s.disk (get_or s.file j zero_file) c)
          s
  load_data-Loads zero i s up m l h = record {
    blocks = s.data_blocks;
    ran = unfold load_data_from in refl;
    size = refl;
    keeps = λ c e. e;
    loads = λ c (j, a, b, o). absurd (omega arith);
  }
  load_data-Loads (suc n) i s up m l h =
      let f = get_or s.file i zero_file in
      let one = load_one-Loads f s up m (h i (omega arith)) in
      let s₁ = record s { data_blocks = one.blocks } in
      let w =
        load_data-Loads n (i + 1) s₁ up (rw one.size m) (omega arith)
          (λ j k. rw one.size (h j k)) in
      record {
        blocks = w.blocks;
        ran = load_data_step n i s s₁ (omega arith) one.ran ∙ w.ran;
        size = w.size ∙ one.size;
        keeps = λ c e. w.keeps c (one.keeps c e);
        loads = λ c (j, a, b, o). elim (ℕ_discrete i j) [
          | yes e ↦ w.keeps c (
              one.loads c
                (subst (λ (q : ℕ). IsOnEntry s.disk (get_or s.file q zero_file) c) (sym e) o))
          | no ne ↦ w.loads c (j, omega arith, omega arith, o)
        ];
      }
