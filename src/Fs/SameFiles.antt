-- ===== src/Fs/SameFiles.antt =====
-- What a change of one block of the disk leaves of the files of kernel/mem.c.
use armcortex_a7os.Base.{
  ℕ, zero, suc, ◌+◌, ◌<◌, ◌≤◌, ◌≡◌, ◌≢◌, refl, sym, ◌∙◌, ap, subst, List, ℕ_discrete, arith, ==_ne,
  ==_self, ◌==◌, if◌then◌else◌,
}
use armcortex_a7os.Fs.{
  Data, Blocks, data_of, file_of, get_data_block_id, get_data_block_address, max_files,
}
use armcortex_a7os.Fs.Store.{Store, data_on}
use armcortex_a7os.Fs.Loading.{entry_on}
use armcortex_a7os.Fs.LoadData.{address_of, next_on, InRange, EntryInRange}
use armcortex_a7os.Fs.Reset.{Loadable}

module _ {D : Type 0} {dev : Blocks D} (st : Store dev) where
  -- The block `a` of the disk has become `x`, and no other has changed.
  abbrev pub Changed : ℕ → List ℕ → D → D → Type 0
  Changed a x d d' = (c : ℕ) → c < st.limit → st.at c d' ≡ (if a == c then x else st.at c d)

  -- Two disks with the same entries and the same links between their blocks.
  pub record SameFiles (top : ℕ) (d d' : D) : Type 0 where
    pub entries : (j : ℕ) → j < max_files → entry_on st d' j ≡ entry_on st d j
    pub links : (i : ℕ) → i < top → next_on st d' i ≡ next_on st d i

  module _ (top a : ℕ) (x : List ℕ) (d d' : D) (fits : top + 96 ≤ st.limit)
      (c : Changed a x d d') where
    pub Changed-entry : (j : ℕ) → j < max_files → a ≢ j + 1 → entry_on st d' j ≡ entry_on st d j
    unfolding entry_on
    Changed-entry j l ne =
        ap file_of (c (j + 1) (omega (arith, fits)) ∙ rw (==_ne a (j + 1) ne) refl)

    pub Changed-other : (i : ℕ) → i < top → a ≢ i + 96 → data_on st d' i ≡ data_on st d i
    unfolding data_on
    Changed-other i l ne =
        let at_i = address_of i top st.limit l fits st.small in
        rw at_i (ap data_of (c (i + 96) (omega (arith, fits)) ∙ rw (==_ne a (i + 96) ne) refl))

    pub Changed-here : (i : ℕ) → i < top → a ≡ i + 96 → data_on st d' i ≡ data_of x
    unfolding data_on
    Changed-here i l e =
        let at_i = address_of i top st.limit l fits st.small in
        rw (at_i, sym e) (ap data_of (c a (omega (arith, e, l, fits)) ∙ rw (==_self a) refl))

  InRange-SameFiles :
      {top : ℕ} {d d' : D} (n current : ℕ)
      → SameFiles top d d'
      → InRange st d top n current
      → InRange st d' top n current
  InRange-SameFiles zero current s h = tt
  InRange-SameFiles {top} {d} {d'} (suc n) current s (l, h) = (
    l,
    InRange-SameFiles n (next_on st d' current) s
        (subst (λ (i : ℕ). InRange st d top n i) (sym (s.links current l)) h),
  )

  pub Loadable-SameFiles :
      {top : ℕ} {d d' : D} → st.Up d' → SameFiles top d d' → Loadable st top d → Loadable st top d'
  Loadable-SameFiles {top} {d} {d'} up s h = record {
    up = up;
    room = h.room;
    chains = λ j l.
        subst (EntryInRange st d' top) (sym (s.entries j l))
          (λ ne. InRange-SameFiles _ _ s (h.chains j l ne));
  }

  -- The block `p` is rewritten, as `b`, with the link that it has.
  module _ (top p : ℕ) (x : List ℕ) (d d' : D) (fits : top + 96 ≤ st.limit) (below : p < top)
      (c : Changed (get_data_block_address p) x d d') (b : Data) (is : data_of x ≡ b)
      (link : b.next_data_block ≡ (data_on st d p).next_data_block) where
    address : get_data_block_address p ≡ p + 96
    address = address_of p top st.limit below fits st.small

    pub rewritten_here : data_on st d' p ≡ b
    rewritten_here = Changed-here top _ x d d' fits c p below address ∙ is

    pub rewritten_other : (i : ℕ) → i < top → i ≢ p → data_on st d' i ≡ data_on st d i
    rewritten_other i l ne =
        Changed-other top _ x d d' fits c i l (λ e. ne (omega (arith, e, address)))

    pub rewritten-SameFiles : SameFiles top d d'
    rewritten-SameFiles = record {
      entries = λ j l. Changed-entry top _ x d d' fits c j l (λ e. omega (arith, e, address));
      links = λ i l. elim (ℕ_discrete i p) [
        | yes e ↦
            subst (λ (j : ℕ). next_on st d' j ≡ next_on st d j) (sym e)
              (ap (λ (y : Data). get_data_block_id y.next_data_block) rewritten_here
                ∙ ap get_data_block_id link)
        | no ne ↦ ap (λ (y : Data). get_data_block_id y.next_data_block) (rewritten_other i l ne)
      ];
    }
