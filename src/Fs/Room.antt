-- ===== src/Fs/Room.antt =====
-- The blank blocks that `file_write` of kernel/mem.c takes when a file grows.
use armcortex_a7os.Base.{ℕ, ◌+◌, ◌^◌, ◌<◌, ◌≤◌, ◌≡◌, subst, List, [], some, get_elem?, arith}
use armcortex_a7os.Fs.{File, Data, Fs, get_data_block_id}
use armcortex_a7os.Fs.Text.{InMemory}
use armcortex_a7os.Fs.Chain.{Ends}

-- A block that is in use for no text yet.
abbrev pub Blank : {D : Type 0} → Fs D → ℕ → Type 0
Blank s i = (d : Data) × (pad : List ℕ) × Ends (InMemory s) i d [] pad

-- The block `i`, below `low`, is `b`.
abbrev pub Below : {D : Type 0} → Fs D → ℕ → ℕ → Data → Type 0
Below s low i b = InMemory s i b × (i < low)

-- The entry with `n` more blocks counted.
abbrev pub counting : File → ℕ → File
counting f n = record f { no_of_blocks = f.no_of_blocks + n }

-- The next new block is `low`; the blocks from there to `top` are blank. The file `fd` has the entry
-- `f`, and neither the blocks counted in it nor the addresses can wrap.
pub record Room {D : Type 0} (s : Fs D) (low top fd : ℕ) (f : File) : Type 0 where
  pub order : low ≤ top
  pub next : s.header.new_data_block ≡ low + 96
  pub blank : (i : ℕ) → low ≤ i → i < top → Blank s i
  pub at_fd : get_elem? s.file fd ≡ some f
  pub counts : f.no_of_blocks + top < 2 ^ 31 + low
  pub words : top + 96 < 2 ^ 32

pub id_of : (low top : ℕ) → low < top → top + 96 < 2 ^ 32 → get_data_block_id (low + 96) ≡ low
unfolding get_data_block_id
id_of low top l w = omega arith

-- The same room, written in other terms.
pub Room-subst :
    {D : Type 0} {s : Fs D} {low low' top fd n n' : ℕ} (f : File)
    → low ≡ low'
    → n ≡ n'
    → Room s low top fd (record f { no_of_blocks = n })
    → Room s low' top fd (record f { no_of_blocks = n' })
Room-subst {s = s} {low} {low'} {top} {fd} {n} {n'} f e q r =
    subst (λ (m : ℕ). Room s low' top fd (record f { no_of_blocks = m })) q
      (subst (λ (l : ℕ). Room s l top fd (record f { no_of_blocks = n })) e r)
