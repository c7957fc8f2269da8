-- ===== src/Fs/Store.antt =====
-- The disk as kernel/mem.c needs it: an array of blocks behind the calls of `Blocks`.
use armcortex_a7os.Base.{ℕ, ◌^◌, ◌<◌, ◌≤◌, ◌≡◌, List, some, length, ◌==◌, if◌then◌else◌}
use armcortex_a7os.Fs.{Data, Blocks, block_size, data_of, get_data_block_address}
use armcortex_a7os.Disk.Protocol.{AllBytes}

-- While the disk is `Up`, its blocks below `limit` are read and written without an error.
pub record Store {D : Type 0} (dev : Blocks D) : Type 1 where
  pub Up : D → Type 0
  pub at : ℕ → D → List ℕ
  pub limit : ℕ
  pub small : limit ≤ 2 ^ 31
  pub bytes : (a : ℕ) (d : D) → Up d → a < limit → AllBytes (at a d)
  pub read :
      (a : ℕ) (x : List ℕ) (d : D)
      → Up d
      → a < limit
      → dev.rd a block_size x d ≡ some ((0, at a d), d)
  pub write :
      (a : ℕ) (x : List ℕ) (d : D)
      → Up d
      → a < limit
      → length x ≡ block_size
      → AllBytes x
      → (d' : D) × (dev.wr a x d ≡ some (0, d'))
        × Up d'
        × ((c : ℕ) → c < limit → at c d' ≡ (if a == c then x else at c d))

module _ {D : Type 0} {dev : Blocks D} (st : Store dev) where
  -- The data block `i` as it is on the disk.
  unfoldable pub data_on : D → ℕ → Data
  data_on d i = data_of (st.at (get_data_block_address i) d)
