-- ===== src/Fs/Rw.antt =====
-- Writing to a file and reading from it: `file_write` and `file_read` of kernel/mem.c.
use armcortex_a7os.Base.{
  ℕ, zero, suc, ◌+◌, ◌-◌, ◌&&◌, not, List, [], ◌∷◌, ◌++◌, none, some, ltb, leb, ◌==◌, if◌then◌else◌,
  add32, sub32, Bytes, advance, strlen, strncpy, str_prefix, strcat_at,
}
use armcortex_a7os.Fs.{
  max_content, file_success, Data, file_bytes, data_bytes, data_of, get_data_block_id,
  get_data_block_address, Blocks, Op, ◌>>=◌, ◌>>◌, return, file_at, set_file, data_at, set_data,
  lift, rounds,
}
use armcortex_a7os.Fs.Files.{disk_wr, new_data_block_address}

-- The first loop of `file_write`: the block to write to, from `current` on.
unfoldable pub walk : {D : Type 0} → ℕ → ℕ → Op D ℕ
unfolding get_data_block_id
walk zero current = return current
walk (suc n) current = do
  d ← data_at current
  walk n (if d.full == 0 then current else get_data_block_id (d.next_data_block))

-- The bytes of `aux_append` up to its null byte, and what is left of `n`, in one round of the loop
-- of `file_write` on a block with `left` free places.
unfoldable pub chunk : ℕ → Bytes → ℕ → List ℕ
chunk left x n = str_prefix 24 (strncpy (if ltb n left then n else left) x ++ 0 ∷ [])

-- The block once `x` is appended to its string, of length `k`.
unfoldable pub append_at : ℕ → Data → List ℕ → Data
unfolding data_bytes data_of
append_at k d x = data_of (strcat_at k (data_bytes d) x)

module _ {D : Type 0} (dev : Blocks D) where
  -- What one round does with the new contents `d` of the block `current`: the next block.
  unfoldable pub store_block : ℕ → ℕ → Data → Op D ℕ
  unfolding data_bytes file_bytes get_data_block_address get_data_block_id
  store_block fd current d = do
    set_data current d
    used ← lift (strlen (data_bytes d))
    if used == max_content
        then (do
          next ← new_data_block_address dev
          let d' = record d { full = 1; next_data_block = next }
          set_data current d'
          disk_wr dev (get_data_block_address current) (data_bytes d')
          f ← file_at fd
          let f' = record f { no_of_blocks = add32 (f.no_of_blocks) 1 }
          set_file fd f'
          disk_wr dev (add32 fd 1) (file_bytes f')
          return (get_data_block_id next))
        else (do disk_wr dev (get_data_block_address current) (data_bytes d); return current)

  -- The second loop of `file_write`, on fuel: `none` also where the fuel runs out. A block whose
  -- string is longer than `max_content` makes the length of `aux_append` negative.
  unfoldable pub write_loop : ℕ → ℕ → ℕ → Bytes → ℕ → Op D (Unit {0})
  unfolding chunk append_at store_block
  write_loop zero fd current x n s = none
  write_loop (suc fuel) fd current x zero s = some (tt, s)
  write_loop (suc fuel) fd current x (suc m) s =
      (do
        d ← data_at current
        used ← lift (strlen (data_bytes d))
        if leb used max_content then return tt else (λ _. none)
        let left = max_content - used
        current' ← store_block fd current (append_at used d (chunk left x (suc m)))
        write_loop fuel fd current' (advance left x) (if ltb (suc m) left then 0 else suc m - left))
        s

  unfoldable pub file_write : ℕ → Bytes → ℕ → Op D ℕ
  unfolding walk write_loop
  file_write fd x n = do
    f ← file_at fd
    current ← walk (rounds (f.no_of_blocks)) (get_data_block_id (f.address))
    write_loop (n + 2) fd current x n
    return file_success

-- The loop of `file_read`, on fuel: the string in `output`.
unfoldable pub read_loop : {D : Type 0} → ℕ → ℕ → ℕ → List ℕ → Op D (List ℕ)
unfolding data_bytes get_data_block_id
read_loop zero current n output s = none
read_loop (suc fuel) current zero output s = some (output, s)
read_loop (suc fuel) current (suc m) output s =
    (do
      d ← data_at current
      used ← lift (strlen (data_bytes d))
      let next =
          read_loop fuel (get_data_block_id (d.next_data_block)) (sub32 (suc m) used)
            (output ++ str_prefix max_content (data_bytes d))
      if ltb max_content (suc m) && not (d.full == 0)
          then next
          else if ltb used (suc m)
          then return (output ++ str_prefix used (data_bytes d))
          else return (output ++ str_prefix (suc m) (data_bytes d)))
      s

-- The result, and the string copied to the caller's buffer. `none` also where the size of `output`,
-- `n + 1`, wraps to 0: the null byte is then written outside of the array.
unfoldable pub file_read : {D : Type 0} → ℕ → ℕ → Op D (ℕ × List ℕ)
unfolding read_loop
file_read fd n = do
  f ← file_at fd
  if add32 n 1 == 0 then (λ _. none) else return tt
  output ← read_loop (n + 1) (get_data_block_id (f.address)) n []
  return (n, output)
