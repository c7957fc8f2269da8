-- ===== src/Fs/Tests.antt =====
-- The file system on a device that accepts every write, and its theorems at concrete inputs.
use armcortex_a7os.Base.{
  ℕ, zero, suc, ◌+◌, ◌<◌, ◌≤◌, get_elem?, ◌≡◌, refl, List, [], ◌∷◌, ◌++◌, some, length, replicate,
  set, Bytes, arith, str_equal, true, false, get_or,
}
use armcortex_a7os.Fs.{
  File, Data, Fs, Blocks, zero_file, zero_data, zero_header, file_bytes, file_of, data_bytes,
  data_of, get_data_block_id, set_file_name, block_size, file_success,
}
use armcortex_a7os.Fs.Files.{file_close}
use armcortex_a7os.Fs.Rw.{file_read, file_write}
use armcortex_a7os.Fs.Layout.{data_of-data_bytes, file_of-file_bytes, set_file_name-found}
use armcortex_a7os.Fs.RoundTrip.{file_write-file_read}
use armcortex_a7os.Fs.Room.{Below, Blank, Room, counting}
use armcortex_a7os.Fs.Writes.{Growing, file_write_all-file_read}
use armcortex_a7os.Fs.Text.{InMemory, Holds, last, more, file_read-Holds}
use armcortex_a7os.Fs.Calls.{close_outcome, file_close_lem, file_read-short}

-- It stores nothing, and a read leaves the buffer.
abbrev sink : Blocks (Unit {0})
sink = record { wr = λ a x d. some (0, d); rd = λ a n x d. some ((0, x), d) }

abbrev empty : Fs (Unit {0})
empty = record {
  file = replicate 95 zero_file;
  data_blocks = replicate 8 zero_data;
  header = record zero_header { new_data_block = 96 };
  disk = tt;
  out = [];
}

abbrev text_of : List ℕ → Bytes
text_of xs i = get_or xs i 0

-- `n` times the letter `a`.
abbrev letters : ℕ → Bytes
letters n = text_of (replicate n b'a')

-- A block with 24 letters.
abbrev full_block : Data
full_block = record { content = replicate 24 b'a'; full = 1; next_data_block = 97 }

abbrev entry : File
entry = record zero_file { descriptor = 1; no_of_blocks = 2; active = 1; address = 96 }

abbrev filled : Fs (Unit {0})
filled = record empty {
  file = set empty.file 0 entry;
  data_blocks = set empty.data_blocks 0 full_block;
}

long_name_lost : str_equal (set_file_name (letters 16)) (letters 16) ≡ false
long_name_lost = set_file_name-found (letters 16)

short_name_found : str_equal (set_file_name (letters 15)) (letters 15) ≡ true
short_name_found = set_file_name-found (letters 15)

data_returns :
    (data_of (data_bytes full_block) ≡ full_block) × (length (data_bytes full_block) ≡ block_size)
data_returns =
    data_of-data_bytes full_block (record { size = refl; filled = omega arith; next = omega arith })

entry_returns : (file_of (file_bytes entry) ≡ entry) × (length (file_bytes entry) ≡ block_size)
entry_returns = file_of-file_bytes entry (record {
  kind = omega arith;
  size = refl;
  blocks = omega arith;
  live = omega arith;
  start = omega arith;
})

file_close_lem_example : file_close sink 95 empty ≡ close_outcome sink 95 empty
file_close_lem_example = file_close_lem sink 95 empty (omega arith) refl

short_read : file_read 0 25 filled ≡ some ((25, full_block.content), filled)
unfolding get_data_block_id
short_read = file_read-short filled 0 entry full_block refl refl refl (omega arith) refl

-- The letters `h` and `i`, in a block that is not full.
abbrev short_block : Data
short_block = record zero_data { content = b'h' ∷ b'i' ∷ replicate 22 0 }

-- The file goes on in the block 1.
abbrev two_blocks : Fs (Unit {0})
two_blocks = record filled { data_blocks = set filled.data_blocks 1 short_block }

two_blocks-Holds : Holds (InMemory two_blocks) 0 1 (full_block.content ++ (b'h' ∷ b'i' ∷ []))
unfolding get_data_block_id
two_blocks-Holds = more full_block (b'h' ∷ b'i' ∷ []) refl refl (omega arith) refl (
    last short_block (b'h' ∷ b'i' ∷ []) (replicate 21 0) refl refl refl (omega arith)
      (record { size = refl; filled = omega arith; next = omega arith }))

file_read-Holds_example :
    file_read 0 27 two_blocks ≡ some ((27, full_block.content ++ (b'h' ∷ b'i' ∷ [])), two_blocks)
unfolding get_data_block_id
file_read-Holds_example =
    file_read-Holds 0 27 entry refl two_blocks-Holds (omega arith) (omega arith)

abbrev marks : List ℕ
marks = b'!' ∷ b'?' ∷ []

appends_marks :
    (s' : Fs (Unit {0})) × (file_write sink 0 (text_of marks) 2 two_blocks
      ≡ some (file_success, s'))
    × (file_read 0 30 s' ≡ some ((30, (full_block.content ++ (b'h' ∷ b'i' ∷ [])) ++ marks), s'))
unfolding get_data_block_id
appends_marks =
    file_write-file_read sink two_blocks
      (record { at_fd = refl; text = two_blocks-Holds; enough = omega arith; small = omega arith })
      (text_of marks) marks 30 (λ a x d. (0, d, refl)) (λ i l. refl) (omega arith) (omega arith)
      (omega arith) (omega arith)

-- Six blank blocks come after the file.
abbrev growing : Fs (Unit {0})
growing = record two_blocks { header = record zero_header { new_data_block = 98 } }

get_elem?-replicate : (n i : ℕ) (d : Data) → i < n → get_elem? (replicate n d) i ≡ some d
get_elem?-replicate zero i d l = absurd (omega arith)
get_elem?-replicate (suc n) zero d l = refl
get_elem?-replicate (suc n) (suc i) d l = get_elem?-replicate n i d (omega arith)

growing-Blank : (i : ℕ) → 2 ≤ i → i < 8 → Blank growing i
growing-Blank zero l m = absurd (omega arith)
growing-Blank (suc zero) l m = absurd (omega arith)
growing-Blank (suc (suc i)) l m = (
  zero_data,
  replicate 23 0,
  record {
    here = get_elem?-replicate 6 i zero_data (omega arith);
    idle = refl;
    content = refl;
    clean = tt;
    fits = record { size = refl; filled = omega arith; next = omega arith };
  },
)

growing-Room : Room growing 2 8 0 entry
growing-Room = record {
  order = omega arith;
  next = refl;
  blank = growing-Blank;
  at_fd = refl;
  counts = omega arith;
  words = omega arith;
}

growing-Holds : Holds (Below growing 2) 0 1 (full_block.content ++ (b'h' ∷ b'i' ∷ []))
unfolding get_data_block_id
growing-Holds =
    more full_block (b'h' ∷ b'i' ∷ []) (refl, omega arith) refl (omega arith) refl
      (last short_block (b'h' ∷ b'i' ∷ []) (replicate 21 0) (refl, omega arith) refl refl
        (omega arith) (record { size = refl; filled = omega arith; next = omega arith }))

-- It takes three new blocks.
file_write_all-file_read_example :
    (s' : Fs (Unit {0})) × (added : ℕ) × (file_write sink 0 (letters 80) 80 growing
      ≡ some (file_success, s'))
    × Growing s'
        (2 + added)
        8
        0
        (1 + added)
        (counting entry added)
        ((full_block.content ++ (b'h' ∷ b'i' ∷ [])) ++ replicate 80 b'a')
    × (file_read 0 120 s'
        ≡ some ((120, (full_block.content ++ (b'h' ∷ b'i' ∷ [])) ++ replicate 80 b'a'), s'))
unfolding get_data_block_id
file_write_all-file_read_example =
    file_write_all-file_read sink growing 2 8 (λ a x d. (0, d, refl))
      (record { room = growing-Room; text = growing-Holds; enough = omega arith }) (letters 80)
      (replicate 80 b'a') 120 (λ i l. refl) (omega arith) (omega arith) (omega arith) (omega arith)
