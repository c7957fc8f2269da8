-- ===== src/Fs.antt =====
-- The file system: kernel/mem.h and kernel/mem.c.
-- It reads and writes the disk through the record `Blocks`, in the place of the driver of
-- device/disk.c. `none` for the outcome of a call is undefined behaviour, such as an index outside
-- of a table, or a disk that never answers.
pub mod Files
pub mod Rw
pub mod Layout
pub mod Calls
pub mod Text
pub mod Chain
pub mod Longer
pub mod Append
pub mod RoundTrip
pub mod Store
pub mod Loading
pub mod LoadData
pub mod Reset
pub mod StoreBytes
pub mod SameFiles
pub mod SetUp
pub mod Durable
pub mod OnServer
pub mod Brim
pub mod Fill
pub mod Room
pub mod Grow
pub mod Writes
mod Tests
use armcortex_a7os.Base.{
  ℕ, ◌+◌, ◌^◌, not, ◌&&◌, List, [], ◌∷◌, ◌++◌, String, Option, none, some, get_elem?, get_or, set,
  take, drop, replicate, ltb, ◌==◌, if◌then◌else◌, add32, sub32, minus_one, le32, of_le32, Bytes,
  strncpy, str_equal,
}

abbrev pub block_size : ℕ
block_size = 32

abbrev pub max_files : ℕ
max_files = 95

abbrev pub max_data_lines : ℕ
max_data_lines = 32673

abbrev pub max_content : ℕ
max_content = 24

-- `FILE`
abbrev pub file_kind : ℕ
file_kind = 1

abbrev pub file_success : ℕ
file_success = 0

abbrev pub file_failure : ℕ
file_failure = 1

-- `file_t`
pub record File : Type 0 where
  pub descriptor : ℕ
  pub name : List ℕ
  pub no_of_blocks : ℕ
  pub active : ℕ
  pub address : ℕ

-- `disk_header_t`
pub record DiskHeader : Type 0 where
  pub new_data_block : ℕ
  pub holder : List ℕ

-- `data_t`
pub record Data : Type 0 where
  pub content : List ℕ
  pub full : ℕ
  pub next_data_block : ℕ

-- What `memset( …, 0, … )` leaves of each.
abbrev pub zero_file : File
zero_file = record {
  descriptor = 0;
  name = replicate 16 0;
  no_of_blocks = 0;
  active = 0;
  address = 0;
}

abbrev pub zero_header : DiskHeader
zero_header = record { new_data_block = 0; holder = replicate 28 0 }

abbrev pub zero_data : Data
zero_data = record { content = replicate 24 0; full = 0; next_data_block = 0 }

-- The bytes of each structure in memory, and the structure that given bytes are.
unfoldable pub word_of : List ℕ → ℕ
word_of bs = of_le32 (get_or bs 0 0) (get_or bs 1 0) (get_or bs 2 0) (get_or bs 3 0)

unfoldable pub file_bytes : File → List ℕ
file_bytes f =
    le32 f.descriptor ++ (f.name ++ (le32 f.no_of_blocks ++ (le32 f.active ++ le32 f.address)))

unfoldable pub file_of : List ℕ → File
unfolding word_of
file_of bs = record {
  descriptor = word_of bs;
  name = take 16 (drop 4 bs);
  no_of_blocks = word_of (drop 20 bs);
  active = word_of (drop 24 bs);
  address = word_of (drop 28 bs);
}

unfoldable pub header_bytes : DiskHeader → List ℕ
header_bytes h = le32 h.new_data_block ++ h.holder

unfoldable pub header_of : List ℕ → DiskHeader
unfolding word_of
header_of bs = record { new_data_block = word_of bs; holder = take 28 (drop 4 bs) }

unfoldable pub data_bytes : Data → List ℕ
data_bytes d = d.content ++ (le32 d.full ++ le32 d.next_data_block)

unfoldable pub data_of : List ℕ → Data
unfolding word_of
data_of bs = record {
  content = take 24 bs;
  full = word_of (drop 24 bs);
  next_data_block = word_of (drop 28 bs);
}

unfoldable pub get_data_block_id : ℕ → ℕ
get_data_block_id address = sub32 (sub32 address max_files) 1

unfoldable pub get_data_block_address : ℕ → ℕ
get_data_block_address index = add32 (add32 max_files index) 1

-- The block device: a write of a block, and a read into a buffer of a given length. Each gives the
-- driver's result; a read gives the buffer afterwards.
pub record Blocks (D : Type 0) : Type 0 where
  pub wr : ℕ → List ℕ → D → Option (ℕ × D)
  pub rd : ℕ → ℕ → List ℕ → D → Option ((ℕ × List ℕ) × D)

-- The static variables, the state of the disk, and the messages printed on UART0, newest first.
pub record Fs (D : Type 0) : Type 0 where
  pub file : List File
  pub data_blocks : List Data
  pub header : DiskHeader
  pub disk : D
  pub out : List String

abbrev pub Op : Type 0 → Type 0 → Type 0
Op D A = Fs D → Option (A × Fs D)

infixl 5 ◌>>=◌ ◌>>◌
abbrev pub ◌>>=◌ : {D A B : Type 0} → Op D A → (A → Op D B) → Op D B
◌>>=◌ m f s = elim (m s) [ none ↦ none | some (a, s') ↦ f a s' ]

abbrev pub ◌>>◌ : {D A B : Type 0} → Op D A → Op D B → Op D B
m >> k = m >>= λ _. k

abbrev pub return : {D A : Type 0} → A → Op D A
return a s = some (a, s)

abbrev pub say : {D : Type 0} → String → Op D (Unit {0})
say m s = some (tt, record s { out = m ∷ s.out })

-- Reads and writes of the tables.
abbrev pub file_at : {D : Type 0} → ℕ → Op D File
file_at i s = elim (get_elem? s.file i) [ none ↦ none | some f ↦ some (f, s) ]

abbrev pub set_file : {D : Type 0} → ℕ → File → Op D (Unit {0})
set_file i f s = elim (get_elem? s.file i) [
  | none ↦ none
  | some _ ↦ some (tt, record s { file = set s.file i f })
]

abbrev pub data_at : {D : Type 0} → ℕ → Op D Data
data_at i s = elim (get_elem? s.data_blocks i) [ none ↦ none | some d ↦ some (d, s) ]

abbrev pub set_data : {D : Type 0} → ℕ → Data → Op D (Unit {0})
set_data i d s = elim (get_elem? s.data_blocks i) [
  | none ↦ none
  | some _ ↦ some (tt, record s { data_blocks = set s.data_blocks i d })
]

abbrev pub lift : {D A : Type 0} → Option A → Op D A
lift none s = none
lift (some a) s = some (a, s)

unfoldable pub new_file_id_from : ℕ → List File → ℕ
new_file_id_from i [] = minus_one
new_file_id_from i (f ∷ fs) =
    let rest = new_file_id_from (i + 1) fs in if f.active == 0 then i else rest

unfoldable pub new_file_id : {D : Type 0} → Fs D → ℕ
unfolding new_file_id_from
new_file_id s = new_file_id_from 0 s.file

unfoldable pub find_file_id_from : ℕ → Bytes → List File → ℕ
find_file_id_from i name [] = minus_one
find_file_id_from i name (f ∷ fs) =
    let rest = find_file_id_from (i + 1) name fs in
    if not (f.active == 0) && str_equal f.name name then i else rest

unfoldable pub find_file_id : {D : Type 0} → Bytes → Fs D → ℕ
unfolding find_file_id_from
find_file_id name s = find_file_id_from 0 name s.file

-- The new contents of `name`.
unfoldable pub set_file_name : Bytes → List ℕ
set_file_name name = strncpy 15 name ++ 0 ∷ []

-- A `for` loop on `i < n` for an `int32_t` n runs this often.
unfoldable pub rounds : ℕ → ℕ
rounds n = if ltb n (2 ^ 31) then n else 0
